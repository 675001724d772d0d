-- ===== src/Config/Relay.antt =====
-- internal/config/relay.go: the tunnel between a front and a back server. The decoder of
-- encoding/hex is a parameter.
use phantom_proxy.Common.{Bool, ◌||◌, Option, none, some, [], ◌++◌, ltb, if◌then◌else◌, length}
use phantom_proxy.Common.Int.{ℤ, pos, is_not_pos}
use phantom_proxy.Common.Bytes.{Bytes, codes, eqb}
use phantom_proxy.Common.Text.{trim_space, decimal}
use phantom_proxy.Common.Result.{Result, err, ok}

pub record RelayConfig : Type 0 where
  pub mode : Bytes
  pub peer_addr : Bytes
  pub listen_host : Bytes
  pub listen_port : ℤ
  pub psk : Bytes

unfoldable pub is_front : RelayConfig → Bool
is_front c = eqb c.mode (codes "front")

unfoldable pub is_back : RelayConfig → Bool
is_back c = eqb c.mode (codes "back")

unfoldable pub relay_enabled : RelayConfig → Bool
relay_enabled c = eqb c.mode (codes "front") || eqb c.mode (codes "back")

unfoldable pub relay_listen_addr : RelayConfig → Bytes
relay_listen_addr c =
    (if eqb c.listen_host [] then codes "0.0.0.0" else c.listen_host)
    ++ (codes ":" ++ decimal (if is_not_pos c.listen_port then pos 15443 else c.listen_port))

pub data PskError : Type 0 where
  no_psk bad_hex psk_too_short : PskError

unfoldable pub long_enough : Option Bytes → Result PskError Bytes
long_enough none = err bad_hex
long_enough (some key) = if ltb (length key) 16 then err psk_too_short else ok key

module _ (hex_decode : Bytes → Option Bytes) where
  unfoldable pub psk_bytes : RelayConfig → Result PskError Bytes
  psk_bytes c =
      let s = trim_space c.psk in if eqb s [] then err no_psk else long_enough (hex_decode s)
