-- ===== src/Proxy/Errors.antt =====
-- internal/proxy/errors.go and server.go: what an error tells about a handshake. A message is the
-- list of its runes; ToLower is that of the ASCII letters and of the Cyrillic ones.
use phantom_proxy.Common.{ℕ, ◌+◌, Bool, ◌&&◌, ◌||◌, Option, none, some, map, leb, if◌then◌else◌}
use phantom_proxy.Common.Bytes.{Bytes, codes}
use phantom_proxy.Common.Text.{contains, lower}

pub data RejectReason : Type 0 where
  reason_parse reason_replay reason_secret reason_fingerprint reason_ech reason_policy :
      RejectReason

unfoldable pub lower_rune : ℕ → ℕ
lower_rune c =
    if leb 0x410 c && leb c 0x42f
    then c + 32
    else if leb 0x400 c && leb c 0x40f
    then c + 80
    else lower c

-- The reason of a `PolicyError` is its own; another error is told by its message.
unfoldable pub classify_handshake_error : Option RejectReason → Bytes → RejectReason
classify_handshake_error (some reason) message = reason
classify_handshake_error none message =
    let msg = map lower_rune message in
    if contains msg (codes "replay")
    then reason_replay
    else if contains msg (codes "ja3")
        || (contains msg (codes "ja4") || contains msg (codes "белом списке"))
    then reason_fingerprint
    else if contains msg (codes "секрет")
        || (contains msg (codes "hmac") || contains msg (codes "метка времени"))
    then reason_secret
    else if contains msg (codes "clienthello") || contains msg (codes "tls")
    then reason_parse
    else reason_secret

unfoldable pub is_io_timeout_err : Bytes → Bool
is_io_timeout_err message =
    contains message (codes "i/o timeout") || contains message (codes "timeout")

unfoldable pub is_closed_conn_err : Bytes → Bool
is_closed_conn_err message =
    contains message (codes "use of closed network connection")
    || (contains message (codes "connection reset") || contains message (codes "broken pipe"))
