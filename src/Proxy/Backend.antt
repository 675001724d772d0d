-- ===== src/Proxy/Backend.antt =====
-- internal/proxy/server.go: where a connection is relayed to, and its traces in the statistics.
-- The network is a parameter: whether a dial succeeds, with the header that opens it, and what `pipeTraffic` copied.
pub mod Balance
use phantom_proxy.Common.{
  ℕ, ◌+◌, ◌-◌, Bool, true, false, not, ◌&&◌, ◌||◌, Option, none, some, [], ltb, ◌==◌, if◌then◌else◌,
  length,
}
use phantom_proxy.Common.Int.{ℤ, pos_part}
use phantom_proxy.Common.Bytes.{Bytes, codes, eqb}
use phantom_proxy.Common.Text.{trim_space}
use phantom_proxy.Common.Slice.{Outcome}
use phantom_proxy.Common.Result.{Result, err, ok, ◌>>=◌}
use phantom_proxy.Stats.{Tracker, on_connect, on_disconnect, add_traffic}
use phantom_proxy.Telegram.{resolve_addr}
use phantom_proxy.Config.{Config}
use phantom_proxy.Config.Relay.{PskError, psk_bytes, is_front}

pub data RelayError : Type 0 where
  bad_psk : PskError → RelayError
  no_peer bad_ad_tag unknown_dc : RelayError
  front_failed middle_failed dc_failed : RelayError

pub data Backend : Type 0 where
  front : (peer psk : Bytes) → Backend
  middle : (ad_tag : Bytes) → Backend
  direct : (address : Bytes) → Backend

module _ (hex_decode : Bytes → Option Bytes) where
  abbrev tag_of : Option Bytes → Result RelayError Bytes
  tag_of none = err bad_ad_tag
  tag_of (some tag) = ok tag

  -- No tag is the empty slice.
  unfoldable pub parse_ad_tag : Bytes → Result RelayError Bytes
  parse_ad_tag text =
      let s = trim_space text in
      if eqb s []
      then ok []
      else if not (length s == 32)
      then err bad_ad_tag
      else tag_of (hex_decode s)

  -- A middle proxy is used for an ad tag or on request, but not through SOCKS5.
  unfoldable pub use_middle : Config → Bytes → Bool
  use_middle c ad_tag =
      (c.mtproto.use_middle_proxy || ltb 0 (length ad_tag)) && eqb c.upstream.socks5 []

  abbrev direct_or : Option Bytes → Result RelayError Backend
  direct_or none = err unknown_dc
  direct_or (some address) = ok (direct address)

  -- `dialDC` up to the dial.
  unfoldable pub dc_backend : Config → ℤ → Result RelayError Backend
  dc_backend c dc_id = do
    ad_tag ← parse_ad_tag c.mtproto.ad_tag
    if use_middle c ad_tag
        then ok (middle ad_tag)
        else direct_or (resolve_addr dc_id c.mtproto.backend)

  abbrev front_backend : Bytes → Result PskError Bytes → Result RelayError Backend
  front_backend peer (err e) = err (bad_psk e)
  front_backend peer (ok psk) = if eqb peer [] then err no_peer else ok (front peer psk)

  -- `relayMTProto` up to the dial.
  unfoldable pub backend_of : Config → ℤ → Result RelayError Backend
  backend_of c dc_id =
      let through_dc = dc_backend c dc_id in
      if is_front c.relay
      then front_backend c.relay.peer_addr (psk_bytes hex_decode c.relay)
      else through_dc

  abbrev label_of : Result RelayError Backend → Bytes
  label_of (err bad_ad_tag) = codes "unknown"
  label_of (err e) = codes "direct-dc"
  label_of (ok (middle tag)) = codes "middle-proxy"
  label_of (ok (direct address)) = address
  label_of (ok (front peer psk)) = peer

  unfoldable pub relay_backend_label : Config → ℤ → Bytes
  relay_backend_label c dc_id = label_of (dc_backend c dc_id)

-- The traffic that the metrics have counted.
pub record Traffic : Type 0 where
  pub upload : ℕ
  pub download : ℕ

-- `RecordTraffic`; `none` is a server without metrics.
unfoldable pub record_traffic : Option Traffic → ℤ → ℤ → Option Traffic
record_traffic none up down = none
record_traffic (some t) up down =
    some (record { upload = t.upload + pos_part up; download = t.download + pos_part down })

abbrev pub failure_of : Backend → RelayError
failure_of (front peer psk) = front_failed
failure_of (middle tag) = middle_failed
failure_of (direct address) = dc_failed

-- The session of a connected user, to the end of the two copies.
unfoldable pub run_session : Tracker → Option Traffic → Bytes → ℤ × ℤ → Tracker × Option Traffic
run_session t m name (up, down) =
    (on_disconnect (add_traffic (on_connect t name) name up down) name, record_traffic m up down)

-- A panic behind `OnConnect` still runs the deferred `OnDisconnect`.
unfoldable pub broken_session : Tracker → Bytes → Tracker
broken_session t name = on_disconnect (on_connect t name) name

-- A session of `relayMTProto` that is not relayed through another server logs the JA3 of its
-- ClientHello, before it copies.
unfoldable pub logs_hello : Backend → Bool
logs_hello (front peer psk) = false
logs_hello (middle tag) = true
logs_hello (direct address) = true

abbrev pub Relaying : Type 0
Relaying = Outcome RelayError (Unit {0}) × (Tracker × Option Traffic)

-- The dial and the session. A dial fails before the user is counted. `ja3_panics` tells whether
-- there is a ClientHello on which `JA3` panics.
unfoldable pub relay_to :
    (Backend → Bool)
    → ℤ × ℤ
    → Tracker
    → Option Traffic
    → Bytes
    → Bool
    → Result RelayError Backend
    → Relaying
unfolding logs_hello
relay_to dials copied t m name ja3_panics (err e) = (Outcome.err e, (t, m))
relay_to dials copied t m name ja3_panics (ok b) =
    if not (dials b)
    then (Outcome.err (failure_of b), (t, m))
    else if ja3_panics && logs_hello b
    then (Outcome.panics, (broken_session t name, m))
    else (Outcome.ok tt, run_session t m name copied)

module _ (hex_decode : Bytes → Option Bytes) (dials : Backend → Bool) (copied : ℤ × ℤ) where
  unfoldable pub relay_mtproto : Config → Tracker → Option Traffic → ℤ → Bytes → Bool → Relaying
  relay_mtproto c t m dc_id name ja3_panics =
      relay_to dials copied t m name ja3_panics (backend_of hex_decode c dc_id)

  -- The back server relays for the one user "relay", and logs no ClientHello.
  unfoldable pub relay_back_to_dc : Config → Tracker → Option Traffic → ℤ → Bytes → Relaying
  relay_back_to_dc c t m dc_id name =
      relay_to dials copied t m name false (dc_backend hex_decode c dc_id)
