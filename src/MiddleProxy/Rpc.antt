-- ===== src/MiddleProxy/Rpc.antt =====
-- internal/middleproxy/relay.go: RPC_PROXY_REQ and RPC_PROXY_ANS. `net.ParseIP` with `To4` and
-- `To16` is a parameter; `conn_id` are the random bytes of the connection. A write to the
-- connection below succeeds here.
pub mod Payload
pub mod Fuel
pub mod Layout
use phantom_proxy.Common.{
  ℕ, zero, suc, ◌+◌, ◌%◌, ◌^◌, not, ◌&&◌, ◌||◌, Option, none, some, [], ◌∷◌, ◌++◌, ltb, leb, ◌==◌,
  if◌then◌else◌, length, take, drop,
}
use phantom_proxy.Common.Bytes.{Bytes, eqb, le32, zeros}
use phantom_proxy.Common.Result.{Result, ok, err}
use phantom_proxy.MiddleProxy.Frame.{FrameError, read_frame, write_frame}

abbrev pub rpc_proxy_req : Bytes
rpc_proxy_req = 0xee ∷ 0xf1 ∷ 0xce ∷ 0x36 ∷ []

abbrev pub rpc_proxy_ans : Bytes
rpc_proxy_ans = 0x0d ∷ 0xda ∷ 0x03 ∷ 0x44 ∷ []

abbrev pub rpc_simple_ack : Bytes
rpc_simple_ack = 0x9b ∷ 0x40 ∷ 0xac ∷ 0x3b ∷ []

abbrev pub rpc_close_conn : Bytes
rpc_close_conn = 0x5d ∷ 0x42 ∷ 0xcf ∷ 0x1f ∷ []

pub data RpcError : Type 0 where
  closed short_answer not_multiple_of_4 : RpcError
  in_frame : FrameError → RpcError

-- The payload of an answer, or nothing for a frame that carries none. Go's result is nil in both
-- cases of `none`, and an answer without a payload is an empty slice that is not nil.
pub parse_proxy_ans : Bytes → Result RpcError (Option Bytes)
parse_proxy_ans frame =
    if ltb (length frame) 4
    then err closed
    else if eqb (take 4 frame) rpc_proxy_ans
    then (if ltb (length frame) 16 then err short_answer else ok (some (drop 16 frame)))
    else if eqb (take 4 frame) rpc_simple_ack
    then ok none
    else if eqb (take 4 frame) rpc_close_conn
    then err closed
    else ok none

-- The addresses of `encodeIPPort`: what `net.ParseIP` makes of the host.
pub data Ip : Type 0 where
  invalid : Ip
  ip4 ip6 : Bytes → Ip

pub encode_ip_port : Ip → ℕ → Bytes
encode_ip_port invalid port = zeros 16 ++ le32 (port % 2 ^ 32)
encode_ip_port (ip4 a) port = zeros 10 ++ (0xff ∷ 0xff ∷ (a ++ le32 (port % 2 ^ 32)))
encode_ip_port (ip6 a) port = a ++ le32 (port % 2 ^ 32)

pub record ProxyConnOpts : Type 0 where
  pub client_ip : Ip
  pub client_port : ℕ
  pub local_ip : Ip
  pub local_port : ℕ
  pub ad_tag : Bytes

-- The flags are distinct bits, so their union is a sum.
pub flags : Bytes → Bytes → ℕ
flags payload ad_tag =
    0x28021000
    + ((if leb 8 (length payload) && eqb (take 8 payload) (zeros 8) then 2 else 0)
        + (if length ad_tag == 16 then 8 else 0))

pub extra : Bytes → Bytes
extra ad_tag =
    if length ad_tag == 16
    then 0x18 ∷ 0 ∷ 0 ∷ 0 ∷ 0xae ∷ 0x26 ∷ 0x1e ∷ 0xdb ∷ 16 ∷ (ad_tag ++ (0 ∷ 0 ∷ 0 ∷ []))
    else []

pub build_proxy_req : Bytes → ProxyConnOpts → Bytes → Bytes
unfolding flags extra
build_proxy_req payload opts conn_id =
    rpc_proxy_req
    ++ (le32 (flags payload opts.ad_tag)
        ++ (conn_id
            ++ (encode_ip_port opts.client_ip opts.client_port
                ++ (encode_ip_port opts.local_ip opts.local_port
                    ++ (extra opts.ad_tag ++ payload)))))

-- `sendPayload`: the bytes on the wire and the next sequence number.
pub send_payload : ProxyConnOpts → Bytes → ℕ → Bytes → Result RpcError (Bytes × ℕ)
send_payload opts conn_id write_seq payload =
    if length payload == 0 || not (length payload % 4 == 0)
    then err not_multiple_of_4
    else ok (write_frame write_seq (build_proxy_req payload opts conn_id), (write_seq + 1) % 2 ^ 32)

-- What a frame ends the loop with, or `more`.
payload_or :
    ℕ
    → Bytes
    → ℕ × Result RpcError (Bytes × Bytes)
    → Result RpcError (Option Bytes)
    → ℕ × Result RpcError (Bytes × Bytes)
payload_or seq rest more (err e) = (seq, err e)
payload_or seq rest more (ok none) = more
payload_or seq rest more (ok (some [])) = more
payload_or seq rest more (ok (some (c ∷ cs))) = (seq, ok (c ∷ cs, rest))

-- `readPayload` of a connection with an empty buffer: frames are read until one has a payload.
-- Each frame takes bytes off, so the stream's length and one more is enough fuel.
pub read_payload : ℕ → ℕ → Bytes → ℕ × Result RpcError (Bytes × Bytes)
unfolding payload_or
read_payload zero read_seq input = (read_seq, err closed)
read_payload (suc fuel) read_seq input =
    let (seq, r) = read_frame read_seq input in
    elim r [
      | err e ↦ (seq, err (in_frame e))
      | ok (frame, rest) ↦ payload_or seq rest (read_payload fuel seq rest) (parse_proxy_ans frame)
    ]
