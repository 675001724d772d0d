-- ===== src/Examples/MiddleProxy.antt =====
-- The middle proxy's protocol at concrete inputs.
use phantom_proxy.Common.{
  length, ◌==◌, if◌then◌else◌, ◌++◌, false, ◌%◌, ◌≤◌, ◌≡◌, refl, true, none, List, [], ◌∷◌, arith,
}
use phantom_proxy.Common.Bytes.{Bytes, All, codes, le32}
use phantom_proxy.Common.Result.{ok}
use phantom_proxy.MiddleProxy.Frame.{aligned_cipher_read_size, is_writable, write_frame}
use phantom_proxy.MiddleProxy.Frame.RoundTrip.{
  IsPayload, write_frames, read_frames, read_frames-write_frames, write_frame-is_writable,
}
use phantom_proxy.MiddleProxy.Intermediate.{next_padded_intermediate, write, frame}
use phantom_proxy.MiddleProxy.Intermediate.Split
use phantom_proxy.MiddleProxy.Rpc.{
  ProxyConnOpts, ip4, invalid, rpc_proxy_req, encode_ip_port, build_proxy_req,
}
use phantom_proxy.MiddleProxy.Rpc.Payload.{IsIp}
use phantom_proxy.MiddleProxy.Rpc.Layout.{decode, flags_of, decode-build_proxy_req}
use phantom_proxy.MiddleProxy.Intermediate.Split.{write-frames}

-- The sequence numbers wrap around behind the first message.
abbrev messages : List Bytes
messages = codes "abcd" ∷ codes "efgh1234" ∷ []

messages-IsPayload : All IsPayload messages
unfolding IsPayload
messages-IsPayload = ((refl, omega arith), ((refl, omega arith), tt))

read_frames-write_frames_example :
    read_frames 2 4294967295 (write_frames 4294967295 messages) ≡ ok messages
read_frames-write_frames_example =
    read_frames-write_frames 4294967295 messages (omega arith) messages-IsPayload

write_frame-is_writable_example :
    (is_writable (write_frame 3 (codes "abcd")) ≡ true)
    × (aligned_cipher_read_size 17 % 16 ≡ 0)
    × (17 ≤ aligned_cipher_read_size 17)
    × (aligned_cipher_read_size 17 ≤ 33)
write_frame-is_writable_example = write_frame-is_writable 3 17 (codes "abcd")

unfinished : next_padded_intermediate (8 ∷ 0 ∷ []) ≡ ok none
unfolding next_padded_intermediate
unfinished = refl

block : All Split.IsPayload ((1 ∷ 2 ∷ 3 ∷ 4 ∷ []) ∷ [])
unfolding Split.IsPayload
block = ((refl, omega arith, omega arith), tt)

-- The second write completes a frame, and begins one; the connection below takes it or not.
write-frames_example :
    write (λ k. false) (4 ∷ 0 ∷ 0 ∷ 0 ∷ 1 ∷ []) (2 ∷ 3 ∷ 4 ∷ 8 ∷ 0 ∷ [])
    ≡ Split.written_of (λ k. false) 5 0 ((1 ∷ 2 ∷ 3 ∷ 4 ∷ []) ∷ []) (8 ∷ 0 ∷ [])
write-frames_example =
    write-frames (λ k. false) ((1 ∷ 2 ∷ 3 ∷ 4 ∷ []) ∷ []) (8 ∷ 0 ∷ []) (4 ∷ 0 ∷ 0 ∷ 0 ∷ 1 ∷ []) 2
      (3 ∷ 4 ∷ 8 ∷ 0 ∷ []) block unfinished (unfold Split.frames frame le32 in refl)

-- A word of padding, a frame with an acknowledgement, and the end of the stream.
abbrev acknowledged : Bytes
acknowledged =
    (4 ∷ 0 ∷ 0 ∷ 0 ∷ [])
    ++ ((16 ∷ 0 ∷ 0 ∷ 0 ∷ 7 ∷ 0 ∷ 0 ∷ 0 ∷ []) ++ (0x9b ∷ 0x40 ∷ 0xac ∷ 0x3b ∷ 1 ∷ 2 ∷ 3 ∷ 4 ∷ []))

abbrev options : ProxyConnOpts
options = record {
  client_ip = ip4 (1 ∷ 2 ∷ 3 ∷ 4 ∷ []);
  client_port = 443;
  local_ip = invalid;
  local_port = 8888;
  ad_tag = codes "0123456789abcdef";
}

client-IsIp : IsIp options.client_ip
unfolding IsIp
client-IsIp = refl

local-IsIp : IsIp options.local_ip
unfolding IsIp
local-IsIp = tt

decode-build_proxy_req_example :
    decode (build_proxy_req (codes "abcd") options (codes "identity")) ≡ (record {
      tag = rpc_proxy_req;
      flags = flags_of (codes "abcd") options.ad_tag;
      conn_id = codes "identity";
      client = encode_ip_port options.client_ip options.client_port;
      local = encode_ip_port options.local_ip options.local_port;
      ad_tag = if length options.ad_tag == 16 then options.ad_tag else [];
      payload = codes "abcd";
    })
decode-build_proxy_req_example =
    decode-build_proxy_req (codes "abcd") (codes "identity") options refl client-IsIp local-IsIp
