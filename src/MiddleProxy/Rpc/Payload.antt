-- ===== src/MiddleProxy/Rpc/Payload.antt =====
-- The requests fit the frames they are sent in.
use phantom_proxy.Common.{
  ℕ, ◌+◌, ◌%◌, ◌^◌, ◌≡◌, refl, ap, ◌∙◌, inl, inr, [], ◌∷◌, ◌++◌, arith, ◌==◌, if◌then◌else◌, ==_iff,
  Bool-cases, length, length-append,
}
use phantom_proxy.Common.Bytes.{Bytes, le32, zeros}
use phantom_proxy.MiddleProxy.Rpc.{
  Ip, invalid, ip4, ip6, encode_ip_port, ProxyConnOpts, extra, build_proxy_req,
}

-- An address of the length that its kind has.
unfoldable pub IsIp : Ip → Type 0
IsIp invalid = Unit
IsIp (ip4 a) = length a ≡ 4
IsIp (ip6 a) = length a ≡ 16

pub length-encode_ip_port : (ip : Ip) (port : ℕ) → IsIp ip → length (encode_ip_port ip port) ≡ 20
unfolding encode_ip_port IsIp le32 zeros
length-encode_ip_port invalid port h = refl
length-encode_ip_port (ip4 a) port h = omega (arith, length-append a (le32 (port % 2 ^ 32)), h)
length-encode_ip_port (ip6 a) port h = omega (arith, length-append a (le32 (port % 2 ^ 32)), h)

length-extra : (ad_tag : Bytes) → length (extra ad_tag) ≡ (if length ad_tag == 16 then 28 else 0)
unfolding extra
length-extra ad_tag = elim (Bool-cases (length ad_tag == 16)) [
  | inl e ↦ rw e (
      let n : length ad_tag ≡ 16 = (==_iff (length ad_tag) 16).0 e in
      omega (arith, length-append ad_tag (0 ∷ 0 ∷ 0 ∷ []), n))
  | inr e ↦ rw e refl
]

-- `buildProxyReq` puts 56 bytes in front of the payload, and 28 more with an ad tag of 16 bytes. So
-- the message of a payload of whole words is of whole words again, which the padding between
-- frames relies on.
pub length-build_proxy_req :
    (payload conn_id : Bytes) (opts : ProxyConnOpts)
    → length conn_id ≡ 8
    → IsIp opts.client_ip
    → IsIp opts.local_ip
    → length payload % 4 ≡ 0
    → (length (build_proxy_req payload opts conn_id)
        ≡ 56 + (if length opts.ad_tag == 16 then 28 else 0) + length payload)
      × (length (build_proxy_req payload opts conn_id) % 4 ≡ 0)
unfolding build_proxy_req le32
length-build_proxy_req payload conn_id opts h8 hc hl w =
    let client : Bytes = encode_ip_port opts.client_ip opts.client_port in
    let local : Bytes = encode_ip_port opts.local_ip opts.local_port in
    let n : length (build_proxy_req payload opts conn_id)
        ≡ 56 + (if length opts.ad_tag == 16 then 28 else 0) + length payload =
      omega (
        arith,
        length-append conn_id (client ++ (local ++ (extra opts.ad_tag ++ payload))),
        length-append client (local ++ (extra opts.ad_tag ++ payload)),
        length-append local (extra opts.ad_tag ++ payload),
        length-append (extra opts.ad_tag) payload,
        length-encode_ip_port opts.client_ip opts.client_port hc,
        length-encode_ip_port opts.local_ip opts.local_port hl,
        length-extra opts.ad_tag,
        h8,
      ) in
    (n, ap (λ (k : ℕ). k % 4) n ∙ ground (arith, w))
