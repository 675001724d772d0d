-- ===== src/MiddleProxy/Rpc/Layout.antt =====
-- What a middle proxy reads out of a request. About: build_proxy_req, flags, extra.
use phantom_proxy.Common.{
  ℕ, suc, ◌+◌, ◌/◌, ◌%◌, ◌^◌, ◌<◌, ◌≡◌, refl, sym, ap, ◌∙◌, inl, inr, true, false, ◌&&◌, [], ◌∷◌,
  ◌++◌, append_assoc, arith, leb, ◌==◌, if◌then◌else◌, ==_iff, Bool-cases, length, length-append,
  take, drop,
}
use phantom_proxy.Common.Bytes.{
  Bytes, le32, from_le32, from_le32-le32, take_front, drop_front, zeros, eqb,
}
use phantom_proxy.MiddleProxy.Rpc.{
  rpc_proxy_req, encode_ip_port, ProxyConnOpts, flags, extra, build_proxy_req,
}
use phantom_proxy.MiddleProxy.Rpc.Payload.{IsIp, length-encode_ip_port}

-- The fields of RPC_PROXY_REQ by their places. Bit 3 of the flags tells that an ad tag follows, in
-- a block of 28 bytes that has it behind 9.
pub record Request : Type 0 where
  pub tag : Bytes
  pub flags : ℕ
  pub conn_id : Bytes
  pub client : Bytes
  pub local : Bytes
  pub ad_tag : Bytes
  pub payload : Bytes

unfoldable pub decode : Bytes → Request
decode b =
    let flags = from_le32 (drop 4 b) in
    let tagged = flags / 8 % 2 == 1 in
    let fields = drop 56 b in
    record {
      tag = take 4 b;
      flags = flags;
      conn_id = take 8 (drop 8 b);
      client = take 20 (drop 16 b);
      local = take 20 (drop 36 b);
      ad_tag = if tagged then take 16 (drop 9 fields) else [];
      payload = if tagged then drop 28 fields else fields;
    }

flags_small : (payload ad_tag : Bytes) → flags payload ad_tag < 2 ^ 32
unfolding flags
flags_small payload ad_tag = ground arith

flags_tagged :
    (payload ad_tag : Bytes) → (flags payload ad_tag / 8 % 2 == 1) ≡ (length ad_tag == 16)
unfolding flags
flags_tagged payload ad_tag = ground arith

drop_past : (k n : ℕ) (xs ys : Bytes) → k ≡ length xs + n → drop k (xs ++ ys) ≡ drop n ys
drop_past k n [] ys e = let same : k ≡ n = omega (arith, e) in ap (λ m. drop m ys) same
drop_past k n (x ∷ xs) ys e =
    let more : k ≡ suc (length xs + n) = omega (arith, e) in
    ap (λ m. drop m (x ∷ (xs ++ ys))) more ∙ drop_past (length xs + n) n xs ys refl

-- The flags by their names: magic, extended mode, intermediate and padded transport, a payload that
-- is not encrypted, an ad tag.
abbrev pub flags_of : Bytes → Bytes → ℕ
flags_of payload ad_tag =
    0x1000
    + (0x20000
        + (0x20000000
            + (0x8000000
                + ((if leb 8 (length payload) && eqb (take 8 payload) (zeros 8) then 0x2 else 0)
                    + (if length ad_tag == 16 then 0x8 else 0)))))

flags_lem : (payload ad_tag : Bytes) → flags payload ad_tag ≡ flags_of payload ad_tag
unfolding flags
flags_lem payload ad_tag = omega arith

module _ (flag_bits : ℕ) (small : flag_bits < 2 ^ 32) (conn_id client local block : Bytes)
    (id8 : length conn_id ≡ 8) (client20 : length client ≡ 20) (local20 : length local ≡ 20) where
  request : Bytes
  request = rpc_proxy_req ++ (le32 flag_bits ++ (conn_id ++ (client ++ (local ++ block))))

  request_flags : from_le32 (drop 4 request) ≡ flag_bits
  unfolding request
  request_flags = from_le32-le32 flag_bits (conn_id ++ (client ++ (local ++ block))) small

  behind_id : drop 16 request ≡ client ++ (local ++ block)
  unfolding request le32
  behind_id = drop_front 8 conn_id (client ++ (local ++ block)) (sym id8)

  behind_client : drop 36 request ≡ local ++ block
  unfolding request le32
  behind_client =
      drop_past 28 20 conn_id (client ++ (local ++ block)) (omega (arith, id8))
      ∙ drop_front 20 client (local ++ block) (sym client20)

  behind_local : drop 56 request ≡ block
  unfolding request le32
  behind_local =
      drop_past 48 40 conn_id (client ++ (local ++ block)) (omega (arith, id8))
      ∙ drop_past 40 20 client (local ++ block) (omega (arith, client20))
      ∙ drop_front 20 local block (sym local20)

  request_id : take 8 (drop 8 request) ≡ conn_id
  unfolding request le32
  request_id = take_front 8 conn_id (client ++ (local ++ block)) (sym id8)

-- A request whose fields are known, but for what stands behind the addresses.
decoded :
    (b : Bytes) (bits : ℕ) (conn_id client local block : Bytes)
    → from_le32 (drop 4 b) ≡ bits
    → take 8 (drop 8 b) ≡ conn_id
    → take 20 (drop 16 b) ≡ client
    → take 20 (drop 36 b) ≡ local
    → drop 56 b ≡ block
    → decode b ≡ (record {
      tag = take 4 b;
      flags = bits;
      conn_id = conn_id;
      client = client;
      local = local;
      ad_tag = if bits / 8 % 2 == 1 then take 16 (drop 9 block) else [];
      payload = if bits / 8 % 2 == 1 then drop 28 block else block;
    })
unfolding decode
decoded b bits conn_id client local block f i c l k = rw (f, i, c, l, k) refl

block_tag :
    (ad_tag payload : Bytes)
    → (length ad_tag == 16) ≡ true
    → (take 16 (drop 9 (extra ad_tag ++ payload)) ≡ ad_tag)
      × (drop 28 (extra ad_tag ++ payload) ≡ payload)
unfolding extra
block_tag ad_tag payload t =
    let n : length ad_tag ≡ 16 = (==_iff (length ad_tag) 16).0 t in
    rw t (
      ap (take 16) (append_assoc ad_tag (0 ∷ 0 ∷ 0 ∷ []) payload)
          ∙ take_front 16 ad_tag ((0 ∷ 0 ∷ 0 ∷ []) ++ payload) (sym n),
      drop_front 19 (ad_tag ++ (0 ∷ 0 ∷ 0 ∷ [])) payload
          (omega (arith, length-append ad_tag (0 ∷ 0 ∷ 0 ∷ []), n)),
    )

no_block :
    (ad_tag payload : Bytes) → (length ad_tag == 16) ≡ false → extra ad_tag ++ payload ≡ payload
unfolding extra
no_block ad_tag payload t = rw t refl

block_fields :
    (ad_tag payload : Bytes)
    → let tagged = flags payload ad_tag / 8 % 2 == 1 in
      let block = extra ad_tag ++ payload in
      ((if tagged then take 16 (drop 9 block) else [])
        ≡ (if length ad_tag == 16 then ad_tag else []))
      × ((if tagged then drop 28 block else block) ≡ payload)
block_fields ad_tag payload =
    let tagged = flags_tagged payload ad_tag in
    elim (Bool-cases (length ad_tag == 16)) [
      | inl t ↦ let (a, p) = block_tag ad_tag payload t in rw (tagged) (rw t (a, p))
      | inr t ↦ rw (tagged) (rw t (refl, no_block ad_tag payload t))
    ]

same_request :
    (tag conn_id client local ad ad' payload payload' : Bytes) (bits bits' : ℕ)
    → bits ≡ bits'
    → ad ≡ ad'
    → payload ≡ payload'
    → ◌≡◌ {A = Request}
        (record {
          tag = tag;
          flags = bits;
          conn_id = conn_id;
          client = client;
          local = local;
          ad_tag = ad;
          payload = payload;
        })
        (record {
          tag = tag;
          flags = bits';
          conn_id = conn_id;
          client = client;
          local = local;
          ad_tag = ad';
          payload = payload';
        })
same_request tag conn_id client local ad ad' payload payload' bits bits' e a p = rw (e, a, p) refl

-- A middle proxy that reads a request by the places of its fields gets the fields that it was made
-- of: the tag of the message, the flags with their bits, the 8 bytes of the connection's
-- identifier, the two addresses in 20 bytes each, an ad tag exactly if it has 16 bytes, and the
-- payload. Each address has the length of its kind.
pub decode-build_proxy_req :
    (payload conn_id : Bytes) (opts : ProxyConnOpts)
    → length conn_id ≡ 8
    → IsIp opts.client_ip
    → IsIp opts.local_ip
    → decode (build_proxy_req payload opts conn_id) ≡ (record {
      tag = rpc_proxy_req;
      flags = flags_of payload opts.ad_tag;
      conn_id = conn_id;
      client = encode_ip_port opts.client_ip opts.client_port;
      local = encode_ip_port opts.local_ip opts.local_port;
      ad_tag = if length opts.ad_tag == 16 then opts.ad_tag else [];
      payload = payload;
    })
unfolding build_proxy_req request
decode-build_proxy_req payload conn_id opts h8 hc hl =
    let bits = flags payload opts.ad_tag in
    let client : Bytes = encode_ip_port opts.client_ip opts.client_port in
    let local : Bytes = encode_ip_port opts.local_ip opts.local_port in
    let block : Bytes = extra opts.ad_tag ++ payload in
    let small = flags_small payload opts.ad_tag in
    let c20 = length-encode_ip_port opts.client_ip opts.client_port hc in
    let l20 = length-encode_ip_port opts.local_ip opts.local_port hl in
    let f = request_flags bits small conn_id client local block h8 c20 l20 in
    let i = request_id bits small conn_id client local block h8 c20 l20 in
    let c =
      ap (take 20) (behind_id bits small conn_id client local block h8 c20 l20)
      ∙ take_front 20 client (local ++ block) (sym c20) in
    let l =
      ap (take 20) (behind_client bits small conn_id client local block h8 c20 l20)
      ∙ take_front 20 local block (sym l20) in
    let b = behind_local bits small conn_id client local block h8 c20 l20 in
    let (a, p) = block_fields opts.ad_tag payload in
    decoded (build_proxy_req payload opts conn_id) bits conn_id client local block f i c l b
    ∙ same_request rpc_proxy_req conn_id client local _ _ _ payload bits
        (flags_of payload opts.ad_tag) (flags_lem payload opts.ad_tag) a p
