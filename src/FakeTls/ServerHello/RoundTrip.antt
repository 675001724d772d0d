-- ===== src/FakeTls/ServerHello/RoundTrip.antt =====
-- What the client reads of the answer to its ClientHello. About: write_server_hello_with_noise,
-- read_server_handshake, padding_len.
use phantom_proxy.Common.{
  ℕ, ◌+◌, ◌/◌, ◌%◌, ◌^◌, ◌<◌, ◌≡◌, refl, sym, true, false, Option, none, some, [], ◌∷◌, ◌++◌,
  append_assoc, arith, ◌==◌, length, length-append, take, drop,
}
use phantom_proxy.Common.Int.{pos_part}
use phantom_proxy.Common.Bytes.{Bytes, be16, take_front, drop_front, from_be16-be16}
use phantom_proxy.Common.Result.{read_full_exact, ReadError, Result}
use phantom_proxy.Common.Slice.{Outcome}
use phantom_proxy.FakeTls.Random.{Rand}
use phantom_proxy.FakeTls.Record.{record_handshake, record_application_data, to_record}
use phantom_proxy.FakeTls.Hello.{ClientHello}
use phantom_proxy.FakeTls.Digest.{without_random}
use phantom_proxy.FakeTls.Rotator.{Rotator, pick_or}
use phantom_proxy.FakeTls.Rotator.Bounds.{IsValid, pick-Answers, Answers}
use phantom_proxy.FakeTls.ServerHello.{
  ByteSource, NoiseParams, padding_len, finalize_server_hello, build_server_hello, extensions_of,
  key_share, answer_records, sealed, record_change_cipher, answer_with, HandshakeError, skip_record,
  read_server_handshake, write_server_hello_with_noise, profile_chrome, server_hello, change_cipher,
  application_data, supported_versions, psk_key_exchange_modes, ec_point_formats,
}
use phantom_proxy.FakeTls.ServerHello.Padding.{padding_len_bounds}
use phantom_proxy.FakeTls.ServerHello.Shape.{
  hello_of, head_of, tail_of, hashed, sealed_records, sealed-answer_records, without_random_lem,
  length-head_of,
}

skip_record-to_record :
    (wrap : ReadError → HandshakeError) (t : ℕ) (payload rest : Bytes)
    → length payload < 2 ^ 16
    → skip_record wrap (to_record t payload ++ rest) ≡ Result.ok rest
unfolding skip_record to_record be16
skip_record-to_record wrap t payload rest h =
    rw
      (
        append_assoc,
        read_full_exact (t ∷ 0x03 ∷ 0x03 ∷ be16 (length payload)) (payload ++ rest),
        skip_record,
        from_be16-be16 (length payload) [] h,
        read_full_exact payload rest,
      )
      refl

read-answer_records :
    (hello pad rest : Bytes)
    → length hello < 2 ^ 16
    → length pad < 2 ^ 16
    → read_server_handshake (answer_records hello pad ++ rest) ≡ Result.ok rest
unfolding read_server_handshake answer_records
read-answer_records hello pad rest h k =
    rw
      (
        append_assoc,
        append_assoc,
        skip_record-to_record server_hello record_handshake hello
            (to_record record_change_cipher (0x01 ∷ [])
              ++ (to_record record_application_data pad ++ rest))
            h,
        skip_record-to_record change_cipher record_change_cipher (0x01 ∷ [])
            (to_record record_application_data pad ++ rest) (omega arith),
        skip_record-to_record application_data record_application_data pad rest k,
      )
      refl

le→eq : (n : ℕ) → 0 < n → (n == 0) ≡ false
le→eq n h = ground arith

module _ (hmac : Bytes → Bytes → Bytes) (is_hash : (k m : Bytes) → length (hmac k m) ≡ 32)
    (rnd : Rand) (src : ByteSource) where
  -- The first 6 bytes of a hello, and what stands behind its random bytes.
  abbrev body_of : ClientHello → Bytes → Bytes
  body_of ch ext =
      length ch.session_id % 256
      ∷ (ch.session_id ++ (be16 ch.cipher_suite ++ (0x00 ∷ (be16 (length ext) ++ ext))))

  abbrev front_of : ℕ → Bytes
  front_of n = 0x02 ∷ n / 2 ^ 16 % 256 ∷ n / 256 % 256 ∷ n % 256 ∷ 0x03 ∷ 0x03 ∷ []

  hello_lem :
      (k : ℕ) (ch : ClientHello) (ext : Bytes)
      → finalize_server_hello src k ch ext
        ≡ hello_of
            (front_of (length (0x03 ∷ 0x03 ∷ (src.bytes k 32 ++ body_of ch ext))))
            (src.bytes k 32)
            (body_of ch ext)
  unfolding finalize_server_hello
  hello_lem k ch ext = refl

  length-extensions_of : (k : ℕ) (profile : Bytes) → length (extensions_of src k profile) < 64
  unfolding extensions_of key_share be16
  length-extensions_of k profile = ground (
    arith,
    src.length-bytes k 32,
    length-append (src.bytes k 32) (supported_versions ++ psk_key_exchange_modes),
    length-append (src.bytes k 32) ec_point_formats,
  )

  -- The packet for a profile, when the padding was drawn and the write works.
  abbrev packet_of : ℕ → ClientHello → Bytes → NoiseParams → Bytes → Bytes
  packet_of k ch secret noise profile = sealed hmac ch secret (
      answer_records (build_server_hello src k ch profile)
        (src.bytes (k + 2) (padding_len rnd (k + 1) noise)))

  length-mac_hello :
      (front mac : Bytes) (ch : ClientHello) (ext : Bytes)
      → length front ≡ 6
      → length mac ≡ 32
      → length ch.session_id < 256
      → length ext < 64
      → length (hello_of front mac (body_of ch ext)) < 2 ^ 16
  unfolding be16
  length-mac_hello front mac ch ext h k l m = omega (
    arith,
    h,
    k,
    l,
    m,
    length-append front (mac ++ body_of ch ext),
    length-append mac (body_of ch ext),
    length-append ch.session_id (be16 ch.cipher_suite ++ (0x00 ∷ (be16 (length ext) ++ ext))),
  )

  read-packet_of :
      (k : ℕ) (ch : ClientHello) (secret : Bytes) (noise : NoiseParams) (profile rest : Bytes)
      → length ch.session_id < 256
      → pos_part noise.mean + pos_part noise.jitter < 60000
      → read_server_handshake (packet_of k ch secret noise profile ++ rest) ≡ Result.ok rest
  unfolding build_server_hello
  read-packet_of k ch secret noise profile rest h b =
      let ext = extensions_of src k profile in
      let n = length (0x03 ∷ 0x03 ∷ (src.bytes (k + 1) 32 ++ body_of ch ext)) in
      let pad = src.bytes (k + 2) (padding_len rnd (k + 1) noise) in
      let mac =
        hmac secret
          (hashed hmac is_hash ch (front_of n) (src.bytes (k + 1) 32) (body_of ch ext) pad) in
      rw
        (
          hello_lem (k + 1) ch ext,
          sealed_records hmac is_hash ch secret (front_of n) (src.bytes (k + 1) 32) (body_of ch ext)
              pad refl (src.length-bytes (k + 1) 32),
        )
        (read-answer_records (hello_of (front_of n) mac (body_of ch ext)) pad rest
          (length-mac_hello (front_of n) mac ch ext refl
            (is_hash secret
              (hashed hmac is_hash ch (front_of n) (src.bytes (k + 1) 32) (body_of ch ext) pad))
            h (length-extensions_of k profile))
          (omega (
            arith,
            src.length-bytes (k + 2) (padding_len rnd (k + 1) noise),
            padding_len_bounds rnd (k + 1) noise,
            b,
          )))

  -- The client can check the digest of the answer.
  IsSigned : ClientHello → Bytes → Bytes → Type 0
  IsSigned ch secret packet =
      take 32 (drop 11 packet) ≡ hmac secret (ch.random ++ without_random packet)

  packet_of-IsSigned :
      (k : ℕ) (ch : ClientHello) (secret : Bytes) (noise : NoiseParams) (profile : Bytes)
      → IsSigned ch secret (packet_of k ch secret noise profile)
  unfolding build_server_hello IsSigned
  packet_of-IsSigned k ch secret noise profile =
      let ext = extensions_of src k profile in
      let r = src.bytes (k + 1) 32 in
      let front = front_of (length (0x03 ∷ 0x03 ∷ (r ++ body_of ch ext))) in
      let body = body_of ch ext in
      let pad = src.bytes (k + 2) (padding_len rnd (k + 1) noise) in
      let mac = hmac secret (hashed hmac is_hash ch front r body pad) in
      let is_mac = is_hash secret (hashed hmac is_hash ch front r body pad) in
      let head = head_of front r body in
      rw
        (
          hello_lem (k + 1) ch ext,
          sealed-answer_records hmac is_hash ch secret front r body pad refl
              (src.length-bytes (k + 1) 32),
          without_random_lem head mac (tail_of body pad) (length-head_of front r body refl)
              (sym is_mac),
          drop_front 11 head (mac ++ tail_of body pad) (length-head_of front r body refl),
          take_front 32 mac (tail_of body pad) (sym is_mac),
        )
        refl

  abbrev IsReady : Option (Rotator Bytes) → Type 0
  IsReady none = Unit
  IsReady (some r) = IsValid r

  pick_or_answers :
      (k now later : ℕ) (o : Option (Rotator Bytes))
      → IsReady o
      → (profile : Bytes) × (s : Option (Rotator Bytes)) × (pick_or rnd profile_chrome k now later o
          ≡ some (profile, s))
  unfolding pick_or Answers
  pick_or_answers k now later none h = (profile_chrome, none, refl)
  pick_or_answers k now later (some r) h =
      let (a, s, e, m, v) = pick-Answers rnd k now later r h in
      (a, some s, rw (le→eq (length r.pool) (omega (arith, h.0)), e) refl)

  -- Where the random bytes for the padding can be drawn, the write works, the rotator has a
  -- profile, the session id has less than 256 bytes and the mean and the jitter of the noise are
  -- together less than 60000 (more than 65535 bytes of padding would not fit a record), the server
  -- answers a ClientHello with a packet of which the client reads three records and no byte more,
  -- and whose random bytes are the HMAC of the client's random bytes and the packet with zeros
  -- for its own.
  pub read_server_handshake-write :
      (k now later : ℕ) (ch : ClientHello) (secret : Bytes) (noise : NoiseParams)
      (rotator : Option (Rotator Bytes)) (rest : Bytes)
      → IsReady rotator
      → src.fails (k + 2) ≡ false
      → length ch.session_id < 256
      → pos_part noise.mean + pos_part noise.jitter < 60000
      → (packet : Bytes) × (r : Option (Rotator Bytes)) × (write_server_hello_with_noise hmac rnd
            src true k now later ch secret noise rotator
          ≡ (r, Outcome.ok packet))
        × (read_server_handshake (packet ++ rest) ≡ Result.ok rest)
        × (take 32 (drop 11 packet) ≡ hmac secret (ch.random ++ without_random packet))
  unfolding write_server_hello_with_noise answer_with IsSigned
  read_server_handshake-write k now later ch secret noise rotator rest h f l b =
      let (profile, s, e) = pick_or_answers k now later rotator h in
      (
        packet_of k ch secret noise profile,
        s,
        rw (e, f) refl,
        read-packet_of k ch secret noise profile rest l b,
        packet_of-IsSigned k ch secret noise profile,
      )
