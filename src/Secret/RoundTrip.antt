-- ===== src/Secret/RoundTrip.antt =====
-- What `ParseSecret` accepts, and that it reads back what `EncodeHex` prints.
use phantom_proxy.Common.{
  ℕ, ◌*◌, ◌≤◌, ◌<◌, ◌≡◌, refl, sym, ap, ◌∙◌, ◌⊎◌, inl, inr, false, Option, some, [], ◌∷◌, ◌++◌,
  arith, ltb, ◌==◌, le→ltb, length, length-append,
}
use phantom_proxy.Common.Bytes.{Bytes, take_all, take_front, drop_front}
use phantom_proxy.Common.Result.{ok}
use phantom_proxy.Secret.{Secret, parse_secret, parse_payload, parse_bytes, or_else, encode_hex}

-- What a parsed secret looks like: a key of 16 bytes, and a host for Fake TLS alone.
unfoldable pub IsSecret : Secret → Type 0
IsSecret s =
    (length s.key ≡ 16)
    × (((s.mode ≡ 0xee) × (0 < length s.host)) ⊎ ((s.mode ≡ 0xdd) × (s.host ≡ [])))

module _ (hex_decode base64_decode : Bytes → Option Bytes) (hex_encode : Bytes → Bytes)
    (decode_encode : (d : Bytes) → hex_decode (hex_encode d) ≡ some d)
    (length-encode : (d : Bytes) → length (hex_encode d) ≡ 2 * length d) where
  parse_printed :
      (text : Bytes) (mode : ℕ) (d : Bytes)
      → hex_decode text ≡ some (mode ∷ d)
      → length text ≡ 2 * length (mode ∷ d)
      → parse_secret hex_decode base64_decode text ≡ parse_bytes (some (mode ∷ d))
  unfolding parse_secret or_else
  parse_printed [] mode d p n = absurd (omega (arith, n))
  parse_printed (c ∷ cs) mode d p n = rw p refl

  parse_bytes_payload :
      (mode : ℕ) (d : Bytes)
      → 16 ≤ length d
      → (mode ≡ 0xee) ⊎ (mode ≡ 0xdd)
      → parse_bytes (some (mode ∷ d)) ≡ parse_payload mode d
  unfolding parse_bytes
  parse_bytes_payload mode [] n m = absurd (omega (arith, n))
  parse_bytes_payload mode (c ∷ cs) n (inl m) = rw m refl
  parse_bytes_payload mode (c ∷ cs) n (inr m) = rw m refl

  fake_tls_payload :
      (s : Secret)
      → length s.key ≡ 16
      → s.mode ≡ 0xee
      → 0 < length s.host
      → parse_payload s.mode (s.key ++ s.host) ≡ ok s
  unfolding parse_payload
  fake_tls_payload s n m h =
      let longer : ltb (length (s.key ++ s.host)) 16 ≡ false =
        le→ltb _ 16 (omega (arith, length-append s.key s.host, n)) in
      let host : (length (s.key ++ s.host) == 16) ≡ false =
        ground (arith, length-append s.key s.host, n, h) in
      rw (longer, m, host)
        (rw (take_front 16 s.key s.host (sym n), drop_front 16 s.key s.host (sym n), sym m) refl)

  secure_payload :
      (s : Secret)
      → length s.key ≡ 16
      → s.mode ≡ 0xdd
      → s.host ≡ []
      → parse_payload s.mode s.key ≡ ok s
  unfolding parse_payload
  secure_payload s n m h = rw (n) (
      rw m (
        rw (take_all 16 s.key (omega (arith, n)))
          (ap (λ (x : Bytes). ok (record { key = s.key; host = x; mode = 221 })) (sym h))))

  -- A well-formed secret that `EncodeHex` prints is read back by `ParseSecret` as it was, Fake TLS
  -- and secure mode alike. The hex decoder inverts the encoder, which doubles the length.
  pub parse_secret-encode_hex :
      (s : Secret)
      → IsSecret s
      → parse_secret hex_decode base64_decode (encode_hex hex_encode s) ≡ ok s
  unfolding IsSecret encode_hex parse_bytes parse_payload
  parse_secret-encode_hex s (n, inl (m, h)) =
      let body : Bytes = s.key ++ s.host in
      let printed : encode_hex hex_encode s ≡ hex_encode (s.mode ∷ body) = rw (m) refl in
      ap (parse_secret hex_decode base64_decode) printed
      ∙ parse_printed (hex_encode (s.mode ∷ body)) s.mode body (decode_encode (s.mode ∷ body))
          (length-encode (s.mode ∷ body))
      ∙ parse_bytes_payload s.mode body (omega (arith, length-append s.key s.host, n)) (inl m)
      ∙ fake_tls_payload s n m h
  parse_secret-encode_hex s (n, inr (m, h)) =
      let body : Bytes = s.key in
      let printed : encode_hex hex_encode s ≡ hex_encode (s.mode ∷ body) = rw (m) refl in
      ap (parse_secret hex_decode base64_decode) printed
      ∙ parse_printed (hex_encode (s.mode ∷ body)) s.mode body (decode_encode (s.mode ∷ body))
          (length-encode (s.mode ∷ body))
      ∙ parse_bytes_payload s.mode body (omega (arith, n)) (inr m)
      ∙ secure_payload s n m h
