-- ===== src/Obfuscated/Handshake.antt =====
-- What the server reads from the header that a client sends.
use mathlib.Core.Path.{ap₂}
use phantom_proxy.Common.{
  ℕ, zero, suc, ◌+◌, ◌≤◌, ◌≡◌, ◌≢◌, refl, sym, ap, ◌∙◌, Option, none, some, List, [], ◌∷◌, ◌++◌,
  append-nil, append_assoc, arith, length, length-append, take, drop, length-take, length-drop,
}
use phantom_proxy.Common.Int.{ℤ, IsInt16, wrap16, signed16, signed16-wrap16, wrap16-lt}
use phantom_proxy.Common.Bytes.{
  Bytes, le16, from_le16, from_le16-le16, le32, from_le32, from_le32-le32, take_front, drop_front,
  drop-add, drop-append_le,
}
use phantom_proxy.Common.Result.{ok, read_full, read_full_exact}
use phantom_proxy.Common.Xor.{xor_bytes, length-xor_bytes, xor_bytes_cancel}
use phantom_proxy.Obfuscated.{
  conn_type, Stream, reverse, key_part, iv_part, with_dc, pick_header, sender_secret, key_stream,
  xor_key_stream, key_of, derive_key, new_ctr, outgoing_header, handshake,
}

xor_bytes_nil : (a : Bytes) → [] ≡ xor_bytes a []
unfolding xor_bytes
xor_bytes_nil [] = refl
xor_bytes_nil (x ∷ a) = refl

drop-xor_bytes : (n : ℕ) (a b : Bytes) → drop n (xor_bytes a b) ≡ xor_bytes (drop n a) (drop n b)
unfolding xor_bytes
drop-xor_bytes zero a b = refl
drop-xor_bytes (suc n) [] b = refl
drop-xor_bytes (suc n) (x ∷ a) [] = xor_bytes_nil (drop n a)
drop-xor_bytes (suc n) (x ∷ a) (y ∷ b) = drop-xor_bytes n a b

reverse-append : (a b : Bytes) → reverse (a ++ b) ≡ reverse b ++ reverse a
unfolding reverse
reverse-append [] b = sym (append-nil (reverse b))
reverse-append (x ∷ a) b = rw (reverse-append a b) (simp append_assoc)

length-reverse : (a : Bytes) → length (reverse a) ≡ length a
unfolding reverse
length-reverse [] = refl
length-reverse (x ∷ a) = omega (arith, length-append (reverse a) (x ∷ []), length-reverse a)

drop-reverse : (front x : Bytes) → length x ≡ 8 → drop 8 (reverse (front ++ x)) ≡ reverse front
drop-reverse front x n =
    ap (drop 8) (reverse-append front x)
    ∙ drop_front 8 (reverse x) (reverse front) (sym (length-reverse x ∙ n))

take-append_le : (n : ℕ) (xs ys : Bytes) → n ≤ length xs → take n (xs ++ ys) ≡ take n xs
take-append_le zero xs ys h = refl
take-append_le (suc n) [] ys h = absurd (omega arith)
take-append_le (suc n) (x ∷ xs) ys h = rw (take-append_le n xs ys (omega arith)) refl

key_part-append : (f x : Bytes) → length f ≡ 56 → key_part (f ++ x) ≡ key_part f
unfolding key_part
key_part-append f x m =
    ap (take 32) (drop-append_le 8 f x (omega (arith, m)))
    ∙ take-append_le 32 (drop 8 f) x (omega (arith, length-drop 8 f, m))

iv_part-append : (f x : Bytes) → length f ≡ 56 → iv_part (f ++ x) ≡ iv_part f
unfolding iv_part
iv_part-append f x m =
    ap (take 16) (drop-append_le 40 f x (omega (arith, m)))
    ∙ take-append_le 16 (drop 40 f) x (omega (arith, length-drop 40 f, m))

-- The parts that a key and an IV are made of do not depend on the last eight bytes, whichever
-- way the header is read.
key_parts :
    (front a b : Bytes)
    → length front ≡ 56
    → length a ≡ 8
    → length b ≡ 8
    → (key_part (front ++ a) ≡ key_part (front ++ b))
      × (iv_part (front ++ a) ≡ iv_part (front ++ b))
      × (key_part (reverse (front ++ a)) ≡ key_part (reverse (front ++ b)))
      × (iv_part (reverse (front ++ a)) ≡ iv_part (reverse (front ++ b)))
unfolding key_part iv_part
key_parts front a b n na nb =
    let back : drop 8 (reverse (front ++ a)) ≡ drop 8 (reverse (front ++ b)) =
      drop-reverse front a na ∙ sym (drop-reverse front b nb) in
    (
      key_part-append front a n ∙ sym (key_part-append front b n),
      iv_part-append front a n ∙ sym (iv_part-append front b n),
      ap (take 32) back,
      ap (take 16) (
          drop-add 8 32 (reverse (front ++ a))
          ∙ ap (drop 32) back
          ∙ sym (drop-add 8 32 (reverse (front ++ b)))),
    )

sender_secret_id : (secret : Option Bytes) → secret ≢ some [] → sender_secret secret ≡ secret
unfolding sender_secret
sender_secret_id none h = refl
sender_secret_id (some []) h = absurd (h refl)
sender_secret_id (some (c ∷ cs)) h = refl

new_ctr_same :
    (sha256 : Bytes → Bytes) (secret : Option Bytes) (h g : Bytes)
    → key_part h ≡ key_part g
    → iv_part h ≡ iv_part g
    → new_ctr sha256 secret h ≡ new_ctr sha256 secret g
unfolding new_ctr key_of derive_key
new_ctr_same sha256 none h g k v =
    ap₂ (λ (a b : Bytes). record { key = a; iv = b; position = 0 }) k v
new_ctr_same sha256 (some s) h g k v =
    ap₂ (λ (a b : Bytes). record { key = sha256 (a ++ s); iv = b; position = 0 }) k v

module _ (ctr : Bytes → Bytes → ℕ → ℕ) where
  length-key_stream : (s : Stream) (n : ℕ) → length (key_stream ctr s n) ≡ n
  unfolding key_stream
  length-key_stream s zero = refl
  length-key_stream s (suc n) =
      omega
        (arith, length-key_stream (record { key = s.key; iv = s.iv; position = s.position + 1 }) n)

  -- What the server decrypts at the end of the header is what the client put there.
  decrypted_end :
      (s : Stream) (front a b : Bytes)
      → length front ≡ 56
      → length a ≡ 8
      → b ≡ drop 56 (xor_bytes (front ++ a) (key_stream ctr s 64))
      → drop 56 (xor_bytes (front ++ b) (key_stream ctr s 64)) ≡ a
  decrypted_end s front a b n na e =
      let ks : Bytes = key_stream ctr s 64 in
      let mask : Bytes = drop 56 ks in
      let long : length a ≤ length mask =
        omega (arith, length-drop 56 ks, length-key_stream s 64, na) in
      let b_masked : b ≡ xor_bytes a mask =
        e
        ∙ drop-xor_bytes 56 (front ++ a) ks
        ∙ ap (λ (l : Bytes). xor_bytes l mask) (drop_front 56 front a (sym n)) in
      drop-xor_bytes 56 (front ++ b) ks
      ∙ ap (λ (l : Bytes). xor_bytes l mask) (drop_front 56 front b (sym n) ∙ b_masked)
      ∙ xor_bytes_cancel a mask long

-- The last eight bytes of the client's header before it is encrypted.
abbrev tail_of : ℤ → Bytes → Bytes
tail_of dc_id drawn = le32 conn_type ++ (le16 (wrap16 dc_id) ++ drop 62 drawn)

module _ (sha256 : Bytes → Bytes) (ctr : Bytes → Bytes → ℕ → ℕ) where
  -- The server on a header with these first bytes, whose last ones the client has encrypted.
  accepted :
      (secret : Option Bytes) (front a b rest : Bytes)
      → length front ≡ 56
      → length a ≡ 8
      → length b ≡ 8
      → b
        ≡ drop 56 (xor_bytes (front ++ a) (key_stream ctr (new_ctr sha256 secret (front ++ a)) 64))
      → from_le32 a ≡ conn_type
      → handshake sha256 ctr secret ((front ++ b) ++ rest)
        ≡ ok (
          signed16 (from_le16 (drop 4 a)),
          new_ctr sha256 secret (reverse (front ++ a)),
          record {
            key = (new_ctr sha256 secret (front ++ a)).key;
            iv = (new_ctr sha256 secret (front ++ a)).iv;
            position = (new_ctr sha256 secret (front ++ a)).position + 64;
          },
          rest,
        )
  unfolding handshake xor_key_stream
  accepted secret front a b rest n na nb e t =
      let parts = key_parts front b a n nb na in
      let s : Stream = new_ctr sha256 secret (front ++ a) in
      let same : new_ctr sha256 secret (front ++ b) ≡ s =
        new_ctr_same sha256 secret _ _ parts.0 parts.1 in
      let back : new_ctr sha256 secret (reverse (front ++ b))
          ≡ new_ctr sha256 secret (reverse (front ++ a)) =
        new_ctr_same sha256 secret _ _ parts.2 parts.3 in
      let n64 : length (front ++ b) ≡ 64 = omega (arith, length-append front b, n, nb) in
      let got : read_full 64 ((front ++ b) ++ rest) ≡ ok (front ++ b, rest) =
        ap (λ (k : ℕ). read_full k ((front ++ b) ++ rest)) (sym n64)
        ∙ read_full_exact (front ++ b) rest in
      let d : Bytes = xor_bytes (front ++ b) (key_stream ctr s 64) in
      let d56 : drop 56 d ≡ a = decrypted_end ctr s front a b n na e in
      let d60 : drop 60 d ≡ drop 4 a = drop-add 56 4 d ∙ ap (drop 4) d56 in
      rw (got, handshake) (rw (same, back, n64) (rw (d56, d60, t) refl))

  -- Once the random bytes give a header that is not reserved, the client sends it, and the server
  -- with the same secret reads back the data centre. Each side then writes with the stream, the
  -- position included, that the other reads with. A secret is not empty, and the data centre fits
  -- 16 bits.
  pub handshake-outgoing_header :
      (dc_id : ℤ) (secret : Option Bytes) (draws : List Bytes) (drawn rest : Bytes)
      → secret ≢ some []
      → pick_header draws ≡ ok drawn
      → length drawn ≡ 64
      → IsInt16 dc_id
      → (sent : Bytes) × (enc : Stream) × (dec : Stream) × (outgoing_header sha256 ctr dc_id secret
            draws
          ≡ ok (sent, enc, dec))
        × (handshake sha256 ctr secret (sent ++ rest) ≡ ok (dc_id, dec, enc, rest))
  unfolding outgoing_header xor_key_stream with_dc le32 le16
  handshake-outgoing_header dc_id secret draws drawn rest given p n h =
      let same : sender_secret secret ≡ secret = sender_secret_id secret given in
      let front : Bytes = take 56 drawn in
      let a : Bytes = tail_of dc_id drawn in
      let header : Bytes = with_dc dc_id drawn in
      let s : Stream = new_ctr sha256 secret header in
      let b : Bytes = drop 56 (xor_bytes header (key_stream ctr s 64)) in
      let nf : length front ≡ 56 = omega (arith, length-take 56 drawn, n) in
      let na : length a ≡ 8 = omega (arith, length-drop 62 drawn, n) in
      let nh : length header ≡ 64 = omega (arith, length-append front a, nf, na) in
      let nb : length b ≡ 8 = omega (
        arith,
        length-drop 56 (xor_bytes header (key_stream ctr s 64)),
        length-xor_bytes header (key_stream ctr s 64),
        length-key_stream ctr s 64,
        nh,
      ) in
      let t : from_le32 a ≡ conn_type =
        from_le32-le32 conn_type (le16 (wrap16 dc_id) ++ drop 62 drawn) (omega arith) in
      let dc : signed16 (from_le16 (drop 4 a)) ≡ dc_id =
        ap signed16 (from_le16-le16 (wrap16 dc_id) (drop 62 drawn) (wrap16-lt dc_id))
        ∙ signed16-wrap16 dc_id h in
      let first : take 56 header ≡ front = take_front 56 front a (sym nf) in
      let enc : Stream = record { key = s.key; iv = s.iv; position = s.position + 64 } in
      (
        front ++ b,
        enc,
        new_ctr sha256 secret (reverse header),
        rw (p, outgoing_header) (rw (same, nh, first) refl),
        accepted secret front a b rest nf na nb refl t
            ∙ ap (λ (d : ℤ). ok (d, new_ctr sha256 secret (reverse header), enc, rest)) dc,
      )
