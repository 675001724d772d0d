-- ===== src/FakeTls/ServerHello/Shape.antt =====
-- How the digest lies in the answer to a ClientHello. About: finalize_server_hello,
-- answer_records, sealed.
use phantom_proxy.Common.{
  ◌≡◌, refl, sym, ap, ◌∙◌, [], ◌∷◌, ◌++◌, append_assoc, arith, length, length-append,
}
use phantom_proxy.Common.Bytes.{
  Bytes, be16, zeros, length-zeros, take_front, drop_front, drop-add, take_all,
}
use phantom_proxy.FakeTls.Record.{record_handshake, record_application_data, to_record}
use phantom_proxy.FakeTls.Hello.{ClientHello}
use phantom_proxy.FakeTls.Digest.{without_random}
use phantom_proxy.FakeTls.ServerHello.{with_random, answer_records, sealed, record_change_cipher}

-- A part of 32 bytes behind 11 others is replaced.
pub without_random_lem :
    (head r tail : Bytes)
    → 11 ≡ length head
    → 32 ≡ length r
    → without_random (head ++ (r ++ tail)) ≡ head ++ (zeros 32 ++ tail)
unfolding without_random
without_random_lem head r tail h k =
    rw
      (
        take_front 11 head (r ++ tail) h,
        drop-add 11 32 (head ++ (r ++ tail)),
        drop_front 11 head (r ++ tail) h,
        drop_front 32 r tail k,
      )
      refl

pub with_random_lem :
    (mac head r tail : Bytes)
    → length mac ≡ 32
    → 11 ≡ length head
    → 32 ≡ length r
    → with_random mac (head ++ (r ++ tail)) ≡ head ++ (mac ++ tail)
unfolding with_random
with_random_lem mac head r tail m h k =
    rw
      (
        take_all 32 mac (omega (arith, m)),
        m,
        take_front 11 head (r ++ tail) h,
        drop-add 11 32 (head ++ (r ++ tail)),
        drop_front 11 head (r ++ tail) h,
        drop_front 32 r tail k,
      )
      refl

-- A hello with 6 bytes before its random bytes `r`, as finalize_server_hello makes it.
abbrev pub hello_of : Bytes → Bytes → Bytes → Bytes
hello_of front r body = front ++ (r ++ body)

-- The answer up to the random bytes, and behind them.
abbrev pub head_of : Bytes → Bytes → Bytes → Bytes
head_of front r body =
    record_handshake ∷ 0x03 ∷ 0x03 ∷ (be16 (length (hello_of front r body)) ++ front)

abbrev pub tail_of : Bytes → Bytes → Bytes
tail_of body pad =
    body ++ (to_record record_change_cipher (0x01 ∷ []) ++ to_record record_application_data pad)

answer_records_lem :
    (front r body pad : Bytes)
    → answer_records (hello_of front r body) pad ≡ head_of front r body ++ (r ++ tail_of body pad)
unfolding answer_records to_record be16
answer_records_lem front r body pad = rw (append_assoc, append_assoc, append_assoc) refl

pub length-head_of : (front r body : Bytes) → length front ≡ 6 → 11 ≡ length (head_of front r body)
unfolding be16
length-head_of front r body h = omega (arith, h)

same_length :
    (front r mac body : Bytes)
    → length r ≡ length mac
    → length (hello_of front r body) ≡ length (hello_of front mac body)
same_length front r mac body e = omega (
  arith,
  length-append front (r ++ body),
  length-append front (mac ++ body),
  length-append r body,
  length-append mac body,
  e,
)

module _ (hmac : Bytes → Bytes → Bytes) (is_hash : (k m : Bytes) → length (hmac k m) ≡ 32) where
  -- What is hashed: the random bytes of the client, and the answer with zeros for its own.
  abbrev pub hashed : ClientHello → Bytes → Bytes → Bytes → Bytes → Bytes
  hashed ch front r body pad = ch.random ++ (head_of front r body ++ (zeros 32 ++ tail_of body pad))

  -- The digest takes the place of the random bytes, and nothing else changes.
  pub sealed-answer_records :
      (ch : ClientHello) (secret front r body pad : Bytes)
      → length front ≡ 6
      → length r ≡ 32
      → sealed hmac ch secret (answer_records (hello_of front r body) pad)
        ≡ head_of front r body ++ (hmac secret (hashed ch front r body pad) ++ tail_of body pad)
  unfolding sealed
  sealed-answer_records ch secret front r body pad h k =
      rw
        (
          answer_records_lem front r body pad,
          without_random_lem (head_of front r body) r (tail_of body pad)
              (length-head_of front r body h) (sym k),
          with_random_lem (hmac secret (hashed ch front r body pad)) (head_of front r body)
              (zeros 32) (tail_of body pad) (is_hash secret (hashed ch front r body pad))
              (length-head_of front r body h) (sym (length-zeros 32)),
        )
        refl

  -- It is still three records.
  pub sealed_records :
      (ch : ClientHello) (secret front r body pad : Bytes)
      → length front ≡ 6
      → length r ≡ 32
      → let mac = hmac secret (hashed ch front r body pad) in
        sealed hmac ch secret (answer_records (hello_of front r body) pad)
        ≡ answer_records (hello_of front mac body) pad
  sealed_records ch secret front r body pad h k =
      let mac = hmac secret (hashed ch front r body pad) in
      sealed-answer_records ch secret front r body pad h k
      ∙ ap (λ n. (record_handshake ∷ 0x03 ∷ 0x03 ∷ (be16 n ++ front)) ++ (mac ++ tail_of body pad))
          (same_length front r mac body (k ∙ sym (is_hash secret (hashed ch front r body pad))))
      ∙ sym (answer_records_lem front mac body pad)
