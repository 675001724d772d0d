-- ===== src/FakeTls/Digest/Laws.antt =====
-- Which random bytes the server accepts.
use phantom_proxy.Common.{
  ℕ, zero, suc, ◌^◌, ◌≤◌, ◌<◌, ◌≡◌, refl, sym, ap, ◌∙◌, inl, inr, [], ◌∷◌, ◌++◌, append-nil, arith,
  ltb, if◌then◌else◌, le→ltb, Bool-cases, length, length-append, take, drop, take-append-drop,
  length-take, length-drop,
}
use Prim.Native.Nat.{bit_xor}
use mathlib.Core.Path.{ap₂}
use phantom_proxy.Common.Bytes.{
  Bytes, IsByte, All, zeros, length-zeros, eqb_iff, eqb_refl, from_le32, le32, from_le32-le32,
  take_front, drop_front, drop-add,
}
use phantom_proxy.Common.Xor.{
  xor_bytes, xor_bytes-le32, xor_bytes-append, xor_bytes_self, eq_of_xor_bytes,
}
use phantom_proxy.Common.Result.{ok, err}
use phantom_proxy.FakeTls.Digest.{
  bad_timestamp, without_random, clock_diff, computed, check_digest, sign_record,
}

module _ (hmac : Bytes → Bytes → Bytes) where
  -- What the server accepts is authentic and recent: the record has a ClientHello's random
  -- bytes, the first 28 of them are the HMAC of the rest of the record under the secret, and
  -- the time that the last four carry is at most 120 seconds off.
  pub check_digest_sound :
      (now : ℕ) (secret raw random : Bytes)
      → check_digest hmac now secret raw random ≡ ok tt
      → (43 ≤ length raw)
        × (take 28 (hmac secret (without_random raw)) ≡ take 28 random)
        × (clock_diff now
              (from_le32 (drop 28 (xor_bytes (hmac secret (without_random raw)) random)))
            ≤ 120)
  unfolding check_digest computed
  check_digest_sound now secret raw random h =
      let d = hmac secret (without_random raw) in
      let same : zeros 28 ≡ take 28 (xor_bytes d random) =
        (eqb_iff (zeros 28) (take 28 (xor_bytes d random))).0 (ground arith) in
      (ground arith, eq_of_xor_bytes 28 d random (sym same), ground arith)

  module _ (length-hmac : (k m : Bytes) → length (hmac k m) ≡ 32)
      (hmac-IsByte : (k m : Bytes) → All IsByte (hmac k m)) where
    word :
        (w : Bytes) (ts : ℕ)
        → length w ≡ 4
        → All IsByte w
        → ts < 2 ^ 32
        → xor_bytes w (le32 (bit_xor (from_le32 w) ts)) ≡ le32 ts
    word (a ∷ b ∷ c ∷ d ∷ []) ts n h lt = xor_bytes-le32 a b c d ts h lt
    word [] ts n h lt = absurd (omega arith)
    word (a ∷ []) ts n h lt = absurd (omega arith)
    word (a ∷ b ∷ []) ts n h lt = absurd (omega arith)
    word (a ∷ b ∷ c ∷ []) ts n h lt = absurd (omega arith)
    word (a ∷ b ∷ c ∷ d ∷ e ∷ r) ts n h lt = absurd (omega arith)

    All-drop : (n : ℕ) (xs : Bytes) → All IsByte xs → All IsByte (drop n xs)
    All-drop zero xs h = h
    All-drop (suc n) [] h = tt
    All-drop (suc n) (x ∷ xs) h = All-drop n xs h.1

    abbrev signature : Bytes → ℕ → Bytes
    signature d ts = take 28 d ++ le32 (bit_xor (from_le32 (drop 28 d)) ts)

    xor-signature :
        (d : Bytes) (ts : ℕ)
        → length d ≡ 32
        → All IsByte d
        → ts < 2 ^ 32
        → xor_bytes d (signature d ts) ≡ zeros 28 ++ le32 ts
    xor-signature d ts n h lt =
        let front : length (take 28 d) ≡ 28 = omega (arith, length-take 28 d) in
        ap (λ (l : Bytes). xor_bytes l (signature d ts)) (sym (take-append-drop 28 d))
        ∙ xor_bytes-append (take 28 d) (take 28 d) (drop 28 d) _ refl
        ∙ ap₂ ◌++◌ (xor_bytes_self (take 28 d) ∙ ap zeros front)
            (word (drop 28 d) ts (omega (arith, length-drop 28 d)) (All-drop 28 d h) lt)

    abbrev digest_of : Bytes → Bytes → Bytes
    digest_of secret r = hmac secret (without_random r)

    length-signature : (d : Bytes) (ts : ℕ) → length d ≡ 32 → length (signature d ts) ≡ 32
    unfolding le32
    length-signature d ts n = omega (
      arith,
      length-append (take 28 d) (le32 (bit_xor (from_le32 (drop 28 d)) ts)),
      length-take 28 d,
    )

    module _ (ts : ℕ) (secret r : Bytes) (long : 43 ≤ length r) where
      abbrev sig : Bytes
      sig = signature (digest_of secret r) ts

      eleven : 11 ≡ length (take 11 r)
      eleven = omega (arith, length-take 11 r)

      behind : drop 11 (sign_record hmac ts secret r) ≡ sig ++ drop 43 r
      unfolding sign_record
      behind = drop_front 11 (take 11 r) (sig ++ drop 43 r) eleven

      pub random_of_signed : take 32 (drop 11 (sign_record hmac ts secret r)) ≡ sig
      random_of_signed =
          ap (take 32) behind
          ∙ take_front 32 sig (drop 43 r) (sym (length-signature _ ts (length-hmac secret _)))

      rest_of_signed : drop 43 (sign_record hmac ts secret r) ≡ drop 43 r
      rest_of_signed =
          drop-add 11 32 (sign_record hmac ts secret r)
          ∙ ap (drop 32) behind
          ∙ drop_front 32 sig (drop 43 r) (sym (length-signature _ ts (length-hmac secret _)))

      without_random-signed : without_random (sign_record hmac ts secret r) ≡ without_random r
      unfolding without_random
      without_random-signed =
          ap₂ (λ (a b : Bytes). a ++ (zeros 32 ++ b))
            (unfold sign_record in take_front 11 (take 11 r) (sig ++ drop 43 r) eleven)
            rest_of_signed

      length-signed : 43 ≤ length (sign_record hmac ts secret r)
      unfolding sign_record
      length-signed = omega (
        arith,
        length-append (take 11 r) (sig ++ drop 43 r),
        length-append sig (drop 43 r),
        length-signature (digest_of secret r) ts (length-hmac secret _),
        length-take 11 r,
      )

      computed-signed :
          ts < 2 ^ 32
          → computed hmac secret (sign_record hmac ts secret r) sig ≡ zeros 28 ++ le32 ts
      unfolding computed
      computed-signed lt =
          ap (λ (m : Bytes). xor_bytes (hmac secret m) sig) without_random-signed
          ∙ xor-signature (digest_of secret r) ts (length-hmac secret _) (hmac-IsByte secret _) lt

      -- A record that a client has signed with the secret at time `ts` has an authentic digest:
      -- the server's answer depends on the clocks alone. At time `now` it accepts the record
      -- exactly if the two times are at most 120 seconds apart.
      pub check_digest-sign_record :
          (now : ℕ)
          → ts < 2 ^ 32
          → check_digest hmac now secret
              (sign_record hmac ts secret r)
              (take 32 (drop 11 (sign_record hmac ts secret r)))
            ≡ (if ltb 120 (clock_diff now ts) then err bad_timestamp else ok tt)
      unfolding check_digest
      check_digest-sign_record now lt =
          let z : take 28 (zeros 28 ++ le32 ts) ≡ zeros 28 =
            take_front 28 (zeros 28) (le32 ts) (sym (length-zeros 28)) in
          let t : drop 28 (zeros 28 ++ le32 ts) ≡ le32 ts =
            drop_front 28 (zeros 28) (le32 ts) (sym (length-zeros 28)) in
          let u : from_le32 (le32 ts) ≡ ts =
            ap from_le32 (sym (append-nil (le32 ts))) ∙ from_le32-le32 ts [] lt in
          rw (random_of_signed, computed-signed lt, le→ltb _ 43 length-signed)
            (rw (z, t, u, eqb_refl (zeros 28))
              (elim (Bool-cases (ltb 120 (clock_diff now ts))) [ inl e ↦ rw e | inr e ↦ rw e ]))
