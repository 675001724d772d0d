-- ===== src/FakeTls/Rotator/Adaptive.antt =====
-- The adaptive strategy against a count of the failures. About: record_failure, record_success,
-- pick.
use phantom_proxy.Common.{
  ℕ, zero, suc, ◌+◌, ◌*◌, ◌/◌, ◌%◌, ◌<◌, ◌≡◌, refl, sym, ap, ◌∙◌, inl, inr, true, some, List, [],
  ◌∷◌, arith, length, get_elem?,
}
use phantom_proxy.Common.Int.{ℤ}
use phantom_proxy.Common.Bytes.{eqb, eqb_refl}
use phantom_proxy.FakeTls.Random.{Rand}
use phantom_proxy.FakeTls.Rotator.{
  Rotator, new_rotator, pick, record_failure, record_success, at_index, advance, adaptive,
  or_default,
}
use phantom_proxy.FakeTls.Rotator.Bounds.{get_elem?_bound}
use native.Mathlib.Nat.{mod-add-mod, mod-eq_of_lt, div-eq_of_lt, zero-add}
use phantom_proxy.FakeTls.Rotator.Steps.{Steps, quotient_of, div_step, not_yet, reached}

-- The end of a handshake.
pub data Handshake : Type 0 where
  failed : (now : ℕ) → Handshake
  succeeded : Handshake

abbrev end_one {ℓ} : {A : Type ℓ} → Handshake → Rotator A → Rotator A
end_one (failed now) r = record_failure r now
end_one succeeded r = record_success r

-- The handshakes, the last one first.
unfoldable pub after {ℓ} : {A : Type ℓ} → List Handshake → Rotator A → Rotator A
after [] r = r
after (e ∷ es) r = end_one e (after es r)

-- The failures since the last success.
unfoldable pub streak : List Handshake → ℕ
streak [] = 0
streak (failed now ∷ es) = streak es + 1
streak (succeeded ∷ es) = 0

-- A rotation for every `n` failures of a run that a success has ended.
unfoldable pub ended : ℕ → List Handshake → ℕ
ended n [] = 0
ended n (failed now ∷ es) = ended n es
ended n (succeeded ∷ es) = ended n es + streak es / n

-- And of the run that goes on.
unfoldable pub rotations : ℕ → List Handshake → ℕ
rotations n es = ended n es + streak es / n

module _ {ℓ} {A : Type ℓ} (r : Rotator A) (positive : 0 < r.adaptive_threshold) where
  -- The rotator `s` stands where the log `es` puts it.
  Follows : List Handshake → Rotator A → Type ℓ
  Follows es s =
      (s.pool ≡ r.pool)
      × (s.strategy ≡ adaptive)
      × (s.adaptive_threshold ≡ r.adaptive_threshold)
      × (s.failures ≡ streak es % r.adaptive_threshold)
      × (s.current_idx ≡ (r.current_idx + rotations r.adaptive_threshold es) % length r.pool)

  is_adaptive : (s : Rotator A) → s.strategy ≡ adaptive → eqb s.strategy adaptive ≡ true
  is_adaptive s q = rw q (eqb_refl adaptive)

  success_Follows :
      (es : List Handshake) (s : Rotator A)
      → Follows es s
      → Follows (succeeded ∷ es) (record_success s)
  unfolding Follows record_success streak rotations ended
  success_Follows es s (p, q, t, f, i) = rw (is_adaptive s q) (
    p,
    q,
    t,
    sym (mod-eq_of_lt positive),
    rw (div-eq_of_lt positive) (i ∙ ap (λ x. (r.current_idx + x) % length r.pool) (omega arith)),
  )

  index_of :
      (x y : ℕ) (s : Rotator A)
      → s.pool ≡ r.pool
      → s.current_idx ≡ (r.current_idx + x) % length r.pool
      → y ≡ x + 1
      → (s.current_idx + 1) % length s.pool ≡ (r.current_idx + y) % length r.pool
  index_of x y s p i e =
      rw (p, i)
        (mod-add-mod (r.current_idx + x) (length r.pool) 1
          ∙ ap (λ z. z % length r.pool) (omega (arith, e)))

  failure_Follows :
      (now : ℕ) (es : List Handshake) (s : Rotator A)
      → Follows es s
      → Follows (failed now ∷ es) (record_failure s now)
  unfolding Follows record_failure streak rotations ended advance Steps
  failure_Follows now es s (p, q, t, f, i) =
      let n = r.adaptive_threshold in
      elim (div_step (streak es) n positive) [
        | inl (below, (m, d)) ↦
            rw
              (is_adaptive s q, not_yet s.adaptive_threshold s.failures (streak es % n) n t f below)
              (p, q, t, omega (arith, f, m), rw d i)
        | inr (top, (m, d)) ↦
            rw (is_adaptive s q, reached s.adaptive_threshold s.failures (streak es % n) n t f top)
              (
                p,
                q,
                t,
                sym m,
                index_of (rotations n es) (ended n es + (streak es + 1) / n) s p i
                    (omega (arith, d)),
              )
      ]

-- `m` failures in a row.
unfoldable pub failing : ℕ → ℕ → List Handshake
failing now zero = []
failing now (suc m) = failed now ∷ failing now m

streak-failing : (now m : ℕ) → streak (failing now m) ≡ m
unfolding streak failing
streak-failing now zero = refl
streak-failing now (suc m) = omega (arith, streak-failing now m)

ended-failing : (n now m : ℕ) → ended n (failing now m) ≡ 0
unfolding ended failing
ended-failing n now zero = refl
ended-failing n now (suc m) = ended-failing n now m

rotations-failing : (n now i : ℕ) → 0 < n → rotations n (failing now (n * i)) ≡ i
unfolding rotations
rotations-failing n now i h =
    rw (ended-failing n now (n * i), streak-failing now (n * i))
      (ap (λ x. 0 + x) (quotient_of 0 (n * i) n i h (omega arith)).1 ∙ omega arith)

first_of : (i m : ℕ) → i < m → 0 < m
first_of i m h = omega (arith, h)

module _ {ℓ} {A : Type ℓ} where
  after_Follows :
      (r : Rotator A) (es : List Handshake) (positive : 0 < r.adaptive_threshold)
      → r.strategy ≡ adaptive
      → r.failures ≡ 0
      → r.current_idx < length r.pool
      → Follows r positive es (after es r)
  unfolding after Follows rotations streak ended
  after_Follows r [] positive q f i = (
    refl,
    q,
    refl,
    f ∙ sym (mod-eq_of_lt positive),
    rw (div-eq_of_lt positive)
        (sym (mod-eq_of_lt (omega (arith, i))) ∙ ap (λ x. x % length r.pool) (omega arith)),
  )
  after_Follows r (failed now ∷ es) positive q f i =
      failure_Follows r positive now es (after es r) (after_Follows r es positive q f i)
  after_Follows r (succeeded ∷ es) positive q f i =
      success_Follows r positive es (after es r) (after_Follows r es positive q f i)

  -- After any sequence of handshakes, a new adaptive rotator has turned once for every
  -- `threshold` failures of each run of failures that no success interrupts, and counts the
  -- failures of the last run beyond that.
  pub adaptive_log :
      (es : List Handshake) (pool : List A) (interval_sec threshold : ℤ) (now : ℕ)
      → 0 < length pool
      → let n = or_default threshold 20 in
        let r = after es (new_rotator pool adaptive interval_sec threshold now) in
        (r.pool ≡ pool)
        × (r.failures ≡ streak es % n)
        × (r.current_idx ≡ rotations n es % length pool)
  unfolding new_rotator Follows eqb
  adaptive_log es pool interval_sec threshold now h =
      let r = new_rotator pool adaptive interval_sec threshold now in
      let (p, q, t, f, i) = after_Follows r es (ground arith) refl refl h in
      (p, f, i ∙ ap (λ x. x % length pool) (omega arith))

  -- The member at `i` in the pool of a new adaptive rotator is the one picked once `i` runs of
  -- `threshold` failures have gone by.
  pub every_member_picked :
      (rnd : Rand) (pool : List A) (interval_sec threshold : ℤ) (now end i k t u : ℕ) (a : A)
      → get_elem? pool i ≡ some a
      → let n = or_default threshold 20 in
        let r =
          after (failing end (n * i)) (new_rotator pool adaptive interval_sec threshold now) in
        pick rnd k t u r ≡ some (a, r)
  unfolding new_rotator pick at_index Follows eqb
  every_member_picked rnd pool interval_sec threshold now end i k t u a h =
      let n = or_default threshold 20 in
      let r = new_rotator pool adaptive interval_sec threshold now in
      let bound = get_elem?_bound pool i a h in
      let (p, q, t, f, j) =
        after_Follows r (failing end (n * i)) (ground arith) refl refl
          (first_of i (length pool) bound) in
      rw (q, p, j, rotations-failing n end i (ground arith), zero-add, mod-eq_of_lt bound, h) refl
