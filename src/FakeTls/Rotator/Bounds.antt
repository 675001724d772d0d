-- ===== src/FakeTls/Rotator/Bounds.antt =====
-- The index of a rotator and its members. About: new_rotator, pick, record_failure, record_success.
use phantom_proxy.Common.{
  ℕ, zero, suc, ◌+◌, ◌<◌, ◌≡◌, refl, ◌∙◌, subst, inl, inr, Option, none, some, List, [], ◌∷◌, ◌++◌,
  arith, leb, Bool-cases, length, get_elem?,
}
use phantom_proxy.Common.Int.{ℤ}
use phantom_proxy.Common.Bytes.{Bytes, All, eqb}
use phantom_proxy.FakeTls.Random.{Rand, rand_int, rand_int-lt}
use phantom_proxy.FakeTls.Rotator.{
  Rotator, new_rotator, pick, record_failure, record_success, at_index, advance, is_due, time_based,
  adaptive,
}
use mathlib.Core.List.{Memᴰ}
use mathlib.Core.Option.{none-ne-some}
use native.Mathlib.Nat.{mod-lt}

abbrev pub IsValid {ℓ} : {A : Type ℓ} → Rotator A → Type 0
IsValid r = (r.current_idx < length r.pool) × (r.failures < r.adaptive_threshold)

module _ {ℓ} {A : Type ℓ} where
  pub get_elem?_lt :
      (xs : List A) (i : ℕ) → i < length xs → (a : A) × ((get_elem? xs i ≡ some a) × Memᴰ a xs)
  get_elem?_lt [] i h = absurd (omega (arith, h))
  get_elem?_lt (x ∷ xs) zero h = (x, (refl, Memᴰ.head refl))
  get_elem?_lt (x ∷ xs) (suc i) h =
      let (a, (e, m)) = get_elem?_lt xs i (omega (arith, h)) in (a, (e, Memᴰ.tail m))

  pub get_elem?_bound : (xs : List A) (i : ℕ) (a : A) → get_elem? xs i ≡ some a → i < length xs
  get_elem?_bound [] i a h = absurd (none-ne-some a h)
  get_elem?_bound (x ∷ xs) zero a h = omega arith
  get_elem?_bound (x ∷ xs) (suc i) a h = omega (arith, get_elem?_bound xs i a h)

  pub new_rotator-IsValid :
      (pool : List A) (strategy : Bytes) (interval_sec threshold : ℤ) (now : ℕ)
      → 0 < length pool
      → IsValid (new_rotator pool strategy interval_sec threshold now)
  unfolding new_rotator
  new_rotator-IsValid pool strategy interval_sec threshold now h = (h, ground arith)

  advance-lt : (r : Rotator A) (now : ℕ) → IsValid r → (advance r now).current_idx < length r.pool
  unfolding advance
  advance-lt r now (h, _) = mod-lt (r.current_idx + 1) (omega (arith, h))

  -- What an operation keeps.
  unfoldable pub Keeps : Rotator A → Rotator A → Type ℓ
  Keeps r s = (s.pool ≡ r.pool) × IsValid s

  advance-Keeps : (r : Rotator A) (now : ℕ) → IsValid r → Keeps r (advance r now)
  unfolding advance Keeps
  advance-Keeps r now h = (refl, (mod-lt (r.current_idx + 1) (omega (arith, h.0)), h.1))

  pub record_failure-Keeps : (r : Rotator A) (now : ℕ) → IsValid r → Keeps r (record_failure r now)
  unfolding record_failure advance Keeps
  record_failure-Keeps r now h = elim (Bool-cases (eqb r.strategy adaptive)) [
    | inr e ↦ rw e (refl, h)
    | inl e ↦ rw e (elim (Bool-cases (leb r.adaptive_threshold (r.failures + 1))) [
      | inl t ↦ rw t (refl, (mod-lt (r.current_idx + 1) (omega (arith, h.0)), omega (arith, h.1)))
      | inr t ↦ rw t (refl, (h.0, ground (arith, t)))
    ])
  ]

  pub record_success-Keeps : (r : Rotator A) → IsValid r → Keeps r (record_success r)
  unfolding record_success Keeps
  record_success-Keeps r h = elim (Bool-cases (eqb r.strategy adaptive)) [
    | inr e ↦ rw e (refl, h)
    | inl e ↦ rw e (refl, (h.0, omega (arith, h.1)))
  ]

  -- A pick that is answered by a member of the pool.
  unfoldable pub Answers : Rotator A → Option (A × Rotator A) → Type ℓ
  Answers r o = (a : A) × (s : Rotator A) × (o ≡ some (a, s)) × Memᴰ a r.pool × Keeps r s

  at_index-Answers :
      (r s : Rotator A) (i : ℕ) → Keeps r s → i < length r.pool → Answers r (at_index s i)
  unfolding Answers at_index Keeps
  at_index-Answers r s i h k =
      let (a, (e, m)) = get_elem?_lt r.pool i k in (a, s, rw (h.0, e) refl, m, h)

  Keeps-lt : (r s : Rotator A) → Keeps r s → s.current_idx < length r.pool
  unfolding Keeps
  Keeps-lt r s (e, h) = subst (λ xs. s.current_idx < length xs) e h.0

  Keeps-trans : (r s t : Rotator A) → Keeps r s → Keeps s t → Keeps r t
  unfolding Keeps
  Keeps-trans r s t (e, _) (f, h) = (f ∙ e, h)

  Keeps-refl : (r : Rotator A) → IsValid r → Keeps r r
  unfolding Keeps
  Keeps-refl r h = (refl, h)

-- What happens to a rotator: the end of a handshake, or a pick.
pub data Event : Type 0 where
  failed : (now : ℕ) → Event
  succeeded : Event
  picked : (k now later : ℕ) → Event

module _ {ℓ} {A : Type ℓ} (rnd : Rand) where
  pub pick-Answers :
      (k now later : ℕ) (r : Rotator A) → IsValid r → Answers r (pick rnd k now later r)
  unfolding pick
  pick-Answers k now later r h =
      let turned = advance-Keeps r later h in
      let same = Keeps-refl r h in
      elim (Bool-cases (eqb r.strategy time_based)) [
        | inl e ↦ rw e (elim (Bool-cases (is_due r now)) [
          | inl d ↦ rw d (
              at_index-Answers r (advance r later) (advance r later).current_idx turned
                (Keeps-lt r (advance r later) turned))
          | inr d ↦ rw d (at_index-Answers r r r.current_idx same h.0)
        ])
        | inr e ↦ rw e (elim (Bool-cases (eqb r.strategy adaptive)) [
          | inl d ↦ rw d (at_index-Answers r r r.current_idx same h.0)
          | inr d ↦ rw d (
              at_index-Answers r r (rand_int rnd k (length r.pool)) same
                (rand_int-lt rnd k (length r.pool) (omega (arith, h.0))))
        ])
      ]

  answered : Option (A × Rotator A) → Option (List A × Rotator A)
  answered none = none
  answered (some (a, r)) = some (a ∷ [], r)

  -- One event: the members picked, and the rotator.
  unfoldable pub happen : Event → Rotator A → Option (List A × Rotator A)
  unfolding answered
  happen (failed now) r = some ([], record_failure r now)
  happen succeeded r = some ([], record_success r)
  happen (picked k now later) r = answered (pick rnd k now later r)

  behind : List A → Option (List A × Rotator A) → Option (List A × Rotator A)
  behind xs none = none
  behind xs (some (ys, r)) = some (xs ++ ys, r)

  followed :
      Option (List A × Rotator A)
      → (Rotator A → Option (List A × Rotator A))
      → Option (List A × Rotator A)
  unfolding behind
  followed none rest = none
  followed (some (xs, r)) rest = behind xs (rest r)

  unfoldable pub run : List Event → Rotator A → Option (List A × Rotator A)
  unfolding followed behind
  run [] r = some ([], r)
  run (e ∷ es) r = followed (happen e r) (run es)

  -- A result whose members come from the pool of `r`.
  Sound : Rotator A → Option (List A × Rotator A) → Type ℓ
  Sound r o =
      (xs : List A) × (s : Rotator A) × (o ≡ some (xs, s)) × All (λ a. Memᴰ a r.pool) xs × Keeps r s

  happen-Sound : (e : Event) (r : Rotator A) → IsValid r → Sound r (happen e r)
  unfolding happen Sound answered Answers
  happen-Sound (failed now) r h = ([], record_failure r now, refl, tt, record_failure-Keeps r now h)
  happen-Sound succeeded r h = ([], record_success r, refl, tt, record_success-Keeps r h)
  happen-Sound (picked k now later) r h =
      let (a, s, e, m, v) = pick-Answers k now later r h in (a ∷ [], s, rw e refl, (m, tt), v)

  All-append : (Q : A → Type ℓ) (xs ys : List A) → All Q xs → All Q ys → All Q (xs ++ ys)
  All-append Q [] ys h k = k
  All-append Q (x ∷ xs) ys (q, h) k = (q, All-append Q xs ys h k)

  run-Sound : (es : List Event) (r : Rotator A) → IsValid r → Sound r (run es r)
  unfolding run Sound followed behind Keeps
  run-Sound [] r h = ([], r, refl, tt, (refl, h))
  run-Sound (e ∷ es) r h =
      let (xs, s, p, m, v) = happen-Sound e r h in
      let (ys, t, q, n, w) = run-Sound es s v.1 in
      (
        xs ++ ys,
        t,
        rw (p, q) refl,
        All-append (λ a. Memᴰ a r.pool) xs ys m (subst (λ pool. All (λ a. Memᴰ a pool) ys) v.0 n),
        (w.0 ∙ v.0, w.1),
      )

  -- A new rotator with a pool that has members answers every pick, in any sequence of picks,
  -- failures and successes, with a member of the pool, and its index stays inside the pool.
  pub picks_from_pool :
      (es : List Event) (pool : List A) (strategy : Bytes) (interval_sec threshold : ℤ) (now : ℕ)
      → 0 < length pool
      → (xs : List A) × (r : Rotator A) × (run es
            (new_rotator pool strategy interval_sec threshold now)
          ≡ some (xs, r))
        × All (λ a. Memᴰ a pool) xs
        × ((r.pool ≡ pool) × IsValid r)
  unfolding Sound Keeps new_rotator
  picks_from_pool es pool strategy interval_sec threshold now h =
      run-Sound es (new_rotator pool strategy interval_sec threshold now)
        (new_rotator-IsValid pool strategy interval_sec threshold now h)
