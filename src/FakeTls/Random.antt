-- ===== src/FakeTls/Random.antt =====
-- internal/faketls/rand.go: `randInt` over the system's source of randomness.
use phantom_proxy.Common.{
  ℕ, ◌<◌, ◌≡◌, inl, inr, Option, none, some, arith, leb, if◌then◌else◌, Option-cases,
}

-- crypto/rand's `rand.Int(rand.Reader, max)`: its answer to the k-th call, `none` if the source
-- fails. It documents a value in [0, max).
pub record Rand : Type 0 where
  pub int : ℕ → ℕ → Option ℕ
  pub int-lt : (k m n : ℕ) → int k m ≡ some n → n < m

-- `none` is an error of the source.
or_zero : Option ℕ → ℕ
or_zero none = 0
or_zero (some n) = n

module _ (rnd : Rand) where
  pub rand_int : ℕ → ℕ → ℕ
  rand_int k m = if leb m 0 then 0 else or_zero (rnd.int k m)

  pub rand_int-lt : (k m : ℕ) → 0 < m → rand_int k m < m
  unfolding rand_int or_zero
  rand_int-lt k m h = elim (Option-cases (rnd.int k m)) [
    | inl e ↦ ground arith
    | inr (n, e) ↦ ground (arith, rnd.int-lt k m n e)
  ]
