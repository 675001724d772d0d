-- ===== src/FakeTls/Rotator/Steps.antt =====
-- Quotient and remainder, one number further: how often a count has come round.
use phantom_proxy.Common.{
  ℕ, ◌+◌, ◌*◌, ◌/◌, ◌%◌, ◌<◌, ◌≡◌, ap, ◌∙◌, ◌⊎◌, inl, inr, true, false, arith, ltb, leb, ltb→lt,
  Bool-cases,
}
use native.Mathlib.Nat.{
  mod-lt, mod-add-div, mod-eq_of_lt, add-mul-mod_self_left, mul-suc, div-eq_of_lt, add-mul-div_left,
}

-- What one more failure does to the quotient and the remainder.
unfoldable pub Steps : ℕ → ℕ → Type 0
Steps m n =
    ((m % n + 1 < n) × (((m + 1) % n ≡ m % n + 1) × ((m + 1) / n ≡ m / n)))
    ⊎ ((m % n + 1 ≡ n) × (((m + 1) % n ≡ 0) × ((m + 1) / n ≡ m / n + 1)))

pub quotient_of : (k m n q : ℕ) → k < n → m ≡ k + n * q → (m % n ≡ k) × (m / n ≡ q)
quotient_of k m n q h e = (
  rw e (add-mul-mod_self_left k n q ∙ mod-eq_of_lt h),
  rw e (add-mul-div_left k q (omega (arith, h)) ∙ ap (λ x. x + q) (div-eq_of_lt h) ∙ omega arith),
)

top_of : (k n : ℕ) → k < n → ltb (k + 1) n ≡ false → k + 1 ≡ n
top_of k n h t = ground (arith, t)

pub div_step : (m n : ℕ) → 0 < n → Steps m n
unfolding Steps
div_step m n h = elim (Bool-cases (ltb (m % n + 1) n)) [
  | inl t ↦
      let below = ltb→lt (m % n + 1) n t in
      inl (below, quotient_of (m % n + 1) (m + 1) n (m / n) below (omega (arith, mod-add-div m n)))
  | inr t ↦
      let top = top_of (m % n) n (mod-lt m h) t in
      inr (
        top,
        quotient_of 0 (m + 1) n (m / n + 1) h
            (omega (arith, mod-add-div m n, mul-suc n (m / n), top)),
      )
]

pub not_yet : (a b k n : ℕ) → a ≡ n → b ≡ k → k + 1 < n → leb a (b + 1) ≡ false
not_yet a b k n e f h = ground arith

pub reached : (a b k n : ℕ) → a ≡ n → b ≡ k → k + 1 ≡ n → leb a (b + 1) ≡ true
reached a b k n e f h = ground arith
