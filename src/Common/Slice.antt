-- ===== src/Common/Slice.antt =====
-- Go slices with their capacity, and the run-time panics of indexing and slicing. The language
-- checks an index against the length, and the upper bound of `s[i:j]` against the capacity.
use phantom_proxy.Common.{
  ℕ, ◌-◌, ◌≤◌, ◌<◌, ◌≡◌, Bool, true, false, ◌&&◌, arith, ltb, leb, if◌then◌else◌, length, get_or,
  take, drop,
}
use phantom_proxy.Common.Bytes.{Bytes}
use phantom_proxy.Common.Result.{Result}

-- A call returns a value, returns an error, or panics.
pub data Outcome {ℓ} (E : Type 0) (A : Type ℓ) : Type ℓ where
  panics : Outcome E A
  err : (error : E) → Outcome E A
  ok : (value : A) → Outcome E A

infixl 5 ◌>>=◌ ◌>>◌
abbrev pub ◌>>=◌ {ℓ κ} :
    {E : Type 0} {A : Type ℓ} {B : Type κ} (first : Outcome E A) (rest : A → Outcome E B)
    → Outcome E B
panics >>= rest = panics
err error >>= rest = err error
ok value >>= rest = rest value

abbrev pub ◌>>◌ {ℓ} :
    {E : Type 0} {B : Type ℓ} (first : Outcome E (Unit {0})) (rest : Outcome E B) → Outcome E B
first >> rest = first >>= λ done. rest

-- `if bad { return e }`
abbrev pub fail_if : {E : Type 0} → Bool → E → Outcome E (Unit {0})
fail_if true e = err e
fail_if false e = ok tt

-- `if err != nil { return wrap(err) }`
abbrev pub or_fail {ℓ} : {E F : Type 0} {A : Type ℓ} → Result E A → (E → F) → Outcome F A
or_fail (Result.ok a) f = ok a
or_fail (Result.err e) f = err (f e)

-- `mem` reaches to the capacity.
pub record Slice : Type 0 where
  pub mem : Bytes
  pub len : ℕ

abbrev pub contents : Slice → Bytes
contents s = take s.len s.mem

-- A slice whose capacity is its length.
abbrev pub exact : Bytes → Slice
exact b = record { mem = b; len = length b }

module _ {E : Type 0} where
  -- `s[i]`
  unfoldable pub at : Slice → ℕ → Outcome E ℕ
  at s i = if ltb i s.len then ok (get_or s.mem i 0) else panics

  -- `s[i:j]`
  unfoldable pub cut : Slice → ℕ → ℕ → Outcome E Slice
  cut s i j =
      if leb i j && leb j (length s.mem)
      then ok (record { mem = drop i s.mem; len = j - i })
      else panics

  -- `s[i:]`
  unfoldable pub from : Slice → ℕ → Outcome E Slice
  from s i = if leb i s.len then ok (record { mem = drop i s.mem; len = s.len - i }) else panics

  -- `s[:j]`
  abbrev pub upto : Slice → ℕ → Outcome E Slice
  upto s j = cut s 0 j

  pub at_ok : (s : Slice) (i : ℕ) → i < s.len → at s i ≡ ok (get_or s.mem i 0)
  unfolding at
  at_ok s i h = ground arith

  pub at_panics : (s : Slice) (i : ℕ) → s.len ≤ i → at s i ≡ panics
  unfolding at
  at_panics s i h = ground arith

  pub cut_ok :
      (s : Slice) (i j : ℕ)
      → i ≤ j
      → j ≤ length s.mem
      → cut s i j ≡ ok (record { mem = drop i s.mem; len = j - i })
  unfolding cut
  cut_ok s i j h k = ground arith

  pub cut_panics : (s : Slice) (i j : ℕ) → length s.mem < j → cut s i j ≡ panics
  unfolding cut
  cut_panics s i j h = ground arith

  pub from_ok :
      (s : Slice) (i : ℕ)
      → i ≤ s.len
      → from s i ≡ ok (record { mem = drop i s.mem; len = s.len - i })
  unfolding from
  from_ok s i h = ground arith
