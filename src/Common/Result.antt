-- ===== src/Common/Result.antt =====
-- Go's `(value, error)` pair, and `io.ReadFull` on a stream whose bytes are those up to its end.
use phantom_proxy.Common.{
  ℕ, ◌<◌, ◌≤◌, ◌≡◌, refl, sym, ◌∙◌, ◌⊎◌, inl, inr, [], ◌∷◌, ◌++◌, arith, ltb, lt→ltb, le→ltb,
  if◌then◌else◌, length, length-append, take, drop, Bool, true, false, take-append-drop,
  length-take,
}
use phantom_proxy.Common.Bytes.{Bytes, take-append, drop-append}

pub data Result {ℓ} (E : Type 0) (A : Type ℓ) : Type ℓ where
  err : (error : E) → Result E A
  ok : (value : A) → Result E A

infixl 5 ◌>>=◌ ◌>>◌
abbrev pub ◌>>=◌ {ℓ κ} :
    {E : Type 0} {A : Type ℓ} {B : Type κ} (first : Result E A) (rest : A → Result E B) → Result E B
err error >>= rest = err error
ok value >>= rest = rest value

abbrev pub ◌>>◌ {ℓ} :
    {E : Type 0} {B : Type ℓ} (first : Result E (Unit {0})) (rest : Result E B) → Result E B
first >> rest = first >>= λ done. rest

-- `if bad { return e }`
abbrev pub fail_if : {E : Type 0} → Bool → E → Result E (Unit {0})
fail_if true e = err e
fail_if false e = ok tt

pub Result-cases {ℓ} :
    {E : Type 0} {A : Type ℓ} (r : Result E A) → ((a : A) × (r ≡ ok a)) ⊎ ((e : E) × (r ≡ err e))
Result-cases (ok a) = inl (a, refl)
Result-cases (err e) = inr (e, refl)

-- The stream ends before the first byte, or inside the bytes asked for.
pub data ReadError : Type 0 where
  eof unexpected_eof : ReadError

unfoldable pub short_read : Bytes → ReadError
short_read [] = eof
short_read (_ ∷ _) = unexpected_eof

-- `io.ReadFull(r, make([]byte, n))`: the bytes, and what is left of the stream.
unfoldable pub read_full : ℕ → Bytes → Result ReadError (Bytes × Bytes)
read_full n input =
    if ltb (length input) n then err (short_read input) else ok (take n input, drop n input)

pub read_full_exact : (xs rest : Bytes) → read_full (length xs) (xs ++ rest) ≡ ok (xs, rest)
unfolding read_full
read_full_exact xs rest =
    rw (le→ltb (length (xs ++ rest)) (length xs) (omega (arith, length-append xs rest)))
      (rw (take-append xs rest, drop-append xs rest))

-- A stream that has ended gives `io.EOF`.
pub read_full_end : (n : ℕ) → 0 < n → read_full n [] ≡ err eof
unfolding read_full short_read
read_full_end n h = rw (lt→ltb 0 n h)

pub read_full_short :
    (n : ℕ) (input : Bytes) → length input < n → read_full n input ≡ err (short_read input)
unfolding read_full
read_full_short n input h = rw (lt→ltb (length input) n h) refl

pub read_full_long :
    (n : ℕ) (input : Bytes) → n ≤ length input → read_full n input ≡ ok (take n input, drop n input)
unfolding read_full
read_full_long n input h = rw (le→ltb (length input) n h) refl

-- A successful read takes exactly `n` bytes from the front.
pub read_full_splits :
    (n : ℕ) (input xs rest : Bytes)
    → read_full n input ≡ ok (xs, rest)
    → (input ≡ xs ++ rest) × (length xs ≡ n)
unfolding read_full
read_full_splits n input xs rest h = ground (arith, take-append-drop n input, length-take n input)

-- A call that is known to succeed, against another account of what it returns.
module _ {ℓ} {E : Type 0} {A : Type ℓ} where
  refute {κ} : {B : Type κ} {a : A} (e : E) → err e ≡ Result.ok a → B
  refute e h = cc

  value_of : {a : A} (b : A) → ◌≡◌ {A = Result E A} (ok b) (ok a) → b ≡ a
  value_of b h = cc

  pub not_err {κ} : {B : Type κ} {r : Result E A} {a : A} → r ≡ ok a → (e : E) → r ≡ err e → B
  not_err h e k = refute e (sym k ∙ h)

  pub same_ok : {r : Result E A} {a : A} → r ≡ ok a → (b : A) → r ≡ ok b → b ≡ a
  same_ok h b k = value_of b (sym k ∙ h)
