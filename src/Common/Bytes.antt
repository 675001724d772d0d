-- ===== src/Common/Bytes.antt =====
-- Byte slices, Go strings (which are bytes), and the fixed width integers of encoding/binary.
use native.Mathlib.Nat.{zero-add, suc-add}
use Prim.Native.Char.{code}
use Prim.Native.String.{String}
use phantom_proxy.Common.{
  ℕ, zero, suc, ◌+◌, ◌-◌, ◌*◌, ◌/◌, ◌%◌, ◌^◌, ◌≤◌, ◌<◌, ◌≡◌, refl, ◌↔◌, Bool, true, false, ◌&&◌,
  List, [], ◌∷◌, ◌++◌, append_assoc, arith, ◌==◌, length, take, drop, get_or,
}

abbrev pub Bytes : Type 0
Bytes = List ℕ

abbrev pub IsByte : ℕ → Type 0
IsByte b = b < 256

-- Each member has the property.
abbrev pub All {ℓ κ} : {X : Type ℓ} (Q : X → Type κ) → List X → Type κ
All Q (y ∷ ys) = Q y × All Q ys
All Q [] = Unit

-- The bytes of an ASCII literal. `String` has its own `[]` and `∷`.
abbrev pub codes : String → Bytes
codes (String.◌∷◌ letter text) = code letter ∷ codes text
codes String.[] = []

-- `a == b` on Go strings, and `bytes.Equal`.
unfoldable pub eqb : Bytes → Bytes → Bool
eqb [] [] = true
eqb (x ∷ xs) (y ∷ ys) = x == y && eqb xs ys
eqb _ _ = false

pub eqb_iff : (a b : Bytes) → (eqb a b ≡ true) ↔ (a ≡ b)
unfolding eqb
eqb_iff (x ∷ a) (y ∷ b) = ground (arith, eqb_iff a b)
eqb_iff _ _ = ground arith

pub eqb_refl : (a : Bytes) → eqb a a ≡ true
eqb_refl a = (eqb_iff a a).1 refl

-- `s[i:j]` for `i ≤ j ≤ len(s)`; the callers test the bounds.
abbrev pub slice : ℕ → ℕ → Bytes → Bytes
slice i j s = take (j - i) (drop i s)

unfoldable pub zeros : ℕ → Bytes
zeros zero = []
zeros (suc n) = 0 ∷ zeros n

-- `binary.BigEndian.PutUint16`, `PutUint32` and `PutUint64` on a number that fits.
unfoldable pub be16 : ℕ → Bytes
be16 n = n / 256 % 256 ∷ n % 256 ∷ []

unfoldable pub be32 : ℕ → Bytes
be32 n = n / 2 ^ 24 % 256 ∷ n / 2 ^ 16 % 256 ∷ n / 256 % 256 ∷ n % 256 ∷ []

unfoldable pub be64 : ℕ → Bytes
be64 n = be32 (n / 2 ^ 32 % 2 ^ 32) ++ be32 (n % 2 ^ 32)

-- `binary.LittleEndian.PutUint16` and `PutUint32`.
unfoldable pub le16 : ℕ → Bytes
le16 n = n % 256 ∷ n / 256 % 256 ∷ []

unfoldable pub le32 : ℕ → Bytes
le32 n = n % 256 ∷ n / 256 % 256 ∷ n / 2 ^ 16 % 256 ∷ n / 2 ^ 24 % 256 ∷ []

-- `Uint16` and `Uint32` of both orders. On a shorter slice Go panics, and the callers pass
-- slices of two and of four bytes.
unfoldable pub from_be16 : Bytes → ℕ
from_be16 (a ∷ b ∷ _) = a * 256 + b
from_be16 _ = 0

unfoldable pub from_be32 : Bytes → ℕ
from_be32 (a ∷ b ∷ c ∷ d ∷ _) = a * 2 ^ 24 + b * 2 ^ 16 + c * 256 + d
from_be32 _ = 0

unfoldable pub from_le16 : Bytes → ℕ
from_le16 (a ∷ b ∷ _) = a + b * 256
from_le16 _ = 0

unfoldable pub from_le32 : Bytes → ℕ
from_le32 (a ∷ b ∷ c ∷ d ∷ _) = a + b * 256 + c * 2 ^ 16 + d * 2 ^ 24
from_le32 _ = 0

pub from_be16-be16 : (n : ℕ) (r : Bytes) → n < 2 ^ 16 → from_be16 (be16 n ++ r) ≡ n
unfolding from_be16 be16
from_be16-be16 n r h = omega arith

pub from_be32-be32 : (n : ℕ) (r : Bytes) → n < 2 ^ 32 → from_be32 (be32 n ++ r) ≡ n
unfolding from_be32 be32
from_be32-be32 n r h = omega arith

pub from_le16-le16 : (n : ℕ) (r : Bytes) → n < 2 ^ 16 → from_le16 (le16 n ++ r) ≡ n
unfolding from_le16 le16
from_le16-le16 n r h = omega arith

pub from_le32-le32 : (n : ℕ) (r : Bytes) → n < 2 ^ 32 → from_le32 (le32 n ++ r) ≡ n
unfolding from_le32 le32
from_le32-le32 n r h = omega arith

pub length-zeros : (n : ℕ) → length (zeros n) ≡ n
unfolding zeros
length-zeros zero = refl
length-zeros (suc n) = omega (arith, length-zeros n)

-- Cutting a slice at the end of its first part.
pub take-append {ℓ} : {A : Type ℓ} (xs ys : List A) → take (length xs) (xs ++ ys) ≡ xs
take-append [] ys = refl
take-append (x ∷ xs) ys = rw (take-append xs ys)

pub drop-append {ℓ} : {A : Type ℓ} (xs ys : List A) → drop (length xs) (xs ++ ys) ≡ ys
drop-append [] ys = refl
drop-append (x ∷ xs) ys = drop-append xs ys

pub take_all {ℓ} : {A : Type ℓ} (n : ℕ) (xs : List A) → length xs ≤ n → take n xs ≡ xs
take_all zero [] h = refl
take_all zero (x ∷ xs) h = absurd (omega arith)
take_all (suc n) [] h = refl
take_all (suc n) (x ∷ xs) h = rw (take_all n xs (omega arith))

pub take-add {ℓ} :
    {A : Type ℓ} (m n : ℕ) (xs : List A) → take m xs ++ take n (drop m xs) ≡ take (m + n) xs
take-add zero n xs = rw zero-add
take-add (suc m) zero [] = rw suc-add
take-add (suc m) (suc n) [] = rw suc-add
take-add (suc m) n (x ∷ xs) = rw suc-add (rw (take-add m n xs))

abbrev pub flatten {ℓ} : {A : Type ℓ} → List (List A) → List A
flatten [] = []
flatten (x ∷ xs) = x ++ flatten xs

pub flatten-append {ℓ} :
    {A : Type ℓ} (xs ys : List (List A)) → flatten (xs ++ ys) ≡ flatten xs ++ flatten ys
flatten-append [] ys = refl
flatten-append (x ∷ xs) ys = rw (flatten-append xs ys, append_assoc)

-- The same with the length given by an equation.
module _ {ℓ} {A : Type ℓ} where
  pub take_front : (n : ℕ) (xs ys : List A) → n ≡ length xs → take n (xs ++ ys) ≡ xs
  take_front n xs ys e = rw e (take-append xs ys)

  pub drop_front : (n : ℕ) (xs ys : List A) → n ≡ length xs → drop n (xs ++ ys) ≡ ys
  drop_front n xs ys e = rw e (drop-append xs ys)

  pub get_or-append :
      (n : ℕ) (xs ys : List A) (d : A) → n ≡ length xs → get_or (xs ++ ys) n d ≡ get_or ys 0 d
  get_or-append n [] ys d e = rw e
  get_or-append n (x ∷ xs) ys d e = rw e (get_or-append (length xs) xs ys d refl)

  pub drop-add : (m n : ℕ) (xs : List A) → drop (m + n) xs ≡ drop n (drop m xs)
  drop-add zero n xs = rw zero-add
  drop-add (suc m) zero [] = rw suc-add
  drop-add (suc m) (suc n) [] = rw suc-add
  drop-add (suc m) n (x ∷ xs) = rw suc-add (drop-add m n xs)

  pub drop-append_le :
      (n : ℕ) (xs ys : List A) → n ≤ length xs → drop n (xs ++ ys) ≡ drop n xs ++ ys
  drop-append_le zero xs ys h = refl
  drop-append_le (suc n) [] ys h = absurd (omega arith)
  drop-append_le (suc n) (x ∷ xs) ys h = drop-append_le n xs ys (omega arith)

  pub get_or-drop : (n : ℕ) (xs : List A) (d : A) → get_or xs n d ≡ get_or (drop n xs) 0 d
  get_or-drop zero xs d = refl
  get_or-drop (suc n) [] d = refl
  get_or-drop (suc n) (x ∷ xs) d = get_or-drop n xs d
