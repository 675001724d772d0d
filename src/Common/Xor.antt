-- ===== src/Common/Xor.antt =====
-- Exclusive or, of numbers by their binary digits and of byte slices byte by byte: what
-- `XORKeyStream` does with a key stream, and the HMAC checks do with a digest.
use phantom_proxy.Common.{
  ℕ, zero, suc, ◌+◌, ◌*◌, ◌/◌, ◌%◌, ◌^◌, ◌≤◌, ◌<◌, min, ◌≡◌, refl, sym, ap, ◌∙◌, [], ◌∷◌, ◌++◌,
  arith, length, get_or, take, drop,
}
use Prim.Native.Nat.{digits, differ, bit_xor, bit_xor-bitwise}
use mathlib.Core.Path.{ap₂}
use native.Mathlib.Nat.{pow-suc, mul_comm, div-div-eq-div-mul, div-add-mod, div-one, mod-one}
use phantom_proxy.Common.Bytes.{Bytes, IsByte, All, le32, from_le32, zeros}

-- The count of digits to go may be any that is enough.
abbrev xor_digits : ℕ → ℕ → ℕ → ℕ
xor_digits n a b = digits (λ y. y) differ n a b

xor_digits_enough : (n m a b : ℕ) → a ≤ n → a ≤ m → xor_digits n a b ≡ xor_digits m a b
xor_digits_enough zero zero a b p q = refl
xor_digits_enough zero (suc m) zero b p q = refl
xor_digits_enough zero (suc m) (suc a) b p q = absurd (omega arith)
xor_digits_enough (suc n) zero zero b p q = refl
xor_digits_enough (suc n) zero (suc a) b p q = absurd (omega arith)
xor_digits_enough (suc n) (suc m) zero b p q = refl
xor_digits_enough (suc n) (suc m) (suc a) b p q =
    rw (xor_digits_enough n m (suc a / 2) (b / 2) (omega arith) (omega arith))

differ_bits : (x y : ℕ) → x < 2 → y < 2 → differ x y ≡ (x + y) % 2
differ_bits zero y h k = omega arith
differ_bits (suc zero) zero h k = refl
differ_bits (suc zero) (suc zero) h k = refl
differ_bits (suc zero) (suc (suc y)) h k = absurd (omega arith)
differ_bits (suc (suc x)) y h k = absurd (omega arith)

-- The lowest digit, and the others.
pub bit_xor_step : (a b : ℕ) → bit_xor a b ≡ bit_xor (a / 2) (b / 2) * 2 + (a % 2 + b % 2) % 2
bit_xor_step zero b = simp bit_xor-bitwise (omega arith)
bit_xor_step (suc a) b = simp bit_xor-bitwise (
    omega (
      arith,
      xor_digits_enough a (suc a / 2) (suc a / 2) (b / 2) (omega arith) (omega arith),
      differ_bits (suc a % 2) (b % 2) (omega arith) (omega arith),
    ))

xor_cancel_below : (n a b : ℕ) → a ≤ n → b ≤ n → bit_xor (bit_xor a b) b ≡ a
xor_cancel_below zero zero zero p q = refl
xor_cancel_below zero zero (suc b) p q = absurd (omega arith)
xor_cancel_below zero (suc a) b p q = absurd (omega arith)
xor_cancel_below (suc n) a b p q =
    let halves = bit_xor_step a b in
    let low : bit_xor a b / 2 ≡ bit_xor (a / 2) (b / 2) = omega arith in
    omega (
      arith,
      halves,
      bit_xor_step (bit_xor a b) b,
      rw (← low) at (xor_cancel_below n (a / 2) (b / 2) (omega arith) (omega arith)),
    )

pub xor_cancel : (a b : ℕ) → bit_xor (bit_xor a b) b ≡ a
xor_cancel a b = xor_cancel_below (a + b) a b (omega arith) (omega arith)

-- One place at a time: the digits from place `k + 1` on, and those below it.
shift_place : (k a : ℕ) → a / 2 ^ suc k ≡ a / 2 / 2 ^ k
shift_place k a = rw (pow-suc 2 k, mul_comm (2 ^ k) 2) (sym (div-div-eq-div-mul a 2 (2 ^ k)))

low_places : (k a : ℕ) → a % 2 ^ suc k ≡ a / 2 % 2 ^ k * 2 + a % 2
low_places k a = omega (
  arith,
  pow-suc 2 k,
  div-add-mod a (2 ^ suc k),
  ap (λ (t : ℕ). t * (a / 2 ^ suc k)) (pow-suc 2 k),
  ap (λ (t : ℕ). 2 ^ k * 2 * t) (shift_place k a),
  div-add-mod (a / 2) (2 ^ k),
)

bit_xor_half : (a b : ℕ) → bit_xor a b / 2 ≡ bit_xor (a / 2) (b / 2)
bit_xor_half a b = omega (arith, bit_xor_step a b)

pub bit_xor-div : (k a b : ℕ) → bit_xor a b / 2 ^ k ≡ bit_xor (a / 2 ^ k) (b / 2 ^ k)
bit_xor-div zero a b = omega (arith, ap₂ bit_xor (div-one a) (div-one b))
bit_xor-div (suc k) a b =
    rw (shift_place k a, shift_place k b, shift_place k (bit_xor a b), bit_xor_half a b)
      (bit_xor-div k (a / 2) (b / 2))

pub bit_xor-mod : (k a b : ℕ) → bit_xor a b % 2 ^ k ≡ bit_xor (a % 2 ^ k) (b % 2 ^ k)
bit_xor-mod zero a b = omega (arith, ap₂ bit_xor (mod-one a) (mod-one b))
bit_xor-mod (suc k) a b =
    let l = low_places k a in
    let r = low_places k b in
    let la : a % 2 ^ suc k / 2 ≡ a / 2 % 2 ^ k = omega arith in
    let lb : b % 2 ^ suc k / 2 ≡ b / 2 % 2 ^ k = omega arith in
    omega (
      arith,
      low_places k (bit_xor a b),
      bit_xor_step a b,
      ap (λ (t : ℕ). t % 2 ^ k) (bit_xor_half a b),
      bit_xor-mod k (a / 2) (b / 2),
      bit_xor_step (a % 2 ^ suc k) (b % 2 ^ suc k),
      ap₂ bit_xor la lb,
    )

pub bit_xor-IsByte : (a b : ℕ) → IsByte a → IsByte b → IsByte (bit_xor a b)
bit_xor-IsByte a b h k =
    let fixed : bit_xor (a % 2 ^ 8) (b % 2 ^ 8) ≡ bit_xor a b =
      ap₂ bit_xor (omega arith) (omega arith) in
    omega (arith, bit_xor-mod 8 a b)

zero-bit_xor : (a : ℕ) → bit_xor 0 a ≡ a
zero-bit_xor a = bit_xor-bitwise 0 a

xor_self : (a : ℕ) → bit_xor a a ≡ 0
xor_self a = ap (λ (t : ℕ). bit_xor t a) (sym (zero-bit_xor a)) ∙ xor_cancel 0 a

-- `dst[i] = a[i] ^ b[i]` over the shorter of the two.
unfoldable pub xor_bytes : Bytes → Bytes → Bytes
xor_bytes (a ∷ xs) (b ∷ ys) = bit_xor a b ∷ xor_bytes xs ys
xor_bytes _ _ = []

pub length-xor_bytes : (xs ys : Bytes) → length (xor_bytes xs ys) ≡ min (length xs) (length ys)
unfolding xor_bytes
length-xor_bytes (a ∷ xs) (b ∷ ys) = omega (arith, length-xor_bytes xs ys)
length-xor_bytes [] ys = omega arith
length-xor_bytes (a ∷ xs) [] = omega arith

pub xor_bytes_cancel : (xs ys : Bytes) → length xs ≤ length ys → xor_bytes (xor_bytes xs ys) ys ≡ xs
unfolding xor_bytes
xor_bytes_cancel [] ys h = refl
xor_bytes_cancel (a ∷ xs) [] h = absurd (omega arith)
xor_bytes_cancel (a ∷ xs) (b ∷ ys) h =
    ap₂ ◌∷◌ (xor_cancel a b) (xor_bytes_cancel xs ys (omega arith))

pub xor_bytes_self : (xs : Bytes) → xor_bytes xs xs ≡ zeros (length xs)
unfolding xor_bytes zeros
xor_bytes_self [] = refl
xor_bytes_self (a ∷ xs) = ap₂ ◌∷◌ (xor_self a) (xor_bytes_self xs)

xor_comm_below : (n a b : ℕ) → a ≤ n → b ≤ n → bit_xor a b ≡ bit_xor b a
xor_comm_below zero zero zero p q = refl
xor_comm_below zero zero (suc b) p q = absurd (omega arith)
xor_comm_below zero (suc a) b p q = absurd (omega arith)
xor_comm_below (suc n) a b p q = omega (
  arith,
  bit_xor_step a b,
  bit_xor_step b a,
  xor_comm_below n (a / 2) (b / 2) (omega arith) (omega arith),
)

pub bit_xor_comm : (a b : ℕ) → bit_xor a b ≡ bit_xor b a
bit_xor_comm a b = xor_comm_below (a + b) a b (omega arith) (omega arith)

-- The mask found again from the masked number.
pub xor_mask : (a b : ℕ) → bit_xor a (bit_xor a b) ≡ b
xor_mask a b =
    bit_xor_comm a (bit_xor a b) ∙ ap (λ (t : ℕ). bit_xor t a) (bit_xor_comm a b) ∙ xor_cancel b a

pub eq_of_xor : (a b : ℕ) → bit_xor a b ≡ 0 → a ≡ b
eq_of_xor a b e = sym (xor_cancel a b) ∙ ap (λ (t : ℕ). bit_xor t b) e ∙ zero-bit_xor b

-- One byte of an exclusive or, at bit `k`.
byte_of_xor :
    (k a b : ℕ) → bit_xor a b / 2 ^ k % 2 ^ 8 ≡ bit_xor (a / 2 ^ k % 2 ^ 8) (b / 2 ^ k % 2 ^ 8)
byte_of_xor k a b =
    ap (λ (t : ℕ). t % 2 ^ 8) (bit_xor-div k a b) ∙ bit_xor-mod 8 (a / 2 ^ k) (b / 2 ^ k)

-- `PutUint32(b, Uint32(b) ^ t)`, then an exclusive or with the old bytes: the bytes of `t`.
pub xor_bytes-le32 :
    (a b c d t : ℕ)
    → All IsByte (a ∷ b ∷ c ∷ d ∷ [])
    → t < 2 ^ 32
    → xor_bytes (a ∷ b ∷ c ∷ d ∷ []) (le32 (bit_xor (from_le32 (a ∷ b ∷ c ∷ d ∷ [])) t)) ≡ le32 t
unfolding xor_bytes le32 from_le32
xor_bytes-le32 a b c d t h lt =
    let w = from_le32 (a ∷ b ∷ c ∷ d ∷ []) in
    let byte : (k x : ℕ)
        → w / 2 ^ k % 2 ^ 8 ≡ x
        → bit_xor x (bit_xor w t / 2 ^ k % 2 ^ 8) ≡ t / 2 ^ k % 2 ^ 8 =
      λ k x e.
        ap (λ (y : ℕ). bit_xor x y) (byte_of_xor k w t)
        ∙ ap (λ (y : ℕ). bit_xor x (bit_xor y (t / 2 ^ k % 2 ^ 8))) e
        ∙ xor_mask x (t / 2 ^ k % 2 ^ 8) in
    let low : w % 2 ^ 8 ≡ a = omega arith in
    let b0 =
      ap (λ (y : ℕ). bit_xor a y) (bit_xor-mod 8 w t)
      ∙ ap (λ (y : ℕ). bit_xor a (bit_xor y (t % 2 ^ 8))) low
      ∙ xor_mask a (t % 2 ^ 8) in
    let b1 = byte 8 b (omega arith) in
    let b2 = byte 16 c (omega arith) in
    let b3 = byte 24 d (omega arith) in
    ap₂ ◌∷◌ b0 (ap₂ ◌∷◌ b1 (ap₂ ◌∷◌ b2 (ap (λ (x : ℕ). x ∷ []) b3)))

pub xor_bytes-append :
    (us vs cs ds : Bytes)
    → length us ≡ length vs
    → xor_bytes (us ++ cs) (vs ++ ds) ≡ xor_bytes us vs ++ xor_bytes cs ds
unfolding xor_bytes
xor_bytes-append [] [] cs ds h = refl
xor_bytes-append [] (b ∷ vs) cs ds h = absurd (omega arith)
xor_bytes-append (a ∷ us) [] cs ds h = absurd (omega arith)
xor_bytes-append (a ∷ us) (b ∷ vs) cs ds h =
    ap (λ (l : Bytes). bit_xor a b ∷ l) (xor_bytes-append us vs cs ds (omega arith))

-- A zero difference over `n` bytes: the first `n` bytes are the same.
pub eq_of_xor_bytes :
    (n : ℕ) (xs ys : Bytes) → take n (xor_bytes xs ys) ≡ zeros n → take n xs ≡ take n ys
unfolding xor_bytes zeros
eq_of_xor_bytes zero xs ys h = refl
eq_of_xor_bytes (suc n) [] ys h = cc
eq_of_xor_bytes (suc n) (x ∷ xs) [] h = cc
eq_of_xor_bytes (suc n) (x ∷ xs) (y ∷ ys) h =
    ap₂ ◌∷◌ (eq_of_xor x y (ap (λ (l : Bytes). get_or l 0 0) h))
      (eq_of_xor_bytes n xs ys (ap (λ (l : Bytes). drop 1 l) h))
