-- ===== src/Common/Text.antt =====
-- Go's `strings` on ASCII text: bytes from 128 on are neither letters nor blanks here.
use phantom_proxy.Common.{
  ℕ, zero, suc, ◌+◌, ◌/◌, ◌%◌, Bool, ◌&&◌, ◌||◌, [], ◌∷◌, ◌++◌, map, ltb, leb, ◌==◌, if◌then◌else◌,
  length, take,
}
use phantom_proxy.Common.Int.{ℤ, pos, negsuc}
use phantom_proxy.Common.Bytes.{Bytes, eqb}

unfoldable pub is_space : ℕ → Bool
is_space c = c == 32 || (leb 9 c && leb c 13)

-- `strings.TrimLeftFunc(s, unicode.IsSpace)`
unfoldable pub trim_left : Bytes → Bytes
trim_left [] = []
trim_left (c ∷ s) = let rest = trim_left s in if is_space c then rest else c ∷ s

unfoldable pub trim_last : ℕ → Bytes → Bytes
trim_last c [] = if is_space c then [] else c ∷ []
trim_last c (d ∷ s) = c ∷ d ∷ s

unfoldable pub trim_right : Bytes → Bytes
unfolding trim_last
trim_right [] = []
trim_right (c ∷ s) = trim_last c (trim_right s)

-- `strings.TrimSpace(s)`
unfoldable pub trim_space : Bytes → Bytes
trim_space s = trim_right (trim_left s)

-- `strings.ToLower(s)`
unfoldable pub lower : ℕ → ℕ
lower c = if leb 65 c && leb c 90 then c + 32 else c

unfoldable pub to_lower : Bytes → Bytes
to_lower s = map lower s

-- `strings.HasPrefix(s, p)`
unfoldable pub has_prefix : Bytes → Bytes → Bool
has_prefix s p = leb (length p) (length s) && eqb (take (length p) s) p

-- `strings.Contains(s, t)`
unfoldable pub contains : Bytes → Bytes → Bool
contains [] t = has_prefix [] t
contains (c ∷ s) t = has_prefix (c ∷ s) t || contains s t

-- The digits of a number; `n` itself is fuel enough.
unfoldable digits : ℕ → ℕ → Bytes
digits zero n = (48 + n % 10) ∷ []
digits (suc fuel) n =
    let high = digits fuel (n / 10) in
    if ltb n 10 then (48 + n) ∷ [] else high ++ ((48 + n % 10) ∷ [])

-- `strconv.Itoa` and `%d`.
unfoldable pub decimal : ℤ → Bytes
unfolding digits
decimal (pos n) = digits n n
decimal (negsuc n) = 45 ∷ digits (suc n) (suc n)
