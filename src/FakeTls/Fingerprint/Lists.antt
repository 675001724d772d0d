-- ===== src/FakeTls/Fingerprint/Lists.antt =====
-- internal/faketls/fingerprint.go: the lists that the fingerprints are made of.
use phantom_proxy.Common.{
  ℕ, zero, suc, ◌+◌, ◌*◌, ◌/◌, ◌%◌, min, ◌&&◌, ◌||◌, List, [], ◌∷◌, ◌++◌, ltb, leb, ◌==◌,
  if◌then◌else◌, length, get_or, take, drop,
}
use phantom_proxy.Common.Int.{pos}
use phantom_proxy.Common.Bytes.{Bytes, from_be16}
use phantom_proxy.Common.Text.{decimal}
use phantom_proxy.Common.Slice.{Outcome, ok, ◌>>=◌, Slice, contents, at, cut, from}
use phantom_proxy.FakeTls.Hello.{HelloError}

pub record ExtensionLists : Type 0 where
  pub extensions : List ℕ
  pub curves : List ℕ
  pub point_formats : List ℕ

-- Pairs of bytes; an odd last one is left out.
unfoldable pub parse_uint16_list : Bytes → List ℕ
parse_uint16_list [] = []
parse_uint16_list (a ∷ []) = []
parse_uint16_list (a ∷ b ∷ rest) = (a * 256 + b) ∷ parse_uint16_list rest

-- The extension of type `t` with the data `ext`.
unfoldable pub one_extension : ℕ → Slice → ExtensionLists → Outcome HelloError ExtensionLists
one_extension t ext l =
    let seen = record l { extensions = l.extensions ++ (t ∷ []) } in
    if t == 0x000a && leb 2 ext.len
    then (do
      curves ← cut ext 2 (2 + from_be16 (contents ext))
      ok (record seen { curves = parse_uint16_list (contents curves) }))
    else if t == 0x000b && leb 1 ext.len
    then (do
      size ← at ext 0
      formats ← cut ext 1 (1 + size)
      ok (record seen { point_formats = l.point_formats ++ contents formats }))
    else ok seen

-- The loop; each turn takes 4 bytes or more, so that the length and one more is fuel enough.
unfoldable pub extensions_loop : ℕ → Slice → ExtensionLists → Outcome HelloError ExtensionLists
unfolding one_extension
extensions_loop zero s l = ok l
extensions_loop (suc fuel) s l =
    let t = from_be16 (contents s) in
    let next = 4 + from_be16 (drop 2 (contents s)) in
    let more = (do
      ext ← cut s 4 next
      seen ← one_extension t ext l
      rest ← from s next
      extensions_loop fuel rest seen) in
    if ltb s.len 4 || ltb s.len next then ok l else more

unfoldable pub parse_extensions : Slice → Outcome HelloError ExtensionLists
unfolding extensions_loop
parse_extensions s =
    extensions_loop (s.len + 1) s (record { extensions = []; curves = []; point_formats = [] })

-- The first protocol of an ALPN extension's data.
unfoldable pub first_protocol : Bytes → Bytes
first_protocol bytes =
    let list_len = from_be16 bytes in
    let names = drop 2 bytes in
    let name_len = get_or names 0 0 in
    if ltb (length bytes) 2 || (ltb (length names) list_len || list_len == 0)
    then []
    else if ltb (length names) (1 + name_len)
    then []
    else take name_len (drop 1 names)

unfoldable pub alpn_loop : ℕ → Bytes → Bytes
alpn_loop zero rest = []
alpn_loop (suc fuel) rest =
    let size = from_be16 (drop 2 rest) in
    let more = alpn_loop fuel (drop (4 + size) rest) in
    if ltb (length rest) 4 || ltb (length rest) (4 + size)
    then []
    else if from_be16 rest == 0x0010
    then first_protocol (take size (drop 4 rest))
    else more

unfoldable pub extract_alpn : Bytes → Bytes
unfolding alpn_loop
extract_alpn region = alpn_loop (length region + 1) region

-- `strings.Join` of the numbers in decimal.
unfoldable pub join_numbers : Bytes → List ℕ → Bytes
join_numbers sep [] = []
join_numbers sep (x ∷ []) = decimal (pos x)
join_numbers sep (x ∷ y ∷ ys) = decimal (pos x) ++ (sep ++ join_numbers sep (y ∷ ys))

-- `sort.Slice` by the order of numbers.
unfoldable pub insert_number : ℕ → List ℕ → List ℕ
insert_number x [] = x ∷ []
insert_number x (y ∷ ys) = let rest = insert_number x ys in if leb x y then x ∷ y ∷ ys else y ∷ rest

unfoldable pub sort_numbers : List ℕ → List ℕ
sort_numbers [] = []
sort_numbers (x ∷ xs) = insert_number x (sort_numbers xs)

-- `fmt.Sprintf("%02d", min(n, 99))`
unfoldable pub two_digits : ℕ → Bytes
two_digits n = let m = min n 99 in (48 + m / 10) ∷ (48 + m % 10) ∷ []
