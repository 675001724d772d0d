-- ===== src/FakeTls/Fingerprint.antt =====
-- internal/faketls/fingerprint.go: the JA3 and JA4 fingerprints of a ClientHello record. MD5,
-- SHA-256 and the encoder of encoding/hex are parameters. Indexing and slicing panic as Go's do.
pub mod Lists
pub mod Order
use phantom_proxy.Common.{
  ℕ, ◌+◌, ◌-◌, Bool, false, not, ◌||◌, Option, none, some, List, [], ◌∷◌, ◌++◌, ltb, leb, ◌==◌,
  if◌then◌else◌, length, get_or, take,
}
use phantom_proxy.Common.Int.{pos}
use phantom_proxy.Common.Bytes.{Bytes, codes, eqb, from_be16}
use phantom_proxy.Common.Text.{decimal, to_lower}
use phantom_proxy.Common.Slice.{Outcome, ok, ◌>>=◌, Slice, contents, at, cut, from, upto}
use phantom_proxy.FakeTls.Hello.{HelloError, uint24, parse_sni}
use phantom_proxy.FakeTls.Fingerprint.Lists.{
  ExtensionLists, parse_uint16_list, parse_extensions, extract_alpn, join_numbers, sort_numbers,
  two_digits,
}

abbrev pub ext_supported_versions : ℕ
ext_supported_versions = 0x002b

-- The version, the cipher suites, and the region of the extensions if its length is there.
abbrev pub Parts : Type 0
Parts = ℕ × List ℕ × Option Slice

-- `hello[:helloLen]` of 34 bytes or more; `none` is the empty fingerprint.
unfoldable pub cut_hello : Slice → ℕ → Outcome HelloError (Option Slice)
cut_hello payload hello_len = do
  tail ← from payload 4
  if ltb tail.len hello_len || ltb hello_len 34
      then ok none
      else do hello ← upto tail hello_len; ok (some hello)

unfoldable pub hello_of : Slice → Outcome HelloError (Option Slice)
unfolding cut_hello
hello_of raw = if ltb raw.len 5 then ok none else do
  payload ← from raw 5
  let byte_at = get_or (contents payload)
  if ltb payload.len 4 || not (byte_at 0 0 == 0x01)
      then ok none
      else cut_hello payload (uint24 (byte_at 1 0) (byte_at 2 0) (byte_at 3 0))

-- The region of the extensions at `p`, if two bytes are left for its length.
unfoldable pub region_at : Slice → ℕ → Outcome HelloError (Option Slice)
region_at hello p = if ltb hello.len (p + 2) then ok none else do
  size ← cut hello p (p + 2)
  region ← cut hello (p + 2) (p + 2 + from_be16 (contents size))
  ok (some region)

-- From the compression methods at `p` on.
unfoldable pub parts_behind : Slice → ℕ → ℕ → List ℕ → Outcome HelloError (Option Parts)
unfolding region_at
parts_behind hello p version suites = if leb hello.len p then ok none else do
  comp_len ← at hello p
  region ← region_at hello (p + 1 + comp_len)
  ok (some (version, suites, region))

unfoldable pub suites_behind : Slice → ℕ → ℕ → Outcome HelloError (Option Parts)
unfolding parts_behind
suites_behind hello p version = if ltb hello.len (p + 2) then ok none else do
  size ← cut hello p (p + 2)
  let next = p + 2 + from_be16 (contents size)
  suites ← cut hello (p + 2) next
  parts_behind hello next version (parse_uint16_list (contents suites))

unfoldable pub parts_of : Slice → Outcome HelloError (Option Parts)
unfolding suites_behind
parts_of hello = do
  version ← cut hello 0 2
  sid_len ← at hello 34
  suites_behind hello (35 + sid_len) (from_be16 (contents version))

unfoldable pub lists_of : Option Slice → Outcome HelloError ExtensionLists
lists_of none = ok (record { extensions = []; curves = []; point_formats = [] })
lists_of (some region) = parse_extensions region

abbrev alpn_of : Option Slice → Bytes
alpn_of none = []
alpn_of (some region) = extract_alpn (contents region)

-- `extractSNI`, of a hello of 34 bytes or more.
abbrev name_in : Option Slice → Outcome HelloError Bytes
name_in none = ok []
name_in (some region) = ok (parse_sni (contents region))

unfoldable pub extract_sni : Slice → Outcome HelloError Bytes
unfolding region_at
extract_sni hello = do
  sid_len ← at hello 34
  let p = 35 + sid_len
  if ltb hello.len (p + 2) then ok [] else do
    size ← cut hello p (p + 2)
    let next = p + 2 + from_be16 (contents size)
    if leb hello.len next then ok [] else do
      comp_len ← at hello next
      region ← region_at hello (next + 1 + comp_len)
      name_in region

unfoldable pub has : ℕ → List ℕ → Bool
has x [] = false
has x (y ∷ ys) = y == x || has x ys

unfoldable pub ja4_version_token : ℕ → List ℕ → Bytes
ja4_version_token version extensions =
    if has ext_supported_versions extensions || version == 0x0304
    then codes "13"
    else if version == 0x0303
    then codes "12"
    else codes "00"

module _ (md5 sha256 hex_encode : Bytes → Bytes) where
  unfoldable pub sha256_hex12 : Bytes → Bytes
  sha256_hex12 s = hex_encode (take 6 (sha256 s))

  unfoldable pub ja4_sorted_hash : List ℕ → Bytes
  ja4_sorted_hash [] = codes "000000000000"
  ja4_sorted_hash (x ∷ xs) = sha256_hex12 (join_numbers (codes ",") (sort_numbers (x ∷ xs)))

  abbrev ja3_text : ℕ → List ℕ → ExtensionLists → Bytes
  ja3_text version suites l =
      let dash = codes "-" in
      let comma = codes "," in
      decimal (pos version)
      ++ (comma
          ++ (join_numbers dash suites
              ++ (comma
                  ++ (join_numbers dash l.extensions
                      ++ (comma
                          ++ (join_numbers dash l.curves
                              ++ (comma ++ join_numbers dash l.point_formats)))))))

  abbrev ja3_with : Option Parts → Outcome HelloError Bytes
  ja3_with none = ok []
  ja3_with (some (version, suites, region)) = do
    l ← lists_of region
    ok (hex_encode (md5 (ja3_text version suites l)))

  abbrev ja3_hello : Option Slice → Outcome HelloError Bytes
  ja3_hello none = ok []
  ja3_hello (some hello) = do parts ← parts_of hello; ja3_with parts

  unfoldable pub ja3 : Slice → Outcome HelloError Bytes
  ja3 raw = do hello ← hello_of raw; ja3_hello hello

  abbrev sni_hash : Bytes → Bytes
  sni_hash name = if eqb name [] then codes "00000000" else sha256_hex12 (to_lower name)

  unfoldable pub ja4_text : ℕ → List ℕ → List ℕ → Bytes → Bytes → Bytes
  unfolding ja4_sorted_hash
  ja4_text version suites extensions alpn name =
      let underscore = codes "_" in
      (if eqb alpn (codes "h2") then codes "h2" else codes "t")
      ++ (ja4_version_token version extensions
          ++ (two_digits (length suites)
              ++ (two_digits (length extensions)
                  ++ (underscore
                      ++ (ja4_sorted_hash suites
                          ++ (underscore
                              ++ (ja4_sorted_hash extensions ++ (underscore ++ sni_hash name))))))))

  abbrev ja4_with : Bytes → Option Parts → Outcome HelloError Bytes
  ja4_with name none = ok []
  ja4_with name (some (version, suites, region)) = do
    l ← lists_of region
    ok (ja4_text version suites l.extensions (alpn_of region) name)

  abbrev ja4_hello : Option Slice → Outcome HelloError Bytes
  ja4_hello none = ok []
  ja4_hello (some hello) = do name ← extract_sni hello; parts ← parts_of hello; ja4_with name parts

  unfoldable pub ja4 : Slice → Outcome HelloError Bytes
  ja4 raw = do hello ← hello_of raw; ja4_hello hello
