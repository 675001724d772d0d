-- ===== src/FakeTls/Fingerprint/Order.antt =====
-- A JA4 fingerprint does not depend on orders that a client may shuffle. About: ja4_text,
-- ja4_sorted_hash, sort_numbers.
use phantom_proxy.Common.{
  ℕ, suc, ◌≡◌, refl, sym, ap, ◌∙◌, inl, inr, Bool, ◌||◌, List, [], ◌∷◌, arith, leb, ◌==◌,
  Bool-cases, length,
}
use mathlib.Core.List.{Permᴰ}
use phantom_proxy.Common.Bytes.{Bytes, codes}
use phantom_proxy.FakeTls.Fingerprint.{
  ja4_text, ja4_sorted_hash, ja4_version_token, has, sha256_hex12, ext_supported_versions,
}
use phantom_proxy.FakeTls.Fingerprint.Lists.{insert_number, sort_numbers, join_numbers, two_digits}

insert_comm :
    (x y : ℕ) (l : List ℕ)
    → insert_number x (insert_number y l) ≡ insert_number y (insert_number x l)
unfolding insert_number
insert_comm x y [] = ground arith
insert_comm x y (z ∷ l) = ground (arith, insert_comm x y l)

pub sort-Perm : {xs ys : List ℕ} → Permᴰ xs ys → sort_numbers xs ≡ sort_numbers ys
unfolding sort_numbers
sort-Perm Permᴰ.nil = refl
sort-Perm (Permᴰ.cons {a = a} {b = b} e p) = rw (e, sort-Perm p) refl
sort-Perm (Permᴰ.swap {a = a} {b = b} {l = l} e f) =
    rw (sym e, sym f) (insert_comm a b (sort_numbers l))
sort-Perm (Permᴰ.trans p q) = sort-Perm p ∙ sort-Perm q

pub length-Perm : {xs ys : List ℕ} → Permᴰ xs ys → length xs ≡ length ys
length-Perm Permᴰ.nil = refl
length-Perm (Permᴰ.cons e p) = ap suc (length-Perm p)
length-Perm (Permᴰ.swap e f) = refl
length-Perm (Permᴰ.trans p q) = length-Perm p ∙ length-Perm q

or_comm : (a b c : Bool) → a || (b || c) ≡ b || (a || c)
or_comm a b c = ground arith

has-Perm : (x : ℕ) {xs ys : List ℕ} → Permᴰ xs ys → has x xs ≡ has x ys
unfolding has
has-Perm x Permᴰ.nil = refl
has-Perm x (Permᴰ.cons e p) = rw (e, has-Perm x p) refl
has-Perm x (Permᴰ.swap {a = a} {b = b} {l = l} e f) =
    rw (sym e, sym f) (or_comm (a == x) (b == x) (has x l))
has-Perm x (Permᴰ.trans p q) = has-Perm x p ∙ has-Perm x q

module _ (md5 sha256 hex_encode : Bytes → Bytes) where
  -- The hash of a sorted list.
  hash_of : List ℕ → Bytes
  hash_of [] = codes "000000000000"
  hash_of (x ∷ xs) = sha256_hex12 md5 sha256 hex_encode (join_numbers (codes ",") (x ∷ xs))

  hash_of-insert :
      (x : ℕ) (l : List ℕ)
      → hash_of (insert_number x l)
        ≡ sha256_hex12 md5 sha256 hex_encode (join_numbers (codes ",") (insert_number x l))
  unfolding hash_of insert_number
  hash_of-insert x [] = refl
  hash_of-insert x (y ∷ l) = elim (Bool-cases (leb x y)) [ inl e ↦ rw e refl | inr e ↦ rw e refl ]

  hash_lem : (xs : List ℕ) → ja4_sorted_hash md5 sha256 hex_encode xs ≡ hash_of (sort_numbers xs)
  unfolding ja4_sorted_hash sort_numbers hash_of
  hash_lem [] = refl
  hash_lem (x ∷ xs) = sym (hash_of-insert x (sort_numbers xs))

  hash-Perm :
      {xs ys : List ℕ}
      → Permᴰ xs ys
      → ja4_sorted_hash md5 sha256 hex_encode xs ≡ ja4_sorted_hash md5 sha256 hex_encode ys
  hash-Perm {xs} {ys} p = hash_lem xs ∙ ap hash_of (sort-Perm p) ∙ sym (hash_lem ys)

  -- Two ClientHellos of the same version, protocol and server name, whose cipher suites and whose
  -- extensions are the same up to their order, have the same JA4 fingerprint.
  pub ja4_text-Perm :
      (version : ℕ) {suites suites' exts exts' : List ℕ} (alpn name : Bytes)
      → Permᴰ suites suites'
      → Permᴰ exts exts'
      → ja4_text md5 sha256 hex_encode version suites exts alpn name
        ≡ ja4_text md5 sha256 hex_encode version suites' exts' alpn name
  unfolding ja4_text ja4_version_token two_digits
  ja4_text-Perm version alpn name p q =
      rw (hash-Perm p, hash-Perm q, length-Perm p, length-Perm q, has-Perm ext_supported_versions q)
        refl
