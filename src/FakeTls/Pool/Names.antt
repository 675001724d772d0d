-- ===== src/FakeTls/Pool/Names.antt =====
-- The pool of fingerprints and its names stay aligned. About: parse_fingerprint_pool,
-- new_fingerprint_rotator, current_name.
use phantom_proxy.Common.{
  ℕ, zero, suc, ◌≡◌, refl, ap, ◌∙◌, subst, inl, inr, false, some, List, [], ◌∷◌, arith, ◌==◌,
  if◌then◌else◌, Bool-cases, Option-cases, length, get_elem?,
}
use phantom_proxy.Common.Int.{ℤ}
use phantom_proxy.Common.Bytes.{Bytes, eqb}
use phantom_proxy.Common.Map.{lookup}
use phantom_proxy.Common.Text.{trim_space, to_lower}
use phantom_proxy.Common.Result.{ok, Result-cases, not_err, same_ok}
use mathlib.Core.Option.{none-ne-some}
use phantom_proxy.FakeTls.Rotator.{new_rotator}
use phantom_proxy.FakeTls.Pool.{
  Utls, empty_name, unknown_name, registry, parse_fingerprint, parse_names, parse_fingerprint_pool,
  default_names, FingerprintRotator, new_fingerprint_rotator, current_name,
}

some-length :
    (xs : List Bytes) (i : ℕ) (x : Bytes) → get_elem? xs i ≡ some x → (length xs == 0) ≡ false
some-length [] i x h = absurd (none-ne-some x h)
some-length (y ∷ xs) i x h = ground arith

module _ (utls : Utls) where
  -- Each identifier is the registry's under the name at the same place.
  abbrev pub Named : List utls.ClientHelloId → List Bytes → Type 0
  Named [] [] = Unit
  Named (id ∷ ids) (name ∷ names) = (lookup name (registry utls) ≡ some id) × Named ids names
  Named _ _ = ⊥

  parse_fingerprint_lem :
      (name : Bytes) (id : utls.ClientHelloId)
      → parse_fingerprint utls name ≡ ok id
      → lookup (to_lower (trim_space name)) (registry utls) ≡ some id
  unfolding parse_fingerprint
  parse_fingerprint_lem name id h =
      let key = to_lower (trim_space name) in
      elim (Bool-cases (eqb key [])) [
        | inl e ↦ not_err h empty_name (rw e refl)
        | inr e ↦ elim (Option-cases (lookup key (registry utls))) [
          | inl f ↦ not_err h (unknown_name name) (rw (e, f) refl)
          | inr (i, f) ↦ f ∙ ap some (same_ok h i (rw (e, f) refl))
        ]
      ]

  parse_names-Named :
      (names : List Bytes) (r : List utls.ClientHelloId × List Bytes)
      → parse_names utls names ≡ ok r
      → Named r.0 r.1
  unfolding parse_names
  parse_names-Named [] r h = subst (λ p. Named p.0 p.1) (same_ok h ([], []) refl) tt
  parse_names-Named (name ∷ names) r h = elim (Result-cases (parse_fingerprint utls name)) [
    | inr (e, f) ↦ not_err h e (rw f refl)
    | inl (id, f) ↦ elim (Result-cases (parse_names utls names)) [
      | inr (e, g) ↦ not_err h e (rw (f, g) refl)
      | inl (rest, g) ↦
          subst (λ p. Named p.0 p.1)
            (same_ok h (id ∷ rest.0, to_lower (trim_space name) ∷ rest.1) (rw (f, g) refl))
            (parse_fingerprint_lem name id f, parse_names-Named names rest g)
    ]
  ]

  Named-at :
      (ids : List utls.ClientHelloId) (names : List Bytes) (i : ℕ) (id : utls.ClientHelloId)
      → Named ids names
      → get_elem? ids i ≡ some id
      → (name : Bytes) × ((get_elem? names i ≡ some name) × (lookup name (registry utls) ≡ some id))
  Named-at [] [] i id h e = absurd (none-ne-some id e)
  Named-at (j ∷ ids) (name ∷ names) zero id (h, _) e = (name, (refl, h ∙ e))
  Named-at (j ∷ ids) (name ∷ names) (suc i) id (_, h) e = Named-at ids names i id h e
  Named-at [] (name ∷ names) i id h e = absurd h
  Named-at (j ∷ ids) [] i id h e = absurd h

  -- Whatever index a new rotator has moved to: the name it reports is a name under which the
  -- registry has the fingerprint that stands there.
  pub current_name_registered :
      (names : List Bytes) (strategy : Bytes) (interval_sec threshold : ℤ) (now : ℕ)
      (r : FingerprintRotator utls) (i : ℕ) (id : utls.ClientHelloId)
      → new_fingerprint_rotator utls names strategy interval_sec threshold now ≡ ok r
      → get_elem? r.rotator.pool i ≡ some id
      → let moved = record r { rotator = record r.rotator { current_idx = i } } in
        (name : Bytes) × ((current_name utls (some moved) ≡ some name)
          × (lookup name (registry utls) ≡ some id))
  unfolding new_fingerprint_rotator current_name parse_fingerprint_pool new_rotator
  current_name_registered names strategy interval_sec threshold now r i id h e =
      let given = if length names == 0 then default_names else names in
      elim (Result-cases (parse_names utls given)) [
        | inr (b, f) ↦ not_err h b (rw f refl)
        | inl (p, f) ↦
            let built : FingerprintRotator utls = record {
              names = p.1;
              rotator = new_rotator p.0 strategy interval_sec threshold now;
            } in
            let same = same_ok h built (rw f refl) in
            let (name, (g, l)) =
              Named-at r.rotator.pool r.names i id
                (subst (λ s. Named s.rotator.pool s.names) same (parse_names-Named given p f)) e in
            (name, (rw (some-length r.names i name g, g) refl, l))
      ]
