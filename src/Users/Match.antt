-- ===== src/Users/Match.antt =====
-- Which user a connection is matched to.
use phantom_proxy.Common.{
  ◌≡◌, refl, sym, ap, ◌∙◌, subst, inl, inr, Bool, true, ◌&&◌, none, some, List, [], ◌∷◌, ◌++◌,
  arith, Bool-cases, Option-cases,
}
use phantom_proxy.Common.Bytes.{Bytes}
use phantom_proxy.Common.Result.{Result, ok, err}
use phantom_proxy.Secret.{Secret, is_fake_tls}
use mathlib.Core.Option.{some-injective}
use phantom_proxy.Users.{
  User, Manager, ManagerError, secret_not_found, check_fingerprints, first_valid,
  match_client_hello,
}

-- The users before `u` do not match, and `u` does.
pub record IsFirst (valid : Secret → Bool) (us : List User) (u : User) : Type 0 where
  pub before : List User
  pub after : List User
  pub split : us ≡ before ++ (u ∷ after)
  pub none_before : first_valid valid before ≡ none
  pub is_enabled : u.enabled ≡ true
  pub has_mode : is_fake_tls u.secret ≡ true
  pub is_valid : valid u.secret ≡ true

first_valid-IsFirst :
    (valid : Secret → Bool) (us : List User) (u : User)
    → first_valid valid us ≡ some u
    → IsFirst valid us u
unfolding first_valid
first_valid-IsFirst valid [] u h = cc
first_valid-IsFirst valid (v ∷ us) u h =
    elim (Bool-cases (v.enabled && is_fake_tls v.secret && valid v.secret)) [
      | inl e ↦
          let same : v ≡ u = some-injective _ _ (sym (rw (e) refl) ∙ h) in
          subst (IsFirst valid (v ∷ us)) same (record {
            before = [];
            after = us;
            split = refl;
            none_before = refl;
            is_enabled = ground (arith, e);
            has_mode = ground (arith, e);
            is_valid = ground (arith, e);
          })
      | inr e ↦
          let r = first_valid-IsFirst valid us u (sym (rw (e) refl) ∙ h) in
          record {
            before = v ∷ r.before;
            after = r.after;
            split = ap (λ (l : List User). v ∷ l) r.split;
            none_before = rw e r.none_before;
            is_enabled = r.is_enabled;
            has_mode = r.has_mode;
            is_valid = r.is_valid;
          }
    ]

refused : {A : Type 0} (e : ManagerError) (u : User) → err e ≡ ok u → A
refused e u h = cc

abbrev accept : User → Result ManagerError User
accept u = ok u

matched : (v u : User) → accept v ≡ accept u → v ≡ u
matched v u h = cc

-- A user that `MatchClientHello` returns stands in the list, is enabled, has a Fake TLS secret
-- under which the ClientHello is valid, and no user before it matches.
pub match_client_hello-IsFirst :
    (valid : Secret → Bool) (ja3 ja4 : Bytes) (m : Manager) (u : User)
    → match_client_hello valid ja3 ja4 m ≡ ok u
    → (check_fingerprints m ja3 ja4 ≡ none) × IsFirst valid m.users u
unfolding match_client_hello
match_client_hello-IsFirst valid ja3 ja4 m u h =
    elim (Option-cases (check_fingerprints m ja3 ja4)) [
      | inr (e, p) ↦ refused e u (sym (rw (p, match_client_hello) refl) ∙ h)
      | inl p ↦ elim (Option-cases (first_valid valid m.users)) [
        | inl q ↦ refused secret_not_found u (sym (rw (p, match_client_hello) (rw (q) refl)) ∙ h)
        | inr (v, q) ↦ (
          p,
          first_valid-IsFirst valid m.users u
              (q ∙ ap some (matched v u (sym (rw (p, match_client_hello) (rw (q) refl)) ∙ h))),
        )
      ]
    ]
