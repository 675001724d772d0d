-- ===== src/Users/Names.antt =====
-- What the operations on the users keep: a name stands once, and the mask host.
use phantom_proxy.Common.{
  ap, ◌≡◌, refl, sym, ◌∙◌, subst, inl, inr, Bool, true, false, ◌||◌, Option, none, some, List, [],
  ◌∷◌, ◌++◌, arith, leb, if◌then◌else◌, Bool-cases, length,
}
use phantom_proxy.Common.Bytes.{Bytes, eqb, eqb_iff}
use phantom_proxy.Common.Result.{Result, ok, err}
use phantom_proxy.Secret.{Secret}
use phantom_proxy.Users.{
  User, Manager, ManagerError, user_not_found, last_user, no_active_users, has_name, add_user,
  update_first, with_update, remove_first, any_enabled, update_user, remove_user, refresh_mask_host,
}

-- No name stands twice.
unfoldable pub UniqueNames : List User → Type 0
UniqueNames [] = Unit
UniqueNames (u ∷ us) = (has_name u.name us ≡ false) × UniqueNames us

has_name-append :
    (n : Bytes) (us : List User) (u : User)
    → has_name n (us ++ (u ∷ [])) ≡ (has_name n us || eqb u.name n)
unfolding has_name
has_name-append n [] u = ground arith
has_name-append n (v ∷ us) u = ground (arith, has_name-append n us u)

append-UniqueNames :
    (us : List User) (u : User)
    → UniqueNames us
    → has_name u.name us ≡ false
    → UniqueNames (us ++ (u ∷ []))
unfolding UniqueNames has_name
append-UniqueNames [] u h f = (refl, tt)
append-UniqueNames (v ∷ us) u h f = (
  rw (has_name-append v.name us u)
      (ground (arith, eqb_iff u.name v.name, eqb_iff v.name u.name, h.0, f)),
  append-UniqueNames us u h.1 (ground (arith, f)),
)

has_name-update_first :
    (n m : Bytes) (secret : Option Secret) (enabled : Option Bool) (us : List User)
    → has_name m (update_first n secret enabled us) ≡ has_name m us
unfolding has_name update_first with_update
has_name-update_first n m secret enabled [] = refl
has_name-update_first n m secret enabled (u ∷ us) = elim (Bool-cases (eqb u.name n)) [
  | inl e ↦ rw e refl
  | inr e ↦ rw (e, has_name-update_first n m secret enabled us) refl
]

update_first-UniqueNames :
    (n : Bytes) (secret : Option Secret) (enabled : Option Bool) (us : List User)
    → UniqueNames us
    → UniqueNames (update_first n secret enabled us)
unfolding UniqueNames update_first with_update
update_first-UniqueNames n secret enabled [] h = tt
update_first-UniqueNames n secret enabled (u ∷ us) h = elim (Bool-cases (eqb u.name n)) [
  | inl e ↦ rw e h
  | inr e ↦ rw e (
    has_name-update_first n u.name secret enabled us ∙ h.0,
    update_first-UniqueNames n secret enabled us h.1,
  )
]

has_name-remove_first :
    (n m : Bytes) (us : List User) → has_name m us ≡ false → has_name m (remove_first n us) ≡ false
unfolding has_name remove_first
has_name-remove_first n m [] h = h
has_name-remove_first n m (u ∷ us) h = ground (arith, has_name-remove_first n m us)

remove_first-UniqueNames :
    (n : Bytes) (us : List User) → UniqueNames us → UniqueNames (remove_first n us)
unfolding UniqueNames remove_first
remove_first-UniqueNames n [] h = tt
remove_first-UniqueNames n (u ∷ us) h = elim (Bool-cases (eqb u.name n)) [
  | inl e ↦ rw e h.1
  | inr e ↦ rw e (has_name-remove_first n u.name us h.0, remove_first-UniqueNames n us h.1)
]

removed : (n : Bytes) (us : List User) → UniqueNames us → has_name n (remove_first n us) ≡ false
unfolding UniqueNames remove_first has_name
removed n [] h = refl
removed n (u ∷ us) h = elim (Bool-cases (eqb u.name n)) [
  | inl e ↦ rw e (subst (λ (k : Bytes). has_name k us ≡ false) ((eqb_iff u.name n).0 e) h.0)
  | inr e ↦ rw e (rw e (removed n us h.1))
]

failed : {A : Type 0} {e : ManagerError} → some e ≡ none → A
failed h = cc

-- The manager after an operation that changes it only if it succeeds.
abbrev pub settled : Manager → Result ManagerError Manager → Manager
settled m (ok m') = m'
settled m (err e) = m

-- Every operation of the API keeps user names unique, also where it returns an error: adding,
-- updating and removing.
pub operations-UniqueNames :
    (m : Manager) (u : User) (n : Bytes) (secret : Option Secret) (enabled : Option Bool)
    → UniqueNames m.users
    → UniqueNames (settled m (add_user m u)).users
      × UniqueNames (update_user m n secret enabled).1.users
      × UniqueNames (remove_user m n).1.users
unfolding add_user update_user remove_user refresh_mask_host
operations-UniqueNames m u n secret enabled h = (
  elim (Bool-cases (has_name u.name m.users)) [
    | inl f ↦ rw (f) h
    | inr f ↦ rw (f) (append-UniqueNames m.users u h f)
  ],
  elim (Bool-cases (has_name n m.users)) [
    | inl f ↦ rw f (update_first-UniqueNames n secret enabled m.users h)
    | inr f ↦ rw f h
  ],
  elim (Bool-cases (leb (length m.users) 1)) [
    | inl f ↦ rw f h
    | inr f ↦ elim (Bool-cases (has_name n m.users)) [
      | inl g ↦ rw (f, g) (remove_first-UniqueNames n m.users h)
      | inr g ↦ rw (f, g) h
    ]
  ],
)

-- A list from which a user of the name was taken out, the others left as and where they were.
abbrev pub WithoutOne : Bytes → List User → List User → Type 0
WithoutOne n us left =
    (front : List User) × (u : User) × (back : List User) × (us ≡ front ++ (u ∷ back))
    × (u.name ≡ n)
    × (left ≡ front ++ back)

remove_first-WithoutOne :
    (n : Bytes) (us : List User) → has_name n us ≡ true → WithoutOne n us (remove_first n us)
unfolding remove_first has_name
remove_first-WithoutOne n [] h = cc
remove_first-WithoutOne n (u ∷ us) h = elim (Bool-cases (eqb u.name n)) [
  | inl e ↦ rw e ([], u, us, refl, (eqb_iff u.name n).0 e, refl)
  | inr e ↦
      let (front, v, back, p, q, r) = remove_first-WithoutOne n us (ground (arith, h, e)) in
      rw e (u ∷ front, v, back, ap (λ x. u ∷ x) p, q, ap (λ x. u ∷ x) r)
]

-- Where names are unique, a removal that succeeds takes the one user of that name out and leaves
-- all others as they were, in their order; no user of that name is left, and one of those left is
-- enabled.
pub remove_user_succeeds :
    (m : Manager) (n : Bytes)
    → UniqueNames m.users
    → (remove_user m n).0 ≡ none
    → WithoutOne n m.users (remove_user m n).1.users
      × (has_name n (remove_user m n).1.users ≡ false)
      × (any_enabled (remove_user m n).1.users ≡ true)
unfolding remove_user refresh_mask_host
remove_user_succeeds m n h e = elim (Bool-cases (leb (length m.users) 1)) [
  | inl f ↦ failed {e = last_user} (sym (rw (f, remove_user) refl) ∙ e)
  | inr f ↦ elim (Bool-cases (has_name n m.users)) [
    | inl g ↦
        let step : (if any_enabled (remove_first n m.users) then none else some no_active_users)
            ≡ none =
          sym (rw (f, g, remove_user) refl) ∙ e in
        rw (f, g) (remove_first-WithoutOne n m.users g, removed n m.users h, ground (arith, step))
    | inr g ↦ failed {e = user_not_found} (sym (rw (f, g, remove_user) refl) ∙ e)
  ]
]
