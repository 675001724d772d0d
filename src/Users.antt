-- ===== src/Users.antt =====
-- internal/user/manager.go: the list of users and the host shown to probes.
-- The mutex orders the operations, so each is one function of the state. JA3, JA4, the check of a
-- ClientHello and the check of an obfuscated2 header are functions of other packages; they are
-- parameters here.
pub mod Names
pub mod Match
pub mod Views
use phantom_proxy.Common.{
  ◌+◌, Bool, true, false, not, ◌&&◌, ◌||◌, Option, none, some, List, [], ◌∷◌, ◌++◌, leb,
  if◌then◌else◌, length,
}
use phantom_proxy.Common.Bytes.{Bytes, codes, eqb}
use phantom_proxy.Common.Result.{Result, ok, err}
use phantom_proxy.Common.Int.{ℤ}
use phantom_proxy.Secret.{Secret, is_fake_tls, is_secure}

pub record User : Type 0 where
  pub name : Bytes
  pub secret : Secret
  pub enabled : Bool

pub record Manager : Type 0 where
  pub users : List User
  pub mask_host : Bytes
  pub ja3_allow : List Bytes
  pub ja4_allow : List Bytes

pub data ManagerError : Type 0 where
  no_users no_active_users user_exists user_not_found last_user : ManagerError
  ja3_not_allowed ja4_not_allowed secret_not_found : ManagerError

unfoldable pub is_empty : Bytes → Bool
is_empty [] = true
is_empty (_ ∷ _) = false

abbrev pub default_host : Bytes
default_host = codes "www.google.com"

unfoldable pub any_enabled : List User → Bool
any_enabled [] = false
any_enabled (u ∷ us) = u.enabled || any_enabled us

-- The first enabled user's host that is not empty.
unfoldable pub first_host : List User → Option Bytes
first_host [] = none
first_host (u ∷ us) =
    let more = first_host us in
    if u.enabled && not (is_empty u.secret.host) then some u.secret.host else more

abbrev pub or_host : Option Bytes → Bytes → Bytes
or_host none h = h
or_host (some h) _ = h

unfoldable pub or_default : Bytes → Bytes
or_default [] = default_host
or_default (c ∷ cs) = c ∷ cs

-- `replaceUsers`. The old host stays where no enabled user has one.
pub replace_users : Manager → List User → Result ManagerError Manager
replace_users m users =
    if any_enabled users
    then ok (record {
      users = users;
      mask_host = or_default (or_host (first_host users) m.mask_host);
      ja3_allow = m.ja3_allow;
      ja4_allow = m.ja4_allow;
    })
    else err no_active_users

-- The fingerprints that are not empty: the keys of `ja3Allow` and `ja4Allow`.
unfoldable pub allow : List Bytes → List Bytes
allow [] = []
allow (fp ∷ fps) = let rest = allow fps in if is_empty fp then rest else fp ∷ rest

pub new_manager : List User → List Bytes → List Bytes → Result ManagerError Manager
unfolding replace_users
new_manager [] ja3 ja4 = err no_users
new_manager (u ∷ us) ja3 ja4 =
    replace_users
      (record { users = []; mask_host = []; ja3_allow = allow ja3; ja4_allow = allow ja4 }) (u ∷ us)

unfoldable pub has_name : Bytes → List User → Bool
has_name n [] = false
has_name n (u ∷ us) = eqb u.name n || has_name n us

unfoldable pub member : Bytes → List Bytes → Bool
member x [] = false
member x (y ∷ ys) = eqb y x || member x ys

pub add_user : Manager → User → Result ManagerError Manager
add_user m u =
    if has_name u.name m.users
    then err user_exists
    else ok (record {
      users = m.users ++ (u ∷ []);
      mask_host = if u.enabled && not (is_empty u.secret.host) then u.secret.host else m.mask_host;
      ja3_allow = m.ja3_allow;
      ja4_allow = m.ja4_allow;
    })

-- The last enabled user's host that is not empty, else `host`.
unfoldable pub last_host : Bytes → List User → Bytes
last_host host [] = host
last_host host (u ∷ us) =
    last_host (if u.enabled && not (is_empty u.secret.host) then u.secret.host else host) us

-- `refreshMaskHost`: the error, if any, and the manager, which it changes either way.
unfoldable pub refresh_mask_host : Manager → Option ManagerError × Manager
refresh_mask_host m =
    let host = last_host [] m.users in
    let active = any_enabled m.users in
    (
      if active then none else some no_active_users,
      record {
        users = m.users;
        mask_host = if active then or_default host else host;
        ja3_allow = m.ja3_allow;
        ja4_allow = m.ja4_allow;
      },
    )

-- The fields of `UpdateUser` that the caller gives.
pub with_update : Option Secret → Option Bool → User → User
with_update secret enabled u = record {
  name = u.name;
  secret = elim secret [ none ↦ u.secret | some s ↦ s ];
  enabled = elim enabled [ none ↦ u.enabled | some b ↦ b ];
}

unfoldable pub update_first : Bytes → Option Secret → Option Bool → List User → List User
update_first n secret enabled [] = []
update_first n secret enabled (u ∷ us) =
    let rest = update_first n secret enabled us in
    if eqb u.name n then with_update secret enabled u ∷ us else u ∷ rest

unfoldable pub find_user : Bytes → List User → Option User
find_user n [] = none
find_user n (u ∷ us) = let rest = find_user n us in if eqb u.name n then some u else rest

unfoldable pub with_users : Manager → List User → Manager
with_users m users = record {
  users = users;
  mask_host = m.mask_host;
  ja3_allow = m.ja3_allow;
  ja4_allow = m.ja4_allow;
}

-- The result, and the manager after the call.
pub update_user :
    Manager → Bytes → Option Secret → Option Bool → Result ManagerError (Option User) × Manager
unfolding with_users
update_user m n secret enabled =
    if has_name n m.users
    then (let (e, m') = refresh_mask_host (with_users m (update_first n secret enabled m.users)) in
        (elim e [ none ↦ ok (find_user n m'.users) | some x ↦ err x ], m'))
    else (err user_not_found, m)

unfoldable pub remove_first : Bytes → List User → List User
remove_first n [] = []
remove_first n (u ∷ us) = let rest = remove_first n us in if eqb u.name n then us else u ∷ rest

unfoldable pub remove_user : Manager → Bytes → Option ManagerError × Manager
unfolding with_users
remove_user m n =
    if leb (length m.users) 1
    then (some last_user, m)
    else if has_name n m.users
    then refresh_mask_host (with_users m (remove_first n m.users))
    else (some user_not_found, m)

-- `Reload`: the manager is left alone where `replaceUsers` fails.
pub reload : Manager → List User → Option ManagerError × Manager
unfolding replace_users
reload m users = elim (replace_users m users) [ ok m' ↦ (none, m') | err e ↦ (some e, m) ]

unfoldable pub set_allowed_ja3 : Manager → List Bytes → Manager
set_allowed_ja3 m fps = record {
  users = m.users;
  mask_host = m.mask_host;
  ja3_allow = allow fps;
  ja4_allow = m.ja4_allow;
}

unfoldable pub set_allowed_ja4 : Manager → List Bytes → Manager
set_allowed_ja4 m fps = record {
  users = m.users;
  mask_host = m.mask_host;
  ja3_allow = m.ja3_allow;
  ja4_allow = allow fps;
}

unfoldable pub allowed : List Bytes → Bytes → Bool
allowed [] fp = true
allowed (x ∷ xs) fp = member fp (x ∷ xs)

unfoldable pub check_fingerprints : Manager → Bytes → Bytes → Option ManagerError
unfolding allowed
check_fingerprints m ja3 ja4 =
    if allowed m.ja3_allow ja3
    then if allowed m.ja4_allow ja4 then none else some ja4_not_allowed
    else some ja3_not_allowed

-- The first enabled user of Fake TLS whose secret signed the ClientHello; `valid` is
-- `faketls.ValidateClientHello` on it, without error.
unfoldable pub first_valid : (Secret → Bool) → List User → Option User
first_valid valid [] = none
first_valid valid (u ∷ us) =
    let rest = first_valid valid us in
    if u.enabled && is_fake_tls u.secret && valid u.secret then some u else rest

unfoldable pub match_client_hello :
    (Secret → Bool) → Bytes → Bytes → Manager → Result ManagerError User
match_client_hello valid ja3 ja4 m = elim (check_fingerprints m ja3 ja4) [
  | some e ↦ err e
  | none ↦ elim (first_valid valid m.users) [ none ↦ err secret_not_found | some u ↦ ok u ]
]

-- `parse` is `obfuscated2.TryParseHeader` on the header.
unfoldable pub match_secure_header :
    (Secret → Option ℤ) → List User → Result ManagerError (User × ℤ)
match_secure_header parse [] = err secret_not_found
match_secure_header parse (u ∷ us) =
    let rest = match_secure_header parse us in
    if u.enabled && is_secure u.secret
    then elim (parse u.secret) [ none ↦ rest | some dc_id ↦ ok (u, dc_id) ]
    else rest
