-- ===== src/Users/Views.antt =====
-- internal/user/manager.go: what the API shows of the users. `decimal` prints a port, and
-- `hex_encode` is encoding/hex; a port that is not positive is 0.
use phantom_proxy.Common.{
  ℕ, ◌≡◌, refl, ◌≢◌, ◌↔◌, inl, inr, Bool, true, not, ◌&&◌, Option, none, some, List, [], ◌∷◌, ◌++◌,
  arith, ltb, if◌then◌else◌, Bool-cases,
}
use phantom_proxy.Common.Bytes.{Bytes, codes, eqb}
use phantom_proxy.Secret.{encode_hex}
use phantom_proxy.Users.{User, is_empty, has_name}

pub record UserView : Type 0 where
  pub name : Bytes
  pub secret : Bytes
  pub host : Bytes
  pub enabled : Bool
  pub tg_link : Bytes

module _ (hex_encode : Bytes → Bytes) (decimal : ℕ → Bytes) (server : Bytes) (port : ℕ) where
  unfoldable pub tg_link_of : Bytes → Bytes
  tg_link_of secret =
      if not (is_empty server) && ltb 0 port
      then codes "tg://proxy?server="
        ++ (server ++ (codes "&port=" ++ (decimal port ++ (codes "&secret=" ++ secret))))
      else []

  unfoldable pub to_view : User → UserView
  to_view u = record {
    name = u.name;
    secret = encode_hex hex_encode u.secret;
    host = u.secret.host;
    enabled = u.enabled;
    tg_link = tg_link_of (encode_hex hex_encode u.secret);
  }

  unfoldable pub list_views : List User → List UserView
  list_views [] = []
  list_views (u ∷ us) = to_view u ∷ list_views us

  unfoldable pub get_view : Bytes → List User → Option UserView
  get_view n [] = none
  get_view n (u ∷ us) = let rest = get_view n us in if eqb u.name n then some (to_view u) else rest

  unfoldable pub first_named : Bytes → List UserView → Option UserView
  first_named n [] = none
  first_named n (v ∷ vs) = let rest = first_named n vs in if eqb v.name n then some v else rest

  -- `GetView` shows a user exactly as `ListViews` does: it is the first of the listed views with the
  -- name, and there is one exactly if a user has the name.
  pub get_view-list_views :
      (n : Bytes) (us : List User)
      → (get_view n us ≡ first_named n (list_views us))
        × ((get_view n us ≢ none) ↔ (has_name n us ≡ true))
  unfolding get_view list_views first_named to_view has_name
  get_view-list_views n [] = (refl, ground arith)
  get_view-list_views n (u ∷ us) =
      let r = get_view-list_views n us in
      elim (Bool-cases (eqb u.name n)) [
        | inl e ↦ rw e (refl, ground arith)
        | inr e ↦ rw e (r.0, r.1)
      ]
