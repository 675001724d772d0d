-- ===== src/Config/Persist.antt =====
-- The users that are saved are the users that are loaded again. About: users_to_config,
-- build_users.
use phantom_proxy.Common.{
  ℕ, suc, ◌*◌, ◌<◌, ◌≡◌, refl, sym, ◌∙◌, subst, Bool, false, Option, some, List, [], ◌∷◌, ◌++◌,
  arith, ◌==◌, if◌then◌else◌, length,
}
use phantom_proxy.Common.Bytes.{Bytes, All, eqb}
use phantom_proxy.Common.Result.{ok}
use phantom_proxy.Secret.{Secret, encode_hex}
use phantom_proxy.Secret.RoundTrip.{IsSecret, parse_secret-encode_hex}
use phantom_proxy.Users.{User}
use phantom_proxy.Config.{UserConfig, MtprotoConfig}
use phantom_proxy.Config.UserList.{
  build_user, build_loop, build_users, users_to_config, configured, name_or_host, or_enabled,
}

-- A user that can be saved: a name, and a secret of one of the two modes.
abbrev pub IsSaved : User → Type 0
IsSaved u = IsSecret u.secret × (0 < length u.name)

not_empty : (s : Bytes) → 0 < length s → eqb s [] ≡ false
unfolding eqb
not_empty [] h = absurd (omega (arith, h))
not_empty (c ∷ cs) h = refl

zero_test : (n : ℕ) → (suc n == 0) ≡ false
zero_test n = ground arith

if_false : {A : Type 0} {b : Bool} (x y : A) → b ≡ false → (if b then x else y) ≡ y
if_false x y h = rw h refl

module _ (hex_decode base64_decode : Bytes → Option Bytes) (hex_encode : Bytes → Bytes)
    (decode_encode : (d : Bytes) → hex_decode (hex_encode d) ≡ some d)
    (length-encode : (d : Bytes) → length (hex_encode d) ≡ 2 * length d) where
  doubled :
      (s : Secret)
      → 0 < 2 * length (if s.mode == 0xee then s.mode ∷ (s.key ++ s.host) else s.mode ∷ s.key)
  doubled s = ground arith

  printed_length : (s : Secret) → 0 < length (encode_hex hex_encode s)
  unfolding encode_hex
  printed_length s =
      let printed = if s.mode == 0xee then s.mode ∷ (s.key ++ s.host) else s.mode ∷ s.key in
      subst (λ n. 0 < n) (sym (length-encode printed)) (doubled s)

  item_of : User → UserConfig
  item_of u = record {
    name = u.name;
    secret = encode_hex hex_encode u.secret;
    enabled = some u.enabled;
  }

  build_user_lem : (u : User) → IsSaved u → build_user hex_decode base64_decode (item_of u) ≡ ok u
  unfolding build_user configured name_or_host or_enabled item_of
  build_user_lem u (h, n) =
      rw
        (
          not_empty (encode_hex hex_encode u.secret) (printed_length u.secret),
          parse_secret-encode_hex hex_decode base64_decode hex_encode decode_encode length-encode
              u.secret h,
          not_empty u.name n,
        )
        refl

  build_loop_lem :
      (us : List User)
      → All IsSaved us
      → build_loop hex_decode base64_decode (users_to_config hex_encode us) ≡ ok us
  unfolding build_loop users_to_config item_of
  build_loop_lem [] h = refl
  build_loop_lem (u ∷ us) (h, hs) = rw (build_user_lem u h, build_loop_lem us hs) refl

  -- Users with a name and a secret of one of the two modes, one user or more, are read back from
  -- the configuration that saves them, in their order and with their states.
  pub build_users-users_to_config :
      (mt : MtprotoConfig) (us : List User)
      → All IsSaved us
      → 0 < length us
      → build_users hex_decode base64_decode (record mt { users = users_to_config hex_encode us })
        ≡ ok us
  unfolding build_users users_to_config
  build_users-users_to_config mt [] h n = absurd (omega (arith, n))
  build_users-users_to_config mt (u ∷ us) h n =
      if_false _ _ (zero_test (length (users_to_config hex_encode us))) ∙ build_loop_lem (u ∷ us) h
