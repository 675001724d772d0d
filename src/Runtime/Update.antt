-- ===== src/Runtime/Update.antt =====
-- What a change of the settings leaves behind. About: update_settings, apply_security_features.
use phantom_proxy.Common.{
  ℕ, ◌*◌, ◌<◌, ◌≡◌, refl, ◌∙◌, ◌⊎◌, inl, inr, Bool, not, ◌&&◌, Option, none, some, [], Bool-cases,
  length,
}
use phantom_proxy.Common.Bytes.{Bytes, All, eqb}
use phantom_proxy.Common.Result.{ok}
use phantom_proxy.FakeTls.Pool.{Utls}
use phantom_proxy.Limit.{new_conn_limiter}
use phantom_proxy.Users.{Manager, set_allowed_ja3, set_allowed_ja4}
use phantom_proxy.Config.{Config, fronting_action}
use phantom_proxy.Config.Settings.{
  SettingsView, apply_settings, settings_from_config, shown_action, read_back,
}
use phantom_proxy.Config.UserList.{build_users}
use phantom_proxy.Config.Persist.{IsSaved, build_users-users_to_config}
use phantom_proxy.Runtime.{Runtime, not_saved, update_settings, with_users, apply_security_features}

module _ (hex_decode base64_decode : Bytes → Option Bytes) (hex_encode : Bytes → Bytes)
    (decode_encode : (d : Bytes) → hex_decode (hex_encode d) ≡ some d)
    (length-encode : (d : Bytes) → length (hex_encode d) ≡ 2 * length d) (utls : Utls)
    (saves : Config → Bool) where
  -- What is left of the runtime: the settings, and the users of its configuration.
  abbrev pub Describes : SettingsView → Runtime utls → Runtime utls → Type 0
  Describes s r q =
      (settings_from_config q.config ≡ record s { action = shown_action r.config s.action })
      × (build_users hex_decode base64_decode q.config.mtproto ≡ ok r.users.users)
      × (q.users.users ≡ r.users.users)
      × (q.limiter ≡ some (new_conn_limiter s.max_connections_per_ip))

  shown :
      (c : Config) (m : Manager)
      → settings_from_config (with_users utls hex_encode saves c m) ≡ settings_from_config c
  unfolding settings_from_config with_users fronting_action
  shown c m = refl

  -- Where there are users, each with a name and a secret of one of the two modes, there are two
  -- ends. Either the settings are saved: the new configuration shows them, with the action that it
  -- falls back to where theirs is none of the three, and describes the users that are running; or
  -- the file could not be written: the configuration is the old one, but the limit on connections
  -- is already the new one, counting from nothing. The users stay the same either way.
  pub update_settings_lem :
      (now : ℕ) (s : SettingsView) (r : Runtime utls)
      → All IsSaved r.users.users
      → 0 < length r.users.users
      → let (e, q) = update_settings utls hex_encode saves now s r in
        ((e ≡ none) × Describes s r q)
        ⊎ ((e ≡ some not_saved)
            × (q.config ≡ r.config)
            × (q.users.users ≡ r.users.users)
            × (q.limiter ≡ some (new_conn_limiter s.max_connections_per_ip)))
  unfolding update_settings apply_security_features
  update_settings_lem now s r h n =
      let c = with_users utls hex_encode saves (apply_settings r.config s) r.users in
      elim (Bool-cases (not (eqb r.config_path []) && not (saves c))) [
        | inl e ↦ rw e (inr (refl, refl, unfold set_allowed_ja3 set_allowed_ja4 in refl, refl))
        | inr e ↦ rw e (
            inl (
              refl,
              (
                shown (apply_settings r.config s) r.users ∙ read_back r.config s,
                unfold with_users in
                    build_users-users_to_config hex_decode base64_decode hex_encode decode_encode
                      length-encode (record (apply_settings r.config s).mtproto { secret = [] })
                      r.users.users h n,
                unfold set_allowed_ja3 set_allowed_ja4 in refl,
                refl,
              ),
            ))
      ]
