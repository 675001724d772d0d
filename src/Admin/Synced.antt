-- ===== src/Admin/Synced.antt =====
-- The saved users are the running users. About: the handlers of the management interface.
use phantom_proxy.Common.{
  ℕ, ◌≡◌, refl, ◌≢◌, ◌⊎◌, inl, inr, Bool, true, false, not, ◌&&◌, Option, none, some, [], arith,
  ltb, if◌then◌else◌, Bool-cases,
}
use phantom_proxy.Common.Bytes.{Bytes, eqb}
use phantom_proxy.Common.Result.{Result, ok, err}
use phantom_proxy.Secret.{Secret, SecretError}
use phantom_proxy.Users.{User, Manager, ManagerError, set_allowed_ja3, set_allowed_ja4}
use phantom_proxy.FakeTls.Pool.{Utls}
use phantom_proxy.Config.{ManagementConfig}
use phantom_proxy.Config.Settings.{SettingsView, apply_settings}
use phantom_proxy.Config.UserList.{users_to_config}
use phantom_proxy.Runtime.{
  RuntimeError, Runtime, persist_users, with_users, update_settings, apply_security_features,
}
use phantom_proxy.Admin.Request.{
  UninstallRequest, by_method, Method, get, post, put, delete, other_method, head, Request,
  CreateUserRequest, UpdateUserRequest, Response, Outside, with_auth,
}
use phantom_proxy.Admin.Accounts.{
  end_saved, saved, end_added, end_parsed, with_secret, create_with, create_user, end_updated,
  update_parsed, update_with, update_user_by_name, end_deleted, end_removed, delete_user, get_user,
  list_users, handle_users, handle_named, handle_user_by_name,
}
use phantom_proxy.Admin.Control.{
  status_page, service_uninstall, handle_status, handle_service_uninstall, uninstall_with, Endpoint,
  health, users, users_by_name, stats, stats_by_name, reload, settings_page, serve, handle_stats,
  handle_stats_by_name, handle_config, put_settings, end_settings,
}

module _ (utls : Utls) (out : Outside) where
  -- Nothing is saved without a path; else the configuration lists the users that are running.
  abbrev pub IsSynced : Runtime utls → Type 0
  IsSynced rt =
      (eqb rt.config_path [] ≡ true)
      ⊎ (rt.config.mtproto.users ≡ users_to_config out.hex_encode rt.users.users)

  -- An answer that is no error comes with such a runtime.
  abbrev Keeps : Response × Runtime utls → Type 0
  Keeps p = ltb p.0.0 400 ≡ true → IsSynced p.1

  unfoldable Fine : Option (RuntimeError utls) × Runtime utls → Type 0
  Fine (some e, rt) = Unit
  Fine (none, rt) = IsSynced rt

  saved-Fine : (rt : Runtime utls) → Fine (saved utls out rt)
  unfolding Fine saved persist_users with_users
  saved-Fine rt = elim (Bool-cases (eqb rt.config_path [])) [
    | inl e ↦ rw e (inl e)
    | inr e ↦
        elim (Bool-cases
          (out.saves (with_users utls out.hex_encode out.saves rt.config rt.users))) [
            | inl f ↦ rw (e, f) (inr refl)
            | inr f ↦ rw (e, f) tt
          ]
  ]

  updated-Fine :
      (s : SettingsView) (rt : Runtime utls)
      → Fine (update_settings utls out.hex_encode out.saves out.now s rt)
  unfolding Fine update_settings apply_security_features with_users
  updated-Fine s rt =
      let c = with_users utls out.hex_encode out.saves (apply_settings rt.config s) rt.users in
      elim (Bool-cases (not (eqb rt.config_path []) && not (out.saves c))) [
        | inl e ↦ rw e tt
        | inr e ↦ rw e (inr (unfold set_allowed_ja3 set_allowed_ja4 in refl))
      ]

  end_saved-Keeps :
      (r : Request) (name : Bytes) (status : ℕ) (p : Option (RuntimeError utls) × Runtime utls)
      → Fine p
      → Keeps (end_saved utls out r name status p)
  unfolding end_saved Fine
  end_saved-Keeps r name status (some e, rt) f h = absurd (ground (arith, h))
  end_saved-Keeps r name status (none, rt) f h = f

  end_deleted-Keeps :
      (p : Option (RuntimeError utls) × Runtime utls) → Fine p → Keeps (end_deleted utls out p)
  unfolding end_deleted Fine
  end_deleted-Keeps (some e, rt) f h = absurd (ground (arith, h))
  end_deleted-Keeps (none, rt) f h = f

  end_settings-Keeps :
      (p : Option (RuntimeError utls) × Runtime utls) → Fine p → Keeps (end_settings utls out p)
  unfolding end_settings Fine
  end_settings-Keeps (some e, rt) f h = absurd (ground (arith, h))
  end_settings-Keeps (none, rt) f h = f

  if-Keeps :
      (b : Bool) (p q : Response × Runtime utls) → Keeps p → Keeps q → Keeps (if b then p else q)
  if-Keeps true p q f g = f
  if-Keeps false p q f g = g

  by_method-Keeps :
      (m : Method) (a b c d e : Response × Runtime utls)
      → Keeps a
      → Keeps b
      → Keeps c
      → Keeps d
      → Keeps e
      → Keeps (by_method m a b c d e)
  unfolding by_method
  by_method-Keeps get a b c d e f g h i j = f
  by_method-Keeps post a b c d e f g h i j = g
  by_method-Keeps put a b c d e f g h i j = h
  by_method-Keeps delete a b c d e f g h i j = i
  by_method-Keeps head a b c d e f g h i j = j
  by_method-Keeps (other_method m) a b c d e f g h i j = j

  module _ (rt : Runtime utls) (synced : IsSynced rt) where
    added-Keeps :
        (r : Request) (name : Bytes) (m : Result ManagerError Manager)
        → Keeps (end_added utls out r name rt m)
    unfolding end_added
    added-Keeps r name (err e) = λ h. synced
    added-Keeps r name (ok m) = end_saved-Keeps r name 201 _ (saved-Fine (record rt { users = m }))

    parsed-Keeps :
        (r : Request) (c : CreateUserRequest) (s : Result SecretError Secret)
        → Keeps (end_parsed utls out r c rt s)
    unfolding end_parsed
    parsed-Keeps r c (err e) = λ h. synced
    parsed-Keeps r c (ok s) = added-Keeps r c.name _

    with_secret-Keeps :
        (r : Request) (c : CreateUserRequest) (text : Option Bytes)
        → Keeps (with_secret utls out r c rt text)
    unfolding with_secret
    with_secret-Keeps r c none = λ h. synced
    with_secret-Keeps r c (some text) = parsed-Keeps r c _

    create-Keeps :
        (r : Request) (c : Option CreateUserRequest) → Keeps (create_with utls out r rt c)
    unfolding create_with
    create-Keeps r none = λ h. synced
    create-Keeps r (some c) = if-Keeps (eqb c.name []) _ _ (λ h. synced) (with_secret-Keeps r c _)

    updated-Keeps :
        (r : Request) (name : Bytes) (p : Result ManagerError (Option User) × Manager)
        → Keeps (end_updated utls out r name rt p)
    unfolding end_updated
    updated-Keeps r name (err e, m) = λ h. absurd (ground (arith, h))
    updated-Keeps r name (ok u, m) =
        end_saved-Keeps r name 200 _ (saved-Fine (record rt { users = m }))

    update_parsed-Keeps :
        (r : Request) (name : Bytes) (enabled : Option Bool)
        (s : Result SecretError (Option Secret))
        → Keeps (update_parsed utls out r name rt enabled s)
    unfolding update_parsed
    update_parsed-Keeps r name enabled (err e) = λ h. synced
    update_parsed-Keeps r name enabled (ok s) = updated-Keeps r name _

    update-Keeps :
        (r : Request) (name : Bytes) (c : Option UpdateUserRequest)
        → Keeps (update_with utls out r name rt c)
    unfolding update_with
    update-Keeps r name none = λ h. synced
    update-Keeps r name (some c) = update_parsed-Keeps r name c.enabled _

    removed-Keeps : (p : Option ManagerError × Manager) → Keeps (end_removed utls out rt p)
    unfolding end_removed
    removed-Keeps (some e, m) = λ h. absurd (ground (arith, h))
    removed-Keeps (none, m) = end_deleted-Keeps _ (saved-Fine (record rt { users = m }))

    users-Keeps : (r : Request) → Keeps (handle_users utls out r rt)
    unfolding handle_users list_users create_user
    users-Keeps r =
        by_method-Keeps r.method _ _ _ _ _ (λ h. synced) (create-Keeps r _) (λ h. synced)
          (λ h. synced) (λ h. synced)

    named-Keeps : (r : Request) (name : Bytes) → Keeps (handle_named utls out r rt name)
    unfolding handle_named get_user update_user_by_name delete_user
    named-Keeps r name =
        by_method-Keeps r.method _ _ _ _ _ (λ h. synced) (λ h. synced) (update-Keeps r name _)
          (removed-Keeps _) (λ h. synced)

    user_by_name-Keeps : (r : Request) → Keeps (handle_user_by_name utls out r rt)
    unfolding handle_user_by_name
    user_by_name-Keeps r = if-Keeps _ _ _ (λ h. synced) (named-Keeps r _)

    stats-Keeps : (r : Request) → Keeps (handle_stats utls out r rt)
    unfolding handle_stats
    stats-Keeps r = if-Keeps _ _ _ (λ h. synced) (λ h. synced)

    stats_by_name-Keeps : (r : Request) → Keeps (handle_stats_by_name utls out r rt)
    unfolding handle_stats_by_name
    stats_by_name-Keeps r =
        if-Keeps _ _ _ (λ h. synced) (if-Keeps _ _ _ (stats-Keeps r) (λ h. synced))

    put_settings-Keeps : (s : Option SettingsView) → Keeps (put_settings utls out rt s)
    unfolding put_settings
    put_settings-Keeps none = λ h. synced
    put_settings-Keeps (some s) = end_settings-Keeps _ (updated-Fine s rt)

    config-Keeps : (r : Request) → Keeps (handle_config utls out r rt)
    unfolding handle_config
    config-Keeps r =
        by_method-Keeps r.method _ _ _ _ _ (λ h. synced) (λ h. synced) (put_settings-Keeps _)
          (λ h. synced) (λ h. synced)

    with_auth-Keeps :
        (token : Bytes) (next : Request → Runtime utls → Response × Runtime utls) (r : Request)
        → Keeps (next r rt)
        → Keeps (with_auth utls token next r rt)
    unfolding with_auth
    with_auth-Keeps token next r k = if-Keeps _ _ _ (λ h. synced) k

    status-Keeps : (r : Request) → Keeps (handle_status utls out r rt)
    unfolding handle_status
    status-Keeps r = λ h. synced

    uninstall_with-Keeps : (c : Option UninstallRequest) → Keeps (uninstall_with utls out rt c)
    unfolding uninstall_with
    uninstall_with-Keeps none = λ h. synced
    uninstall_with-Keeps (some c) = if-Keeps _ _ _ (λ h. synced) (λ h. synced)

    service_uninstall-Keeps :
        (mgmt : ManagementConfig) (r : Request)
        → Keeps (handle_service_uninstall utls out mgmt r rt)
    unfolding handle_service_uninstall
    service_uninstall-Keeps mgmt r =
        if-Keeps _ _ _ (λ h. synced)
          (if-Keeps (not mgmt.allow_service_uninstall) _ _ (λ h. synced)
            (uninstall_with-Keeps (out.decode_uninstall r.body)))

    -- Where the saved users are the running ones (or there is no file), they still are after any
    -- request to the API under /api/v1, but a reload, that is answered without an error.
    pub serve-IsSynced :
        (mgmt : ManagementConfig) (e : Endpoint) (r : Request)
        → e ≢ reload
        → ltb (serve utls out mgmt e r rt).0.0 400 ≡ true
        → IsSynced (serve utls out mgmt e r rt).1
    unfolding serve
    serve-IsSynced mgmt health r n = λ h. synced
    serve-IsSynced mgmt users r n =
        with_auth-Keeps mgmt.token (handle_users utls out) r (users-Keeps r)
    serve-IsSynced mgmt users_by_name r n =
        with_auth-Keeps mgmt.token (handle_user_by_name utls out) r (user_by_name-Keeps r)
    serve-IsSynced mgmt stats r n =
        with_auth-Keeps mgmt.token (handle_stats utls out) r (stats-Keeps r)
    serve-IsSynced mgmt stats_by_name r n =
        with_auth-Keeps mgmt.token (handle_stats_by_name utls out) r (stats_by_name-Keeps r)
    serve-IsSynced mgmt reload r n = absurd (n refl)
    serve-IsSynced mgmt settings_page r n =
        with_auth-Keeps mgmt.token (handle_config utls out) r (config-Keeps r)
    serve-IsSynced mgmt status_page r n =
        with_auth-Keeps mgmt.token (handle_status utls out) r (status-Keeps r)
    serve-IsSynced mgmt service_uninstall r n =
        with_auth-Keeps mgmt.token (handle_service_uninstall utls out mgmt) r
          (service_uninstall-Keeps mgmt r)
