-- ===== src/Admin/Auth.antt =====
-- Requests without the token. About: checkToken, withAuth and the handlers that New registers.
use phantom_proxy.Common.{
  ◌≡◌, refl, sym, ap, ◌∙◌, ◌⊎◌, inl, inr, true, false, [], ◌++◌, arith, Bool-cases, length, take,
  drop, take-append-drop,
}
use phantom_proxy.Common.Bytes.{Bytes, codes, eqb, eqb_iff}
use phantom_proxy.Common.Text.{has_prefix}
use phantom_proxy.FakeTls.Pool.{Utls}
use phantom_proxy.Runtime.{Runtime}
use phantom_proxy.Admin.Request.{Request, Response, failure, alive, Outside, check_token, with_auth}
use phantom_proxy.Config.{ManagementConfig}
use phantom_proxy.Admin.Control.{
  status_page, service_uninstall, handle_status, handle_service_uninstall, Endpoint, health, users,
  users_by_name, stats, stats_by_name, reload, settings_page, serve, handle_stats,
  handle_stats_by_name, handle_reload, handle_config,
}
use phantom_proxy.Admin.Accounts.{handle_users, handle_user_by_name}

-- The token stands in one of the two headers.
abbrev pub Carries : Bytes → Request → Type 0
Carries token r = (r.authorization ≡ codes "Bearer " ++ token) ⊎ (r.api_token ≡ token)

has_prefix-append : (s p : Bytes) → has_prefix s p ≡ true → s ≡ p ++ drop (length p) s
unfolding has_prefix
has_prefix-append s p h =
    sym (take-append-drop (length p) s)
    ∙ ap (λ f. f ++ drop (length p) s) ((eqb_iff (take (length p) s) p).0 (ground (arith, h)))

check_token_sound : (r : Request) (token : Bytes) → check_token r token ≡ true → Carries token r
unfolding check_token
check_token_sound r token = elim (Bool-cases (has_prefix r.authorization (codes "Bearer "))) [
  | inl e ↦ rw e (λ h. inl (
      has_prefix-append r.authorization (codes "Bearer ") e
      ∙ ap (λ t. codes "Bearer " ++ t) ((eqb_iff (drop 7 r.authorization) token).0 h)))
  | inr e ↦ rw e (λ h. inr ((eqb_iff r.api_token token).0 h))
]

abbrev pub refusal : Endpoint → Response
refusal health = (200, alive)
refusal users = (401, failure)
refusal users_by_name = (401, failure)
refusal stats = (401, failure)
refusal stats_by_name = (401, failure)
refusal reload = (401, failure)
refusal settings_page = (401, failure)
refusal status_page = (401, failure)
refusal service_uninstall = (401, failure)

module _ (utls : Utls) (out : Outside) where
  with_auth_refuses :
      (token : Bytes) (next : Request → Runtime utls → Response × Runtime utls) (r : Request)
      (rt : Runtime utls)
      → eqb token [] ≡ false
      → ¬ Carries token r
      → with_auth utls token next r rt ≡ ((401, failure), rt)
  unfolding with_auth
  with_auth_refuses token next r rt n c = elim (Bool-cases (check_token r token)) [
    | inl e ↦ absurd (c (check_token_sound r token e))
    | inr e ↦ rw (n, e) refl
  ]

  -- Where a token is configured, a request that carries it in neither header changes nothing and
  -- is refused by every endpoint of the API under /api/v1 but the health check, which tells only that the server is alive.
  pub serve_refuses :
      (mgmt : ManagementConfig) (e : Endpoint) (r : Request) (rt : Runtime utls)
      → eqb mgmt.token [] ≡ false
      → ¬ Carries mgmt.token r
      → serve utls out mgmt e r rt ≡ (refusal e, rt)
  unfolding serve
  serve_refuses mgmt health r rt n c = refl
  serve_refuses mgmt users r rt n c = with_auth_refuses mgmt.token (handle_users utls out) r rt n c
  serve_refuses mgmt users_by_name r rt n c =
      with_auth_refuses mgmt.token (handle_user_by_name utls out) r rt n c
  serve_refuses mgmt stats r rt n c = with_auth_refuses mgmt.token (handle_stats utls out) r rt n c
  serve_refuses mgmt stats_by_name r rt n c =
      with_auth_refuses mgmt.token (handle_stats_by_name utls out) r rt n c
  serve_refuses mgmt reload r rt n c =
      with_auth_refuses mgmt.token (handle_reload utls out) r rt n c
  serve_refuses mgmt settings_page r rt n c =
      with_auth_refuses mgmt.token (handle_config utls out) r rt n c
  serve_refuses mgmt status_page r rt n c =
      with_auth_refuses mgmt.token (handle_status utls out) r rt n c
  serve_refuses mgmt service_uninstall r rt n c =
      with_auth_refuses mgmt.token (handle_service_uninstall utls out mgmt) r rt n c
