-- ===== src/Admin/Control.antt =====
-- internal/admin/server.go: the statistics, the reload, the settings, the status, the removal of
-- the service, and which handlers of the API ask for the token. Which handler a path belongs to is net/http's; a request comes with its endpoint.
use phantom_proxy.Common.{
  ◌-◌, ◌/◌, ◌^◌, length, ◌∷◌, Bool, true, false, not, Option, none, some, [], if◌then◌else◌,
}
use phantom_proxy.Common.Bytes.{Bytes, codes, eqb}
use phantom_proxy.Stats.{UserStats, snapshot, user}
use phantom_proxy.FakeTls.Pool.{Utls}
use phantom_proxy.Config.{Config, ManagementConfig, listen_addr}
use phantom_proxy.Config.Settings.{SettingsView, settings_from_config}
use phantom_proxy.Runtime.{Runtime, RuntimeError, reload_runtime, update_settings}
use phantom_proxy.Admin.Request.{
  status, uninstall, UninstallRequest, by_method, Method, Request, failure, alive, totals,
  user_totals, settings, applied, reloaded, Rebound, not_rebound, rebind_failed, rebound, Response,
  Outside, with_auth,
}
use phantom_proxy.Admin.Accounts.{trim_prefix, handle_users, handle_user_by_name}

-- `УДАЛИТЬ` in UTF-8.
abbrev confirm_phrase : Bytes
confirm_phrase =
    0xd0 ∷ 0xa3 ∷ 0xd0 ∷ 0x94 ∷ 0xd0 ∷ 0x90 ∷ 0xd0 ∷ 0x9b ∷ 0xd0 ∷ 0x98 ∷ 0xd0 ∷ 0xa2 ∷ 0xd0 ∷ 0xac
    ∷ []

pub data Endpoint : Type 0 where
  status_page service_uninstall : Endpoint
  health users users_by_name stats stats_by_name reload settings_page : Endpoint

abbrev is_get : Method → Bool
is_get m = by_method m true false false false false

abbrev is_post : Method → Bool
is_post m = by_method m false true false false false

module _ (utls : Utls) (out : Outside) where
  unfoldable pub handle_stats : Request → Runtime utls → Response × Runtime utls
  handle_stats r rt =
      if not (is_get r.method)
      then ((405, failure), rt)
      else ((200, totals (snapshot rt.stats)), rt)

  abbrev found_stats : Option UserStats → Response
  found_stats none = (404, failure)
  found_stats (some s) = (200, user_totals s)

  unfoldable pub handle_stats_by_name : Request → Runtime utls → Response × Runtime utls
  unfolding handle_stats
  handle_stats_by_name r rt =
      let name = trim_prefix r.path (codes "/api/v1/stats/") in
      if not (is_get r.method)
      then ((405, failure), rt)
      else if eqb name []
      then handle_stats r rt
      else (found_stats (user rt.stats name), rt)

  abbrev moved : Runtime utls → Option Bool → Rebound
  moved rt none = rebind_failed
  moved rt (some false) = not_rebound
  moved rt (some true) = rebound (listen_addr rt.config)

  unfoldable pub rebind : Runtime utls → Option (Config → Option Bool) → Rebound
  rebind rt none = not_rebound
  rebind rt (some f) = moved rt (f rt.config)

  unfoldable pub end_reload : Option (RuntimeError utls) × Runtime utls → Response × Runtime utls
  unfolding rebind
  end_reload (some e, rt) = ((500, failure), rt)
  end_reload (none, rt) = ((200, reloaded (rebind rt out.rebinder)), rt)

  unfoldable pub handle_reload : Request → Runtime utls → Response × Runtime utls
  unfolding end_reload
  handle_reload r rt =
      if not (is_post r.method)
      then ((405, failure), rt)
      else end_reload (reload_runtime utls out.now out.loads rt)

  -- `applyConfigResponse`
  unfoldable pub end_settings : Option (RuntimeError utls) × Runtime utls → Response × Runtime utls
  unfolding rebind
  end_settings (some e, rt) = ((500, failure), rt)
  end_settings (none, rt) =
      ((200, applied (settings_from_config rt.config) (rebind rt out.rebinder)), rt)

  unfoldable pub put_settings : Runtime utls → Option SettingsView → Response × Runtime utls
  unfolding end_settings
  put_settings rt none = ((400, failure), rt)
  put_settings rt (some s) =
      end_settings (update_settings utls out.hex_encode out.saves out.now s rt)

  unfoldable pub handle_config : Request → Runtime utls → Response × Runtime utls
  unfolding by_method put_settings
  handle_config r rt =
      by_method r.method (((200, settings (settings_from_config rt.config)), rt))
        (((405, failure), rt)) (put_settings rt (out.decode_settings r.body)) (((405, failure), rt))
        (((405, failure), rt))

  unfoldable pub handle_status : Request → Runtime utls → Response × Runtime utls
  handle_status r rt =
      let snap = snapshot rt.stats in
      (
        (
          200,
          status (record {
            uptime_seconds = (out.now - rt.started_at) / 10 ^ 9;
            listen_addr = listen_addr rt.config;
            mask_host = rt.users.mask_host;
            backend = rt.config.mtproto.backend;
            users_count = length rt.users.users;
            active_connections = snap.active_connections;
            total_connections = snap.total_connections;
            upload_bytes = snap.upload_bytes;
            download_bytes = snap.download_bytes;
          }),
        ),
        rt,
      )

  -- `ScheduleUninstall` is reached only where it is allowed; what it starts is outside.
  unfoldable pub uninstall_with : Runtime utls → Option UninstallRequest → Response × Runtime utls
  uninstall_with rt none = ((400, failure), rt)
  uninstall_with rt (some c) =
      if not (eqb c.confirm confirm_phrase)
      then ((400, failure), rt)
      else ((if out.has_systemctl then 202 else 200, uninstall out.has_systemctl), rt)

  unfoldable pub handle_service_uninstall :
      ManagementConfig → Request → Runtime utls → Response × Runtime utls
  unfolding uninstall_with
  handle_service_uninstall mgmt r rt =
      if not (is_post r.method)
      then ((405, failure), rt)
      else if not mgmt.allow_service_uninstall
      then ((403, failure), rt)
      else uninstall_with rt (out.decode_uninstall r.body)

  -- The handlers of the API as `New` registers them, with the management settings of the start.
  unfoldable pub serve :
      ManagementConfig → Endpoint → Request → Runtime utls → Response × Runtime utls
  unfolding with_auth
  serve mgmt health r rt = ((200, alive), rt)
  serve mgmt status_page r rt = with_auth utls mgmt.token handle_status r rt
  serve mgmt users r rt = with_auth utls mgmt.token (handle_users utls out) r rt
  serve mgmt users_by_name r rt = with_auth utls mgmt.token (handle_user_by_name utls out) r rt
  serve mgmt stats r rt = with_auth utls mgmt.token handle_stats r rt
  serve mgmt stats_by_name r rt = with_auth utls mgmt.token handle_stats_by_name r rt
  serve mgmt reload r rt = with_auth utls mgmt.token handle_reload r rt
  serve mgmt settings_page r rt = with_auth utls mgmt.token handle_config r rt
  serve mgmt service_uninstall r rt = with_auth utls mgmt.token (handle_service_uninstall mgmt) r rt
