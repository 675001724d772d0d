-- ===== src/Runtime.antt =====
-- internal/runtime/runtime.go: the state that the server and the management interface share.
-- The file is behind two parameters: what `config.Load` returns, and whether `config.Save`
-- succeeds. Each method is one step: they hold the lock, or are called by one goroutine.
pub mod Update
use phantom_proxy.Common.{ℕ, Bool, not, ◌&&◌, Option, none, some, List, [], if◌then◌else◌}
use phantom_proxy.Common.Int.{ℤ, pos}
use phantom_proxy.Common.Bytes.{Bytes, eqb}
use phantom_proxy.Common.Result.{Result, err, ok}
use phantom_proxy.FakeTls.Random.{Rand}
use phantom_proxy.FakeTls.Rotator.{
  Rotator, new_server_hello_rotator, new_sni_rotator, pick_host, per_connection,
}
use phantom_proxy.FakeTls.Pool.{Utls, PoolError, FingerprintRotator, new_fingerprint_rotator}
use phantom_proxy.Limit.{ConnLimiter, new_conn_limiter}
use phantom_proxy.Probe.{Blacklist, new_blacklist}
use phantom_proxy.Replay.{ReplayCache, new_replay_cache}
use phantom_proxy.Stats.{Tracker}
use phantom_proxy.Users.{Manager, ManagerError, reload, set_allowed_ja3, set_allowed_ja4}
use phantom_proxy.Config.{Config, antireplay_max_entries}
use phantom_proxy.Config.Settings.{SettingsView, apply_settings}
use phantom_proxy.Config.UserList.{users_to_config}

-- `2 * time.Minute`
abbrev pub replay_ttl : ℤ
replay_ttl = pos 120000000000

pub record Runtime (utls : Utls) : Type 0 where
  pub config_path : Bytes
  pub config : Config
  pub users : Manager
  pub stats : Tracker
  pub replay : Option ReplayCache
  pub limiter : Option ConnLimiter
  pub fingerprint_rotator : Option (FingerprintRotator utls)
  pub server_hello_rotator : Option (Rotator Bytes)
  pub sni_rotator : Option (Rotator Bytes)
  pub probe_blacklist : Option Blacklist
  pub started_at : ℕ

module _ (utls : Utls) where
  abbrev rotator_of :
      Result PoolError (FingerprintRotator utls)
      → Result PoolError (FingerprintRotator utls)
      → Option (FingerprintRotator utls)
  rotator_of (ok r) default = some r
  rotator_of (err e) (ok r) = some r
  rotator_of (err e) (err f) = none

  -- A pool that does not parse is replaced by the default one.
  unfoldable pub apply_security_features : ℕ → Config → Runtime utls → Runtime utls
  apply_security_features now c r = record r {
    fingerprint_rotator =
        rotator_of
          (new_fingerprint_rotator utls c.tls.fingerprint_pool c.tls.fingerprint_rotation
            c.tls.fingerprint_rotation_interval c.tls.fingerprint_adaptive_threshold now)
          (new_fingerprint_rotator utls [] per_connection (pos 300) (pos 20) now);
    server_hello_rotator = some (
        new_server_hello_rotator c.tls.server_hello_pool c.tls.server_hello_rotation
          c.tls.server_hello_rotation_interval c.tls.server_hello_adaptive_threshold now);
    sni_rotator = new_sni_rotator c.tls.sni_pool c.tls.sni_rotation c.tls.sni_rotation_interval now;
    probe_blacklist =
        new_blacklist c.security.probe_blacklist_threshold c.security.probe_blacklist_duration_sec
          c.security.probe_blacklist_window_sec;
  }

  unfoldable pub new_runtime : ℕ → Bytes → Config → Manager → Tracker → Runtime utls
  new_runtime now path c users tracker = apply_security_features now c (record {
    config_path = path;
    config = c;
    users = users;
    stats = tracker;
    replay = some (new_replay_cache (antireplay_max_entries c) replay_ttl);
    limiter = some (new_conn_limiter c.security.max_connections_per_ip);
    fingerprint_rotator = none;
    server_hello_rotator = none;
    sni_rotator = none;
    probe_blacklist = none;
    started_at = now;
  })

  -- `PickMaskSNI`: a missing rotator gives the fallback, as its own `Pick` does.
  unfoldable pub pick_mask_sni :
      Rand → ℕ → ℕ → ℕ → Bytes → Runtime utls → Option (Bytes × Option (Rotator Bytes))
  pick_mask_sni rnd k now later fallback r = pick_host rnd fallback k now later r.sni_rotator

  pub data RuntimeError : Type 0 where
    not_loaded not_saved : RuntimeError
    not_reloaded : ManagerError → RuntimeError

  -- `SetFingerprints`
  abbrev pub set_fingerprints : List Bytes → List Bytes → Manager → Manager
  set_fingerprints ja3 ja4 m = set_allowed_ja4 (set_allowed_ja3 m ja3) ja4

  -- After the users were replaced. A method that fails returns the state it leaves.
  unfoldable pub reload_with :
      ℕ → Config → Runtime utls → Option ManagerError × Manager → Option RuntimeError × Runtime utls
  reload_with now c r (some e, m) = (some (not_reloaded e), record r { users = m })
  reload_with now c r (none, m) = (
    none,
    apply_security_features now c (record r {
      config = c;
      users = set_fingerprints c.tls.allowed_ja3 c.tls.allowed_ja4 m;
      limiter = some (new_conn_limiter c.security.max_connections_per_ip);
      replay = some (new_replay_cache (antireplay_max_entries c) replay_ttl);
    }),
  )

  -- `loaded` is what `config.Load` makes of the file; `none` is its error.
  unfoldable pub reload_runtime :
      ℕ → Option (Config × Manager) → Runtime utls → Option RuntimeError × Runtime utls
  unfolding reload_with
  reload_runtime now none r = (some not_loaded, r)
  reload_runtime now (some (c, loaded)) r = reload_with now c r (reload r.users loaded.users)

  module _ (hex_encode : Bytes → Bytes) (saves : Config → Bool) where
    -- The configuration with the users as they are, and no single secret.
    unfoldable pub with_users : Config → Manager → Config
    with_users c m = record c {
      mtproto = record c.mtproto { users = users_to_config hex_encode m.users; secret = [] };
    }

    unfoldable pub update_settings :
        ℕ → SettingsView → Runtime utls → Option RuntimeError × Runtime utls
    unfolding with_users
    update_settings now s r =
        let c = with_users (apply_settings r.config s) r.users in
        let early = record r {
          users = set_fingerprints s.allowed_ja3 s.allowed_ja4 r.users;
          limiter = some (new_conn_limiter s.max_connections_per_ip);
        } in
        if not (eqb r.config_path []) && not (saves c)
        then (some not_saved, early)
        else (none, apply_security_features now c (record early { config = c }))

    unfoldable pub persist_users : Runtime utls → Option RuntimeError × Runtime utls
    unfolding with_users
    persist_users r =
        let c = with_users r.config r.users in
        if eqb r.config_path []
        then (none, r)
        else if not (saves c)
        then (some not_saved, r)
        else (none, record r { config = c })
