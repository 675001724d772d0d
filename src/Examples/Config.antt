-- ===== src/Examples/Config.antt =====
-- The settings and the runtime at concrete inputs: hexadecimal with its digits as numbers, and a
-- utls library whose identifiers are numbers.
use phantom_proxy.Common.{
  ℕ, ◌*◌, ◌<◌, ◌≡◌, refl, sym, subst, ◌⊎◌, inl, true, false, Option, none, some, [], ◌∷◌, arith,
  length,
}
use phantom_proxy.Common.Int.{pos, negsuc}
use phantom_proxy.Common.Bytes.{Bytes, All, codes, eqb}
use phantom_proxy.Limit.{new_conn_limiter}
use phantom_proxy.Secret.{Secret}
use phantom_proxy.Secret.RoundTrip.{IsSecret}
use phantom_proxy.Users.{Manager}
use phantom_proxy.FakeTls.Pool.{Utls}
use phantom_proxy.Config.{Config, fronting_action}
use phantom_proxy.Config.Settings.{
  SettingsView, settings_from_config, apply_settings, settings_round_trip,
}
use phantom_proxy.Config.Persist.{IsSaved}
use phantom_proxy.Runtime.{
  Runtime, RuntimeError, not_saved, apply_security_features, new_runtime, update_settings,
}
use phantom_proxy.Runtime.Update.{Describes, update_settings_lem}

hex_encode : Bytes → Bytes
hex_encode [] = []
hex_encode (b ∷ bs) = b ∷ 0 ∷ hex_encode bs

hex_decode : Bytes → Option Bytes
hex_decode [] = some []
hex_decode (_ ∷ []) = none
hex_decode (b ∷ _ ∷ bs) = elim (hex_decode bs) [ none ↦ none | some d ↦ some (b ∷ d) ]

decode_encode : (d : Bytes) → hex_decode (hex_encode d) ≡ some d
unfolding hex_decode hex_encode
decode_encode [] = refl
decode_encode (b ∷ bs) = rw (decode_encode bs) refl

length-hex_encode : (d : Bytes) → length (hex_encode d) ≡ 2 * length d
unfolding hex_encode
length-hex_encode [] = refl
length-hex_encode (b ∷ bs) = omega (arith, length-hex_encode bs)

abbrev pub utls : Utls
utls = record {
  ClientHelloId = ℕ;
  chrome_auto = 0;
  chrome_120 = 1;
  chrome_120_pq = 2;
  chrome_115_pq = 3;
  chrome_106_shuffle = 4;
  firefox_auto = 5;
  firefox_120 = 6;
  firefox_105 = 7;
  edge_auto = 8;
  edge_106 = 9;
  safari_auto = 10;
  safari_16_0 = 11;
}

abbrev pub config : Config
config = record {
  listen = record { host = []; port = pos 443; proxy_protocol = true };
  mtproto = record {
    secret = [];
    backend = [];
    users = [];
    ad_tag = [];
    use_middle_proxy = false;
    middle_proxy_nat_ip = [];
  };
  tls = record {
    record_min_chunk = pos 512;
    record_max_chunk = pos 4096;
    noise_mean = pos 3000;
    noise_jitter = pos 800;
    allowed_ja3 = [];
    allowed_ja4 = [];
    enable_drs = true;
    enable_split_tls = true;
    fingerprint_pool = [];
    fingerprint_rotation = [];
    fingerprint_rotation_interval = pos 0;
    fingerprint_adaptive_threshold = pos 0;
    sni_pool = [];
    sni_rotation = [];
    sni_rotation_interval = pos 0;
    server_hello_pool = [];
    server_hello_rotation = [];
    server_hello_rotation_interval = pos 0;
    server_hello_adaptive_threshold = pos 0;
    record_jitter_ms = pos 0;
    decoy_permille = pos 0;
    post_handshake_delay_ms = pos 0;
    client_hello_policy = [];
  };
  fallback = record { upstream = []; honeypot = false };
  management = record {
    host = [];
    port = pos 0;
    token = [];
    public_server = [];
    service_name = [];
    service_unit_path = [];
    allow_service_uninstall = false;
    uninstall_script = [];
  };
  fronting = record { enabled = true; port = pos 0; action = [] };
  security = record {
    antireplay_cache_mb = pos 1;
    max_connections_per_ip = pos 3;
    handshake_timeout_sec = pos 0;
    probe_blacklist_threshold = pos 0;
    probe_blacklist_duration_sec = pos 0;
    probe_blacklist_window_sec = pos 0;
  };
  protocols = record { fake_tls = true; secure = true };
  upstream = record { socks5 = []; prefer_ip = [] };
  metrics = record { host = []; port = negsuc 0 };
  relay = record { mode = []; peer_addr = []; listen_host = []; listen_port = pos 0; psk = [] };
}

abbrev pub secret : Secret
secret = record {
  key = 1 ∷ 2 ∷ 3 ∷ 4 ∷ 5 ∷ 6 ∷ 7 ∷ 8 ∷ 9 ∷ 10 ∷ 11 ∷ 12 ∷ 13 ∷ 14 ∷ 15 ∷ 16 ∷ [];
  host = codes "a.org";
  mode = 0xee;
}

abbrev pub manager : Manager
manager = record {
  users = record { name = codes "ann"; secret = secret; enabled = true } ∷ [];
  mask_host = codes "a.org";
  ja3_allow = [];
  ja4_allow = [];
}

abbrev edited : SettingsView
edited = record {
  listen_host = codes "h";
  listen_port = pos 8443;
  backend = [];
  fallback_upstream = codes "u";
  record_min_chunk = pos 1;
  record_max_chunk = pos 2;
  noise_mean = pos 3;
  noise_jitter = pos 4;
  allowed_ja3 = [];
  allowed_ja4 = [];
  public_server = codes "s";
  max_connections_per_ip = pos 7;
  upstream_socks5 = [];
  action = codes "redirect";
}

is_redirect : eqb (codes "redirect") (codes "redirect") ≡ true
unfolding eqb
is_redirect = refl

settings_round_trip_example :
    (settings_from_config (apply_settings config edited) ≡ edited)
    × (apply_settings config (settings_from_config config)
        ≡ record config { fronting = record config.fronting { action = fronting_action config } })
settings_round_trip_example = settings_round_trip config edited (rw is_redirect refl)

secret-IsSecret : IsSecret secret
unfolding IsSecret
secret-IsSecret = (refl, inl (refl, omega arith))

abbrev running : Runtime utls
running = new_runtime utls 5 (codes "config.yaml") config manager []

running-users : running.users ≡ manager
unfolding new_runtime apply_security_features
running-users = refl

abbrev changed : Option (RuntimeError utls) × Runtime utls
changed = update_settings utls hex_encode (λ c. false) 9 edited running

update_settings_lem_example :
    ((changed.0 ≡ none)
      × Describes hex_decode
          (λ t. none)
          hex_encode
          decode_encode
          length-hex_encode
          utls
          (λ c. false)
          edited
          running
          changed.1)
    ⊎ ((changed.0 ≡ some not_saved)
        × (changed.1.config ≡ running.config)
        × (changed.1.users.users ≡ running.users.users)
        × (changed.1.limiter ≡ some (new_conn_limiter (pos 7))))
update_settings_lem_example =
    update_settings_lem hex_decode (λ t. none) hex_encode decode_encode length-hex_encode utls
      (λ c. false) 9 edited running
      (subst (λ m. All IsSaved m.users) (sym running-users) ((secret-IsSecret, omega arith), tt))
      (subst (λ m. 0 < length m.users) (sym running-users) (omega arith))
