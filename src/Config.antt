-- ===== src/Config.antt =====
-- internal/config: the configuration, what its accessors make of it, and the settings that the
-- management interface edits. Reading and writing the file (viper, yaml) is not modelled.
pub mod Relay
pub mod Settings
pub mod UserList
pub mod Persist
use phantom_proxy.Common.{
  ◌+◌, ◌*◌, ◌%◌, ◌^◌, Bool, not, ◌||◌, Option, List, [], ◌++◌, if◌then◌else◌,
}
use phantom_proxy.Common.Int.{ℤ, pos, pos_part, is_not_pos, signed64}
use phantom_proxy.Common.Bytes.{Bytes, codes, eqb}
use phantom_proxy.Common.Text.{decimal}
use phantom_proxy.Config.Relay.{RelayConfig}
use phantom_proxy.FakeTls.Policy.{RecordPolicy, normalize}
use phantom_proxy.FakeTls.ServerHello.{NoiseParams}

pub record ListenConfig : Type 0 where
  pub host : Bytes
  pub port : ℤ
  pub proxy_protocol : Bool

-- `Enabled *bool` is an Option.
pub record UserConfig : Type 0 where
  pub name : Bytes
  pub secret : Bytes
  pub enabled : Option Bool

pub record MtprotoConfig : Type 0 where
  pub secret : Bytes
  pub backend : Bytes
  pub users : List UserConfig
  pub ad_tag : Bytes
  pub use_middle_proxy : Bool
  pub middle_proxy_nat_ip : Bytes

pub record TlsConfig : Type 0 where
  pub record_min_chunk : ℤ
  pub record_max_chunk : ℤ
  pub noise_mean : ℤ
  pub noise_jitter : ℤ
  pub allowed_ja3 : List Bytes
  pub allowed_ja4 : List Bytes
  pub enable_drs : Bool
  pub enable_split_tls : Bool
  pub fingerprint_pool : List Bytes
  pub fingerprint_rotation : Bytes
  pub fingerprint_rotation_interval : ℤ
  pub fingerprint_adaptive_threshold : ℤ
  pub sni_pool : List Bytes
  pub sni_rotation : Bytes
  pub sni_rotation_interval : ℤ
  pub server_hello_pool : List Bytes
  pub server_hello_rotation : Bytes
  pub server_hello_rotation_interval : ℤ
  pub server_hello_adaptive_threshold : ℤ
  pub record_jitter_ms : ℤ
  pub decoy_permille : ℤ
  pub post_handshake_delay_ms : ℤ
  pub client_hello_policy : Bytes

pub record FallbackConfig : Type 0 where
  pub upstream : Bytes
  pub honeypot : Bool

pub record ManagementConfig : Type 0 where
  pub host : Bytes
  pub port : ℤ
  pub token : Bytes
  pub public_server : Bytes
  pub service_name : Bytes
  pub service_unit_path : Bytes
  pub allow_service_uninstall : Bool
  pub uninstall_script : Bytes

pub record FrontingConfig : Type 0 where
  pub enabled : Bool
  pub port : ℤ
  pub action : Bytes

pub record SecurityConfig : Type 0 where
  pub antireplay_cache_mb : ℤ
  pub max_connections_per_ip : ℤ
  pub handshake_timeout_sec : ℤ
  pub probe_blacklist_threshold : ℤ
  pub probe_blacklist_duration_sec : ℤ
  pub probe_blacklist_window_sec : ℤ

pub record ProtocolsConfig : Type 0 where
  pub fake_tls : Bool
  pub secure : Bool

pub record UpstreamConfig : Type 0 where
  pub socks5 : Bytes
  pub prefer_ip : Bytes

pub record MetricsConfig : Type 0 where
  pub host : Bytes
  pub port : ℤ

pub record Config : Type 0 where
  pub listen : ListenConfig
  pub mtproto : MtprotoConfig
  pub tls : TlsConfig
  pub fallback : FallbackConfig
  pub management : ManagementConfig
  pub fronting : FrontingConfig
  pub security : SecurityConfig
  pub protocols : ProtocolsConfig
  pub upstream : UpstreamConfig
  pub metrics : MetricsConfig
  pub relay : RelayConfig

-- `fmt.Sprintf("%s:%d", host, port)`, with a host for the empty one.
abbrev pub host_port : Bytes → Bytes → ℤ → Bytes
host_port default host port = (if eqb host [] then default else host) ++ (codes ":" ++ decimal port)

unfoldable pub listen_addr : Config → Bytes
listen_addr c = host_port (codes "0.0.0.0") c.listen.host c.listen.port

unfoldable pub metrics_enabled : MetricsConfig → Bool
metrics_enabled c = not (is_not_pos c.port)

unfoldable pub metrics_addr : MetricsConfig → Bytes
metrics_addr c = host_port (codes "127.0.0.1") c.host c.port

unfoldable pub management_enabled : ManagementConfig → Bool
management_enabled c = not (is_not_pos c.port)

unfoldable pub management_addr : ManagementConfig → Bytes
management_addr c = host_port (codes "127.0.0.1") c.host c.port

-- A `time.Duration`, an int64.
unfoldable pub handshake_timeout : Config → ℤ
handshake_timeout c =
    let sec = c.security.handshake_timeout_sec in
    signed64 ((if is_not_pos sec then 10 else pos_part sec) * 10 ^ 9 % 2 ^ 64)

unfoldable pub fronting_port : Config → ℤ
fronting_port c = if is_not_pos c.fronting.port then pos 443 else c.fronting.port

abbrev pub is_action : Bytes → Bool
is_action a = eqb a (codes "redirect") || eqb a (codes "fallback") || eqb a (codes "splice")

unfoldable pub fronting_action : Config → Bytes
fronting_action c =
    if is_action c.fronting.action
    then c.fronting.action
    else if c.fronting.enabled
    then codes "splice"
    else codes "redirect"

unfoldable pub record_policy : Config → RecordPolicy
record_policy c = normalize (record {
  min_chunk = c.tls.record_min_chunk;
  max_chunk = c.tls.record_max_chunk;
  enable_drs = c.tls.enable_drs;
  enable_split_tls = c.tls.enable_split_tls;
  record_jitter_ms = c.tls.record_jitter_ms;
  decoy_permille = c.tls.decoy_permille;
})

unfoldable pub post_handshake_delay : Config → ℤ
post_handshake_delay c =
    let ms = c.tls.post_handshake_delay_ms in
    if is_not_pos ms then pos 0 else signed64 (pos_part ms * 10 ^ 6 % 2 ^ 64)

unfoldable pub noise_params : Config → NoiseParams
noise_params c = record { mean = c.tls.noise_mean; jitter = c.tls.noise_jitter }

-- `mb * 10000`, an int of 64 bits.
unfoldable pub antireplay_max_entries : Config → ℤ
antireplay_max_entries c =
    let mb = c.security.antireplay_cache_mb in
    signed64 ((if is_not_pos mb then 1 else pos_part mb) * 10000 % 2 ^ 64)
