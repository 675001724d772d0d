-- ===== src/Config/Settings.antt =====
-- internal/config/settings.go: the settings of the management interface.
use phantom_proxy.Common.{
  ◌∙◌, ◌≡◌, refl, inl, inr, true, false, List, [], ◌∷◌, if◌then◌else◌, Bool-cases,
}
use phantom_proxy.Common.Int.{ℤ}
use phantom_proxy.Common.Bytes.{Bytes, codes, eqb}
use phantom_proxy.Config.{Config, fronting_action, is_action}

pub record SettingsView : Type 0 where
  pub listen_host : Bytes
  pub listen_port : ℤ
  pub backend : Bytes
  pub fallback_upstream : Bytes
  pub record_min_chunk : ℤ
  pub record_max_chunk : ℤ
  pub noise_mean : ℤ
  pub noise_jitter : ℤ
  pub allowed_ja3 : List Bytes
  pub allowed_ja4 : List Bytes
  pub public_server : Bytes
  pub max_connections_per_ip : ℤ
  pub upstream_socks5 : Bytes
  pub action : Bytes

unfoldable pub settings_from_config : Config → SettingsView
settings_from_config c = record {
  listen_host = c.listen.host;
  listen_port = c.listen.port;
  backend = c.mtproto.backend;
  fallback_upstream = c.fallback.upstream;
  record_min_chunk = c.tls.record_min_chunk;
  record_max_chunk = c.tls.record_max_chunk;
  noise_mean = c.tls.noise_mean;
  noise_jitter = c.tls.noise_jitter;
  allowed_ja3 = c.tls.allowed_ja3;
  allowed_ja4 = c.tls.allowed_ja4;
  public_server = c.management.public_server;
  max_connections_per_ip = c.security.max_connections_per_ip;
  upstream_socks5 = c.upstream.socks5;
  action = fronting_action c;
}

unfoldable pub apply_settings : Config → SettingsView → Config
apply_settings c s = record c {
  listen = record c.listen { host = s.listen_host; port = s.listen_port };
  mtproto = record c.mtproto { backend = s.backend };
  fallback = record c.fallback { upstream = s.fallback_upstream };
  tls = record c.tls {
    record_min_chunk = s.record_min_chunk;
    record_max_chunk = s.record_max_chunk;
    noise_mean = s.noise_mean;
    noise_jitter = s.noise_jitter;
    allowed_ja3 = s.allowed_ja3;
    allowed_ja4 = s.allowed_ja4;
  };
  management = record c.management { public_server = s.public_server };
  security = record c.security { max_connections_per_ip = s.max_connections_per_ip };
  upstream = record c.upstream { socks5 = s.upstream_socks5 };
  fronting = if eqb s.action [] then c.fronting else record c.fronting { action = s.action };
}

no_action : {B : Type 0} (a : Bytes) → eqb a [] ≡ true → is_action a ≡ true → B
unfolding eqb
no_action [] e h = cc
no_action (c ∷ cs) e h = cc

-- The action that a configuration shows when settings with the action `a` were applied to `c`.
unfoldable pub shown_action : Config → Bytes → Bytes
shown_action c a =
    if is_action a
    then a
    else if eqb a []
    then fronting_action c
    else if c.fronting.enabled
    then codes "splice"
    else codes "redirect"

pub read_back :
    (c : Config) (s : SettingsView)
    → settings_from_config (apply_settings c s) ≡ record s { action = shown_action c s.action }
unfolding settings_from_config apply_settings shown_action
read_back c s = elim (Bool-cases (eqb s.action [])) [
  | inl e ↦ elim (Bool-cases (is_action s.action)) [
    | inl h ↦ no_action s.action e h
    | inr h ↦ rw (e, h) (unfold fronting_action in refl)
  ]
  | inr e ↦ elim (Bool-cases (is_action s.action)) [
    | inl h ↦ rw (e, h) (unfold fronting_action in rw h refl)
    | inr h ↦ rw (e, h) (unfold fronting_action in rw h refl)
  ]
]

kept_action :
    (c : Config) (s : SettingsView)
    → is_action s.action ≡ true
    → record s { action = shown_action c s.action } ≡ s
unfolding shown_action
kept_action c s h = rw h refl

action_not_empty : (c : Config) → eqb (fronting_action c) [] ≡ false
unfolding fronting_action eqb
action_not_empty c = elim (Bool-cases (is_action c.fronting.action)) [
  | inl e ↦ rw e (elim (Bool-cases (eqb c.fronting.action [])) [
    | inl f ↦ no_action c.fronting.action f e
    | inr f ↦ f
  ])
  | inr e ↦ rw e (elim (Bool-cases c.fronting.enabled) [ inl f ↦ rw f refl | inr f ↦ rw f refl ])
]

-- Settings with one of the three actions are read back as they were saved, and saving the settings
-- that a configuration shows changes nothing but that its action is written out.
pub settings_round_trip :
    (c : Config) (s : SettingsView)
    → is_action s.action ≡ true
    → (settings_from_config (apply_settings c s) ≡ s)
      × (apply_settings c (settings_from_config c)
          ≡ record c { fronting = record c.fronting { action = fronting_action c } })
unfolding settings_from_config apply_settings
settings_round_trip c s h = (read_back c s ∙ kept_action c s h, rw (action_not_empty c) refl)
