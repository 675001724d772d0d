-- ===== src/Examples/Proxy.antt =====
-- The server at concrete inputs: hashes and key streams of zeros, one user, and a network on which
-- every dial succeeds.
use phantom_proxy.Common.{
  ℕ, zero, suc, ◌+◌, ◌-◌, ◌*◌, ◌/◌, ◌%◌, ◌^◌, ◌≤◌, ◌<◌, min, max, ◌≡◌, refl, sym, ap, ◌∙◌, subst,
  ◌≢◌, ◌↔◌, ◌⊎◌, inl, inr, Bool, true, false, not, ◌&&◌, ◌||◌, Option, none, some, List, [], ◌∷◌,
  ◌++◌, map, append-nil, append_assoc, arith, ltb, leb, ◌==◌, if◌then◌else◌, ltb→lt, lt→ltb, le→ltb,
  leb→le, ==_iff, Bool-cases, Option-cases, length, get_elem?, set, length-append, get_or, take,
  drop, replicate, take-append-drop, length-take, length-drop,
}
use phantom_proxy.Common.Int.{ℤ, pos, negsuc}
use phantom_proxy.Common.Bytes.{All, Bytes, codes, zeros, length-zeros, eqb}
use phantom_proxy.Common.Result.{Result, ok, read_full}
use phantom_proxy.Common.Slice.{Outcome, exact, at, cut, from}
use phantom_proxy.FakeTls.Hello.{
  ClientHello, parse_client_hello, parse_payload, parse_fields, cipher_suite_at,
}
use phantom_proxy.FakeTls.ServerHello.{ByteSource}
use phantom_proxy.Users.{User, check_fingerprints, match_secure_header}
use phantom_proxy.Users.Match.{IsFirst}
use phantom_proxy.Stats.{counters}
use phantom_proxy.Proxy.Backend.{Backend, RelayError, backend_of, logs_hello, relay_mtproto}
use phantom_proxy.Proxy.Backend.Balance.{with_session, with_visit, Reached, relay_mtproto_balanced}
use phantom_proxy.Proxy.State.{State, World, relayed, fell_back}
use phantom_proxy.Proxy.Attempt.{ja3_of, ja4_of, is_valid_for}
use phantom_proxy.Proxy.Handler.{handle_fake_tls_path, handle_other}
use phantom_proxy.Proxy.Attempt.Sound.{IsFresh, IsAllowed}
use phantom_proxy.Proxy.Handler.Sound.{handle_fake_tls_path_sound}
use phantom_proxy.Proxy.Handler.Fallback.{left_over, OpenedBy, handle_other_ends}
use phantom_proxy.Common.Text.{is_space}
use phantom_proxy.Proxy.Address.{Net}
use phantom_proxy.Proxy.ProxyProtocol.{accept_with_proxy_protocol}
use phantom_proxy.Proxy.ProxyProtocol.Header.{
  IsWord, words_of, header_of, accepted, accept_with_proxy_protocol-header_of,
}
use phantom_proxy.Examples.Config.{utls, config, manager}

abbrev draw : ℕ → ℕ → Option ℕ
draw k m = none

draw-lt : (k m n : ℕ) → draw k m ≡ some n → n < m
draw-lt k m n e = ground arith

abbrev world : World
world = record {
  hmac = λ k m. zeros 32;
  sha256 = λ m. zeros 32;
  ctr = λ k v i. 0;
  hex_decode = λ t. none;
  md5 = λ m. m;
  hex_encode = λ m. m;
  replay_key = λ r. r;
  rnd = record { int = draw; int-lt = draw-lt };
  src = record { bytes = λ k n. zeros n; fails = λ k. false; length-bytes = λ k n. length-zeros n };
  spare = 0;
  clock = λ i. 100 + i;
  unix = 60;
  text = λ e. codes "tls";
  writes = true;
  dials = λ b. true;
  copied = (pos 10, pos 20);
}

abbrev state : State utls
state = record {
  runtime = record {
    config_path = [];
    config = config;
    users = manager;
    stats = [];
    replay = some (record { entries = []; max = 10; ttl = 1000; hits = 0 });
    limiter = none;
    fingerprint_rotator = none;
    server_hello_rotator = none;
    sni_rotator = none;
    probe_blacklist = none;
    started_at = 5;
  };
  metrics = none;
  traffic = none;
}

-- The ClientHello makes JA3 panic when it is logged.
relay_mtproto_balanced_example :
    let (e, (t', m')) =
      relay_mtproto
        (λ t. none)
        (λ b. true)
        (pos 10, pos 20)
        config
        []
        none
        (pos 2)
        (codes "ann")
        true in
    ((counters t' (codes "ann")).active ≡ (counters [] (codes "ann")).active)
    × (((e ≡ Outcome.ok tt)
          × ((b : Backend) × Reached (λ t. none) (λ b. true) (pos 10, pos 20) config (pos 2) b
              × ((true && logs_hello b) ≡ false))
          × (counters t' (codes "ann") ≡ (
              if eqb (codes "ann") (codes "ann")
              then with_session (counters [] (codes "ann")) (pos 10, pos 20)
              else counters [] (codes "ann"))))
        ⊎ (((e ≡ Outcome.panics)
              × ((b : Backend) × Reached (λ t. none) (λ b. true) (pos 10, pos 20) config (pos 2) b
                  × ((true && logs_hello b) ≡ true))
              × (counters t' (codes "ann") ≡ (
                  if eqb (codes "ann") (codes "ann")
                  then with_visit (counters [] (codes "ann"))
                  else counters [] (codes "ann")))
              × (m' ≡ none))
            ⊎ ((x : RelayError) × (e ≡ Outcome.err x) × (t' ≡ []) × (m' ≡ none))))
relay_mtproto_balanced_example =
    relay_mtproto_balanced (λ t. none) (λ b. true) (pos 10, pos 20) config [] none (pos 2)
      (codes "ann") true (codes "ann")

-- The first line of a browser without TLS.
abbrev request : Bytes
request = codes "ET / HTTP/1.1"

handle_other_ends_example :
    ((handle_other utls world state (codes "ip") 71 request).1
      ≡ fell_back (left_over state.runtime.config.protocols.secure 71 request))
    ⊎ ((name : Bytes) × ((handle_other utls world state (codes "ip") 71 request).1 ≡ relayed name)
        × (state.runtime.config.protocols.secure ≡ true)
        × OpenedBy utls world state (71 ∷ take 63 request) name)
handle_other_ends_example = handle_other_ends utls world state (codes "ip") request 71

-- A ClientHello without cipher suites and extensions, whose random bytes are zero.
abbrev greeting : Bytes
greeting = 0x16 ∷ 3 ∷ 1 ∷ 0 ∷ 41 ∷ 1 ∷ 0 ∷ 0 ∷ 37 ∷ 3 ∷ 3 ∷ (zeros 32 ++ (0 ∷ 0 ∷ 0 ∷ []))

-- The header of an obfuscated2 connection to the second data centre.
abbrev header : Bytes
header = zeros 56 ++ (0xdd ∷ 0xdd ∷ 0xdd ∷ 0xdd ∷ 2 ∷ 0 ∷ 0 ∷ 0 ∷ [])

is_relayed_to_ann :
    (handle_fake_tls_path utls world state (codes "ip") greeting header [] []).1
    ≡ relayed (codes "ann")
unfolding phantom_proxy.FakeTls.Hello.parse_client_hello phantom_proxy.FakeTls.Hello.parse_payload
    phantom_proxy.FakeTls.Hello.parse_fields phantom_proxy.FakeTls.Hello.cipher_suite_at
    phantom_proxy.FakeTls.Hello.sni phantom_proxy.FakeTls.Hello.hello_sni
    phantom_proxy.FakeTls.Hello.after_session phantom_proxy.FakeTls.Hello.after_suites
    phantom_proxy.FakeTls.Hello.extensions_at phantom_proxy.Common.Result.read_full
    phantom_proxy.Common.Result.short_read phantom_proxy.Common.Bytes.zeros
    phantom_proxy.Common.Bytes.from_be16 phantom_proxy.Common.Bytes.from_le32
    phantom_proxy.Common.Bytes.from_le16 phantom_proxy.Common.Bytes.eqb
    phantom_proxy.Common.Bytes.be16 phantom_proxy.Common.Bytes.le16 phantom_proxy.Common.Bytes.le32
    phantom_proxy.Common.Slice.from phantom_proxy.Common.Slice.cut phantom_proxy.Common.Slice.at
    phantom_proxy.Common.Int.signed16 phantom_proxy.Common.Map.lookup
    phantom_proxy.Common.Map.insert phantom_proxy.Common.Xor.xor_bytes phantom_proxy.Replay.check
    phantom_proxy.Replay.check_key phantom_proxy.Replay.evict phantom_proxy.Replay.fresh
    phantom_proxy.FakeTls.HelloPolicy.check_client_hello_policy
    phantom_proxy.FakeTls.Digest.validate_client_hello phantom_proxy.FakeTls.Digest.with_sni
    phantom_proxy.FakeTls.Digest.check_digest phantom_proxy.FakeTls.Digest.computed
    phantom_proxy.FakeTls.Digest.without_random phantom_proxy.Users.match_client_hello
    phantom_proxy.Users.check_fingerprints phantom_proxy.Users.allowed
    phantom_proxy.Users.first_valid phantom_proxy.Secret.is_fake_tls
    phantom_proxy.FakeTls.ServerHello.write_server_hello_with_noise
    phantom_proxy.FakeTls.ServerHello.answer_with phantom_proxy.FakeTls.Rotator.pick_or
    phantom_proxy.Obfuscated.handshake phantom_proxy.Obfuscated.xor_key_stream
    phantom_proxy.Obfuscated.key_stream phantom_proxy.Obfuscated.new_ctr
    phantom_proxy.Obfuscated.key_of phantom_proxy.Obfuscated.derive_key
    phantom_proxy.Obfuscated.key_part phantom_proxy.Obfuscated.iv_part
    phantom_proxy.Proxy.Attempt.attempt phantom_proxy.Proxy.Attempt.with_hello
    phantom_proxy.Proxy.Attempt.check_replay phantom_proxy.Proxy.Attempt.behind_replay
    phantom_proxy.Proxy.Attempt.judge_hello phantom_proxy.Proxy.Attempt.with_policy
    phantom_proxy.Proxy.Attempt.match_user phantom_proxy.Proxy.Attempt.with_match
    phantom_proxy.Proxy.Attempt.with_answer phantom_proxy.Proxy.Attempt.with_streams
    phantom_proxy.Proxy.Attempt.relay_user phantom_proxy.Proxy.Attempt.end_relay
    phantom_proxy.Proxy.Attempt.fingerprints_panic phantom_proxy.Proxy.Attempt.ja3_of
    phantom_proxy.Proxy.Attempt.ja4_of phantom_proxy.Proxy.Attempt.sni_panics
    phantom_proxy.Proxy.Attempt.tries phantom_proxy.Proxy.Attempt.any_tried
    phantom_proxy.Proxy.Attempt.is_valid_for phantom_proxy.Proxy.Backend.relay_mtproto
    phantom_proxy.Proxy.Backend.logs_hello phantom_proxy.Proxy.Attempt.ja3_panics_on
    phantom_proxy.FakeTls.Fingerprint.ja3 phantom_proxy.FakeTls.Fingerprint.hello_of
    phantom_proxy.FakeTls.Fingerprint.parts_of phantom_proxy.Proxy.Backend.relay_to
    phantom_proxy.Proxy.Backend.run_session phantom_proxy.Proxy.Backend.backend_of
    phantom_proxy.Proxy.Backend.dc_backend phantom_proxy.Proxy.Backend.parse_ad_tag
    phantom_proxy.Proxy.Backend.use_middle phantom_proxy.Proxy.Backend.record_traffic
    phantom_proxy.Config.Relay.is_front phantom_proxy.Common.Text.trim_space
    phantom_proxy.Common.Text.trim_left phantom_proxy.Common.Text.trim_right
    phantom_proxy.Telegram.resolve_addr phantom_proxy.Telegram.dc_addresses
    phantom_proxy.Telegram.main_addresses phantom_proxy.Telegram.first
    phantom_proxy.Proxy.Handler.handle_fake_tls_path
    phantom_proxy.Proxy.Handler.on_handshake_success
is_relayed_to_ann = refl

handle_fake_tls_path_sound_example :
    (ch : ClientHello) × (more : Bytes) × (u : User) × (parse_client_hello 0 greeting
      ≡ Outcome.ok (ch, more))
    × IsFresh utls world ch state.runtime.replay
    × IsAllowed utls world state ch
    × (check_fingerprints manager (ja3_of utls world ch) (ja4_of utls world ch) ≡ none)
    × IsFirst (is_valid_for utls world ch) manager.users u
    × (u.name ≡ codes "ann")
handle_fake_tls_path_sound_example =
    handle_fake_tls_path_sound utls world state (codes "ip") greeting header [] [] (codes "ann")
      is_relayed_to_ann

abbrev net : Net
net = record { split_host_port = λ a. none; join_host_port = λ h p. h ++ (58 ∷ p) }

header_words : All IsWord (words_of (codes "TCP4") (codes "a") (codes "b") (codes "1") (codes "2"))
unfolding is_space
header_words = (
  (omega arith, (refl, (refl, (refl, (refl, tt))))),
  (
    (omega arith, (refl, tt)),
    ((omega arith, (refl, tt)), ((omega arith, (refl, tt)), ((omega arith, (refl, tt)), tt))),
  ),
)

accept_with_proxy_protocol-header_of_example :
    accept_with_proxy_protocol net true
      (codes "r")
      (header_of (codes "TCP4") (codes "a") (codes "b") (codes "1") (codes "2") (codes "xyz"))
      true
    ≡ Result.ok (accepted net (codes "r") (codes "TCP4") (codes "a") (codes "1") (codes "xyz"))
accept_with_proxy_protocol-header_of_example =
    accept_with_proxy_protocol-header_of net (codes "r") (codes "xyz") (codes "TCP4") (codes "a")
      (codes "b") (codes "1") (codes "2") true header_words
