-- ===== src/Proxy/Attempt.antt =====
-- internal/proxy/server.go: the Fake TLS handshake, from the ClientHello to the end of the relay.
pub mod Sound
use phantom_proxy.Common.{
  ◌+◌, Bool, true, false, ◌&&◌, ◌||◌, Option, none, some, List, [], ◌∷◌, ltb, if◌then◌else◌, length,
}
use phantom_proxy.Common.Int.{ℤ}
use phantom_proxy.Common.Bytes.{Bytes}
use phantom_proxy.Common.Result.{Result}
use phantom_proxy.Common.Slice.{Outcome}
use phantom_proxy.FakeTls.Hello.{ClientHello, HelloError, parse_client_hello, sni}
use phantom_proxy.FakeTls.Digest.{validate_client_hello}
use phantom_proxy.FakeTls.Fingerprint.{ja3, ja4}
use phantom_proxy.FakeTls.HelloPolicy.{check_client_hello_policy}
use phantom_proxy.FakeTls.Pool.{Utls}
use phantom_proxy.FakeTls.Rotator.{Rotator}
use phantom_proxy.FakeTls.ServerHello.{AnswerError, write_server_hello_with_noise}
use phantom_proxy.Secret.{Secret, is_fake_tls}
use phantom_proxy.Users.{
  User, Manager, ManagerError, allowed, check_fingerprints, match_client_hello,
}
use phantom_proxy.Obfuscated.{HandshakeError, Stream, handshake}
use phantom_proxy.Replay.{ReplayCache, check}
use phantom_proxy.Config.{noise_params}
use phantom_proxy.Proxy.Backend.{Relaying, relay_mtproto}
use phantom_proxy.Proxy.State.{
  Reject, unparsed, replayed, by_policy, unmatched, unanswered, not_obfuscated, not_relayed,
  Metrics, State, World, bump, with_replay, with_hello_rotator, with_stats,
}

-- The users that `MatchClientHello` validates: one of them is tried.
unfoldable pub any_tried : List User → Bool
any_tried [] = false
any_tried (u ∷ us) = (u.enabled && is_fake_tls u.secret) || any_tried us

module _ (utls : Utls) where
  module _ (w : World) where
    -- The state and how the attempt ends; a success names the user.
    abbrev pub Attempt : Type 0
    Attempt = State utls × Outcome Reject Bytes

    unfoldable pub end_relay : State utls → Bytes → Relaying → Attempt
    end_relay st name (Outcome.ok u, (t, m)) = (with_stats utls t m st, Outcome.ok name)
    end_relay st name (Outcome.err e, (t, m)) =
        (with_stats utls t m st, Outcome.err (not_relayed e))
    end_relay st name (Outcome.panics, (t, m)) = (with_stats utls t m st, Outcome.panics)

    unfoldable pub relay_user : State utls → User → ℤ → Bool → Attempt
    unfolding end_relay
    relay_user st u dc_id ja3_panics = end_relay st u.name (
        relay_mtproto w.hex_decode w.dials w.copied st.runtime.config st.runtime.stats st.traffic
          dc_id u.name ja3_panics)

    unfoldable pub with_streams :
        State utls → User → Bool → Result HandshakeError (ℤ × Stream × Stream × Bytes) → Attempt
    unfolding relay_user
    with_streams st u ja3_panics (Result.err e) = (st, Outcome.err (not_obfuscated e))
    with_streams st u ja3_panics (Result.ok (dc_id, enc, dec, rest)) =
        relay_user st u dc_id ja3_panics

    -- `plain` is what RecordConn.Read delivers of the records behind the ClientHello.
    unfoldable pub with_answer :
        State utls
        → User
        → Bytes
        → Bool
        → Option (Rotator Bytes) × Outcome AnswerError Bytes
        → Attempt
    unfolding with_streams
    with_answer st u plain ja3_panics (r, Outcome.panics) =
        (with_hello_rotator utls r st, Outcome.panics)
    with_answer st u plain ja3_panics (r, Outcome.err e) =
        (with_hello_rotator utls r st, Outcome.err (unanswered e))
    with_answer st u plain ja3_panics (r, Outcome.ok packet) =
        with_streams (with_hello_rotator utls r st) u ja3_panics
          (handshake w.sha256 w.ctr (some u.secret.key) plain)

    abbrev does_panic : {E A : Type 0} → Outcome E A → Bool
    does_panic Outcome.panics = true
    does_panic (Outcome.err e) = false
    does_panic (Outcome.ok a) = false

    unfoldable pub ja3_panics_on : ClientHello → Bool
    ja3_panics_on ch = does_panic (ja3 w.md5 w.sha256 w.hex_encode ch.raw)

    unfoldable pub with_match :
        State utls → ClientHello → Bytes → Result ManagerError User → Attempt
    unfolding with_answer ja3_panics_on
    with_match st ch plain (Result.err e) = (st, Outcome.err (unmatched e))
    with_match st ch plain (Result.ok u) = with_answer st u plain (ja3_panics_on ch) (
        write_server_hello_with_noise w.hmac w.rnd w.src w.writes 0 (w.clock 1) (w.clock 2) ch
          u.secret.key (noise_params st.runtime.config) st.runtime.server_hello_rotator)

    -- `ValidateClientHello` without error.
    unfoldable pub is_valid_for : ClientHello → Secret → Bool
    is_valid_for ch s = elim (validate_client_hello w.hmac w.unix ch s.key s.host) [
      | Outcome.ok u ↦ true
      | Outcome.err e ↦ false
      | Outcome.panics ↦ false
    ]

    abbrev print_of : Outcome HelloError Bytes → Bytes
    print_of Outcome.panics = []
    print_of (Outcome.err e) = []
    print_of (Outcome.ok text) = text

    unfoldable pub ja3_of : ClientHello → Bytes
    ja3_of ch = print_of (ja3 w.md5 w.sha256 w.hex_encode ch.raw)

    unfoldable pub ja4_of : ClientHello → Bytes
    ja4_of ch = print_of (ja4 w.md5 w.sha256 w.hex_encode ch.raw)

    -- A fingerprint is made where there is a list of those allowed, JA4 after JA3.
    unfoldable pub fingerprints_panic : ClientHello → Manager → Bool
    unfolding ja3_of
    fingerprints_panic ch m =
        ltb 0 (length m.ja3_allow) && does_panic (ja3 w.md5 w.sha256 w.hex_encode ch.raw)
        || (allowed m.ja3_allow (ja3_of ch)
            && (ltb 0 (length m.ja4_allow) && does_panic (ja4 w.md5 w.sha256 w.hex_encode ch.raw)))

    -- A server name that makes `SNI` panic does so at the first user that is tried, which comes
    -- after the fingerprints.
    unfoldable pub tries : ClientHello → Manager → Bool
    tries ch m = elim (check_fingerprints m (ja3_of ch) (ja4_of ch)) [
      | some e ↦ false
      | none ↦ any_tried m.users
    ]

    unfoldable pub sni_panics : ClientHello → Bool
    sni_panics ch = does_panic (sni ch)

    unfoldable pub match_user : State utls → ClientHello → Bytes → Attempt
    unfolding with_match
    match_user st ch plain =
        let m = st.runtime.users in
        let found = match_client_hello (is_valid_for ch) (ja3_of ch) (ja4_of ch) m in
        if fingerprints_panic ch m || (sni_panics ch && tries ch m)
        then (st, Outcome.panics)
        else with_match st ch plain found

    unfoldable pub with_policy :
        State utls → ClientHello → Bytes → Outcome Reject (Unit {0}) → Attempt
    unfolding match_user
    with_policy st ch plain Outcome.panics = (st, Outcome.panics)
    with_policy st ch plain (Outcome.err e) = (st, Outcome.err e)
    with_policy st ch plain (Outcome.ok u) = match_user st ch plain

    unfoldable pub judge_hello : State utls → ClientHello → Bytes → Attempt
    unfolding with_policy
    judge_hello st ch plain =
        with_policy st ch plain
          (check_client_hello_policy by_policy ch st.runtime.config.tls.client_hello_policy)

    abbrev count_replay : Metrics → Metrics
    count_replay m = record m { replay_attacks = m.replay_attacks + 1 }

    unfoldable pub behind_replay : State utls → ClientHello → Bytes → Bool × ReplayCache → Attempt
    unfolding judge_hello
    behind_replay st ch plain (true, c) =
        (bump utls count_replay (with_replay utls c st), Outcome.err replayed)
    behind_replay st ch plain (false, c) = judge_hello (with_replay utls c st) ch plain

    unfoldable pub check_replay : State utls → ClientHello → Bytes → Option ReplayCache → Attempt
    unfolding behind_replay
    check_replay st ch plain none = judge_hello st ch plain
    check_replay st ch plain (some c) =
        behind_replay st ch plain (check (w.clock 0) c (some (w.replay_key ch.random)))

    unfoldable pub with_hello :
        State utls → Bytes → Outcome HelloError (ClientHello × Bytes) → Attempt × Option ClientHello
    unfolding check_replay
    with_hello st plain Outcome.panics = ((st, Outcome.panics), none)
    with_hello st plain (Outcome.err e) = ((st, Outcome.err (unparsed e)), none)
    with_hello st plain (Outcome.ok (ch, rest)) =
        (check_replay st ch plain st.runtime.replay, some ch)

    -- The attempt, and the ClientHello where there is one.
    unfoldable pub attempt : State utls → Bytes → Bytes → Attempt × Option ClientHello
    unfolding with_hello
    attempt st input plain = with_hello st plain (parse_client_hello w.spare input)
