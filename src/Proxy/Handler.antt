-- ===== src/Proxy/Handler.antt =====
-- internal/proxy/server.go and errors.go: what the server does with one connection.
pub mod Sound
pub mod Fallback
use phantom_proxy.Common.{
  ℕ, suc, ◌+◌, Bool, true, false, not, ◌&&◌, Option, none, some, [], ◌∷◌, ◌==◌, if◌then◌else◌,
}
use phantom_proxy.Common.Int.{ℤ}
use phantom_proxy.Common.Bytes.{Bytes, codes, eqb}
use phantom_proxy.Common.Result.{Result, ReadError, read_full}
use phantom_proxy.Common.Slice.{Outcome}
use phantom_proxy.FakeTls.Record.{record_handshake}
use phantom_proxy.FakeTls.Hello.{ClientHello, sni}
use phantom_proxy.FakeTls.Pool.{Utls, FingerprintRotator}
use phantom_proxy.FakeTls.Rotator.{Rotator, record_failure, record_success}
use phantom_proxy.Users.{User, ManagerError, match_secure_header}
use phantom_proxy.Obfuscated.{try_parse_header}
use phantom_proxy.Probe.{Blacklist, is_blocked, record_probe}
use phantom_proxy.Config.{fronting_action, fronting_port}
use phantom_proxy.Runtime.{pick_mask_sni}
use phantom_proxy.Proxy.Errors.{
  RejectReason, reason_ech, classify_handshake_error, is_io_timeout_err,
}
use phantom_proxy.Proxy.State.{
  Reject, by_policy, Metrics, State, World, Ending, crashes, closed, relayed, spliced, redirected,
  fell_back, bump, with_sni_rotator, with_blacklist,
}
use phantom_proxy.Proxy.Attempt.{Attempt, relay_user, attempt}

-- `RecordFailure` and `RecordSuccess` of the two rotators, where there is one.
abbrev fail_profile : ℕ → Option (Rotator Bytes) → Option (Rotator Bytes)
fail_profile now none = none
fail_profile now (some r) = some (record_failure r now)

abbrev pass_profile : Option (Rotator Bytes) → Option (Rotator Bytes)
pass_profile none = none
pass_profile (some r) = some (record_success r)

module _ (utls : Utls) where
  abbrev fail_fingerprint : ℕ → Option (FingerprintRotator utls) → Option (FingerprintRotator utls)
  fail_fingerprint now none = none
  fail_fingerprint now (some r) = some (record r { rotator = record_failure r.rotator now })

  abbrev pass_fingerprint : Option (FingerprintRotator utls) → Option (FingerprintRotator utls)
  pass_fingerprint none = none
  pass_fingerprint (some r) = some (record r { rotator = record_success r.rotator })

  module _ (w : World) where
    -- What a handshake tells the rotators.
    abbrev fail_rotators : State utls → State utls
    fail_rotators st = record st {
      runtime = record st.runtime {
        fingerprint_rotator = fail_fingerprint (w.clock 8) st.runtime.fingerprint_rotator;
        server_hello_rotator = fail_profile (w.clock 9) st.runtime.server_hello_rotator;
      };
    }

    unfoldable pub on_handshake_success : State utls → State utls
    on_handshake_success st = record st {
      runtime = record st.runtime {
        fingerprint_rotator = pass_fingerprint st.runtime.fingerprint_rotator;
        server_hello_rotator = pass_profile st.runtime.server_hello_rotator;
      };
    }

    unfoldable pub reason_of : Reject → RejectReason
    reason_of by_policy = classify_handshake_error (some reason_ech) (w.text by_policy)
    reason_of e = classify_handshake_error none (w.text e)

    abbrev count_reject : RejectReason → Metrics → Metrics
    count_reject r m = record m {
      fake_tls_rejected = m.fake_tls_rejected + 1;
      rejects = r ∷ m.rejects;
    }

    unfoldable pub on_handshake_failure : Reject → State utls → State utls
    on_handshake_failure e st = bump utls (count_reject (reason_of e)) (fail_rotators st)

    abbrev count_blacklisted : Metrics → Metrics
    count_blacklisted m = record m { probe_blacklisted = m.probe_blacklisted + 1 }

    abbrev end_probe : State utls → Bool × Option Blacklist → State utls
    end_probe st (true, b) = bump utls count_blacklisted (with_blacklist utls b st)
    end_probe st (false, b) = with_blacklist utls b st

    -- A server without a blacklist leaves it at nothing.
    unfoldable pub record_probe_of : Bytes → State utls → State utls
    record_probe_of ip st =
        end_probe st
          (record_probe (w.clock 3) (w.clock 4) (w.clock 5) st.runtime.probe_blacklist ip)

    abbrev count_probe : Metrics → Metrics
    count_probe m = record m { probe_requests = m.probe_requests + 1 }

    abbrev count_fronting : Metrics → Metrics
    count_fronting m = record m { fronting_conns = m.fronting_conns + 1 }

    -- The server name of the ClientHello, if it has one. `SNI` may panic.
    abbrev host_of : Bytes → Option ClientHello → Option Bytes
    host_of host none = some host
    host_of host (some ch) = elim (sni ch) [
      | Outcome.panics ↦ none
      | Outcome.err e ↦ some host
      | Outcome.ok [] ↦ some host
      | Outcome.ok (c ∷ cs) ↦ some (c ∷ cs)
    ]

    -- `taken` is what the recorder has captured, `rest` what is still to be read.
    unfoldable pub front_to : State utls → Bytes → Bytes → Bytes → State utls × Ending
    front_to st taken rest host =
        let c = st.runtime.config in
        if eqb (fronting_action c) (codes "splice")
        then (bump utls count_fronting st, spliced taken host (fronting_port c))
        else if eqb (fronting_action c) (codes "fallback")
        then (bump utls count_probe st, fell_back rest)
        else (st, redirected host)

    abbrev front_host : State utls → Bytes → Bytes → Option Bytes → State utls × Ending
    front_host st taken rest none = (st, crashes)
    front_host st taken rest (some host) = front_to st taken rest host

    abbrev with_mask :
        State utls
        → Option ClientHello
        → Bytes
        → Bytes
        → Option (Bytes × Option (Rotator Bytes))
        → State utls × Ending
    with_mask st ch taken rest none = (st, crashes)
    with_mask st ch taken rest (some (host, r)) =
        front_host (with_sni_rotator utls r st) taken rest (host_of host ch)

    unfoldable pub handle_rejected_tls :
        State utls → Option ClientHello → Bytes → Bytes → State utls × Ending
    unfolding front_to
    handle_rejected_tls st ch taken rest =
        with_mask st ch taken rest
          (pick_mask_sni utls w.rnd 0 (w.clock 6) (w.clock 7) st.runtime.users.mask_host st.runtime)

    unfoldable pub reject_tls :
        State utls → Option ClientHello → Bytes → Bytes → Bytes → Reject → State utls × Ending
    unfolding handle_rejected_tls on_handshake_failure record_probe_of
    reject_tls st ch ip taken rest e =
        let failed = on_handshake_failure e st in
        handle_rejected_tls
          (if is_io_timeout_err (w.text e) then failed else record_probe_of ip failed) ch taken rest

    abbrev end_attempt :
        Bytes → Bytes → Bytes → Attempt utls w × Option ClientHello → State utls × Ending
    end_attempt ip taken rest ((st, Outcome.panics), ch) = (st, crashes)
    end_attempt ip taken rest ((st, Outcome.err e), ch) = reject_tls st ch ip taken rest e
    end_attempt ip taken rest ((st, Outcome.ok name), ch) = (on_handshake_success st, relayed name)

    unfoldable pub handle_fake_tls_path :
        State utls → Bytes → Bytes → Bytes → Bytes → Bytes → State utls × Ending
    unfolding attempt reject_tls on_handshake_success
    handle_fake_tls_path st ip input plain taken rest =
        end_attempt ip taken rest (attempt utls w st input plain)

    abbrev end_secure : Attempt utls w → State utls × Option Bytes
    end_secure (st, Outcome.ok name) = (st, some name)
    end_secure (st, Outcome.err e) = (st, none)
    end_secure (st, Outcome.panics) = (st, none)

    abbrev with_secure_match :
        State utls → Result ManagerError (User × ℤ) → State utls × Option Bytes
    with_secure_match st (Result.err e) = (st, none)
    with_secure_match st (Result.ok (u, dc_id)) = end_secure (relay_user utls w st u dc_id false)

    -- `handleSecure`: whether it returned without an error, and for whom.
    unfoldable pub handle_secure : State utls → Bytes → State utls × Option Bytes
    handle_secure st header = with_secure_match st (
        match_secure_header (λ s. try_parse_header w.sha256 w.ctr header s.key)
          st.runtime.users.users)

    -- An unknown protocol: a probe, and the fallback with the first byte in front of what is left.
    unfoldable pub serve_fallback : State utls → Bytes → Bytes → State utls × Ending
    unfolding record_probe_of
    serve_fallback st ip input = (bump utls count_probe (record_probe_of ip st), fell_back input)

    abbrev end_header : Bytes → Bytes → State utls × Option Bytes → State utls × Ending
    end_header ip left (st, none) = serve_fallback st ip left
    end_header ip left (st, some name) = (st, relayed name)

    abbrev with_header :
        State utls → Bytes → ℕ → Result ReadError (Bytes × Bytes) → State utls × Ending
    with_header st ip b (Result.err e) = serve_fallback st ip (b ∷ [])
    with_header st ip b (Result.ok (more, rest)) =
        end_header ip (b ∷ rest) (handle_secure st (b ∷ more))

    -- Behind the first byte `b`, which is no handshake record or not to be one. The header takes 63
    -- bytes more, or all that there are.
    unfoldable pub handle_other : State utls → Bytes → ℕ → Bytes → State utls × Ending
    unfolding handle_secure serve_fallback
    handle_other st ip b input =
        let opened = with_header st ip b (read_full 63 input) in
        if not st.runtime.config.protocols.secure then serve_fallback st ip (b ∷ input) else opened

    -- On what the connection delivers: nothing before it closes or the deadline passes, or a first
    -- byte and more.
    unfoldable pub handle_input :
        State utls → Bytes → Bytes → Bytes → Bytes → Bytes → State utls × Ending
    unfolding handle_fake_tls_path handle_other
    handle_input st ip [] plain taken rest = (st, closed)
    handle_input st ip (b ∷ input) plain taken rest =
        if st.runtime.config.protocols.fake_tls && b == record_handshake
        then handle_fake_tls_path st ip (b ∷ input) plain taken rest
        else handle_other st ip b input

    abbrev if_admitted :
        Bool → Bytes → Bytes → Bytes → Bytes → Bytes → State utls × Bool → State utls × Ending
    if_admitted deadline ip input plain taken rest (st, true) =
        (bump utls count_blacklisted st, closed)
    if_admitted deadline ip input plain taken rest (st, false) =
        if deadline then handle_input st ip input plain taken rest else (st, closed)

    abbrev tested : State utls → Bool × Option Blacklist → State utls × Bool
    tested st (blocked, b) = (with_blacklist utls b st, blocked)

    -- `deadline` tells whether SetReadDeadline works.
    unfoldable pub handle_connection :
        Bool → State utls → Bytes → Bytes → Bytes → Bytes → Bytes → State utls × Ending
    unfolding handle_input
    handle_connection deadline st ip input plain taken rest =
        if_admitted deadline ip input plain taken rest
          (tested st (is_blocked (w.clock 10) (w.clock 11) st.runtime.probe_blacklist ip))
