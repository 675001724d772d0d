-- ===== src/Proxy/State.antt =====
-- internal/proxy/server.go: the state that the handlers of a connection change, what is outside of
-- them, and how they end. A `World` gives hashes and ciphers, the clock, the texts of errors, and
-- how the network answers.
use phantom_proxy.Common.{ℕ, Bool, Option, none, some, List}
use phantom_proxy.Common.Int.{ℤ}
use phantom_proxy.Common.Bytes.{Bytes}
use phantom_proxy.FakeTls.Random.{Rand}
use phantom_proxy.FakeTls.Hello.{HelloError}
use phantom_proxy.FakeTls.Pool.{Utls}
use phantom_proxy.FakeTls.Rotator.{Rotator}
use phantom_proxy.FakeTls.ServerHello.{ByteSource, AnswerError}
use phantom_proxy.Users.{ManagerError}
use phantom_proxy.Obfuscated.{HandshakeError}
use phantom_proxy.Probe.{Blacklist}
use phantom_proxy.Replay.{ReplayCache}
use phantom_proxy.Stats.{Tracker}
use phantom_proxy.Runtime.{Runtime}
use phantom_proxy.Proxy.Backend.{Backend, RelayError, Traffic}
use phantom_proxy.Proxy.Errors.{RejectReason}

pub data Reject : Type 0 where
  unparsed : HelloError → Reject
  replayed by_policy : Reject
  unmatched : ManagerError → Reject
  unanswered : AnswerError → Reject
  not_obfuscated : HandshakeError → Reject
  not_relayed : RelayError → Reject

-- The counters of the server's metrics; `rejects` is the log of RecordTLSReject.
pub record Metrics : Type 0 where
  pub probe_requests : ℕ
  pub probe_blacklisted : ℕ
  pub replay_attacks : ℕ
  pub fronting_conns : ℕ
  pub fake_tls_rejected : ℕ
  pub rejects : List RejectReason

pub record State (utls : Utls) : Type 0 where
  pub runtime : Runtime utls
  pub metrics : Option Metrics
  pub traffic : Option Traffic

-- `clock i` is the i-th reading of the clock that the connection makes, in nanoseconds, and `unix`
-- the one in seconds. `text` is `Error()`.
pub record World : Type 0 where
  pub hmac : Bytes → Bytes → Bytes
  pub sha256 : Bytes → Bytes
  pub ctr : Bytes → Bytes → ℕ → ℕ
  pub hex_decode : Bytes → Option Bytes
  pub md5 : Bytes → Bytes
  pub hex_encode : Bytes → Bytes
  pub replay_key : Bytes → Bytes
  pub rnd : Rand
  pub src : ByteSource
  pub spare : ℕ
  pub clock : ℕ → ℕ
  pub unix : ℕ
  pub text : Reject → Bytes
  pub writes : Bool
  pub dials : Backend → Bool
  pub copied : ℤ × ℤ

-- How a connection ends. The bytes of `spliced` go to the host first, and those of `fell_back` are
-- what the fallback can read.
pub data Ending : Type 0 where
  crashes closed : Ending
  relayed : (user : Bytes) → Ending
  spliced : (prefix host : Bytes) (port : ℤ) → Ending
  redirected : (host : Bytes) → Ending
  fell_back : (input : Bytes) → Ending

module _ (utls : Utls) where
  unfoldable pub bump : (Metrics → Metrics) → State utls → State utls
  bump f st = record st { metrics = elim st.metrics [ none ↦ none | some m ↦ some (f m) ] }

  -- What the handlers write into the runtime.
  abbrev pub with_replay : ReplayCache → State utls → State utls
  with_replay c st = record st { runtime = record st.runtime { replay = some c } }

  abbrev pub with_hello_rotator : Option (Rotator Bytes) → State utls → State utls
  with_hello_rotator r st = record st { runtime = record st.runtime { server_hello_rotator = r } }

  abbrev pub with_sni_rotator : Option (Rotator Bytes) → State utls → State utls
  with_sni_rotator r st = record st { runtime = record st.runtime { sni_rotator = r } }

  abbrev pub with_blacklist : Option Blacklist → State utls → State utls
  with_blacklist b st = record st { runtime = record st.runtime { probe_blacklist = b } }

  abbrev pub with_stats : Tracker → Option Traffic → State utls → State utls
  with_stats t m st = record st { runtime = record st.runtime { stats = t }; traffic = m }
