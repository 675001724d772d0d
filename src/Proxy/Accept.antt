-- ===== src/Proxy/Accept.antt =====
-- internal/proxy/server.go: one turn of the loop of `Serve`, and the end of a handler. A header
-- that is refused leaves a nil connection, and closing it panics.
use phantom_proxy.Common.{Bool, true, false, Option, none, some}
use phantom_proxy.Common.Bytes.{Bytes}
use phantom_proxy.Common.Result.{Result, err, ok}
use phantom_proxy.Limit.{ConnLimiter, acquire, release, client_ip}
use phantom_proxy.FakeTls.Pool.{Utls}
use phantom_proxy.Proxy.Address.{Net}
use phantom_proxy.Proxy.ProxyProtocol.{Accepted, HeaderError, accept_with_proxy_protocol}
use phantom_proxy.Proxy.State.{State}

pub data Turn (utls : Utls) : Type 0 where
  crashed : Turn utls
  refused : State utls → Turn utls
  over_limit : State utls → Turn utls
  serves : State utls → Accepted → Turn utls

module _ (utls : Utls) (net : Net) where
  abbrev with_limiter : Option ConnLimiter → State utls → State utls
  with_limiter l st = record st { runtime = record st.runtime { limiter = l } }

  unfoldable pub ip_of : Accepted → Bytes
  ip_of c = client_ip net.split_host_port (some c.remote)

  abbrev with_acquired : State utls → Accepted → Bool × ConnLimiter → Turn utls
  with_acquired st c (true, l) = serves (with_limiter (some l) st) c
  with_acquired st c (false, l) = over_limit (with_limiter (some l) st)

  unfoldable pub limit_turn : State utls → Accepted → Option ConnLimiter → Turn utls
  unfolding ip_of
  limit_turn st c none = serves st c
  limit_turn st c (some l) = with_acquired st c (acquire l (ip_of c))

  -- What `Accept` and the header leave in `conn` and `err`: a refused header leaves nil.
  abbrev conn_of : Result HeaderError Accepted → Option Accepted
  conn_of (err e) = none
  conn_of (ok c) = some c

  -- `conn.Close()` and the next turn: a method of a nil interface panics.
  abbrev close_conn : State utls → Option Accepted → Turn utls
  close_conn st none = crashed
  close_conn st (some c) = refused st

  abbrev with_header : State utls → Result HeaderError Accepted → Turn utls
  with_header st (err e) = close_conn st (conn_of (err e))
  with_header st (ok c) = limit_turn st c st.runtime.limiter

  -- The connection comes from `remote`, delivers `input`, and then ends in EOF or not.
  unfoldable pub accept_turn : State utls → Bytes → Bytes → Bool → Turn utls
  unfolding limit_turn
  accept_turn st remote input closes =
      with_header st
        (accept_with_proxy_protocol net st.runtime.config.listen.proxy_protocol remote input closes)

  abbrev released : Accepted → Option ConnLimiter → Option ConnLimiter
  released c none = none
  released c (some l) = some (release l (ip_of c))

  -- The deferred `Release`.
  unfoldable pub end_turn : State utls → Accepted → State utls
  unfolding ip_of
  end_turn st c = with_limiter (released c st.runtime.limiter) st
