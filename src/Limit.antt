-- ===== src/Limit.antt =====
-- internal/limit/connlimit.go: how many connections one address may hold.
-- `client_ip` is the address of `clientIP(conn)`; it is empty where the connection has none. Go's
-- `int` counts are native numbers here: `Release` never takes one below 0. A nil limiter behaves as
-- one whose limit is not positive.
pub mod Live
use phantom_proxy.Common.{
  ℕ, zero, ◌+◌, ◌-◌, max, Bool, true, false, Option, none, some, List, [], ◌∷◌, leb, if◌then◌else◌,
}
use phantom_proxy.Common.Int.{ℤ, pos_part, is_not_pos}
use phantom_proxy.Common.Bytes.{Bytes}
use phantom_proxy.Common.Map.{lookup, insert, erase}

pub record ConnLimiter : Type 0 where
  pub max : ℤ
  pub counts : List (Bytes × ℕ)

unfoldable pub new_conn_limiter : ℤ → ConnLimiter
new_conn_limiter max = record { max = max; counts = [] }

-- `l.counts[ip]`: a missing key counts 0.
unfoldable pub or_zero : Option ℕ → ℕ
or_zero none = 0
or_zero (some n) = n

pub count : List (Bytes × ℕ) → Bytes → ℕ
unfolding or_zero
count counts ip = or_zero (lookup ip counts)

-- `clientIP`: the remote address as a string, `split` being `net.SplitHostPort`.
pub client_ip : (Bytes → Option (Bytes × Bytes)) → Option Bytes → Bytes
client_ip split none = []
client_ip split (some addr) = elim (split addr) [ none ↦ addr | some (host, port) ↦ host ]

pub acquire : ConnLimiter → Bytes → Bool × ConnLimiter
acquire l [] = (true, l)
acquire l (c ∷ cs) =
    let ip = c ∷ cs in
    if is_not_pos l.max
    then (true, l)
    else if leb (pos_part l.max) (count l.counts ip)
    then (false, l)
    else (true, record { max = l.max; counts = insert ip (count l.counts ip + 1) l.counts })

pub release : ConnLimiter → Bytes → ConnLimiter
release l [] = l
release l (c ∷ cs) =
    let ip = c ∷ cs in
    if is_not_pos l.max
    then l
    else if leb (count l.counts ip) 1
    then record { max = l.max; counts = erase ip l.counts }
    else record { max = l.max; counts = insert ip (count l.counts ip - 1) l.counts }

-- The events of a server: a connection from an address opens, or a tracked one closes.
pub data Event : Type 0 where
  opens closes : Bytes → Event
