-- ===== src/Proxy/Address.antt =====
-- internal/proxy/netutil.go, listen.go and server.go: addresses as text. `net.SplitHostPort` and
-- `net.JoinHostPort` are parameters.
use phantom_proxy.Common.{
  ℕ, ◌+◌, ◌-◌, ◌*◌, Bool, true, false, ◌&&◌, ◌||◌, Option, none, some, [], ◌∷◌, ltb, leb, ◌==◌,
  if◌then◌else◌, length, get_or, take, drop,
}
use phantom_proxy.Common.Int.{ℤ, is_not_pos}
use phantom_proxy.Common.Bytes.{Bytes, codes, eqb}
use phantom_proxy.Common.Text.{decimal, has_prefix}

pub record Net : Type 0 where
  pub split_host_port : Bytes → Option (Bytes × Bytes)
  pub join_host_port : Bytes → Bytes → Bytes

-- The last byte, if there is one.
unfoldable last_of : Bytes → ℕ
last_of [] = 0
last_of (c ∷ []) = c
last_of (c ∷ d ∷ s) = last_of (d ∷ s)

unfoldable pub strip_brackets : Bytes → Bytes
unfolding last_of
strip_brackets host =
    if leb 2 (length host) && (get_or host 0 0 == 91 && last_of host == 93)
    then take (length host - 2) (drop 1 host)
    else host

-- The digits up to the first byte that is none. Go's `int` does not overflow for a port.
unfoldable pub leading_number : ℕ → Bytes → ℕ
leading_number p [] = p
leading_number p (c ∷ s) =
    let rest = leading_number (p * 10 + (c - 48)) s in if ltb c 48 || ltb 57 c then p else rest

-- `strings.TrimPrefix(s, "[")` and `strings.TrimSuffix(s, "]")`
unfoldable pub trim_brackets : Bytes → Bytes
unfolding last_of
trim_brackets s =
    let t = if has_prefix s (codes "[") then drop 1 s else s in
    if leb 1 (length t) && last_of t == 93 then take (length t - 1) t else t

module _ (net : Net) where
  abbrev or_remote : Bytes → Option (Bytes × Bytes) → Bytes × ℕ
  or_remote remote none = (remote, 0)
  or_remote remote (some (host, port)) = (strip_brackets host, leading_number 0 port)

  unfoldable pub split_host_port : Bytes → Bytes × ℕ
  split_host_port remote =
      if eqb remote []
      then (codes "127.0.0.1", 0)
      else or_remote remote (net.split_host_port remote)

  unfoldable pub format_client_remote : Bytes → ℤ → Bytes
  format_client_remote ip port =
      if eqb ip [] || eqb ip (codes "0.0.0.0")
      then []
      else if is_not_pos port
      then ip
      else net.join_host_port ip (decimal port)

  abbrev wildcard : Bytes → Bytes
  wildcard host =
      if eqb host []
        || (eqb host (codes "0.0.0.0") || (eqb host (codes "::") || eqb host (codes "::0")))
      then codes "*"
      else host

  abbrev or_addr : Bytes → Option (Bytes × Bytes) → Bytes
  or_addr addr none = addr
  or_addr addr (some (host, port)) = net.join_host_port (wildcard (trim_brackets host)) port

  unfoldable pub normalize_listen_addr : Bytes → Bytes
  normalize_listen_addr addr = or_addr addr (net.split_host_port addr)

  unfoldable pub listen_addrs_equal : Bytes → Bytes → Bool
  listen_addrs_equal a b = eqb (normalize_listen_addr a) (normalize_listen_addr b)

  -- `RebindListenIfNeeded`: the address of the listener, if any, and whether `net.Listen` works on
  -- the one wanted. The result tells whether it moved; `none` is an error.
  unfoldable pub rebind_listen_if_needed :
      (Bytes → Bool) → Bytes → Option Bytes → Option Bool × Option Bytes
  rebind_listen_if_needed listens want none =
      if listens want then (some true, some want) else (none, none)
  rebind_listen_if_needed listens want (some cur) =
      if listen_addrs_equal cur want
      then (some false, some cur)
      else if listens want
      then (some true, some want)
      else (none, some cur)
