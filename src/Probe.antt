-- ===== src/Probe.antt =====
-- internal/probe/blacklist.go: an address with too many invalid connections in a sliding window is
-- blocked for some time. `None` stands for the nil `*Blacklist` of a disabled one. Times are
-- nanoseconds; each `time.Now()` of a method is an argument, in the order of the calls.
pub mod Window
use phantom_proxy.Common.{
  ℕ, ◌+◌, ◌*◌, Bool, true, false, Option, none, some, List, [], ◌∷◌, ◌++◌, ltb, leb, if◌then◌else◌,
  length,
}
use phantom_proxy.Common.Int.{ℤ, pos_part, is_not_pos}
use phantom_proxy.Common.Bytes.{Bytes}
use phantom_proxy.Common.Map.{lookup, insert, erase}

pub record Blacklist : Type 0 where
  pub threshold : ℕ
  pub duration : ℕ
  pub window : ℕ
  pub counts : List (Bytes × List ℕ)
  pub blocked : List (Bytes × ℕ)

-- `time.Second`
abbrev pub second : ℕ
second = 1000000000

unfoldable pub or_seconds : ℤ → ℕ → ℕ
or_seconds s default = (if is_not_pos s then default else pos_part s) * second

unfoldable pub new_blacklist : ℤ → ℤ → ℤ → Option Blacklist
unfolding or_seconds
new_blacklist threshold duration_sec window_sec =
    if is_not_pos threshold
    then none
    else some (record {
      threshold = pos_part threshold;
      duration = or_seconds duration_sec 3600;
      window = or_seconds window_sec 600;
      counts = [];
      blocked = [];
    })

unfoldable pub with_maps : Blacklist → List (Bytes × List ℕ) → List (Bytes × ℕ) → Blacklist
with_maps b counts blocked = record {
  threshold = b.threshold;
  duration = b.duration;
  window = b.window;
  counts = counts;
  blocked = blocked;
}

-- `purgeExpiredLocked`: the entries of `blocked` that have passed are deleted, and their counts.
unfoldable pub purge_loop :
    ℕ → List (Bytes × ℕ) → List (Bytes × List ℕ) → List (Bytes × List ℕ) × List (Bytes × ℕ)
purge_loop now [] counts = (counts, [])
purge_loop now ((ip, until) ∷ es) counts =
    let dropped = purge_loop now es (erase ip counts) in
    let kept = purge_loop now es counts in
    if ltb until now then dropped else (kept.0, (ip, until) ∷ kept.1)

unfoldable pub purge_expired_locked : ℕ → Blacklist → Blacklist
unfolding with_maps
purge_expired_locked now b =
    let (counts, blocked) = purge_loop now b.blocked b.counts in with_maps b counts blocked

-- `until, ok := blocked[ip]; ok && now.Before(until)`
unfoldable pub is_before : ℕ → Option ℕ → Bool
is_before now none = false
is_before now (some until) = ltb now until

is_blocked_locked : ℕ → Blacklist → Bytes → Bool × Blacklist
unfolding with_maps
is_blocked_locked now b ip = elim (lookup ip b.blocked) [
  | none ↦ (false, b)
  | some until ↦
      if ltb now until
      then (true, b)
      else (false, with_maps b (erase ip b.counts) (erase ip b.blocked))
]

-- `purged` is the clock of the purge, `now` that of the test.
pub is_blocked : ℕ → ℕ → Option Blacklist → Bytes → Bool × Option Blacklist
unfolding is_blocked_locked
is_blocked purged now none ip = (false, none)
is_blocked purged now (some b) [] = (false, some b)
is_blocked purged now (some b) (c ∷ cs) =
    let (r, b') = is_blocked_locked now (purge_expired_locked purged b) (c ∷ cs) in (r, some b')

-- The times after the cutoff `now - window`.
unfoldable pub recent : ℕ → ℕ → List ℕ → List ℕ
recent now window [] = []
recent now window (t ∷ ts) =
    let rest = recent now window ts in if ltb now (t + window) then t ∷ rest else rest

unfoldable pub times_of : Option (List ℕ) → List ℕ
times_of none = []
times_of (some ts) = ts

unfoldable pub record_locked : ℕ → Blacklist → Bytes → Bool × Blacklist
unfolding with_maps recent times_of
record_locked now b ip =
    let pruned = recent now b.window (times_of (lookup ip b.counts)) ++ (now ∷ []) in
    let counts = insert ip pruned b.counts in
    if leb b.threshold (length pruned)
    then (true, with_maps b (erase ip counts) (insert ip (now + b.duration) b.blocked))
    else (false, with_maps b counts b.blocked)

-- `purged`, `tested` and `now` are the three readings of the clock.
unfoldable pub record_probe : ℕ → ℕ → ℕ → Option Blacklist → Bytes → Bool × Option Blacklist
unfolding record_locked
record_probe purged tested now none ip = (false, none)
record_probe purged tested now (some b) [] = (false, some b)
record_probe purged tested now (some b) (c ∷ cs) =
    let b' = purge_expired_locked purged b in
    let (r, b'') = record_locked now b' (c ∷ cs) in
    if is_before tested (lookup (c ∷ cs) b'.blocked) then (true, some b') else (r, some b'')
