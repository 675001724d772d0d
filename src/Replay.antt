-- ===== src/Replay.antt =====
-- internal/faketls/replay.go: the ClientHellos that were seen. `key` is `replayKey(ch)`, a hash of
-- the random; a nil ClientHello is `none`. Times are nanoseconds. The loop over a Go map takes an
-- order that the language leaves open: it is the order of the association list.
pub mod Seen
use phantom_proxy.Common.{
  ℕ, ◌+◌, ◌-◌, ◌*◌, max, Bool, true, false, Option, none, some, List, [], ◌∷◌, ltb, if◌then◌else◌,
  length, drop,
}
use phantom_proxy.Common.Int.{ℤ, pos_part, is_not_pos}
use phantom_proxy.Common.Bytes.{Bytes}
use phantom_proxy.Common.Map.{lookup, insert}

pub record ReplayCache : Type 0 where
  pub entries : List (Bytes × ℕ)
  pub max : ℕ
  pub ttl : ℕ
  pub hits : ℕ

unfoldable pub new_replay_cache : ℤ → ℤ → ReplayCache
new_replay_cache max_entries ttl = record {
  entries = [];
  max = if is_not_pos max_entries then 10000 else pos_part max_entries;
  ttl = if is_not_pos ttl then 2 * 60000000000 else pos_part ttl;
  hits = 0;
}

-- The entries no older than `ttl`.
unfoldable pub fresh : ℕ → ℕ → List (Bytes × ℕ) → List (Bytes × ℕ)
fresh now ttl [] = []
fresh now ttl ((k, t) ∷ es) =
    let rest = fresh now ttl es in if ltb (t + ttl) now then rest else (k, t) ∷ rest

-- `evict`: the old entries, and then any until `max` are left.
unfoldable pub evict : ℕ → ReplayCache → List (Bytes × ℕ)
evict now c = let kept = fresh now c.ttl c.entries in drop (length kept - c.max) kept

unfoldable pub check_key : ℕ → ReplayCache → Bytes → List (Bytes × ℕ) → Bool × ReplayCache
check_key now c key kept = elim (lookup key kept) [
  | some t ↦ (true, record { entries = kept; max = c.max; ttl = c.ttl; hits = c.hits + 1 })
  | none ↦
      (false, record { entries = insert key now kept; max = c.max; ttl = c.ttl; hits = c.hits })
]

-- Whether it is a replay, and the cache.
unfoldable pub check : ℕ → ReplayCache → Option Bytes → Bool × ReplayCache
unfolding check_key
check now c none = (false, c)
check now c (some key) = check_key now c key (evict now c)
