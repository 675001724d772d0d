-- ===== src/Stats.antt =====
-- internal/stats/tracker.go: per-user counters. `counters` adds a user at the first event that
-- names it. The totals are Go's int64 as their 64 bits
-- (from 2 ^ 63 on they stand for a negative number); the open connections are an integer.
pub mod Totals
use phantom_proxy.Common.{◌%◌, ◌^◌, ℕ, suc, ◌+◌, Option, none, some, List, [], ◌∷◌, ◌++◌}
use phantom_proxy.Common.Int.{ℤ, pos, negsuc, pos_part, ◌+ℤ◌}
use phantom_proxy.Common.Bytes.{Bytes}
use phantom_proxy.Common.Map.{lookup, insert}

pub record UserCounters : Type 0 where
  pub active : ℤ
  pub total : ℕ
  pub upload : ℕ
  pub download : ℕ

pub record UserStats : Type 0 where
  pub name : Bytes
  pub active_connections : ℤ
  pub total_connections : ℕ
  pub upload_bytes : ℕ
  pub download_bytes : ℕ

pub record Snapshot : Type 0 where
  pub active_connections : ℤ
  pub total_connections : ℕ
  pub upload_bytes : ℕ
  pub download_bytes : ℕ
  pub users : List UserStats

abbrev pub Tracker : Type 0
Tracker = List (Bytes × UserCounters)

abbrev pub new_counters : UserCounters
new_counters = record { active = pos 0; total = 0; upload = 0; download = 0 }

unfoldable pub or_new : Option UserCounters → UserCounters
or_new none = new_counters
or_new (some c) = c

unfoldable pub counters : Tracker → Bytes → UserCounters
unfolding or_new
counters t name = or_new (lookup name t)

unfoldable pub on_connect : Tracker → Bytes → Tracker
on_connect t name =
    let c = counters t name in
    insert name
      (record {
        active = c.active +ℤ pos 1;
        total = (c.total + 1) % 2 ^ 64;
        upload = c.upload;
        download = c.download;
      })
      t

unfoldable pub on_disconnect : Tracker → Bytes → Tracker
on_disconnect t name =
    let c = counters t name in
    insert name
      (record {
        active = c.active +ℤ negsuc 0;
        total = c.total;
        upload = c.upload;
        download = c.download;
      })
      t

-- Only positive amounts are added.
unfoldable pub add_traffic : Tracker → Bytes → ℤ → ℤ → Tracker
add_traffic t name upload download =
    let c = counters t name in
    insert name
      (record {
        active = c.active;
        total = c.total;
        upload = (c.upload + pos_part upload) % 2 ^ 64;
        download = (c.download + pos_part download) % 2 ^ 64;
      })
      t

pub user_stats : Bytes → UserCounters → UserStats
user_stats name c = record {
  name = name;
  active_connections = c.active;
  total_connections = c.total;
  upload_bytes = c.upload;
  download_bytes = c.download;
}

add_to : Snapshot → UserStats → Snapshot
add_to snap us = record {
  active_connections = snap.active_connections +ℤ us.active_connections;
  total_connections = (snap.total_connections + us.total_connections) % 2 ^ 64;
  upload_bytes = (snap.upload_bytes + us.upload_bytes) % 2 ^ 64;
  download_bytes = (snap.download_bytes + us.download_bytes) % 2 ^ 64;
  users = snap.users ++ (us ∷ []);
}

snapshot_loop : Snapshot → Tracker → Snapshot
unfolding add_to user_stats
snapshot_loop snap [] = snap
snapshot_loop snap ((name, c) ∷ rest) = snapshot_loop (add_to snap (user_stats name c)) rest

pub snapshot : Tracker → Snapshot
snapshot t =
    snapshot_loop
      (record {
        active_connections = pos 0;
        total_connections = 0;
        upload_bytes = 0;
        download_bytes = 0;
        users = [];
      })
      t

pub user : Tracker → Bytes → Option UserStats
user t name = elim (lookup name t) [ none ↦ none | some c ↦ some (user_stats name c) ]
