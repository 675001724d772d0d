-- ===== src/Stats/Totals.antt =====
-- The counters against the history of events, and the snapshot's totals.
use phantom_proxy.Common.{
  ◌%◌, ◌^◌, ◌<◌, ℕ, suc, ◌+◌, ◌≡◌, refl, inl, inr, List, [], ◌∷◌, arith, Bool-cases,
}
use phantom_proxy.Common.Int.{ℤ, pos, negsuc, pos_part, ◌+ℤ◌}
use phantom_proxy.Common.Bytes.{Bytes, eqb}
use phantom_proxy.Common.Map.{lookup, insert}
use phantom_proxy.Stats.{
  UserCounters, Snapshot, Tracker, new_counters, or_new, counters, on_connect, on_disconnect,
  add_traffic, add_to, user_stats, snapshot_loop, snapshot,
}

-- The calls of the tracker.
pub data Event : Type 0 where
  connects disconnects : Bytes → Event
  moves : Bytes → ℤ → ℤ → Event

pub track : Tracker → Event → Tracker
track t (connects name) = on_connect t name
track t (disconnects name) = on_disconnect t name
track t (moves name up down) = add_traffic t name up down

pub track_all : Tracker → List Event → Tracker
track_all t [] = t
track_all t (e ∷ es) = track_all (track t e) es

-- How many of the events are connects, and how many bytes they upload.
pub connects_in : List Event → ℕ
connects_in [] = 0
connects_in (connects _ ∷ es) = suc (connects_in es)
connects_in (disconnects _ ∷ es) = connects_in es
connects_in (moves _ _ _ ∷ es) = connects_in es

pub upload_in : List Event → ℕ
upload_in [] = 0
upload_in (connects _ ∷ es) = upload_in es
upload_in (disconnects _ ∷ es) = upload_in es
upload_in (moves _ up _ ∷ es) = pos_part up + upload_in es

-- The sum of one counter over all users.
sum_of : (UserCounters → ℕ) → Tracker → ℕ
sum_of f [] = 0
sum_of f ((name, c) ∷ t) = f c + sum_of f t

sum_of-insert :
    (f : UserCounters → ℕ) (name : Bytes) (c : UserCounters) (t : Tracker)
    → f new_counters ≡ 0
    → sum_of f (insert name c t) + f (counters t name) ≡ sum_of f t + f c
unfolding sum_of insert counters or_new lookup
sum_of-insert f name c [] z = omega (arith, z)
sum_of-insert f name c ((j, d) ∷ t) z = elim (Bool-cases (eqb j name)) [
  | inl e ↦ rw e (omega arith)
  | inr e ↦ rw e (omega (arith, sum_of-insert f name c t z))
]

loop_totals :
    (t : Tracker) (s : Snapshot)
    → ((snapshot_loop s t).total_connections % 2 ^ 64
        ≡ (s.total_connections + sum_of (λ (c : UserCounters). c.total) t) % 2 ^ 64)
      × ((snapshot_loop s t).upload_bytes % 2 ^ 64
          ≡ (s.upload_bytes + sum_of (λ (c : UserCounters). c.upload) t) % 2 ^ 64)
unfolding snapshot_loop sum_of add_to user_stats
loop_totals [] s = (omega arith, omega arith)
loop_totals ((name, c) ∷ t) s =
    let r = loop_totals t (add_to s (user_stats name c)) in (omega (arith, r.0), omega (arith, r.1))

track_total :
    (t : Tracker) (e : Event)
    → sum_of (λ (c : UserCounters). c.total) (track t e) % 2 ^ 64
      ≡ (sum_of (λ (c : UserCounters). c.total) t + connects_in (e ∷ [])) % 2 ^ 64
unfolding track on_connect on_disconnect add_traffic connects_in
track_total t (connects n) = omega (
  arith,
  sum_of-insert (λ c. c.total) n
      (record {
        active = (counters t n).active +ℤ pos 1;
        total = ((counters t n).total + 1) % 2 ^ 64;
        upload = (counters t n).upload;
        download = (counters t n).download;
      })
      t refl,
)
track_total t (disconnects n) = omega (
  arith,
  sum_of-insert (λ c. c.total) n
      (record {
        active = (counters t n).active +ℤ negsuc 0;
        total = (counters t n).total;
        upload = (counters t n).upload;
        download = (counters t n).download;
      })
      t refl,
)
track_total t (moves n up down) = omega (
  arith,
  sum_of-insert (λ c. c.total) n
      (record {
        active = (counters t n).active;
        total = (counters t n).total;
        upload = ((counters t n).upload + pos_part up) % 2 ^ 64;
        download = ((counters t n).download + pos_part down) % 2 ^ 64;
      })
      t refl,
)

track_upload :
    (t : Tracker) (e : Event)
    → sum_of (λ (c : UserCounters). c.upload) (track t e) % 2 ^ 64
      ≡ (sum_of (λ (c : UserCounters). c.upload) t + upload_in (e ∷ [])) % 2 ^ 64
unfolding track on_connect on_disconnect add_traffic upload_in
track_upload t (connects n) = omega (
  arith,
  sum_of-insert (λ c. c.upload) n
      (record {
        active = (counters t n).active +ℤ pos 1;
        total = ((counters t n).total + 1) % 2 ^ 64;
        upload = (counters t n).upload;
        download = (counters t n).download;
      })
      t refl,
)
track_upload t (disconnects n) = omega (
  arith,
  sum_of-insert (λ c. c.upload) n
      (record {
        active = (counters t n).active +ℤ negsuc 0;
        total = (counters t n).total;
        upload = (counters t n).upload;
        download = (counters t n).download;
      })
      t refl,
)
track_upload t (moves n up down) = omega (
  arith,
  sum_of-insert (λ c. c.upload) n
      (record {
        active = (counters t n).active;
        total = (counters t n).total;
        upload = ((counters t n).upload + pos_part up) % 2 ^ 64;
        download = ((counters t n).download + pos_part down) % 2 ^ 64;
      })
      t refl,
)

connects_in-cons :
    (e : Event) (es : List Event) → connects_in (e ∷ es) ≡ connects_in (e ∷ []) + connects_in es
unfolding connects_in
connects_in-cons (connects n) es = omega arith
connects_in-cons (disconnects n) es = omega arith
connects_in-cons (moves n up down) es = omega arith

upload_in-cons :
    (e : Event) (es : List Event) → upload_in (e ∷ es) ≡ upload_in (e ∷ []) + upload_in es
unfolding upload_in
upload_in-cons (connects n) es = omega arith
upload_in-cons (disconnects n) es = omega arith
upload_in-cons (moves n up down) es = omega arith

track_totals :
    (es : List Event) (t : Tracker)
    → (sum_of (λ (c : UserCounters). c.total) (track_all t es) % 2 ^ 64
        ≡ (sum_of (λ (c : UserCounters). c.total) t + connects_in es) % 2 ^ 64)
      × (sum_of (λ (c : UserCounters). c.upload) (track_all t es) % 2 ^ 64
          ≡ (sum_of (λ (c : UserCounters). c.upload) t + upload_in es) % 2 ^ 64)
unfolding track_all
track_totals [] t = (unfold connects_in in omega arith, unfold upload_in in omega arith)
track_totals (e ∷ es) t =
    let r = track_totals es (track t e) in
    (
      omega (arith, r.0, track_total t e, connects_in-cons e es),
      omega (arith, r.1, track_upload t e, upload_in-cons e es),
    )

loop_small :
    (t : Tracker) (s : Snapshot)
    → s.total_connections < 2 ^ 64
    → s.upload_bytes < 2 ^ 64
    → ((snapshot_loop s t).total_connections < 2 ^ 64) × ((snapshot_loop s t).upload_bytes < 2 ^ 64)
unfolding snapshot_loop add_to
loop_small [] s h k = (h, k)
loop_small ((name, c) ∷ t) s h k =
    loop_small t (add_to s (user_stats name c)) (omega arith) (omega arith)

-- After any sequence of calls on a new tracker, a snapshot's totals are those of the calls, with
-- the wrap-around of 64 bits: as many connections as `OnConnect` calls, and as many uploaded bytes
-- as the positive amounts that `AddTraffic` was given, over all users together.
pub snapshot-track_all :
    (es : List Event)
    → ((snapshot (track_all [] es)).total_connections ≡ connects_in es % 2 ^ 64)
      × ((snapshot (track_all [] es)).upload_bytes ≡ upload_in es % 2 ^ 64)
unfolding snapshot sum_of
snapshot-track_all es =
    let start : Snapshot = record {
      active_connections = pos 0;
      total_connections = 0;
      upload_bytes = 0;
      download_bytes = 0;
      users = [];
    } in
    let r = loop_totals (track_all [] es) start in
    let h = track_totals es [] in
    let l = loop_small (track_all [] es) start (omega arith) (omega arith) in
    (omega (arith, r.0, h.0, l.0), omega (arith, r.1, h.1, l.1))
