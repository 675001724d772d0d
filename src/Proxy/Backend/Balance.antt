-- ===== src/Proxy/Backend/Balance.antt =====
-- The statistics before and after a session. About: relay_mtproto, run_session.
use phantom_proxy.Common.{
  ◌%◌, ◌^◌, ◌&&◌, ◌+◌, ◌≡◌, refl, ap, ◌∙◌, subst, ◌⊎◌, inl, inr, Bool, true, false, Option, arith,
  if◌then◌else◌, Bool-cases,
}
use phantom_proxy.Common.Int.{ℤ, pos, negsuc, pos_part, ◌+ℤ◌}
use phantom_proxy.Common.Bytes.{Bytes, eqb, eqb_iff, eqb_refl}
use phantom_proxy.Common.Map.{insert, lookup-insert}
use phantom_proxy.Common.Slice.{Outcome}
use phantom_proxy.Common.Result.{ok, Result-cases}
use phantom_proxy.Stats.{
  Tracker, UserCounters, counters, or_new, on_connect, on_disconnect, add_traffic,
}
use phantom_proxy.Config.{Config}
use phantom_proxy.Proxy.Backend.{
  Backend, RelayError, Traffic, backend_of, failure_of, run_session, broken_session, logs_hello,
  relay_to, relay_mtproto,
}

counters-insert :
    (k u : Bytes) (c : UserCounters) (t : Tracker)
    → counters (insert k c t) u ≡ (if eqb k u then c else counters t u)
unfolding counters or_new
counters-insert k u c t = elim (Bool-cases (eqb k u)) [
  | inl e ↦ rw (lookup-insert k u c t, e) refl
  | inr e ↦ rw (lookup-insert k u c t, e) refl
]

up_and_down : (n : ℤ) → n +ℤ pos 1 +ℤ negsuc 0 ≡ n
unfolding ◌+ℤ◌
up_and_down (pos n) = ground arith
up_and_down (negsuc n) = ground arith

-- The counters of a user behind a session of that user.
abbrev pub with_session : UserCounters → ℤ × ℤ → UserCounters
with_session c (up, down) = record c {
  total = (c.total + 1) % 2 ^ 64;
  upload = (c.upload + pos_part up) % 2 ^ 64;
  download = (c.download + pos_part down) % 2 ^ 64;
}

-- What an insertion under the name of another leaves, and what it gives under its own.
other :
    (k u : Bytes) (c : UserCounters) (t : Tracker)
    → eqb k u ≡ false
    → counters (insert k c t) u ≡ counters t u
other k u c t e = counters-insert k u c t ∙ rw e refl

own : (k : Bytes) (c : UserCounters) (t : Tracker) → counters (insert k c t) k ≡ c
own k c t = counters-insert k k c t ∙ rw (eqb_refl k) refl

opened : Tracker → Bytes → UserCounters
opened t name =
    let c = counters t name in
    record c { active = c.active +ℤ pos 1; total = (c.total + 1) % 2 ^ 64 }

counters-session_own :
    (t : Tracker) (m : Option Traffic) (name : Bytes) (copied : ℤ × ℤ)
    → counters (run_session t m name copied).0 name ≡ with_session (counters t name) copied
unfolding run_session on_connect on_disconnect add_traffic opened
counters-session_own t m name (up, down) =
    let c = counters t name in
    let c1 : UserCounters = opened t name in
    let t1 = insert name c1 t in
    let c2 : UserCounters = record c1 {
      upload = (c1.upload + pos_part up) % 2 ^ 64;
      download = (c1.download + pos_part down) % 2 ^ 64;
    } in
    let t2 = insert name c2 t1 in
    let c3 : UserCounters = record c2 { active = c2.active +ℤ negsuc 0 } in
    let closed : counters (insert name c3 t2) name ≡ with_session c (up, down) =
      own name c3 t2 ∙ rw (up_and_down c.active) refl in
    rw (own name c1 t, own name c2 t1) closed

counters-session :
    (t : Tracker) (m : Option Traffic) (name u : Bytes) (copied : ℤ × ℤ)
    → counters (run_session t m name copied).0 u
      ≡ (if eqb name u then with_session (counters t u) copied else counters t u)
unfolding run_session on_connect on_disconnect add_traffic
counters-session t m name u (up, down) = elim (Bool-cases (eqb name u)) [
  | inl e ↦ rw e (
      subst
        (λ v.
          counters (run_session t m name (up, down)).0 v ≡ with_session (counters t v) (up, down))
        ((eqb_iff name u).0 e) (counters-session_own t m name (up, down)))
  | inr e ↦ rw e (other name u _ _ e ∙ other name u _ _ e ∙ other name u _ _ e)
]

still :
    (b : Bool) (c : UserCounters) (copied : ℤ × ℤ)
    → (if b then with_session c copied else c).active ≡ c.active
still true c copied = refl
still false c copied = refl

-- The counters of a user behind a session that was broken off.
abbrev pub with_visit : UserCounters → UserCounters
with_visit c = record c { total = (c.total + 1) % 2 ^ 64 }

counters-broken :
    (t : Tracker) (name u : Bytes)
    → counters (broken_session t name) u
      ≡ (if eqb name u then with_visit (counters t u) else counters t u)
unfolding broken_session on_connect on_disconnect opened
counters-broken t name u = elim (Bool-cases (eqb name u)) [
  | inl e ↦
      let c1 : UserCounters = opened t name in
      let t1 = insert name c1 t in
      let c2 : UserCounters = record c1 { active = c1.active +ℤ negsuc 0 } in
      let closed : counters (insert name c2 t1) name ≡ with_visit (counters t name) =
        own name c2 t1 ∙ rw (up_and_down (counters t name).active) refl in
      let mine : counters (broken_session t name) name ≡ with_visit (counters t name) =
        rw (own name c1 t) closed in
      rw e (
        subst (λ v. counters (broken_session t name) v ≡ with_visit (counters t v))
          ((eqb_iff name u).0 e) mine)
  | inr e ↦ rw e (other name u _ _ e ∙ other name u _ _ e)
]

still_visited : (b : Bool) (c : UserCounters) → (if b then with_visit c else c).active ≡ c.active
still_visited true c = refl
still_visited false c = refl

module _ (hex_decode : Bytes → Option Bytes) (dials : Backend → Bool) (copied : ℤ × ℤ) where
  -- The backend that is found, and that its dial succeeds.
  abbrev pub Reached : Config → ℤ → Backend → Type 0
  Reached c dc_id b = (backend_of hex_decode c dc_id ≡ ok b) × (dials b ≡ true)

  -- The relaying of a session ends in one of three ways. It ends well with a backend whose dial
  -- succeeds; the user then has one connection more in total and the bytes copied (with the
  -- wrap-around of 64 bits), and no other user changes. It panics with such a backend, where the
  -- JA3 of the ClientHello is to be logged and panics; the user then has one connection more in
  -- total, and nothing else changes. With an error the statistics stay as they were. No user's
  -- active connections change in any of them.
  pub relay_mtproto_balanced :
      (c : Config) (t : Tracker) (m : Option Traffic) (dc_id : ℤ) (name : Bytes) (ja3_panics : Bool)
      (u : Bytes)
      → let (e, (t', m')) = relay_mtproto hex_decode dials copied c t m dc_id name ja3_panics in
        ((counters t' u).active ≡ (counters t u).active)
        × (((e ≡ Outcome.ok tt)
              × ((b : Backend) × Reached c dc_id b × ((ja3_panics && logs_hello b) ≡ false))
              × (counters t' u
                  ≡ (if eqb name u then with_session (counters t u) copied else counters t u)))
            ⊎ (((e ≡ Outcome.panics)
                  × ((b : Backend) × Reached c dc_id b × ((ja3_panics && logs_hello b) ≡ true))
                  × (counters t' u
                      ≡ (if eqb name u then with_visit (counters t u) else counters t u))
                  × (m' ≡ m))
                ⊎ ((x : RelayError) × (e ≡ Outcome.err x) × (t' ≡ t) × (m' ≡ m))))
  unfolding relay_mtproto relay_to
  relay_mtproto_balanced c t m dc_id name ja3_panics u =
      elim (Result-cases (backend_of hex_decode c dc_id)) [
        | inr (x, f) ↦ rw f (refl, inr (inr (x, refl, refl, refl)))
        | inl (b, f) ↦ elim (Bool-cases (dials b)) [
          | inr g ↦ rw (f, g) (refl, inr (inr (failure_of b, refl, refl, refl)))
          | inl g ↦ elim (Bool-cases (ja3_panics && logs_hello b)) [
            | inl j ↦
                let change = counters-broken t name u in
                rw (f, g, j)
                  (
                    ap (λ k. k.active) change ∙ still_visited (eqb name u) (counters t u),
                    inr (inl (refl, (b, (refl, g), j), change, refl)),
                  )
            | inr j ↦
                let change = counters-session t m name u copied in
                rw (f, g, j)
                  (
                    ap (λ k. k.active) change ∙ still (eqb name u) (counters t u) copied,
                    inl (refl, (b, (refl, g), j), change),
                  )
          ]
        ]
      ]
