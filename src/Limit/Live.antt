-- ===== src/Limit/Live.antt =====
-- The limiter's map holds the number of live connections of each address.
use phantom_proxy.Common.{
  ℕ, suc, ◌+◌, ◌-◌, ◌≤◌, ◌≡◌, refl, ap, ◌∙◌, inl, inr, true, false, List, [], ◌∷◌, arith, leb,
  if◌then◌else◌, Bool-cases,
}
use phantom_proxy.Common.Int.{ℤ, pos_part, is_not_pos}
use phantom_proxy.Common.Bytes.{Bytes, eqb, eqb_iff}
use phantom_proxy.Common.Map.{lookup, insert, erase, lookup-insert, lookup-erase}
use phantom_proxy.Limit.{
  ConnLimiter, or_zero, count, new_conn_limiter, acquire, release, Event, opens, closes,
}

-- The connections that are open, each as its address; the newest is first.
pub occurrences : Bytes → List Bytes → ℕ
occurrences ip [] = 0
occurrences ip (c ∷ cs) = if eqb c ip then suc (occurrences ip cs) else occurrences ip cs

-- One connection of the address less.
pub close : Bytes → List Bytes → List Bytes
close ip [] = []
close ip (c ∷ cs) = let rest = close ip cs in if eqb c ip then cs else c ∷ rest

-- What the server does to the limiter and to its open connections. A connection that is refused
-- is never opened, and a close is seen for an open connection.
pub serve : ConnLimiter × List Bytes → Event → ConnLimiter × List Bytes
serve (l, live) (opens ip) =
    let (admitted, l') = acquire l ip in (l', if admitted then ip ∷ live else live)
serve (l, live) (closes ip) =
    if leb 1 (occurrences ip live) then (release l ip, close ip live) else (l, live)

pub run : ConnLimiter × List Bytes → List Event → ConnLimiter × List Bytes
run s [] = s
run s (e ∷ es) = run (serve s e) es

-- Each address that is known holds as many slots as it has open connections, and no more than
-- the limit.
pub IsCounted : ConnLimiter × List Bytes → Type 0
IsCounted (l, live) =
    (c : ℕ) (cs : Bytes)
    → (count l.counts (c ∷ cs) ≡ occurrences (c ∷ cs) live)
      × (count l.counts (c ∷ cs) ≤ pos_part l.max)

count-insert :
    (k j : Bytes) (v : ℕ) (m : List (Bytes × ℕ))
    → count (insert k v m) j ≡ (if eqb k j then v else count m j)
unfolding count or_zero
count-insert k j v m =
    rw (lookup-insert k j v m)
      (elim (Bool-cases (eqb k j)) [ inl e ↦ rw e refl | inr e ↦ rw e refl ])

count-erase :
    (k j : Bytes) (m : List (Bytes × ℕ)) → count (erase k m) j ≡ (if eqb k j then 0 else count m j)
unfolding count or_zero
count-erase k j m =
    rw (lookup-erase k j m) (elim (Bool-cases (eqb k j)) [ inl e ↦ rw e refl | inr e ↦ rw e refl ])

occurrences-close :
    (ip j : Bytes) (live : List Bytes)
    → occurrences j (close ip live)
      ≡ (if eqb ip j then occurrences j live - 1 else occurrences j live)
unfolding occurrences close
occurrences-close ip j [] = ground arith
occurrences-close ip j (c ∷ cs) =
    ground (arith, eqb_iff ip j, eqb_iff c ip, eqb_iff c j, occurrences-close ip j cs)

acquire-IsCounted :
    (l : ConnLimiter) (live : List Bytes) (ip : Bytes)
    → is_not_pos l.max ≡ false
    → IsCounted (l, live)
    → IsCounted (serve (l, live) (opens ip))
unfolding IsCounted serve acquire occurrences eqb
acquire-IsCounted l live [] p h = λ c cs. h c cs
acquire-IsCounted l live (d ∷ ds) p h =
    elim (Bool-cases (leb (pos_part l.max) (count l.counts (d ∷ ds)))) [
      | inl e ↦ rw (p, e) h
      | inr e ↦
          rw (p, e)
            (λ c cs.
              rw (count-insert (d ∷ ds) (c ∷ cs) (count l.counts (d ∷ ds) + 1) l.counts)
                (ground (arith, h c cs, h d ds, e, eqb_iff (d ∷ ds) (c ∷ cs))))
    ]

released :
    (l : ConnLimiter) (live : List Bytes) (ip : Bytes)
    → is_not_pos l.max ≡ false
    → IsCounted (l, live)
    → leb 1 (occurrences ip live) ≡ true
    → IsCounted (release l ip, close ip live)
unfolding IsCounted release eqb
released l live [] p h e = λ c cs. rw (occurrences-close [] (c ∷ cs) live) (h c cs)
released l live (d ∷ ds) p h e = elim (Bool-cases (leb (count l.counts (d ∷ ds)) 1)) [
  | inl f ↦
      rw (p, f)
        (λ c cs.
          rw (count-erase (d ∷ ds) (c ∷ cs) l.counts, occurrences-close (d ∷ ds) (c ∷ cs) live)
            (ground (arith, h c cs, h d ds, e, f, eqb_iff (d ∷ ds) (c ∷ cs))))
  | inr f ↦
      rw (p, f)
        (λ c cs.
          rw
            (
              count-insert (d ∷ ds) (c ∷ cs) (count l.counts (d ∷ ds) - 1) l.counts,
              occurrences-close (d ∷ ds) (c ∷ cs) live,
            )
            (ground (arith, h c cs, h d ds, e, f, eqb_iff (d ∷ ds) (c ∷ cs))))
]

release-IsCounted :
    (l : ConnLimiter) (live : List Bytes) (ip : Bytes)
    → is_not_pos l.max ≡ false
    → IsCounted (l, live)
    → IsCounted (serve (l, live) (closes ip))
unfolding IsCounted serve release
release-IsCounted l live ip p h = elim (Bool-cases (leb 1 (occurrences ip live))) [
  | inr e ↦ rw e h
  | inl e ↦ rw e (released l live ip p h e)
]

serve-max : (s : ConnLimiter × List Bytes) (e : Event) → (serve s e).0.max ≡ s.0.max
unfolding serve acquire release
serve-max (l, live) (opens []) = refl
serve-max (l, live) (opens (d ∷ ds)) = ground arith
serve-max (l, live) (closes []) = ground arith
serve-max (l, live) (closes (d ∷ ds)) = ground arith

run-IsCounted :
    (es : List Event) (s : ConnLimiter × List Bytes)
    → is_not_pos s.0.max ≡ false
    → IsCounted s
    → IsCounted (run s es) × ((run s es).0.max ≡ s.0.max)
unfolding run
run-IsCounted [] s p h = (h, refl)
run-IsCounted (opens ip ∷ es) (l, live) p h =
    let m = serve-max (l, live) (opens ip) in
    let r =
      run-IsCounted es (serve (l, live) (opens ip)) (ap is_not_pos m ∙ p)
        (acquire-IsCounted l live ip p h) in
    (r.0, r.1 ∙ m)
run-IsCounted (closes ip ∷ es) (l, live) p h =
    let m = serve-max (l, live) (closes ip) in
    let r =
      run-IsCounted es (serve (l, live) (closes ip)) (ap is_not_pos m ∙ p)
        (release-IsCounted l live ip p h) in
    (r.0, r.1 ∙ m)

-- Whatever connections open and close, in any order: with a positive limit, the limiter counts
-- for every known address exactly the connections that are open from it, and never more of them
-- are open than the limit.
pub run-live_le :
    (limit : ℤ) (es : List Event) (c : ℕ) (cs : Bytes)
    → is_not_pos limit ≡ false
    → (count (run (new_conn_limiter limit, []) es).0.counts (c ∷ cs)
        ≡ occurrences (c ∷ cs) (run (new_conn_limiter limit, []) es).1)
      × (occurrences (c ∷ cs) (run (new_conn_limiter limit, []) es).1 ≤ pos_part limit)
unfolding IsCounted new_conn_limiter count or_zero occurrences lookup
run-live_le limit es c cs p =
    let r = run-IsCounted es (new_conn_limiter limit, []) p (λ d ds. (refl, omega arith)) in
    let h = r.0 c cs in (h.0, omega (arith, h.0, h.1, ap pos_part r.1))
