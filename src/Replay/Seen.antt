-- ===== src/Replay/Seen.antt =====
-- What the replay cache detects.
use mathlib.Core.Bool.{true≢false}
use phantom_proxy.Common.{
  Bool-cases, Option, ℕ, ◌+◌, ◌-◌, ◌≤◌, ◌≡◌, refl, sym, ap, ◌∙◌, inl, inr, Bool, true, false, none,
  some, List, [], ◌∷◌, arith, Option-cases, length, drop, length-drop,
}
use phantom_proxy.Common.Bytes.{Bytes, eqb, eqb_iff, eqb_refl}
use phantom_proxy.Common.Map.{lookup, insert, lookup-insert, length-insert_le}
use phantom_proxy.Replay.{ReplayCache, fresh, evict, check_key, check}

lookup-fresh :
    (now ttl t : ℕ) (k : Bytes) (es : List (Bytes × ℕ))
    → lookup k es ≡ some t
    → now ≤ t + ttl
    → lookup k (fresh now ttl es) ≡ some t
unfolding lookup fresh
lookup-fresh now ttl t k [] h le = h
lookup-fresh now ttl t k ((j, u) ∷ es) h le = ground (arith, lookup-fresh now ttl t k es)

length-fresh_le : (now ttl : ℕ) (es : List (Bytes × ℕ)) → length (fresh now ttl es) ≤ length es
unfolding fresh
length-fresh_le now ttl [] = omega arith
length-fresh_le now ttl ((j, u) ∷ es) = ground (arith, length-fresh_le now ttl es)

-- The cache holds at most one entry more than its limit after a call, whatever it held before.
pub check-entries_le :
    (now : ℕ) (c : ReplayCache) (key : Bytes)
    → length (check now c (some key)).1.entries ≤ c.max + 1
unfolding check check_key evict
check-entries_le now c key =
    let kept : List (Bytes × ℕ) = fresh now c.ttl c.entries in
    let short : length (evict now c) ≤ c.max =
      omega (arith, length-drop (length kept - c.max) kept) in
    elim (Option-cases (lookup key (evict now c))) [
      | inl e ↦ rw (e, check_key) (omega (arith, length-insert_le key now (evict now c), short))
      | inr (t, e) ↦ rw (e, check_key) (omega (arith, short))
    ]

abbrev seen : ℕ → ReplayCache → Bytes → ReplayCache
seen now c key = record {
  entries = insert key now (evict now c);
  max = c.max;
  ttl = c.ttl;
  hits = c.hits;
}

check-passes :
    (now : ℕ) (c : ReplayCache) (key : Bytes)
    → lookup key (evict now c) ≡ none
    → check now c (some key) ≡ (false, seen now c key)
unfolding check check_key
check-passes now c key e = rw (e, check_key) refl

check-hit :
    (now t : ℕ) (c : ReplayCache) (key : Bytes)
    → lookup key (evict now c) ≡ some t
    → ((check now c (some key)).0 ≡ true) × ((check now c (some key)).1.hits ≡ c.hits + 1)
unfolding check check_key
check-hit now t c key e = (rw (e, check_key) refl, rw (e, check_key) refl)

-- The cache after some calls, each at its time with its key.
unfoldable pub check_all : ReplayCache → List (ℕ × Bytes) → ReplayCache
check_all c [] = c
check_all c ((t, k) ∷ calls) = check_all (check t c (some k)).1 calls

-- The cache is never over its limit before one of the calls or behind the last, and no call is
-- after `last`.
unfoldable pub StaysSmall : ℕ → ReplayCache → List (ℕ × Bytes) → Type 0
StaysSmall last c [] = length c.entries ≤ c.max
StaysSmall last c ((t, k) ∷ calls) =
    (length c.entries ≤ c.max) × (t ≤ last) × StaysSmall last (check t c (some k)).1 calls

-- What one call leaves of a key that it has not let expire.
kept :
    (t now : ℕ) (c : ReplayCache) (key : Bytes)
    → lookup key c.entries ≡ some now
    → t ≤ now + c.ttl
    → length c.entries ≤ c.max
    → lookup key (evict t c) ≡ some now
unfolding evict
kept t now c key h le small =
    let none_over : length (fresh t c.ttl c.entries) - c.max ≡ 0 =
      omega (arith, length-fresh_le t c.ttl c.entries, small) in
    ap (λ (n : ℕ). lookup key (drop n (fresh t c.ttl c.entries))) none_over
    ∙ lookup-fresh t c.ttl now key c.entries h le

clash : {B : Type 0} (t : ℕ) → ◌≡◌ {A = Option ℕ} none (some t) → B
clash t h = cc

other_key :
    (k key : Bytes) (t now : ℕ) (es : List (Bytes × ℕ))
    → lookup k es ≡ none
    → lookup key es ≡ some now
    → lookup key (insert k t es) ≡ some now
other_key k key t now es n h = elim (Bool-cases (eqb k key)) [
  | inl e ↦ clash now (sym n ∙ ap (λ x. lookup x es) ((eqb_iff k key).0 e) ∙ h)
  | inr e ↦ lookup-insert k key t es ∙ rw e h
]

check-kept :
    (t now : ℕ) (c : ReplayCache) (k key : Bytes)
    → lookup key c.entries ≡ some now
    → t ≤ now + c.ttl
    → length c.entries ≤ c.max
    → (lookup key (check t c (some k)).1.entries ≡ some now) × ((check t c (some k)).1.ttl ≡ c.ttl)
unfolding check check_key
check-kept t now c k key h le small =
    let held = kept t now c key h le small in
    elim (Option-cases (lookup k (evict t c))) [
      | inl e ↦ rw (e, check_key) (other_key k key t now (evict t c) e held, refl)
      | inr (u, e) ↦ rw (e, check_key) (held, refl)
    ]

all-kept :
    (now last : ℕ) (c : ReplayCache) (key : Bytes) (calls : List (ℕ × Bytes))
    → lookup key c.entries ≡ some now
    → last ≤ now + c.ttl
    → StaysSmall last c calls
    → (lookup key (evict last (check_all c calls)) ≡ some now)
unfolding check_all StaysSmall
all-kept now last c key [] h le s = kept last now c key h le s
all-kept now last c key ((t, k) ∷ calls) h le s =
    let (found, same) = check-kept t now c k key h (omega (arith, s.1, le)) s.0 in
    all-kept now last (check t c (some k)).1 key calls found (omega (arith, same, le)) s.2

-- A ClientHello that was let pass is a replay, and is counted as a hit, when it comes again no
-- later than `ttl` after, whatever calls come between, as long as they are not later than it and
-- the cache is not over its limit behind the first call and each of them.
pub check-again :
    (now later : ℕ) (c : ReplayCache) (key : Bytes) (calls : List (ℕ × Bytes))
    → (check now c (some key)).0 ≡ false
    → later ≤ now + c.ttl
    → StaysSmall later (check now c (some key)).1 calls
    → let behind = check_all (check now c (some key)).1 calls in
      ((check later behind (some key)).0 ≡ true)
      × ((check later behind (some key)).1.hits ≡ behind.hits + 1)
check-again now later c key calls h le small = elim (Option-cases (lookup key (evict now c))) [
  | inl e ↦
      let p = ap (λ (r : Bool × ReplayCache). r.1) (check-passes now c key e) in
      let here : lookup key (insert key now (evict now c)) ≡ some now =
        lookup-insert key key now (evict now c) ∙ rw (eqb_refl key) refl in
      check-hit later now (check_all (check now c (some key)).1 calls) key (
        all-kept now later (check now c (some key)).1 key calls
          (ap (λ (d : ReplayCache). lookup key d.entries) p ∙ here)
          (omega (arith, ap (λ (d : ReplayCache). d.ttl) p, le)) small)
  | inr (t, e) ↦ absurd (true≢false (sym (check-hit now t c key e).0 ∙ h))
]
