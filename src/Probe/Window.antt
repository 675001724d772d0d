-- ===== src/Probe/Window.antt =====
-- How long a block lasts.
use mathlib.Core.Option.{some-injective}
use mathlib.Core.Bool.{true≢false}
use phantom_proxy.Common.{
  ℕ, ◌+◌, ◌≤◌, ◌<◌, ◌≡◌, refl, sym, ap, ◌∙◌, subst, ◌⊎◌, inl, inr, Bool, true, Option, none, some,
  List, [], ◌∷◌, ◌++◌, arith, leb, ltb→lt, lt→ltb, Bool-cases, length,
}
use phantom_proxy.Common.Bytes.{Bytes, eqb_refl}
use phantom_proxy.Common.Map.{lookup, erase, lookup-insert}
use phantom_proxy.Probe.{
  Blacklist, purge_loop, purge_expired_locked, is_blocked, is_blocked_locked, record_probe,
  record_locked, is_before, with_maps, recent, times_of,
}

lookup-purge_loop :
    (now until : ℕ) (ip : Bytes) (es : List (Bytes × ℕ)) (counts : List (Bytes × List ℕ))
    → lookup ip es ≡ some until
    → now ≤ until
    → lookup ip (purge_loop now es counts).1 ≡ some until
unfolding lookup purge_loop
lookup-purge_loop now until ip [] counts h le = h
lookup-purge_loop now until ip ((k, t) ∷ es) counts h le = ground (
  arith,
  lookup-purge_loop now until ip es counts,
  lookup-purge_loop now until ip es (erase k counts),
)

-- An address that is in `blocked` until some time is reported as blocked at each earlier time.
still_blocked :
    (purged now until : ℕ) (b : Blacklist) (c : ℕ) (cs : Bytes)
    → lookup (c ∷ cs) b.blocked ≡ some until
    → purged ≤ now
    → now < until
    → is_blocked purged now (some b) (c ∷ cs) ≡ (true, some (purge_expired_locked purged b))
unfolding is_blocked is_blocked_locked purge_expired_locked with_maps
still_blocked purged now until b c cs h le lt =
    let found = lookup-purge_loop purged until (c ∷ cs) b.blocked b.counts h (omega arith) in
    rw (found, is_blocked_locked) (rw (lt→ltb now until lt) refl)

-- What `RecordProbe` leaves for an address that it reports as blocked: the end of the block lies
-- after the clock readings of the call.
recorded :
    (now : ℕ) (b : Blacklist) (c : ℕ) (cs : Bytes)
    → (record_locked now b (c ∷ cs)).0 ≡ true
    → lookup (c ∷ cs) (record_locked now b (c ∷ cs)).1.blocked ≡ some (now + b.duration)
unfolding record_locked with_maps
recorded now b c cs h =
    elim (Bool-cases (
      leb b.threshold
        (length (recent now b.window (times_of (lookup (c ∷ cs) b.counts)) ++ (now ∷ []))))) [
          | inl e ↦ rw e (
              lookup-insert (c ∷ cs) (c ∷ cs) (now + b.duration) b.blocked
              ∙ rw (eqb_refl (c ∷ cs)) refl)
          | inr e ↦ absurd (true≢false (sym h ∙ rw e refl))
        ]

is_before-some :
    (now : ℕ) (o : Option ℕ)
    → is_before now o ≡ true
    → (until : ℕ) × (o ≡ some until) × (now < until)
unfolding is_before
is_before-some now none h = absurd (true≢false (sym h))
is_before-some now (some until) h = (until, refl, ltb→lt now until h)

blocks_until :
    (until : ℕ) (b : Blacklist) (c : ℕ) (cs : Bytes)
    → lookup (c ∷ cs) b.blocked ≡ some until
    → (p t : ℕ) → p ≤ t
    → t < until
    → (is_blocked p t (some b) (c ∷ cs)).0 ≡ true
blocks_until until b c cs h p t le lt =
    ap (λ (r : Bool × Option Blacklist). r.0) (still_blocked p t until b c cs h le lt)

abbrev pair : Bool → Blacklist → Bool × Option Blacklist
pair r b = (r, some b)

pair-injective : (r r' : Bool) (b b' : Blacklist) → pair r b ≡ pair r' b' → (r ≡ r') × (b ≡ b')
pair-injective r r' b b' h = (
  ap (λ (x : Bool × Option Blacklist). x.0) h,
  some-injective _ _ (ap (λ (x : Bool × Option Blacklist). x.1) h),
)

-- The end of a block: the one that stands in the list and lasts past `tested`, or a new one.
abbrev pub EndOfBlock : ℕ → ℕ → Blacklist → Bytes → ℕ → Type 0
EndOfBlock tested now b ip until =
    ((lookup ip b.blocked ≡ some until) × (tested < until)) ⊎ (until ≡ now + b.duration)

-- An address that `RecordProbe` reports as blocked is in the list that it leaves, with the end of
-- its block: the one that the purged list had and that lasts past the clock reading `tested`, or
-- `now` and the configured duration. Every `IsBlocked` on that list whose clock goes forward and
-- has not reached the end says that the address is blocked, whatever it purges.
pub record_probe-blocks :
    (purged tested now : ℕ) (b b' : Blacklist) (c : ℕ) (cs : Bytes)
    → record_probe purged tested now (some b) (c ∷ cs) ≡ (true, some b')
    → (until : ℕ) × (lookup (c ∷ cs) b'.blocked ≡ some until)
      × EndOfBlock tested now (purge_expired_locked purged b) (c ∷ cs) until
      × ((p t : ℕ) → p ≤ t → t < until → (is_blocked p t (some b') (c ∷ cs)).0 ≡ true)
unfolding record_probe is_before purge_expired_locked with_maps
record_probe-blocks purged tested now b b' c cs h =
    let b₀ : Blacklist = purge_expired_locked purged b in
    elim (Bool-cases (is_before tested (lookup (c ∷ cs) b₀.blocked))) [
      | inl e ↦
          let (until, found, lt) = is_before-some tested (lookup (c ∷ cs) b₀.blocked) e in
          let same : b₀ ≡ b' = (pair-injective true true b₀ b' (sym (rw (e) refl) ∙ h)).1 in
          let kept : lookup (c ∷ cs) b'.blocked ≡ some until =
            subst (λ (x : Blacklist). lookup (c ∷ cs) x.blocked ≡ some until) same found in
          (until, kept, inl (found, lt), blocks_until until b' c cs kept)
      | inr e ↦
          let both =
            pair-injective (record_locked now b₀ (c ∷ cs)).0 true (record_locked now b₀ (c ∷ cs)).1
              b' (sym (rw (e) refl) ∙ h) in
          let kept : lookup (c ∷ cs) b'.blocked ≡ some (now + b.duration) =
            subst (λ (x : Blacklist). lookup (c ∷ cs) x.blocked ≡ some (now + b.duration)) both.1
              (recorded now b₀ c cs both.0) in
          (now + b.duration, kept, inr refl, blocks_until (now + b.duration) b' c cs kept)
    ]
