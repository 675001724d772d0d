-- ===== src/FakeTls/Rotator.antt =====
-- internal/faketls/server_hello.go and sni.go: the rotators, which pick a profile or a host by a
-- strategy. A clock reads nanoseconds and is monotonic; `now` and `later` are the readings of one
-- call. A result `none` is the panic of an index out of range.
pub mod Bounds
pub mod Steps
pub mod Adaptive
use phantom_proxy.Common.{
  ℕ, suc, ◌+◌, ◌-◌, ◌*◌, ◌%◌, ◌^◌, Bool, not, Option, none, some, List, [], ◌∷◌, leb, ◌==◌,
  if◌then◌else◌, length, get_elem?,
}
use phantom_proxy.Common.Int.{ℤ, pos, pos_part, is_not_pos, signed64, leb_ℤ}
use phantom_proxy.Common.Bytes.{Bytes, codes, eqb}
use phantom_proxy.Common.Text.{trim_space}
use phantom_proxy.FakeTls.Random.{Rand, rand_int}

abbrev pub per_connection : Bytes
per_connection = codes "per_connection"

abbrev pub time_based : Bytes
time_based = codes "time_based"

abbrev pub adaptive : Bytes
adaptive = codes "adaptive"

pub record Rotator {ℓ} (A : Type ℓ) : Type ℓ where
  pub pool : List A
  pub strategy : Bytes
  pub interval : ℤ
  pub adaptive_threshold : ℕ
  pub current_idx : ℕ
  pub last_rotate : ℕ
  pub failures : ℕ

-- `x <= 0` gives the default.
abbrev pub or_default : ℤ → ℕ → ℕ
or_default x d = if is_not_pos x then d else pos_part x

-- `time.Duration(sec) * time.Second`, an int64.
unfoldable pub seconds : ℕ → ℤ
seconds n = signed64 (n * 10 ^ 9 % 2 ^ 64)

abbrev pub or_per_connection : Bytes → Bytes
or_per_connection s = if eqb s [] then per_connection else s

module _ {ℓ} {A : Type ℓ} where
  unfoldable pub new_rotator : List A → Bytes → ℤ → ℤ → ℕ → Rotator A
  new_rotator pool strategy interval_sec threshold now = record {
    pool = pool;
    strategy = or_per_connection strategy;
    interval = seconds (or_default interval_sec 300);
    adaptive_threshold = or_default threshold 20;
    current_idx = 0;
    last_rotate = now;
    failures = 0;
  }

  -- `time.Since(r.lastRotate) >= r.interval`
  unfoldable pub is_due : Rotator A → ℕ → Bool
  is_due r now = leb_ℤ r.interval (pos (now - r.last_rotate))

  unfoldable pub advance : Rotator A → ℕ → Rotator A
  advance r later = record r {
    current_idx = (r.current_idx + 1) % length r.pool;
    last_rotate = later;
  }

  abbrev found : Rotator A → Option A → Option (A × Rotator A)
  found r none = none
  found r (some a) = some (a, r)

  -- `r.pool[i]`, and the rotator.
  unfoldable pub at_index : Rotator A → ℕ → Option (A × Rotator A)
  at_index r i = found r (get_elem? r.pool i)

  -- A missing rotator records nothing. Only the adaptive strategy counts.
  unfoldable pub record_failure : Rotator A → ℕ → Rotator A
  record_failure r now =
      let counted = record r { failures = r.failures + 1 } in
      if not (eqb r.strategy adaptive)
      then r
      else if leb r.adaptive_threshold (r.failures + 1)
      then record (advance counted now) { failures = 0 }
      else counted

  unfoldable pub record_success : Rotator A → Rotator A
  record_success r = if not (eqb r.strategy adaptive) then r else record r { failures = 0 }

module _ {ℓ} {A : Type ℓ} (rnd : Rand) where
  -- `Pick` with a pool that has members; `k` counts the calls of `randInt`.
  unfoldable pub pick : ℕ → ℕ → ℕ → Rotator A → Option (A × Rotator A)
  pick k now later r =
      let turned = if is_due r now then advance r later else r in
      if eqb r.strategy time_based
      then at_index turned turned.current_idx
      else if eqb r.strategy adaptive
      then at_index r r.current_idx
      else at_index r (rand_int rnd k (length r.pool))

-- The `Pick` of the three rotators: without a rotator, or with an empty pool, the default.
abbrev kept {ℓ} : {A : Type ℓ} → Option (A × Rotator A) → Option (A × Option (Rotator A))
kept none = none
kept (some (a, r)) = some (a, some r)

module _ {ℓ} {A : Type ℓ} (rnd : Rand) where
  unfoldable pub pick_or : A → ℕ → ℕ → ℕ → Option (Rotator A) → Option (A × Option (Rotator A))
  pick_or default k now later none = some (default, none)
  pick_or default k now later (some r) =
      if length r.pool == 0 then some (default, some r) else kept (pick rnd k now later r)

abbrev pub default_profiles : List Bytes
default_profiles = codes "chrome" ∷ codes "firefox" ∷ codes "edge" ∷ codes "safari" ∷ []

unfoldable pub new_server_hello_rotator : List Bytes → Bytes → ℤ → ℤ → ℕ → Rotator Bytes
new_server_hello_rotator names strategy interval_sec threshold now =
    new_rotator (if length names == 0 then default_profiles else names) strategy interval_sec
      threshold now

-- The hosts without the blanks around them, and without those that are blank.
unfoldable pub clean_hosts : List Bytes → List Bytes
clean_hosts [] = []
clean_hosts (host ∷ hosts) =
    let rest = clean_hosts hosts in
    if eqb (trim_space host) [] then rest else trim_space host ∷ rest

abbrev if_any : List Bytes → Rotator Bytes → Option (Rotator Bytes)
if_any [] r = none
if_any (_ ∷ _) r = some r

-- The rotator of hosts has no adaptive strategy and counts no failures. Its `Pick` treats
-- "adaptive" as any unknown strategy.
unfoldable pub new_sni_rotator : List Bytes → Bytes → ℤ → ℕ → Option (Rotator Bytes)
new_sni_rotator pool strategy interval_sec now =
    if_any (clean_hosts pool) (new_rotator (clean_hosts pool) strategy interval_sec (pos 1) now)

module _ (rnd : Rand) where
  -- `none` is the panic of an index out of range.
  unfoldable pub pick_host :
      Bytes → ℕ → ℕ → ℕ → Option (Rotator Bytes) → Option (Bytes × Option (Rotator Bytes))
  pick_host fallback k now later none = some (fallback, none)
  pick_host fallback k now later (some r) =
      let turned = if is_due r now then advance r later else r in
      if length r.pool == 0
      then some (fallback, some r)
      else if eqb r.strategy time_based
      then kept (at_index turned turned.current_idx)
      else kept (at_index r (rand_int rnd k (length r.pool)))
