-- ===== src/FakeTls/Policy/Bounds.antt =====
-- The bounds of `Normalize` and of the chunk sizes.
use phantom_proxy.Common.{ℕ, ◌≤◌, ◌<◌, ◌≡◌, arith}
use phantom_proxy.Common.Int.{ℤ, pos, ◌≤ℤ◌}
use phantom_proxy.FakeTls.Random.{Rand}
use phantom_proxy.FakeTls.Policy.{
  RecordPolicy, max_record_payload, normalize, chunk_size, chunk_size_with_max,
}

-- What `Normalize` establishes, whatever the configuration holds.
pub record IsNormal (p : RecordPolicy) : Type 0 where
  pub min_pos : pos 1 ≤ℤ p.min_chunk
  pub min_le_max : p.min_chunk ≤ℤ p.max_chunk
  pub max_le : p.max_chunk ≤ℤ pos max_record_payload

-- `Normalize` gives a policy whose chunk bounds are in order, from 1 to 16384, whatever the
-- configuration holds.
pub normalize-IsNormal : (p : RecordPolicy) → IsNormal (normalize p)
unfolding normalize
normalize-IsNormal p = ground arith

pub normalize_id : (p : RecordPolicy) → IsNormal p → normalize p ≡ p
unfolding normalize
normalize_id p h = ground arith

module _ (rnd : Rand) (k : ℕ) (p : RecordPolicy) (remaining : ℕ) where
  chunk_size_bounds :
      IsNormal p
      → 0 < remaining
      → (1 ≤ chunk_size rnd k p remaining)
        × (chunk_size rnd k p remaining ≤ remaining)
        × (chunk_size rnd k p remaining ≤ max_record_payload)
  unfolding chunk_size
  chunk_size_bounds h r = rw (normalize_id p h) (ground arith)

  -- A chunk size is at least 1, at most what remains and at most 16384. The policy is normal, and
  -- the caller's maximum lies in the same range.
  pub chunk_size_with_max_bounds :
      (max_chunk : ℤ)
      → IsNormal p
      → 0 < remaining
      → pos 1 ≤ℤ max_chunk
      → max_chunk ≤ℤ pos max_record_payload
      → (1 ≤ chunk_size_with_max rnd k p remaining max_chunk)
        × (chunk_size_with_max rnd k p remaining max_chunk ≤ remaining)
        × (chunk_size_with_max rnd k p remaining max_chunk ≤ max_record_payload)
  unfolding chunk_size_with_max
  chunk_size_with_max_bounds max_chunk h r lo hi =
      rw (normalize_id p h) (ground (arith, chunk_size_bounds h r))
