-- ===== src/FakeTls/Policy.antt =====
-- internal/faketls/client.go and record.go: the sizes of outgoing TLS records.
-- Go's `int` is ℤ where a configuration sets it; lengths are numbers.
pub mod Bounds
use phantom_proxy.Common.{ℕ, ◌+◌, ◌-◌, Bool, ltb, if◌then◌else◌}
use phantom_proxy.Common.Int.{ℤ, pos, pos_part, ◌-ℤ◌, ◌+ℤ◌, ltb_ℤ, leb_ℤ, is_not_pos}
use phantom_proxy.FakeTls.Random.{Rand, rand_int}

abbrev pub max_record_payload : ℕ
max_record_payload = 16384

pub record RecordPolicy : Type 0 where
  pub min_chunk : ℤ
  pub max_chunk : ℤ
  pub enable_drs : Bool
  pub enable_split_tls : Bool
  pub record_jitter_ms : ℤ
  pub decoy_permille : ℤ

pub normalize : RecordPolicy → RecordPolicy
normalize p =
    let low = if is_not_pos p.min_chunk then pos 512 else p.min_chunk in
    let high = if is_not_pos p.max_chunk then pos 4096 else p.max_chunk in
    let capped = if ltb_ℤ (pos max_record_payload) high then pos max_record_payload else high in
    record p { min_chunk = if ltb_ℤ capped low then capped else low; max_chunk = capped }

module _ (rnd : Rand) where
  -- The number `k` counts the calls of `randInt`.
  pub chunk_size : ℕ → RecordPolicy → ℕ → ℕ
  chunk_size k policy remaining =
      let p = normalize policy in
      let span = pos_part (p.max_chunk -ℤ p.min_chunk +ℤ pos 1) in
      let drawn = pos_part p.min_chunk + rand_int rnd k span in
      let size = if ltb remaining drawn then remaining else drawn in
      if leb_ℤ (pos remaining) p.min_chunk
      then remaining
      else if ltb max_record_payload size
      then max_record_payload
      else size

  pub chunk_size_with_max : ℕ → RecordPolicy → ℕ → ℤ → ℕ
  chunk_size_with_max k policy remaining max_chunk =
      let p = normalize policy in
      let size = chunk_size k p remaining in
      if leb_ℤ (pos remaining) p.min_chunk
      then remaining
      else if ltb_ℤ max_chunk (pos size)
      then pos_part max_chunk
      else size
