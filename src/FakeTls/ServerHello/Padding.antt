-- ===== src/FakeTls/ServerHello/Padding.antt =====
-- The size of the padding behind a ServerHello. About: padding_len.
use phantom_proxy.Common.{
  ℕ, ◌+◌, ◌*◌, ◌≤◌, ◌<◌, ◌≡◌, inl, inr, false, arith, if◌then◌else◌, Bool-cases,
}
use phantom_proxy.Common.Int.{ℤ, pos, negsuc, pos_part, is_not_pos, ◌-ℤ◌, ◌+ℤ◌, ltb_ℤ}
use phantom_proxy.FakeTls.Random.{Rand, rand_int, rand_int-lt}
use phantom_proxy.FakeTls.ServerHello.{NoiseParams, padding_len}

-- A draw below `2 * j` around the mean.
around_bounds :
    (n : NoiseParams) (j r : ℕ)
    → 0 < j
    → r < 2 * j
    → is_not_pos n.mean ≡ false
    → let size = n.mean -ℤ pos j +ℤ pos r in pos_part size < pos_part n.mean + j
unfolding ◌-ℤ◌ ◌+ℤ◌
around_bounds n j r h k e = ground arith

clamped :
    (size : ℤ) (m j n : ℕ)
    → pos_part size < m + j
    → j ≤ 512 + n
    → let len = if ltb_ℤ size (pos 1000) then 1000 else pos_part size in
      (1000 ≤ len) × (len < 4096 + (m + n))
clamped (pos p) m j n h k = ground arith
clamped (negsuc p) m j n h k = ground arith

-- The padding has 1000 bytes or more, and less than 4096 or the mean and the jitter together.
pub padding_len_bounds :
    (rnd : Rand) (k : ℕ) (n : NoiseParams)
    → (1000 ≤ padding_len rnd k n)
      × (padding_len rnd k n < 4096 + (pos_part n.mean + pos_part n.jitter))
unfolding padding_len
padding_len_bounds rnd k n =
    let j = if is_not_pos n.jitter then 512 else pos_part n.jitter in
    let a = rand_int-lt rnd k 3072 (omega arith) in
    elim (Bool-cases (is_not_pos n.mean)) [
      | inl e ↦ rw e (omega (arith, a), omega (arith, a))
      | inr e ↦
          let b =
            around_bounds n j (rand_int rnd k (2 * j)) (ground arith)
              (rand_int-lt rnd k (2 * j) (ground arith)) e in
          rw e (
            clamped (n.mean -ℤ pos j +ℤ pos (rand_int rnd k (2 * j))) (pos_part n.mean) j
              (pos_part n.jitter) b (ground arith))
    ]
