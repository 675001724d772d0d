-- ===== src/MiddleProxy/Frame.antt =====
-- internal/middleproxy/crypto.go: frames on the plaintext that `cbcConn` carries. The stream a
-- reader sees is the bytes up to its end; a sequence number is the pattern of Go's int32.
pub mod RoundTrip
pub mod Shrinks
use Prim.Native.Nat.{bit_xor}
use phantom_proxy.Common.{
  ℕ, zero, suc, ◌+◌, ◌-◌, ◌/◌, ◌%◌, ◌^◌, Bool, not, ◌||◌, [], ◌∷◌, ◌++◌, ltb, leb, ◌==◌,
  if◌then◌else◌, length,
}
use phantom_proxy.Common.Bytes.{Bytes, le32, from_le32}
use phantom_proxy.Common.Result.{Result, ok, err, read_full}

abbrev pub cbc_block_size : ℕ
cbc_block_size = 16

-- The bytes of ciphertext that `ensurePlain` reads for `need` bytes of plaintext.
pub aligned_cipher_read_size : ℕ → ℕ
aligned_cipher_read_size zero = cbc_block_size
aligned_cipher_read_size (suc n) =
    let need = suc n in
    let r = need % cbc_block_size in if r == 0 then need else need + (cbc_block_size - r)

-- The test at the head of `cbcConn.Write`.
pub is_writable : Bytes → Bool
is_writable p = length p % cbc_block_size == 0

-- One turn of the inner loop of `crc32IEEE`, and its eight turns.
crc_step : ℕ → ℕ
crc_step crc = if crc % 2 == 0 then crc / 2 else bit_xor (crc / 2) 0xedb88320

crc_steps : ℕ → ℕ → ℕ
crc_steps zero crc = crc
crc_steps (suc n) crc = crc_steps n (crc_step crc)

crc_loop : ℕ → Bytes → ℕ
crc_loop crc [] = crc
crc_loop crc (b ∷ bs) = crc_loop (crc_steps 8 (bit_xor crc b)) bs

pub crc32_ieee : Bytes → ℕ
crc32_ieee bs = bit_xor (crc_loop 0xffffffff bs) 0xffffffff

-- `pad` bytes of the filler word; the last word is cut off.
pub fill : ℕ → Bytes
fill zero = []
fill (suc zero) = 4 ∷ []
fill (suc (suc zero)) = 4 ∷ 0 ∷ []
fill (suc (suc (suc zero))) = 4 ∷ 0 ∷ 0 ∷ []
fill (suc (suc (suc (suc n)))) = 4 ∷ 0 ∷ 0 ∷ 0 ∷ fill n

pub frame_padding : ℕ → Bytes
frame_padding n = if n % cbc_block_size == 0 then [] else fill (cbc_block_size - n % cbc_block_size)

-- The bytes in front of the checksum.
pub frame_body : ℕ → Bytes → Bytes
frame_body seq_no msg = le32 ((length msg + 12) % 2 ^ 32) ++ (le32 seq_no ++ msg)

-- What `writeFrame` writes.
pub write_frame : ℕ → Bytes → Bytes
write_frame seq_no msg =
    let full = frame_body seq_no msg ++ le32 (crc32_ieee (frame_body seq_no msg)) in
    full ++ frame_padding (length full)

pub data FrameError : Type 0 where
  end_of_stream unexpected_seq_no bad_frame_len : FrameError

-- The payload and the checksum, which is read but not compared.
pub read_data : ℕ → Bytes → Result FrameError (Bytes × Bytes)
read_data n input = elim (read_full n input) [
  | err e ↦ err end_of_stream
  | ok (msg, rest) ↦ elim (read_full 4 rest) [
    | err e ↦ err end_of_stream
    | ok (checksum, left) ↦ ok (msg, left)
  ]
]

-- `readFrame` behind a length word that is not 4. The reader's sequence number moves before the
-- length is tested.
pub read_body : ℕ → ℕ → Bytes → ℕ × Result FrameError (Bytes × Bytes)
unfolding read_data
read_body seq_no msg_len input = elim (read_full 4 input) [
  | err e ↦ (seq_no, err end_of_stream)
  | ok (seq_bytes, rest) ↦
      if not (from_le32 seq_bytes == seq_no)
      then (seq_no, err unexpected_seq_no)
      else if leb (2 ^ 31) msg_len || ltb msg_len 12
      then ((seq_no + 1) % 2 ^ 32, err bad_frame_len)
      else ((seq_no + 1) % 2 ^ 32, read_data (msg_len - 12) rest)
]

-- `readFrame`: the reader's next sequence number, and the payload with what is left of the stream.
pub read_frame : ℕ → Bytes → ℕ × Result FrameError (Bytes × Bytes)
unfolding read_body
read_frame seq_no (a ∷ b ∷ c ∷ d ∷ input) =
    let next = read_frame seq_no input in
    let msg_len = from_le32 (a ∷ b ∷ c ∷ d ∷ []) in
    if msg_len == 4 then next else read_body seq_no msg_len input
read_frame seq_no _ = (seq_no, err end_of_stream)
