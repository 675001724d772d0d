-- ===== src/MiddleProxy/Frame/Shrinks.antt =====
-- A frame that is read takes bytes off the stream. About: read_frame, read_body, read_data.
use phantom_proxy.Common.{
  ℕ, ◌+◌, ◌-◌, ◌%◌, ◌^◌, ◌≤◌, ◌<◌, ◌≡◌, ap, inl, inr, Bool, true, false, not, ◌||◌, [], ◌∷◌, arith,
  ltb, leb, ◌==◌, if◌then◌else◌, length, length-append,
}
use phantom_proxy.Common.Bytes.{Bytes, from_le32}
use phantom_proxy.Common.Result.{Result, ok, err, read_full, read_full_splits, Result-cases}
use phantom_proxy.MiddleProxy.Frame.{
  FrameError, read_data, read_body, read_frame, unexpected_seq_no, bad_frame_len,
}

-- What is left behind a frame is shorter than `n`.
unfoldable pub Shrinks : ℕ → Result FrameError (Bytes × Bytes) → Type 0
Shrinks n (err e) = Unit
Shrinks n (ok (frame, rest)) = length rest < n

weaken-Shrinks :
    (m n : ℕ) (r : Result FrameError (Bytes × Bytes)) → m ≤ n → Shrinks m r → Shrinks n r
unfolding Shrinks
weaken-Shrinks m n (err e) le h = tt
weaken-Shrinks m n (ok (frame, rest)) le h = omega (arith, le, h)

left_of :
    (n : ℕ) (input got rest : Bytes)
    → read_full n input ≡ ok (got, rest)
    → length rest ≤ length input
left_of n input got rest h =
    let (e, k) = read_full_splits n input got rest h in
    omega (arith, ap length e, length-append got rest)

read_data-Shrinks : (n : ℕ) (input : Bytes) → Shrinks (length input + 1) (read_data n input)
unfolding Shrinks read_data
read_data-Shrinks n input = elim (Result-cases (read_full n input)) [
  | inr (e, h) ↦ rw (h, read_data) tt
  | inl ((msg, rest), h) ↦ elim (Result-cases (read_full 4 rest)) [
    | inr (e, k) ↦ rw (h, read_data) (rw k tt)
    | inl ((checksum, left), k) ↦
        let a = left_of n input msg rest h in
        let b = left_of 4 rest checksum left k in rw (h, read_data) (rw k (omega (arith, a, b)))
  ]
]

if-Shrinks :
    (n : ℕ) (b : Bool) (p q : ℕ × Result FrameError (Bytes × Bytes))
    → Shrinks n p.1
    → Shrinks n q.1
    → Shrinks n (if b then p else q).1
if-Shrinks n true p q h k = h
if-Shrinks n false p q h k = k

read_body-Shrinks :
    (seq_no msg_len : ℕ) (input : Bytes)
    → Shrinks (length input + 1) (read_body seq_no msg_len input).1
unfolding Shrinks read_body
read_body-Shrinks seq_no msg_len input = elim (Result-cases (read_full 4 input)) [
  | inr (e, h) ↦ rw (h, read_body) tt
  | inl ((seq_bytes, rest), h) ↦
      let le = left_of 4 input seq_bytes rest h in
      let body = read_data-Shrinks (msg_len - 12) rest in
      rw (h, read_body)
        (if-Shrinks (length input + 1) (not (from_le32 seq_bytes == seq_no))
          (seq_no, err unexpected_seq_no)
          (if leb (2 ^ 31) msg_len || ltb msg_len 12
            then ((seq_no + 1) % 2 ^ 32, err bad_frame_len)
            else ((seq_no + 1) % 2 ^ 32, read_data (msg_len - 12) rest))
          tt
          (if-Shrinks (length input + 1) (leb (2 ^ 31) msg_len || ltb msg_len 12)
            ((seq_no + 1) % 2 ^ 32, err bad_frame_len)
            ((seq_no + 1) % 2 ^ 32, read_data (msg_len - 12) rest) tt
            (weaken-Shrinks (length rest + 1) (length input + 1) (read_data (msg_len - 12) rest)
              (omega (arith, le)) body)))
]

-- Behind a frame that is read the stream is shorter than before.
pub read_frame-Shrinks :
    (seq_no : ℕ) (input : Bytes) → Shrinks (length input) (read_frame seq_no input).1
unfolding Shrinks read_frame
read_frame-Shrinks seq_no [] = tt
read_frame-Shrinks seq_no (a ∷ []) = tt
read_frame-Shrinks seq_no (a ∷ b ∷ []) = tt
read_frame-Shrinks seq_no (a ∷ b ∷ c ∷ []) = tt
read_frame-Shrinks seq_no (a ∷ b ∷ c ∷ d ∷ input) =
    let msg_len = from_le32 (a ∷ b ∷ c ∷ d ∷ []) in
    let n = length (a ∷ b ∷ c ∷ d ∷ input) in
    if-Shrinks n (msg_len == 4) (read_frame seq_no input) (read_body seq_no msg_len input)
      (weaken-Shrinks (length input) n (read_frame seq_no input).1 (omega arith)
        (read_frame-Shrinks seq_no input))
      (weaken-Shrinks (length input + 1) n (read_body seq_no msg_len input).1 (omega arith)
        (read_body-Shrinks seq_no msg_len input))
