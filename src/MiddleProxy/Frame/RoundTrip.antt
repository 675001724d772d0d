-- ===== src/MiddleProxy/Frame/RoundTrip.antt =====
-- A reader gets the frames that a writer sends, and padding is skipped.
use phantom_proxy.Common.{
  ℕ, zero, suc, ◌+◌, ◌-◌, ◌*◌, ◌/◌, ◌%◌, ◌^◌, ◌≤◌, ◌<◌, ◌≡◌, refl, sym, ap, ◌∙◌, inl, inr, true,
  false, ◌||◌, List, [], ◌∷◌, ◌++◌, append-nil, append_assoc, arith, ltb, leb, ◌==◌, ==_iff,
  Bool-cases, length, length-append,
}
use phantom_proxy.Common.Bytes.{Bytes, All, le32, from_le32, from_le32-le32}
use phantom_proxy.Common.Result.{Result, ok, err, read_full, read_full_exact}
use phantom_proxy.MiddleProxy.Frame.{
  aligned_cipher_read_size, is_writable, fill, frame_padding, frame_body, write_frame, FrameError,
  read_data, read_body, read_frame, crc32_ieee,
}

length-le32 : (n : ℕ) → length (le32 n) ≡ 4
unfolding le32
length-le32 n = refl

length-fill : (n : ℕ) → length (fill n) ≡ n
unfolding fill
length-fill zero = refl
length-fill (suc zero) = refl
length-fill (suc (suc zero)) = refl
length-fill (suc (suc (suc zero))) = refl
length-fill (suc (suc (suc (suc n)))) = omega (arith, length-fill n)

length-full :
    (seq_no : ℕ) (msg tail : Bytes)
    → length (frame_body seq_no msg ++ (le32 (crc32_ieee (frame_body seq_no msg)) ++ tail))
      ≡ length msg + 12 + length tail
unfolding frame_body le32
length-full seq_no msg tail =
    let n : ℕ = (length msg + 12) % 2 ^ 32 in
    let c : Bytes = le32 (crc32_ieee (frame_body seq_no msg)) in
    omega (
      arith,
      length-append (le32 n ++ (le32 seq_no ++ msg)) (c ++ tail),
      length-append c tail,
      length-append (le32 n) (le32 seq_no ++ msg),
      length-append (le32 seq_no) msg,
    )

length-frame :
    (seq_no : ℕ) (msg : Bytes)
    → length (frame_body seq_no msg ++ le32 (crc32_ieee (frame_body seq_no msg))) ≡ length msg + 12
length-frame seq_no msg =
    ap (λ (l : Bytes). length (frame_body seq_no msg ++ l))
      (sym (append-nil (le32 (crc32_ieee (frame_body seq_no msg)))))
    ∙ omega (arith, length-full seq_no msg [])

length-frame_padding : (n : ℕ) → (n + length (frame_padding n)) % 16 ≡ 0
unfolding frame_padding
length-frame_padding n = elim (Bool-cases (n % 16 == 0)) [
  | inl e ↦ rw e (let z : n % 16 ≡ 0 = (==_iff (n % 16) 0).0 e in omega (arith, z))
  | inr e ↦ rw e (omega (arith, length-fill (16 - n % 16)))
]

read_size_bounds :
    (need : ℕ)
    → (aligned_cipher_read_size need % 16 ≡ 0)
      × (need ≤ aligned_cipher_read_size need)
      × (aligned_cipher_read_size need ≤ need + 16)
unfolding aligned_cipher_read_size
read_size_bounds zero = (refl, omega arith, omega arith)
read_size_bounds (suc n) = elim (Bool-cases (suc n % 16 == 0)) [
  | inl e ↦
      rw e (let z : suc n % 16 ≡ 0 = (==_iff (suc n % 16) 0).0 e in (z, omega arith, omega arith))
  | inr e ↦ rw e (omega arith, omega arith, omega arith)
]

-- Whatever is written by `writeFrame` is a whole number of cipher blocks, so `cbcConn.Write` takes
-- it; and `ensurePlain` reads whole blocks, at least the bytes it needs and at most 16 more.
pub write_frame-is_writable :
    (seq_no need : ℕ) (msg : Bytes)
    → (is_writable (write_frame seq_no msg) ≡ true)
      × (aligned_cipher_read_size need % 16 ≡ 0)
      × (need ≤ aligned_cipher_read_size need)
      × (aligned_cipher_read_size need ≤ need + 16)
unfolding is_writable write_frame
write_frame-is_writable seq_no need msg =
    let full : Bytes = frame_body seq_no msg ++ le32 (crc32_ieee (frame_body seq_no msg)) in
    let whole : length (write_frame seq_no msg) % 16 ≡ 0 = omega (
      arith,
      length-append full (frame_padding (length full)),
      length-frame_padding (length full),
    ) in
    let r = read_size_bounds need in
    ((==_iff (length (write_frame seq_no msg) % 16) 0).1 whole, r.0, r.1, r.2)

-- `k` filler words.
words : ℕ → Bytes
words zero = []
words (suc k) = 4 ∷ 0 ∷ 0 ∷ 0 ∷ words k

fill-words : (n k : ℕ) → n ≡ 4 * k → fill n ≡ words k
unfolding fill words
fill-words zero zero e = refl
fill-words zero (suc k) e = absurd (omega (arith, e))
fill-words (suc zero) k e = absurd (omega (arith, e))
fill-words (suc (suc zero)) k e = absurd (omega (arith, e))
fill-words (suc (suc (suc zero))) k e = absurd (omega (arith, e))
fill-words (suc (suc (suc (suc n)))) zero e = absurd (omega (arith, e))
fill-words (suc (suc (suc (suc n)))) (suc k) e = rw (fill-words n k (omega (arith, e))) refl

skip_words :
    (k seq_no : ℕ) (input : Bytes) → read_frame seq_no (words k ++ input) ≡ read_frame seq_no input
unfolding read_frame words from_le32
skip_words zero seq_no input = refl
skip_words (suc k) seq_no input = skip_words k seq_no input

read_frame_word :
    (seq_no n : ℕ) (input : Bytes)
    → n < 2 ^ 32
    → 4 < n
    → read_frame seq_no (le32 n ++ input) ≡ read_body seq_no n input
unfolding read_frame le32
read_frame_word seq_no n input h h4 =
    let word : from_le32 (le32 n) ≡ n =
      ap from_le32 (sym (append-nil (le32 n))) ∙ from_le32-le32 n [] h in
    let other : (n == 4) ≡ false = ground (arith, h4) in rw (word) (rw (other) refl)

read_full_word : (n : ℕ) (input : Bytes) → read_full 4 (le32 n ++ input) ≡ ok (le32 n, input)
unfolding le32
read_full_word n input = read_full_exact (le32 n) input

read_body_frame :
    (seq_no c : ℕ) (msg rest : Bytes)
    → seq_no < 2 ^ 32
    → length msg + 12 < 2 ^ 31
    → read_body seq_no (length msg + 12) (le32 seq_no ++ (msg ++ (le32 c ++ rest)))
      ≡ ((seq_no + 1) % 2 ^ 32, ok (msg, rest))
unfolding read_body read_data
read_body_frame seq_no c msg rest hs hm =
    let word : from_le32 (le32 seq_no) ≡ seq_no =
      ap from_le32 (sym (append-nil (le32 seq_no))) ∙ from_le32-le32 seq_no [] hs in
    let n : length msg + 12 - 12 ≡ length msg = omega arith in
    let same : (seq_no == seq_no) ≡ true = ground arith in
    let small : (leb (2 ^ 31) (length msg + 12) || ltb (length msg + 12) 12) ≡ false =
      ground (arith, hm) in
    rw (read_full_word seq_no (msg ++ (le32 c ++ rest)), read_body)
      (rw (word, same, small, n)
        (rw (read_full_exact msg (le32 c ++ rest), read_data)
          (rw (read_full_word c rest, read_data) refl)))

-- Padding words in front of a frame do not matter: the reader gets the payload, its sequence
-- number moves on, and the padding behind the frame is left in the stream.
read_frame-write_frame :
    (k seq_no : ℕ) (msg rest : Bytes)
    → seq_no < 2 ^ 32
    → length msg + 12 < 2 ^ 31
    → read_frame seq_no (words k ++ (write_frame seq_no msg ++ rest))
      ≡ ((seq_no + 1) % 2 ^ 32, ok (msg, frame_padding (length msg + 12) ++ rest))
unfolding write_frame frame_body
read_frame-write_frame k seq_no msg rest hs hm =
    let n : (length msg + 12) % 2 ^ 32 ≡ length msg + 12 = omega (arith, hm) in
    let c : ℕ = crc32_ieee (frame_body seq_no msg) in
    let pad : Bytes = frame_padding (length msg + 12) in
    let shape : write_frame seq_no msg ++ rest
        ≡ le32 (length msg + 12) ++ (le32 seq_no ++ (msg ++ (le32 c ++ (pad ++ rest)))) =
      rw (length-frame seq_no msg, n) (simp append_assoc) in
    skip_words k seq_no (write_frame seq_no msg ++ rest)
    ∙ ap (read_frame seq_no) shape
    ∙ read_frame_word seq_no (length msg + 12) _ (omega (arith, hm)) (omega arith)
    ∙ read_body_frame seq_no c msg (pad ++ rest) hs hm

padding_words : (n : ℕ) → n % 4 ≡ 0 → (k : ℕ) × (frame_padding n ≡ words k)
unfolding frame_padding
padding_words n h = elim (Bool-cases (n % 16 == 0)) [
  | inl e ↦ (0, rw e (unfold words in refl))
  | inr e ↦
      ((16 - n % 16) / 4, rw e (fill-words (16 - n % 16) ((16 - n % 16) / 4) (omega (arith, h))))
]

-- What a writer sends for these messages, from sequence number `seq_no` on.
pub write_frames : ℕ → List Bytes → Bytes
write_frames seq_no [] = []
write_frames seq_no (msg ∷ msgs) =
    write_frame seq_no msg ++ write_frames ((seq_no + 1) % 2 ^ 32) msgs

read_next :
    (ℕ → Bytes → Result FrameError (List Bytes))
    → ℕ × Result FrameError (Bytes × Bytes)
    → Result FrameError (List Bytes)
read_next more (seq_no, err e) = err e
read_next more (seq_no, ok (msg, rest)) = elim (more seq_no rest) [
  | err e ↦ err e
  | ok msgs ↦ ok (msg ∷ msgs)
]

-- The payloads of the next `n` frames.
pub read_frames : ℕ → ℕ → Bytes → Result FrameError (List Bytes)
unfolding read_next
read_frames zero seq_no input = ok []
read_frames (suc n) seq_no input = read_next (read_frames n) (read_frame seq_no input)

-- A payload of whole words that fits a frame.
unfoldable pub IsPayload : Bytes → Type 0
IsPayload msg = (length msg % 4 ≡ 0) × (length msg + 12 < 2 ^ 31)

read_behind :
    (k seq_no : ℕ) (msgs : List Bytes)
    → seq_no < 2 ^ 32
    → All IsPayload msgs
    → read_frames (length msgs) seq_no (words k ++ write_frames seq_no msgs) ≡ ok msgs
unfolding read_frames read_next write_frames IsPayload
read_behind k seq_no [] hs h = refl
read_behind k seq_no (msg ∷ msgs) hs h =
    let next : ℕ = (seq_no + 1) % 2 ^ 32 in
    let pad = padding_words (length msg + 12) (omega (arith, h.0.0)) in
    let step = read_frame-write_frame k seq_no msg (write_frames next msgs) hs h.0.1 in
    let rest : read_frames (length msgs) next
          (frame_padding (length msg + 12) ++ write_frames next msgs)
        ≡ ok msgs =
      ap (λ (l : Bytes). read_frames (length msgs) next (l ++ write_frames next msgs)) pad.1
      ∙ read_behind pad.0 next msgs (omega arith) h.1 in
    ap (read_next (read_frames (length msgs))) step ∙ rw (rest, read_next) refl

-- The reader's end of a connection gets the messages that the writer's end frames, in order and
-- whole, over the whole range of sequence numbers: the padding between the frames is skipped. The
-- messages are whole words, as `sendPayload` demands.
pub read_frames-write_frames :
    (seq_no : ℕ) (msgs : List Bytes)
    → seq_no < 2 ^ 32
    → All IsPayload msgs
    → read_frames (length msgs) seq_no (write_frames seq_no msgs) ≡ ok msgs
unfolding words
read_frames-write_frames seq_no msgs hs h = read_behind 0 seq_no msgs hs h
