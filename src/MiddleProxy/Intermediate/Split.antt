-- ===== src/MiddleProxy/Intermediate/Split.antt =====
-- `Write` takes the client's stream apart into the payloads that the client framed.
use phantom_proxy.Common.{
  if◌then◌else◌, Bool, Option, Bool-cases, inl, inr, ℕ, zero, suc, ◌+◌, ◌*◌, ◌%◌, ◌^◌, ◌≤◌, ◌<◌,
  ◌≡◌, refl, ap, ◌∙◌, true, false, ◌||◌, none, some, List, [], ◌∷◌, ◌++◌, append_assoc, arith, ltb,
  ◌==◌, le→ltb, ==_iff, length, length-append, take, drop,
}
use phantom_proxy.Common.Bytes.{Bytes, All, le32, from_le32, from_le32-le32, take_front, drop_front}
use phantom_proxy.Common.Result.{ok}
use phantom_proxy.MiddleProxy.Intermediate.{
  next_padded_intermediate, after, write_loop, write, frame, Written, IntermediateError,
  write_failed, max_intermediate_len,
}

-- A payload that the transport allows: whole words, not empty, at most 1 MiB.
unfoldable pub IsPayload : Bytes → Type 0
IsPayload p = (length p % 4 ≡ 0) × (0 < length p) × (length p ≤ 2 ^ 20)

unfoldable pub frames : List Bytes → Bytes
frames [] = []
frames (p ∷ ps) = frame p ++ frames ps

next_frame :
    (p rest : Bytes)
    → IsPayload p
    → next_padded_intermediate (frame p ++ rest) ≡ ok (some (p, rest))
unfolding next_padded_intermediate frame IsPayload
next_frame p rest h =
    let l : Bytes = le32 (length p % 2 ^ 32) in
    let whole : frame p ++ rest ≡ l ++ (p ++ rest) = simp append_assoc in
    let n : from_le32 (frame p ++ rest) % 2 ^ 31 ≡ length p =
      ap (λ (b : Bytes). from_le32 b % 2 ^ 31) whole
      ∙ ap (λ (k : ℕ). k % 2 ^ 31) (from_le32-le32 (length p % 2 ^ 32) (p ++ rest) (omega arith))
      ∙ omega (arith, h.2) in
    let l4 : 4 ≡ length l = unfold le32 in refl in
    let len : length (frame p ++ rest) ≡ 4 + length p + length rest =
      omega (arith, ap length whole, length-append l (p ++ rest), length-append p rest, l4) in
    let t1 : ltb (length (frame p ++ rest)) 4 ≡ false = le→ltb _ 4 (omega (arith, len)) in
    let t2 : (length p == 0 || ltb max_intermediate_len (length p)) ≡ false =
      ground (arith, h.1, h.2) in
    let t3 : ltb (length (frame p ++ rest)) (4 + length p) ≡ false =
      le→ltb _ _ (omega (arith, len)) in
    let d4 : drop 4 (frame p ++ rest) ≡ p ++ rest =
      ap (drop 4) whole ∙ drop_front 4 l (p ++ rest) l4 in
    let x : take (length p) (drop 4 (frame p ++ rest)) ≡ p =
      ap (take (length p)) d4 ∙ take_front (length p) p rest refl in
    let y : drop (4 + length p) (frame p ++ rest) ≡ rest =
      drop_front (4 + length p) (frame p) rest (omega (arith, length-append l p, l4)) in
    rw (n) (rw (t1, t2, t3, x, y) refl)

-- The payloads up to the first write that fails, and those from there on.
unfoldable pub split_at_failure : (ℕ → Bool) → ℕ → List Bytes → List Bytes × List Bytes
split_at_failure works k [] = ([], [])
split_at_failure works k (p ∷ ps) =
    let (sent, left) = split_at_failure works (k + 1) ps in
    if works k then (p ∷ sent, left) else ([], p ∷ ps)

abbrev pub failure_of : List Bytes → Option IntermediateError
failure_of [] = none
failure_of (p ∷ ps) = some write_failed

abbrev pub count_of : ℕ → List Bytes → ℕ
count_of orig [] = orig
count_of orig (p ∷ ps) = 0

-- What is to be written, in front of `tail`, with `k` writes behind it.
abbrev pub written_of : (ℕ → Bool) → ℕ → ℕ → List Bytes → Bytes → Written
written_of works orig k ps tail =
    let (sent, left) = split_at_failure works k ps in
    record {
      payloads = sent;
      wbuf = frames left ++ tail;
      error = failure_of left;
      count = count_of orig left;
    }

write_loop_frames :
    (works : ℕ → Bool) (orig k fuel : ℕ) (ps : List Bytes) (tail : Bytes)
    → length ps < fuel
    → All IsPayload ps
    → next_padded_intermediate tail ≡ ok none
    → write_loop works orig k fuel (frames ps ++ tail) ≡ written_of works orig k ps tail
unfolding write_loop frames after IsPayload split_at_failure
write_loop_frames works orig k zero ps tail hf h ht = absurd (omega (arith, hf))
write_loop_frames works orig k (suc fuel) [] tail hf h ht = rw (ht, write_loop) refl
write_loop_frames works orig k (suc fuel) (p ∷ ps) tail hf h ht =
    let rest = write_loop_frames works orig (k + 1) fuel ps tail (omega (arith, hf)) h.1 ht in
    let words : (length p % 4 == 0) ≡ true = (==_iff (length p % 4) 0).1 h.0.0 in
    let shape : (frame p ++ frames ps) ++ tail ≡ frame p ++ (frames ps ++ tail) =
      simp append_assoc in
    elim (Bool-cases (works k)) [
      | inl w ↦
          rw (w, shape)
            (rw (next_frame p (frames ps ++ tail) h.0, write_loop) (rw (words, w, rest) refl))
      | inr w ↦
          rw (w, shape) (rw (next_frame p (frames ps ++ tail) h.0, write_loop) (rw (words, w) refl))
    ]

length-frames_le : (ps : List Bytes) → 4 * length ps ≤ length (frames ps)
unfolding frames frame le32
length-frames_le [] = omega arith
length-frames_le (p ∷ ps) = omega (
  arith,
  length-append (frame p) (frames ps),
  length-append (le32 (length p % 2 ^ 32)) p,
  length-frames_le ps,
)

-- However the client's stream is cut into writes: a write that brings the buffer to some whole
-- frames, each with a payload of whole words that is not empty and at most 1 MiB, and an unfinished
-- frame hands on exactly the payloads, in order, up to the first write below that fails. Where none
-- fails it reports all bytes as written and keeps the unfinished rest; else it reports the error
-- and none, and keeps the frames from the failed one on.
pub write-frames :
    (works : ℕ → Bool) (ps : List Bytes) (tail wbuf : Bytes) (c : ℕ) (cs : Bytes)
    → All IsPayload ps
    → next_padded_intermediate tail ≡ ok none
    → wbuf ++ (c ∷ cs) ≡ frames ps ++ tail
    → write works wbuf (c ∷ cs) ≡ written_of works (length (c ∷ cs)) 0 ps tail
unfolding write
write-frames works ps tail wbuf c cs h ht e =
    let some_bytes : 1 ≤ length (wbuf ++ (c ∷ cs)) = omega (arith, length-append wbuf (c ∷ cs)) in
    let enough : length ps < length (wbuf ++ (c ∷ cs)) =
      omega (arith, some_bytes, ap length e, length-append (frames ps) tail, length-frames_le ps) in
    ap (write_loop works (length (c ∷ cs)) 0 (length (wbuf ++ (c ∷ cs)))) e
    ∙ write_loop_frames works (length (c ∷ cs)) 0 _ ps tail enough h ht
