-- ===== src/FakeTls/Record/Read.antt =====
-- What `Read` returns on a stream of whole records.
use phantom_proxy.Common.{
  ℕ, zero, suc, ◌+◌, ◌^◌, ◌≤◌, ◌<◌, ◌≡◌, refl, sym, ap, ◌⊎◌, inl, inr, false, Option, none, some,
  List, [], ◌∷◌, ◌++◌, append_assoc, arith, ◌==◌, if◌then◌else◌, Bool-cases, length, length-append,
  take, drop, take-append-drop, length-take, length-drop,
}
use phantom_proxy.Common.Bytes.{Bytes, All, be16, from_be16-be16}
use phantom_proxy.Common.Result.{Result, ok, err, ReadError, eof, read_full_exact, read_full_end}
use phantom_proxy.FakeTls.Record.{
  Reader, to_record, record_application_data, next_record, read_loop, read,
}

-- A record: its type and payload.
abbrev pub Frame : Type 0
Frame = ℕ × Bytes

abbrev pub IsFrame : Frame → Type 0
IsFrame f = length f.1 < 2 ^ 16

abbrev pub encode : List Frame → Bytes
encode [] = []
encode ((t, p) ∷ fs) = to_record t p ++ encode fs

-- The payload bytes of application data records, in order.
unfoldable pub app_bytes : List Frame → Bytes
app_bytes [] = []
app_bytes ((t, p) ∷ fs) = (if t == record_application_data then p else []) ++ app_bytes fs

next_record-to_record :
    (t : ℕ) (p rest : Bytes)
    → length p < 2 ^ 16
    → next_record (to_record t p ++ rest) ≡ ok (t, p, rest)
unfolding next_record to_record be16
next_record-to_record t p rest h =
    rw
      (
        read_full_exact (t ∷ 0x03 ∷ 0x03 ∷ be16 (length p)) (p ++ rest),
        from_be16-be16 (length p) [] h,
      )
      (rw (read_full_exact p rest))

next_record_end : next_record [] ≡ err eof
unfolding next_record
next_record_end = rw (read_full_end 5 (omega arith))

length-encode_ge : (fs : List Frame) → length fs ≤ length (encode fs)
unfolding to_record
length-encode_ge [] = omega arith
length-encode_ge ((t, p) ∷ fs) =
    omega (arith, length-encode_ge fs, length-append (be16 (length p) ++ p) (encode fs))

-- `n` bytes at most come from the front; what is left holds the rest, and the measure falls.
pub record Delivers (buf : Bytes) (fs : List Frame) (n : ℕ) (xs : Bytes) (r : Reader) : Type 0 where
  pub frames : List Frame
  pub are_frames : All IsFrame frames
  pub input_lem : r.input ≡ encode frames
  pub splits : buf ++ app_bytes fs ≡ xs ++ (r.read_buf ++ app_bytes frames)
  pub fits : length xs ≤ n
  pub shrinks :
      length r.read_buf + length (app_bytes frames) + length frames
      < length buf + length (app_bytes fs) + length fs

abbrev pub ReadOf : Bytes → List Frame → ℕ → Option (Result ReadError (Bytes × Reader)) → Type 0
ReadOf buf fs n o =
    ((o ≡ some (err eof)) × (buf ++ app_bytes fs ≡ []))
    ⊎ ((xs : Bytes) × (r : Reader) × (o ≡ some (ok (xs, r))) × Delivers buf fs n xs r)

Delivers-skip :
    (t : ℕ) (p : Bytes) (fs : List Frame) (n : ℕ) (xs : Bytes) (r : Reader)
    → (t == record_application_data) ≡ false
    → Delivers [] fs n xs r
    → Delivers [] ((t, p) ∷ fs) n xs r
unfolding app_bytes
Delivers-skip t p fs n xs r h d = record {
  frames = d.frames;
  are_frames = d.are_frames;
  input_lem = d.input_lem;
  splits = rw h d.splits;
  fits = d.fits;
  shrinks = rw h (omega (arith, d.shrinks));
}

read_loop-ReadOf :
    (fuel n : ℕ) (fs : List Frame)
    → All IsFrame fs
    → length fs < fuel
    → ReadOf [] fs n (read_loop fuel n (encode fs))
unfolding read_loop
read_loop-ReadOf zero n fs h f = absurd (omega arith)
read_loop-ReadOf (suc fuel) n [] h f =
    inl (rw (next_record_end, read_loop), unfold app_bytes in refl)
read_loop-ReadOf (suc fuel) n ((t, p) ∷ fs) (hp, h) f =
    elim (Bool-cases (t == record_application_data)) [
      | inl app ↦ inr (
        take n p,
        record { read_buf = drop n p; input = encode fs },
        rw (next_record-to_record t p (encode fs) hp, read_loop, app),
        record {
          frames = fs;
          are_frames = h;
          input_lem = refl;
          splits =
              unfold app_bytes in rw app (rw (← append_assoc (take n p), take-append-drop n p));
          fits = omega (arith, length-take n p);
          shrinks =
              unfold app_bytes in
              rw app (omega (arith, length-drop n p, length-append p (app_bytes fs)));
        },
      )
      | inr other ↦ elim (read_loop-ReadOf fuel n fs h (omega arith)) [
        | inl (e, z) ↦ inl (
          rw (next_record-to_record t p (encode fs) hp, read_loop, other) e,
          unfold app_bytes in rw other z,
        )
        | inr (xs, r, e, d) ↦ inr (
          xs,
          r,
          rw (next_record-to_record t p (encode fs) hp, read_loop, other) e,
          Delivers-skip t p fs n xs r other d,
        )
      ]
    ]

-- One `Read` into a buffer of `n > 0` bytes: at the end of the stream `io.EOF`, and only if no
-- application data is left; otherwise the next bytes of the application data, in order.
pub read-ReadOf :
    (n : ℕ) (buf : Bytes) (fs : List Frame)
    → 0 < n
    → All IsFrame fs
    → ReadOf buf fs n (read n (record { read_buf = buf; input = encode fs }))
unfolding read
read-ReadOf n [] fs h a = read_loop-ReadOf _ n fs a (omega (arith, length-encode_ge fs))
read-ReadOf n (x ∷ buf) fs h a = inr (
  take n (x ∷ buf),
  record { read_buf = drop n (x ∷ buf); input = encode fs },
  ground arith,
  record {
    frames = fs;
    are_frames = a;
    input_lem = refl;
    splits = rw (← append_assoc (take n (x ∷ buf)), take-append-drop n (x ∷ buf));
    fits = omega (arith, length-take n (x ∷ buf));
    shrinks = omega (arith, length-drop n (x ∷ buf));
  },
)

-- What `io.Copy` gathers from a reader, with its buffer of `n` bytes, and the error that ends it.
pub drain : ℕ → ℕ → Reader → Option (Bytes × ReadError)
drain zero n r = none
drain (suc fuel) n r = elim (read n r) [
  | none ↦ none
  | some (err e) ↦ some ([], e)
  | some (ok (xs, r')) ↦ elim (drain fuel n r') [ none ↦ none | some (ys, e) ↦ some (xs ++ ys, e) ]
]

pub drain_lem :
    (fuel n : ℕ) (r : Reader) (fs : List Frame)
    → 0 < n
    → All IsFrame fs
    → r.input ≡ encode fs
    → length r.read_buf + length (app_bytes fs) + length fs < fuel
    → drain fuel n r ≡ some (r.read_buf ++ app_bytes fs, eof)
unfolding drain
drain_lem zero n r fs hn a i f = absurd (omega arith)
drain_lem (suc fuel) n r fs hn a i f = elim (rw (← i) at (read-ReadOf n r.read_buf fs hn a)) [
  | inl (e, z) ↦ rw (e, drain) (ap (λ l. some (l, eof)) (sym z))
  | inr (xs, r', e, d) ↦
      rw (e, drain)
        (rw (drain_lem fuel n r' d.frames hn d.are_frames d.input_lem (omega (arith, d.shrinks)))
          (ap (λ l. some (l, eof)) (sym d.splits)))
]
