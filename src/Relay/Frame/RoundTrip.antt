-- ===== src/Relay/Frame/RoundTrip.antt =====
-- The peer reads what was written.
use phantom_proxy.Common.{
  ℕ, zero, suc, ◌+◌, ◌%◌, ◌^◌, ◌≤◌, ◌<◌, ◌≡◌, refl, sym, ap, ◌∙◌, ◌≢◌, ◌⊎◌, inl, inr, Bool, false,
  ◌||◌, Option, none, some, List, [], ◌∷◌, ◌++◌, append-nil, append_assoc, arith, ltb, leb, le→ltb,
  Option-cases, length, length-append, take, drop, take-append-drop, length-take, length-drop,
}
use mathlib.Core.Option.{some-injective}
use native.Mathlib.Nat.{zero-add}
use phantom_proxy.Common.Bytes.{
  Bytes, All, zeros, take_all, take_front, drop_front, flatten, be32, be64, from_be32-be32,
  from_be32,
}
use phantom_proxy.Common.Result.{Result, ok, err, eof, read_full, read_full_exact, read_full_end}
use phantom_proxy.Relay.Frame.{
  Aead, IsAead, FrameWriter, FrameReader, FrameError, stream_ended, frame_nonce, packet, next_frame,
  read_loop, read, write,
}
use phantom_proxy.Relay.Frame.Write.{IsPayload, packets, Written, write-Sends}

module _ (a : Aead) (laws : IsAead a) where
  next_frame-packet :
      (key : Bytes) (n : ℕ) (p rest : Bytes)
      → length p ≤ 65504
      → next_frame a key (packet a key n p ++ rest) ≡ ok (p, rest)
  unfolding next_frame
  next_frame-packet key n p rest h =
      let nonce = frame_nonce n in
      let ct = a.seal key nonce p in
      let sealed = nonce ++ ct in
      let twelve : 12 ≡ length nonce = unfold frame_nonce zeros be64 be32 in refl in
      let size : length sealed ≡ length p + 28 =
        omega (arith, length-append nonce ct, laws.length-seal key nonce p) in
      let announced : from_be32 (be32 (length sealed)) ≡ length sealed =
        ap from_be32 (sym (append-nil (be32 (length sealed))))
        ∙ from_be32-be32 (length sealed) [] (omega arith) in
      let header : read_full 4 (packet a key n p ++ rest)
          ≡ ok (be32 (length sealed), sealed ++ rest) =
        unfold be32 in read_full_exact (be32 (length sealed)) (sealed ++ rest) in
      let sane : (leb (length sealed) 0 || ltb 65536 (length sealed)) ≡ false = ground arith in
      let long : ltb (length sealed) 12 ≡ false = le→ltb (length sealed) 12 (omega arith) in
      rw (header, next_frame, announced)
        (rw sane (
          rw (read_full_exact sealed rest) (
            rw (long, take_front 12 nonce ct twelve, drop_front 12 nonce ct twelve)
              (rw (laws.open-seal key nonce p)))))

  -- One frame at least stands in the buffer or in the stream: the next bytes come from the front.
  pub record Delivers (buf : Bytes) (ps : List Bytes) (xs : Bytes) (key : Bytes) (r : FrameReader)
      : Type 0 where
    pub later : List Bytes
    pub counter : ℕ
    pub sizes : All IsPayload later
    pub key_lem : r.key ≡ key
    pub input_lem : r.input ≡ flatten (packets a key counter later)
    pub splits : buf ++ flatten ps ≡ xs ++ (r.rbuf ++ flatten later)
    pub shrinks : length r.rbuf + length (flatten later) < length buf + length (flatten ps)

  abbrev ReadOf :
      Bytes → Bytes → List Bytes → Option (Result FrameError (Bytes × FrameReader)) → Type 0
  ReadOf key buf ps o =
      ((o ≡ some (err (stream_ended eof))) × (buf ++ flatten ps ≡ []))
      ⊎ ((xs : Bytes) × (r : FrameReader) × (o ≡ some (ok (xs, r))) × Delivers buf ps xs key r)

  take_buf :
      (fuel n k : ℕ) (key : Bytes) (x : ℕ) (buf : Bytes) (ps : List Bytes)
      → 0 < n
      → All IsPayload ps
      → ReadOf key (x ∷ buf) ps (
          read_loop a
            (suc fuel)
            n
            (record { key = key; rbuf = x ∷ buf; input = flatten (packets a key k ps) }))
  unfolding read_loop
  take_buf fuel n k key x buf ps h s = inr (
    take n (x ∷ buf),
    record { key = key; rbuf = drop n (x ∷ buf); input = flatten (packets a key k ps) },
    ground arith,
    record {
      later = ps;
      counter = k;
      sizes = s;
      key_lem = refl;
      input_lem = refl;
      splits = rw (← append_assoc (take n (x ∷ buf)), take-append-drop n (x ∷ buf));
      shrinks = omega (arith, length-drop n (x ∷ buf));
    },
  )

  next_frame_end : (key : Bytes) → next_frame a key [] ≡ err (stream_ended eof)
  unfolding next_frame
  next_frame_end key = rw (read_full_end 4 (omega arith), next_frame)

  skip_frame :
      (fuel n k : ℕ) (key p : Bytes) (ps : List Bytes)
      → length p ≤ 65504
      → read_loop a
          (suc fuel)
          n
          (record { key = key; rbuf = []; input = flatten (packets a key k (p ∷ ps)) })
        ≡ read_loop a fuel n
            (record { key = key; rbuf = p; input = flatten (packets a key ((k + 1) % 2 ^ 64) ps) })
  unfolding read_loop
  skip_frame fuel n k key p ps h = rw (
    next_frame-packet key ((k + 1) % 2 ^ 64) p (flatten (packets a key ((k + 1) % 2 ^ 64) ps)) h,
    read_loop,
  )

  read_loop-ReadOf :
      (fuel n k : ℕ) (key buf : Bytes) (ps : List Bytes)
      → 0 < n
      → All IsPayload ps
      → ReadOf key buf ps (
          read_loop a
            (suc (suc fuel))
            n
            (record { key = key; rbuf = buf; input = flatten (packets a key k ps) }))
  read_loop-ReadOf fuel n k key (x ∷ buf) ps h s = take_buf (suc fuel) n k key x buf ps h s
  read_loop-ReadOf fuel n k key [] [] h s =
      inl (unfold read_loop in rw (next_frame_end key, read_loop), refl)
  read_loop-ReadOf fuel n k key [] ([] ∷ ps) h s = absurd (omega arith)
  read_loop-ReadOf fuel n k key [] ((x ∷ p) ∷ ps) h s =
      elim (take_buf fuel n ((k + 1) % 2 ^ 64) key x p ps h s.1) [
        | inl (e, z) ↦ cc
        | inr (xs, r, e, d) ↦ inr (
          xs,
          r,
          skip_frame (suc fuel) n k key (x ∷ p) ps s.0.1 ∙ e,
          record {
            later = d.later;
            counter = d.counter;
            sizes = d.sizes;
            key_lem = d.key_lem;
            input_lem = d.input_lem;
            splits = d.splits;
            shrinks = omega (arith, d.shrinks, length-append p (flatten ps));
          },
        )
      ]

  -- What `io.Copy` gathers with a buffer of `n` bytes, and the error that ends it.
  pub drain : ℕ → ℕ → FrameReader → Option (Bytes × FrameError)
  drain zero n c = none
  drain (suc fuel) n c = elim (read a n c) [
    | none ↦ none
    | some (err e) ↦ some ([], e)
    | some (ok (xs, c')) ↦ elim (drain fuel n c') [
      | none ↦ none
      | some (ys, e) ↦ some (xs ++ ys, e)
    ]
  ]

  read-ReadOf :
      (n k : ℕ) (ps : List Bytes) (r : FrameReader)
      → 0 < n
      → All IsPayload ps
      → r.input ≡ flatten (packets a r.key k ps)
      → ReadOf r.key r.rbuf ps (read a n r)
  unfolding read
  read-ReadOf n k ps r h s i =
      let two : length r.input + 2 ≡ suc (suc (length r.input)) = omega arith in
      rw two (rw (← i) at (read_loop-ReadOf (length r.input) n k r.key r.rbuf ps h s))

  drain_lem :
      (fuel n k : ℕ) (ps : List Bytes) (r : FrameReader)
      → 0 < n
      → All IsPayload ps
      → r.input ≡ flatten (packets a r.key k ps)
      → length r.rbuf + length (flatten ps) < fuel
      → drain fuel n r ≡ some (r.rbuf ++ flatten ps, stream_ended eof)
  unfolding drain
  drain_lem zero n k ps r h s i f = absurd (omega arith)
  drain_lem (suc fuel) n k ps r h s i f = elim (read-ReadOf n k ps r h s i) [
    | inl (e, z) ↦ rw (e, drain) (ap (λ l. some (l, stream_ended eof)) (sym z))
    | inr (xs, r', e, d) ↦
        rw (e, drain)
          (rw
            (drain_lem fuel n d.counter d.later r' h d.sizes
              (d.input_lem
                ∙ ap (λ (key : Bytes). flatten (packets a key d.counter d.later)) (sym d.key_lem))
              (omega (arith, d.shrinks)))
            (ap (λ l. some (l, stream_ended eof)) (sym d.splits)))
  ]

  -- A peer with the same key that reads the packets of a new connection to their end, with any
  -- buffer, gets the bytes that `Write` reported as written, the front of `b`; and all of `b` if
  -- it reported no error. It needs no more rounds than there are bytes.
  pub drain_frames-write :
      (works : ℕ → Bool) (c c' : FrameWriter) (b : Bytes) (n total : ℕ) (e : Option FrameError)
      → c.sent ≡ []
      → 0 < n
      → write a works c b ≡ some (c', total, e)
      → (drain (suc (length b)) n (record { key = c.key; rbuf = []; input = flatten c'.sent })
          ≡ some (take total b, stream_ended eof))
        × ((e ≢ none) ⊎ (take total b ≡ b))
  drain_frames-write works c c' b n total e fresh hn ran =
      let (r, ran', s) = write-Sends a works c b in
      let same : r ≡ (c', total, e) = some-injective _ _ (sym ran' ∙ ran) in
      let sent_is : c'.sent ≡ packets a c.key c.nonce s.payloads =
        ap (λ (q : Written). q.0.sent) (sym same) ∙ s.sent_lem ∙ rw fresh refl in
      let reported : total ≡ s.count =
        ap (λ (q : Written). q.1) (sym same) ∙ s.total_lem ∙ zero-add s.count in
      (
        drain_lem (suc (length b)) n c.nonce s.payloads _ hn s.sizes (ap flatten sent_is)
              (omega (arith, ap length s.carried, length-take s.count b))
            ∙ ap (λ l. some (l, stream_ended eof))
                (s.carried ∙ ap (λ (m : ℕ). take m b) (sym reported)),
        elim (Option-cases e) [
          | inr (x, g) ↦ inl (λ z. cc)
          | inl g ↦
              inr
                (take_all total b (omega (arith, s.complete (ap (λ (q : Written). q.2) same ∙ g))))
        ],
      )
