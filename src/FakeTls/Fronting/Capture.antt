-- ===== src/FakeTls/Fronting/Capture.antt =====
-- Splicing after a rejected handshake loses nothing. About: new_recorder, prepend, read,
-- recorder_snapshot.
use phantom_proxy.Common.{
  ◌≤◌, ◌⊎◌, subst, length-append, ℕ, suc, min, ◌≡◌, refl, sym, ap, ◌∙◌, inl, inr, false, List, [],
  ◌∷◌, ◌++◌, append-nil, append_assoc, arith, ltb, ◌==◌, Bool-cases, length, take, drop,
  take-append-drop,
}
use phantom_proxy.Common.Bytes.{Bytes}
use phantom_proxy.FakeTls.Fronting.{
  ReadRecorder, new_recorder, read, read_all, prepend, recorder_snapshot, splice,
}

empty_of : (xs : Bytes) → ltb 0 (length xs) ≡ false → xs ≡ []
empty_of [] h = refl
empty_of (x ∷ xs) h = absurd (ground (arith, h))

-- What was captured is what was delivered and what is pending.
step :
    (n given : ℕ) (r : ReadRecorder) (before : Bytes)
    → r.capture ≡ before ++ r.pending
    → let (got, s) = read n given r in
      (s.capture ≡ (before ++ got) ++ s.pending) × (s.capture ++ s.conn ≡ r.capture ++ r.conn)
unfolding read
step n given r before h = elim (Bool-cases (ltb 0 (length r.pending))) [
  | inl e ↦ rw e (
    h
        ∙ ap (λ x. before ++ x) (sym (take-append-drop n r.pending))
        ∙ sym (append_assoc before (take n r.pending) (drop n r.pending)),
    refl,
  )
  | inr e ↦
      rw e
        let got = take (min n given) r.conn in
          let gone = empty_of r.pending e in
          let caught = h ∙ ap (λ x. before ++ x) gone ∙ append-nil before in
          (
            ap (λ x. x ++ got) caught
                ∙ sym (append-nil (before ++ got))
                ∙ ap (λ x. (before ++ got) ++ x) (sym gone),
            append_assoc r.capture got (drop (min n given) r.conn)
                ∙ ap (λ x. r.capture ++ x) (take-append-drop (min n given) r.conn),
          )
]

reads :
    (es : List (ℕ × ℕ)) (r : ReadRecorder) (before : Bytes)
    → r.capture ≡ before ++ r.pending
    → let (got, s) = read_all es r in
      (s.capture ≡ (before ++ got) ++ s.pending) × (s.capture ++ s.conn ≡ r.capture ++ r.conn)
unfolding read_all
reads [] r before h = (h ∙ ap (λ x. x ++ r.pending) (sym (append-nil before)), refl)
reads ((n, given) ∷ es) r before h =
    let (got, s) = read n given r in
    let (rest, t) = read_all es s in
    let (a, b) = step n given r before h in
    let (c, d) = reads es s (before ++ got) a in
    (c ∙ ap (λ x. x ++ t.pending) (append_assoc before got rest), d ∙ b)

nonzero : (n : ℕ) → (suc n == 0) ≡ false
nonzero n = ground arith

put_back :
    (first conn : Bytes)
    → let r = prepend first (new_recorder conn) in
      (r.capture ≡ r.pending) × (r.capture ++ r.conn ≡ first ++ conn)
unfolding prepend
put_back [] conn = (refl, refl)
put_back (x ∷ xs) conn = rw (nonzero (length xs)) (refl, refl)

drained : (es : List (ℕ × ℕ)) (r : ReadRecorder) → r.pending ≡ [] → (read_all es r).1.pending ≡ []
unfolding read_all read
drained [] r h = h
drained ((n, given) ∷ es) r h =
    drained es (read n given r).1 (rw (ap (λ (p : Bytes). ltb 0 (length p)) h) h)

-- Bytes that were put back are delivered before any other.
Waits : Bytes → Bytes → ReadRecorder → Type 0
Waits first before r = (r.pending ≡ []) ⊎ (before ++ r.pending ≡ first)

step-Waits :
    (n given : ℕ) (first before : Bytes) (r : ReadRecorder)
    → Waits first before r
    → Waits first (before ++ (read n given r).0) (read n given r).1
unfolding Waits read
step-Waits n given first before r (inl h) = inl (rw (ap (λ (p : Bytes). ltb 0 (length p)) h) h)
step-Waits n given first before r (inr h) = elim (Bool-cases (ltb 0 (length r.pending))) [
  | inl e ↦ rw e (
      inr (
        append_assoc before (take n r.pending) (drop n r.pending)
        ∙ ap (λ x. before ++ x) (take-append-drop n r.pending)
        ∙ h))
  | inr e ↦ rw e (inl (empty_of r.pending e))
]

reads-Waits :
    (es : List (ℕ × ℕ)) (first before : Bytes) (r : ReadRecorder)
    → Waits first before r
    → Waits first (before ++ (read_all es r).0) (read_all es r).1
unfolding Waits read_all
reads-Waits [] first before r h = subst (λ b. Waits first b r) (sym (append-nil before)) h
reads-Waits ((n, given) ∷ es) first before r h =
    let s = (read n given r).1 in
    subst (λ b. Waits first b (read_all es s).1)
      (append_assoc before (read n given r).0 (read_all es s).0)
      (reads-Waits es first (before ++ (read n given r).0) s (step-Waits n given first before r h))

nothing_left : (a b first : Bytes) → a ++ b ≡ first → length first ≤ length a → b ≡ []
nothing_left a b first h le = empty_of b (ground (arith, ap length h, length-append a b, le))

put_back-Waits : (first conn : Bytes) → Waits first [] (prepend first (new_recorder conn))
unfolding Waits prepend
put_back-Waits [] conn = inl refl
put_back-Waits (x ∷ xs) conn = rw (nonzero (length xs)) (inr refl)

-- After reads of any sizes that have delivered at least as many bytes as were put back, a splice
-- loses nothing and repeats nothing: what it sends to the host and what the connection still holds
-- are together the bytes of the client, from the first one on.
pub splice_loses_nothing :
    (es copy : List (ℕ × ℕ)) (first conn : Bytes)
    → length first ≤ length (read_all es (prepend first (new_recorder conn))).0
    → let (sent, t) = splice copy (read_all es (prepend first (new_recorder conn))).1 in
      (sent ++ t.conn ≡ first ++ conn) × (t.pending ≡ [])
unfolding splice recorder_snapshot Waits
splice_loses_nothing es copy first conn le =
    let r = prepend first (new_recorder conn) in
    let got : Bytes = (read_all es r).0 in
    let s : ReadRecorder = (read_all es r).1 in
    let t : ReadRecorder = (read_all copy s).1 in
    let copied : Bytes = (read_all copy s).0 in
    let gone : s.pending ≡ [] = elim (reads-Waits es first [] r (put_back-Waits first conn)) [
      | inl h ↦ h
      | inr h ↦ nothing_left got s.pending first h le
    ] in
    let (a, b) = put_back first conn in
    let (c, d) = reads es r [] a in
    let (e, f) = reads copy s got c in
    let all_out : t.pending ≡ [] = drained copy s gone in
    let taken : s.capture ≡ got = c ∙ ap (λ x. got ++ x) gone ∙ append-nil got in
    let sent : s.capture ++ copied ≡ t.capture =
      ap (λ x. x ++ copied) taken
      ∙ sym (append-nil (got ++ copied))
      ∙ ap (λ x. (got ++ copied) ++ x) (sym all_out)
      ∙ sym e in
    (ap (λ x. x ++ t.conn) sent ∙ f ∙ d ∙ b, all_out)
