-- ===== src/Relay/Frame/Write.antt =====
-- What `Write` puts on the wire.
use phantom_proxy.Common.{
  ℕ, zero, suc, ◌+◌, ◌%◌, ◌^◌, ◌≤◌, ◌≡◌, refl, sym, ap, ◌∙◌, ◌⊎◌, inl, inr, Bool, Option, none,
  some, List, [], ◌∷◌, ◌++◌, append-nil, append_assoc, arith, ltb, if◌then◌else◌, ltb→lt,
  Bool-cases, length, take, drop, length-take, length-drop,
}
use mathlib.Core.Path.{ap₂}
use phantom_proxy.Common.Bytes.{Bytes, All, take-add, take_all, flatten}
use phantom_proxy.Relay.Frame.{
  Aead, FrameWriter, FrameError, conn_failed, packet, write_frame_locked, write_loop, write,
}

abbrev pub IsPayload : Bytes → Type 0
IsPayload p = (1 ≤ length p) × (length p ≤ 65504)

-- The packets of some payloads, with consecutive counters behind `n`.
abbrev pub packets : Aead → Bytes → ℕ → List Bytes → List Bytes
packets a key n [] = []
packets a key n (p ∷ ps) = packet a key ((n + 1) % 2 ^ 64) p ∷ packets a key ((n + 1) % 2 ^ 64) ps

abbrev pub Written : Type 0
Written = FrameWriter × ℕ × Option FrameError

pub record Sends (a : Aead) (c : FrameWriter) (b : Bytes) (total : ℕ) (r : Written) : Type 0 where
  pub payloads : List Bytes
  pub count : ℕ
  pub sent_lem : r.0.sent ≡ c.sent ++ packets a c.key c.nonce payloads
  pub sizes : All IsPayload payloads
  pub carried : flatten payloads ≡ take count b
  pub count_le : count ≤ length b
  pub total_lem : r.1 ≡ total + count
  pub complete : r.2 ≡ none → count ≡ length b

module _ (a : Aead) (works : ℕ → Bool) where
  Sends-nil :
      (c : FrameWriter) (b : Bytes) (total : ℕ) (r : Written)
      → r.0.sent ≡ c.sent
      → r.1 ≡ total
      → (r.2 ≡ none → length b ≡ 0)
      → Sends a c b total r
  Sends-nil c b total r s t done = record {
    payloads = [];
    count = 0;
    sent_lem = rw append-nil s;
    sizes = tt;
    carried = refl;
    count_le = omega arith;
    total_lem = omega arith;
    complete = λ h. sym (done h);
  }

  Sends-cons :
      (c c' : FrameWriter) (b chunk : Bytes) (total : ℕ) (r : Written)
      → chunk ≡ take (length chunk) b
      → IsPayload chunk
      → length chunk ≤ length b
      → c'.key ≡ c.key
      → c'.nonce ≡ (c.nonce + 1) % 2 ^ 64
      → c'.sent ≡ c.sent ++ (packet a c.key ((c.nonce + 1) % 2 ^ 64) chunk ∷ [])
      → Sends a c' (drop (length chunk) b) (total + length chunk) r
      → Sends a c b total r
  Sends-cons c c' b chunk total r front size fits k n e s = record {
    payloads = chunk ∷ s.payloads;
    count = length chunk + s.count;
    sent_lem =
        s.sent_lem
        ∙ ap₂ ◌++◌ e (ap₂ (λ key m. packets a key m s.payloads) k n)
        ∙ append_assoc c.sent _ _;
    sizes = (size, s.sizes);
    carried = ap₂ ◌++◌ front s.carried ∙ take-add (length chunk) s.count b;
    count_le = omega (arith, length-drop (length chunk) b, s.count_le);
    total_lem = omega (arith, s.total_lem);
    complete = λ h. omega (arith, s.complete h, length-drop (length chunk) b);
  }

  chunk_of : Bytes → Bytes
  chunk_of b = if ltb 65504 (length b) then take 65504 b else b

  chunk_of_lem :
      (b : Bytes)
      → 1 ≤ length b
      → (chunk_of b ≡ take (length (chunk_of b)) b)
        × IsPayload (chunk_of b)
        × (length (chunk_of b) ≤ length b)
  unfolding chunk_of
  chunk_of_lem b h = elim (Bool-cases (ltb 65504 (length b))) [
    | inl long ↦
        let k : length (take 65504 b) ≡ 65504 =
          omega (arith, length-take 65504 b, ltb→lt 65504 (length b) long) in
        rw long (
          ap (λ (n : ℕ). take n b) (sym k),
          (omega arith, omega arith),
          omega (arith, length-take 65504 b),
        )
    | inr short ↦
        rw short
          (sym (take_all (length b) b (omega arith)), (omega arith, ground arith), omega arith)
  ]

  abbrev Stepped : FrameWriter → Bytes → FrameWriter × Option FrameError → Type 0
  Stepped c chunk r =
      (r.0.key ≡ c.key)
      × (r.0.nonce ≡ (c.nonce + 1) % 2 ^ 64)
      × (((r.0.sent ≡ c.sent ++ (packet a c.key ((c.nonce + 1) % 2 ^ 64) chunk ∷ []))
            × (r.1 ≡ none))
          ⊎ ((r.0.sent ≡ c.sent) × (r.1 ≡ some conn_failed)))

  write_frame_locked-Stepped :
      (c : FrameWriter) (chunk : Bytes) → Stepped c chunk (write_frame_locked a works c chunk)
  unfolding write_frame_locked
  write_frame_locked-Stepped c chunk = elim (Bool-cases (works c.attempts)) [
    | inl w ↦ rw w (refl, refl, inl (refl, refl))
    | inr w ↦ rw w (refl, refl, inr (refl, refl))
  ]

  write_loop-Sends :
      (fuel : ℕ) (c : FrameWriter) (b : Bytes) (total : ℕ)
      → length b ≤ fuel
      → (r : Written) × (write_loop a works fuel c b total ≡ some r) × Sends a c b total r
  unfolding write_loop chunk_of
  write_loop-Sends fuel c [] total f =
      ((c, total, none), refl, Sends-nil c [] total _ refl refl (λ _. refl))
  write_loop-Sends zero c (x ∷ xs) total f = absurd (omega arith)
  write_loop-Sends (suc fuel) c (x ∷ xs) total f =
      let b : Bytes = x ∷ xs in
      let chunk = chunk_of b in
      let r = write_frame_locked a works c chunk in
      let (front, size, fits) = chunk_of_lem b (omega arith) in
      let (k, n, sent) = write_frame_locked-Stepped c chunk in
      elim sent [
        | inl (s, e) ↦
            let (q, ran, sends) =
              write_loop-Sends fuel r.0 (drop (length chunk) b) (total + length chunk)
                (omega (arith, length-drop (length chunk) b, size.0)) in
            (
              q,
              rw (e, write_loop) ran,
              Sends-cons c r.0 b chunk total q front size fits k n s sends,
            )
        | inr (s, e) ↦ (
          (r.0, total, some conn_failed),
          rw (e, write_loop),
          Sends-nil c b total _ s refl (λ g. cc),
        )
      ]

  -- `Write` returns. It has put frames of 1 to 65504 bytes of plaintext on the wire, sealed under
  -- consecutive counters; the plaintexts, joined, are the first bytes of `b`, as many as it
  -- reports, and all of `b` if it reports no error.
  pub write-Sends :
      (c : FrameWriter) (b : Bytes) → (r : Written) × (write a works c b ≡ some r) × Sends a c b 0 r
  unfolding write
  write-Sends c b = write_loop-Sends (length b) c b 0 (omega arith)
