-- ===== src/FakeTls/Record/Write.antt =====
-- What `Write` puts on the wire.
use phantom_proxy.Common.{
  ℕ, zero, suc, ◌+◌, ◌≤◌, ◌<◌, ◌≡◌, refl, sym, ap, ◌∙◌, ◌≢◌, ◌⊎◌, inl, inr, Bool, true, not, ◌&&◌,
  none, some, List, [], ◌∷◌, ◌++◌, map, append-nil, append_assoc, arith, ltb, Bool-cases, length,
  take, drop, length-take, length-drop,
}
use native.Mathlib.Nat.{zero-add}
use phantom_proxy.Common.Int.{pos}
use phantom_proxy.Common.Bytes.{Bytes, All, take-add, flatten}
use phantom_proxy.FakeTls.Random.{Rand}
use phantom_proxy.FakeTls.Policy.{RecordPolicy, max_record_payload, normalize}
use phantom_proxy.FakeTls.Policy.Bounds.{IsNormal, normalize-IsNormal, chunk_size_with_max_bounds}
use phantom_proxy.FakeTls.Record.{
  RecordConn, Written, payload_too_big, conn_failed, to_record, record_application_data,
  outbound_chunk_size, write_record_locked, draw, write_loop, after_split, write,
}

abbrev pub IsPayload : Bytes → Type 0
IsPayload p = (1 ≤ length p) × (length p ≤ max_record_payload)

abbrev pub app_data : Bytes → Bytes
app_data = to_record record_application_data

-- The call that began with `total` bytes done, on `b` from `c`, has sent `count` bytes of `b`.
pub record Sends (c : RecordConn) (b : Bytes) (total : ℕ) (r : Written) : Type 0 where
  pub payloads : List Bytes
  pub count : ℕ
  pub sent_lem : r.0.sent ≡ c.sent ++ map app_data payloads
  pub sizes : All IsPayload payloads
  pub carried : flatten payloads ≡ take count b
  pub count_le : count ≤ length b
  pub total_lem : r.1 ≡ total + count
  pub complete : r.2 ≡ none → count ≡ length b
  pub error_lem : r.2 ≢ some payload_too_big

module _ (rnd : Rand) (works : ℕ → Bool) where
  pub outbound_chunk_size_bounds :
      (c : RecordConn) (p : RecordPolicy) (remaining : ℕ)
      → IsNormal p
      → 0 < remaining
      → (1 ≤ outbound_chunk_size rnd works c p remaining)
        × (outbound_chunk_size rnd works c p remaining ≤ remaining)
        × (outbound_chunk_size rnd works c p remaining ≤ max_record_payload)
  unfolding outbound_chunk_size
  outbound_chunk_size_bounds c p remaining h r = ground (
    arith,
    chunk_size_with_max_bounds rnd c.draws p remaining p.max_chunk h r,
    chunk_size_with_max_bounds rnd c.draws p remaining (pos 1369) h r,
  )

  abbrev Stepped : RecordConn → Bytes → Written → Type 0
  Stepped c chunk r =
      ((r.0.sent ≡ c.sent ++ (app_data chunk ∷ [])) × (r.1 ≡ length chunk) × (r.2 ≡ none))
      ⊎ ((r.0.sent ≡ c.sent) × (r.1 ≡ 0) × (r.2 ≡ some conn_failed))

  write_record_locked-Stepped :
      (c : RecordConn) (chunk : Bytes)
      → length chunk ≤ max_record_payload
      → Stepped c chunk (write_record_locked rnd works c chunk)
  unfolding write_record_locked
  write_record_locked-Stepped c chunk h = elim (Bool-cases (works c.attempts)) [
    | inl w ↦ inl (ground arith, ground arith, ground arith)
    | inr w ↦ inr (ground arith, ground arith, ground arith)
  ]

  -- The first record, then whatever the loop sends from there.
  Sends-cons :
      (c c' : RecordConn) (b : Bytes) (size total m : ℕ) {r : Written}
      → m ≡ size
      → c'.sent ≡ c.sent ++ (app_data (take size b) ∷ [])
      → 1 ≤ size
      → size ≤ length b
      → size ≤ max_record_payload
      → Sends c' (drop size b) (total + m) r
      → Sends c b total r
  Sends-cons c c' b size total m em e lo fits hi s = record {
    payloads = take size b ∷ s.payloads;
    count = size + s.count;
    sent_lem = rw (s.sent_lem, e) (append_assoc c.sent _ _);
    sizes = (omega (arith, length-take size b), s.sizes);
    carried = rw s.carried (take-add size s.count b);
    count_le = omega (arith, length-drop size b, s.count_le);
    total_lem = omega (arith, s.total_lem);
    complete = λ h. omega (arith, s.complete h, length-drop size b);
    error_lem = s.error_lem;
  }

  Sends-nil :
      (c : RecordConn) (b : Bytes) (total : ℕ) (r : Written)
      → r.0.sent ≡ c.sent
      → r.1 ≡ total
      → (r.2 ≡ none → length b ≡ 0)
      → r.2 ≢ some payload_too_big
      → Sends c b total r
  Sends-nil c b total r s t done e = record {
    payloads = [];
    count = 0;
    sent_lem = rw append-nil s;
    sizes = tt;
    carried = refl;
    count_le = omega arith;
    total_lem = omega arith;
    complete = λ h. sym (done h);
    error_lem = e;
  }

  draw_sent : (c : RecordConn) (p : RecordPolicy) → (draw rnd works c p).sent ≡ c.sent
  unfolding draw
  draw_sent c p = ground arith

  write_loop-Sends :
      (fuel : ℕ) (p : RecordPolicy) (c : RecordConn) (b : Bytes) (total : ℕ)
      → IsNormal p
      → length b ≤ fuel
      → (r : Written) × (write_loop rnd works fuel p c b total ≡ some r) × Sends c b total r
  unfolding write_loop
  write_loop-Sends fuel p c [] total h f =
      ((c, total, none), refl, Sends-nil c [] total _ refl refl (λ _. refl) (λ e. cc))
  write_loop-Sends zero p c (x ∷ xs) total h f = absurd (omega arith)
  write_loop-Sends (suc fuel) p c (x ∷ xs) total h f =
      let b : Bytes = x ∷ xs in
      let ready = draw rnd works c p in
      let size = outbound_chunk_size rnd works ready p (length b) in
      let (lo, fits, hi) = outbound_chunk_size_bounds ready p (length b) h (omega arith) in
      let next = record ready { draws = ready.draws + 1 } in
      let taken : length (take size b) ≡ size = omega (arith, length-take size b) in
      let r = write_record_locked rnd works next (take size b) in
      elim (write_record_locked-Stepped next (take size b) (omega arith)) [
        | inl (s, n, e) ↦
            let (q, ran, sends) =
              write_loop-Sends fuel p r.0 (drop size b) (total + r.1) h
                (omega (arith, length-drop size b)) in
            (
              q,
              rw (e, write_loop) ran,
              Sends-cons c r.0 b size total r.1 (n ∙ taken)
                  (s ∙ ap (λ (l : List Bytes). l ++ (app_data (take size b) ∷ [])) (draw_sent c p))
                  lo fits hi sends,
            )
        | inr (s, n, e) ↦ (
          (r.0, total, some conn_failed),
          rw (e, write_loop),
          Sends-nil c b total _ (s ∙ draw_sent c p) refl (λ g. cc) (λ g. cc),
        )
      ]

  split_Sends :
      (c : RecordConn) (b : Bytes)
      → 0 < length b
      → (q : Written) × (after_split rnd works
            (normalize c.policy)
            b
            (write_record_locked rnd works c (take 1 b))
          ≡ some q)
        × Sends c b 0 q
  unfolding after_split
  split_Sends c b h =
      let r = write_record_locked rnd works c (take 1 b) in
      let taken : length (take 1 b) ≡ 1 = omega (arith, length-take 1 b) in
      elim (write_record_locked-Stepped c (take 1 b) (omega arith)) [
        | inl (s, n, e) ↦
            let (q, ran, sends) =
              write_loop-Sends (length b) (normalize c.policy) (record (r.0) { split_done = true })
                (drop 1 b) r.1 (normalize-IsNormal c.policy) (omega (arith, length-drop 1 b)) in
            (
              q,
              rw (e, after_split) ran,
              Sends-cons c (record (r.0) { split_done = true }) b 1 0 r.1 (n ∙ taken) s
                  (omega arith) h (omega arith) (rw zero-add sends),
            )
        | inr (s, n, e) ↦ (
          (r.0, 0, some conn_failed),
          rw (e, after_split),
          Sends-nil c b 0 _ s refl (λ g. cc) (λ g. cc),
        )
      ]

  -- `Write` returns. What it has put on the wire behind the earlier packets are application data
  -- records of 1 to 16384 bytes whose payloads, joined, are the first `n` bytes of `b`, where `n`
  -- is the count that it reports; `n` is all of `b` if it reports no error. It never reports a
  -- payload that is too big.
  pub write-Sends :
      (c : RecordConn) (b : Bytes) → (r : Written) × (write rnd works c b ≡ some r) × Sends c b 0 r
  unfolding write
  write-Sends c b =
      elim (Bool-cases
        ((normalize c.policy).enable_split_tls && (not c.split_done && ltb 0 (length b)))) [
          | inr plain ↦ rw plain (
              write_loop-Sends (length b) (normalize c.policy) c b 0 (normalize-IsNormal c.policy)
                (omega arith))
          | inl split ↦ rw split (split_Sends c b (ground arith))
        ]
