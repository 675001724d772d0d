-- ===== src/FakeTls/Record/RoundTrip.antt =====
-- The peer's `Read` gives back what `Write` was handed.
use phantom_proxy.Common.{
  ℕ, suc, ◌+◌, ◌≤◌, ◌<◌, ◌≡◌, refl, sym, ap, ◌∙◌, ◌≢◌, ◌⊎◌, inl, inr, Bool, Option, none, some,
  List, [], ◌∷◌, ◌++◌, map, arith, Option-cases, length, length-append, take,
}
use mathlib.Core.Option.{some-injective}
use native.Mathlib.Nat.{zero-add}
use phantom_proxy.Common.Bytes.{Bytes, All, flatten, be16, take_all}
use phantom_proxy.Common.Result.{eof}
use phantom_proxy.FakeTls.Random.{Rand}
use phantom_proxy.FakeTls.Record.{
  RecordConn, WriteError, Written, to_record, record_application_data, write,
}
use phantom_proxy.FakeTls.Record.Write.{IsPayload, app_data, write-Sends}
use phantom_proxy.FakeTls.Record.Read.{Frame, IsFrame, encode, app_bytes, drain, drain_lem}

frames_of : List Bytes → List Frame
frames_of [] = []
frames_of (p ∷ ps) = (record_application_data, p) ∷ frames_of ps

encode-frames_of : (ps : List Bytes) → flatten (map app_data ps) ≡ encode (frames_of ps)
unfolding frames_of
encode-frames_of [] = refl
encode-frames_of (p ∷ ps) =
    ap (λ (r : Bytes). to_record record_application_data p ++ r) (encode-frames_of ps)

app_bytes-frames_of : (ps : List Bytes) → app_bytes (frames_of ps) ≡ flatten ps
unfolding frames_of app_bytes
app_bytes-frames_of [] = refl
app_bytes-frames_of (p ∷ ps) = ap (λ (r : Bytes). p ++ r) (app_bytes-frames_of ps)

frames_of-IsFrame : (ps : List Bytes) → All IsPayload ps → All IsFrame (frames_of ps)
unfolding frames_of
frames_of-IsFrame [] h = tt
frames_of-IsFrame (p ∷ ps) h = (omega arith, frames_of-IsFrame ps h.1)

app_bytes_le : (fs : List Frame) → length (app_bytes fs) + length fs ≤ length (encode fs)
unfolding app_bytes to_record
app_bytes_le [] = omega arith
app_bytes_le ((t, p) ∷ fs) = ground (
  arith,
  app_bytes_le fs,
  length-append (be16 (length p) ++ p) (encode fs),
  length-append (be16 (length p)) p,
  length-append p (app_bytes fs),
)

drain-records :
    (n : ℕ) (ps : List Bytes) (w : Bytes)
    → 0 < n
    → All IsPayload ps
    → w ≡ flatten (map app_data ps)
    → drain (suc (length w)) n (record { read_buf = []; input = w }) ≡ some (flatten ps, eof)
drain-records n ps w hn h e =
    let wire : w ≡ encode (frames_of ps) = e ∙ encode-frames_of ps in
    let enough = app_bytes_le (frames_of ps) in
    drain_lem (suc (length w)) n _ (frames_of ps) hn (frames_of-IsFrame ps h) wire
      (omega (arith, ap length wire))
    ∙ ap (λ l. some (l, eof)) (app_bytes-frames_of ps)

-- Whatever sizes were drawn and wherever the connection failed: a peer that reads the packets
-- of a new connection to their end, with any buffer, gets the bytes that `Write` reported as
-- written, the front of `b`; and all of `b` if it reported no error.
pub drain-write :
    (rnd : Rand) (works : ℕ → Bool) (c c' : RecordConn) (b : Bytes) (n total : ℕ)
    (e : Option WriteError)
    → c.sent ≡ []
    → 0 < n
    → write rnd works c b ≡ some (c', total, e)
    → (drain (suc (length (flatten c'.sent))) n (record { read_buf = []; input = flatten c'.sent })
        ≡ some (take total b, eof))
      × ((e ≢ none) ⊎ (take total b ≡ b))
drain-write rnd works c c' b n total e fresh hn ran =
    let (r, ran', s) = write-Sends rnd works c b in
    let same : r ≡ (c', total, e) = some-injective _ _ (sym ran' ∙ ran) in
    let sent_is : c'.sent ≡ map app_data s.payloads =
      ap (λ (q : Written). q.0.sent) (sym same) ∙ s.sent_lem ∙ rw fresh refl in
    let reported : total ≡ s.count =
      ap (λ (q : Written). q.1) (sym same) ∙ s.total_lem ∙ zero-add s.count in
    (
      drain-records n s.payloads _ hn s.sizes (ap flatten sent_is)
          ∙ ap (λ l. some (l, eof)) (s.carried ∙ ap (λ (m : ℕ). take m b) (sym reported)),
      elim (Option-cases e) [
        | inr (x, g) ↦ inl (λ z. cc)
        | inl g ↦
            inr (take_all total b (omega (arith, s.complete (ap (λ (q : Written). q.2) same ∙ g))))
      ],
    )
