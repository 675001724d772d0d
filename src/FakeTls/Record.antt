-- ===== src/FakeTls/Record.antt =====
-- internal/faketls/record.go: `RecordConn`, TLS application data records over a TCP stream.
-- Writing appends packets to those that the TCP connection has taken; whether its n-th `Write`
-- succeeds is a parameter. Reading takes bytes from the stream that the peer has sent.
-- `time.Sleep` and the log lines have no effect here. The mutex makes each call one step.
pub mod Write
pub mod Read
pub mod RoundTrip
use phantom_proxy.Common.{
  ℕ, zero, suc, ◌+◌, ◌*◌, Bool, true, false, not, ◌&&◌, Option, none, some, List, [], ◌∷◌, ◌++◌,
  ltb, ◌==◌, if◌then◌else◌, length, get_or, take, drop,
}
use phantom_proxy.Common.Int.{pos, ltb_ℤ, leb_ℤ, is_not_pos}
use phantom_proxy.Common.Bytes.{Bytes, be16, from_be16}
use phantom_proxy.Common.Result.{Result, ok, err, ReadError, read_full, ◌>>=◌}
use phantom_proxy.FakeTls.Random.{Rand}
use phantom_proxy.FakeTls.Policy.{RecordPolicy, max_record_payload, normalize, chunk_size_with_max}

abbrev pub drs_initial_chunk : ℕ
drs_initial_chunk = 1369

abbrev pub drs_ramp_records : ℕ
drs_ramp_records = 8

abbrev pub drs_ramp_bytes : ℕ
drs_ramp_bytes = 128 * 1024

abbrev pub record_handshake : ℕ
record_handshake = 0x16

abbrev pub record_application_data : ℕ
record_application_data = 0x17

pub data WriteError : Type 0 where
  payload_too_big conn_failed : WriteError

-- `sent` holds what the TCP connection took, `attempts` counts its `Write` calls and `draws`
-- the calls of `randInt`.
pub record RecordConn : Type 0 where
  pub policy : RecordPolicy
  pub records_written : ℕ
  pub bytes_written : ℕ
  pub split_done : Bool
  pub sent : List Bytes
  pub attempts : ℕ
  pub draws : ℕ

pub new_record_conn : RecordPolicy → RecordConn
new_record_conn p = record {
  policy = p;
  records_written = 0;
  bytes_written = 0;
  split_done = false;
  sent = [];
  attempts = 0;
  draws = 0;
}

-- A record on the wire: type, version 3.3, length and payload.
unfoldable pub to_record : ℕ → Bytes → Bytes
to_record t payload = t ∷ 0x03 ∷ 0x03 ∷ (be16 (length payload) ++ payload)

-- The connection, the byte count and the error that a write returns.
abbrev pub Written : Type 0
Written = RecordConn × ℕ × Option WriteError

module _ (rnd : Rand) (works : ℕ → Bool) where
  pub outbound_chunk_size : RecordConn → RecordPolicy → ℕ → ℕ
  outbound_chunk_size c policy remaining =
      let ramp =
        policy.enable_drs
        && (ltb c.records_written drs_ramp_records && ltb c.bytes_written drs_ramp_bytes) in
      let max_chunk =
        if ramp && ltb_ℤ (pos drs_initial_chunk) policy.max_chunk
        then pos drs_initial_chunk
        else policy.max_chunk in
      if leb_ℤ (pos remaining) policy.min_chunk
      then remaining
      else chunk_size_with_max rnd c.draws policy remaining max_chunk

  pub write_record_locked : RecordConn → Bytes → Written
  write_record_locked c chunk =
      let n = length chunk in
      let tried = record c { attempts = c.attempts + 1 } in
      if ltb max_record_payload n
      then (c, 0, some payload_too_big)
      else if works c.attempts
      then (
        record tried {
          records_written = c.records_written + 1;
          bytes_written = c.bytes_written + n;
          sent = c.sent ++ (to_record record_application_data chunk ∷ []);
        },
        n,
        none,
      )
      else (tried, 0, some conn_failed)

  -- `for len(b) > 0`. A draw for the jitter comes first; it only sets the length of a sleep.
  pub draw : RecordConn → RecordPolicy → RecordConn
  draw c policy = if is_not_pos policy.record_jitter_ms then c else record c { draws = c.draws + 1 }

  pub write_loop : ℕ → RecordPolicy → RecordConn → Bytes → ℕ → Option Written
  write_loop fuel policy c [] total = some (c, total, none)
  write_loop zero policy c (x ∷ xs) total = none
  write_loop (suc fuel) policy c (x ∷ xs) total =
      let ready = draw c policy in
      let size = outbound_chunk_size ready policy (length (x ∷ xs)) in
      let r = write_record_locked (record ready { draws = ready.draws + 1 }) (take size (x ∷ xs)) in
      let rest = write_loop fuel policy r.0 (drop size (x ∷ xs)) (total + r.1) in
      elim r.2 [ none ↦ rest | some e ↦ some (r.0, total, some e) ]

  -- After the one byte record of Split-TLS.
  pub after_split : RecordPolicy → Bytes → Written → Option Written
  after_split policy b (c, n, some e) = some (c, 0, some e)
  after_split policy b (c, n, none) =
      write_loop (length b) policy (record c { split_done = true }) (drop 1 b) n

  pub write : RecordConn → Bytes → Option Written
  write c b =
      let policy = normalize c.policy in
      if policy.enable_split_tls && (not c.split_done && ltb 0 (length b))
      then after_split policy b (write_record_locked c (take 1 b))
      else write_loop (length b) policy c b 0

-- The reading side: the buffered rest of a record, and the stream.
pub record Reader : Type 0 where
  pub read_buf : Bytes
  pub input : Bytes

-- One record of the stream: its type, its payload and what follows.
pub next_record : Bytes → Result ReadError (ℕ × Bytes × Bytes)
next_record input = do
  (header, rest) ← read_full 5 input
  (payload, rest') ← read_full (from_be16 (drop 3 header)) rest
  ok (get_or header 0 0, payload, rest')

-- `Read(b)` with `len(b) = n`: the bytes copied into `b`. The fuel counts records skipped.
pub read_loop : ℕ → ℕ → Bytes → Option (Result ReadError (Bytes × Reader))
read_loop zero n input = none
read_loop (suc fuel) n input = elim (next_record input) [
  | err e ↦ some (err e)
  | ok (t, payload, rest) ↦
      if t == record_application_data
      then some (ok (take n payload, record { read_buf = drop n payload; input = rest }))
      else read_loop fuel n rest
]

pub read : ℕ → Reader → Option (Result ReadError (Bytes × Reader))
read n r =
    if ltb 0 (length r.read_buf)
    then some (ok (take n r.read_buf, record r { read_buf = drop n r.read_buf }))
    else read_loop (suc (length r.input)) n r.input
