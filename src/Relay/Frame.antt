-- ===== src/Relay/Frame.antt =====
-- internal/relay/tunnel.go: `frameConn`, length-prefixed AES-GCM frames over a TCP stream.
-- AES-GCM is a parameter; so is whether the n-th `Write` of the TCP connection succeeds.
pub mod Write
pub mod RoundTrip
use phantom_proxy.Common.{
  ℕ, zero, suc, ◌+◌, ◌-◌, ◌*◌, ◌%◌, ◌^◌, ◌≡◌, Bool, ◌||◌, Option, none, some, List, [], ◌∷◌, ◌++◌,
  ltb, leb, if◌then◌else◌, length, take, drop,
}
use phantom_proxy.Common.Bytes.{Bytes, zeros, be32, be64, from_be32}
use phantom_proxy.Common.Result.{Result, ok, err, ReadError, read_full}

abbrev pub max_frame_len : ℕ
max_frame_len = 64 * 1024

-- `cipher.AEAD` under a key: `Seal` appends the ciphertext to the nonce, `Open` checks it.
pub record Aead : Type 0 where
  pub seal : Bytes → Bytes → Bytes → Bytes
  pub open_sealed : Bytes → Bytes → Bytes → Option Bytes

-- What crypto/cipher documents of GCM: it opens what it has sealed, and adds a tag of 16 bytes.
pub record IsAead (a : Aead) : Type 0 where
  pub open-seal : (key nonce p : Bytes) → a.open_sealed key nonce (a.seal key nonce p) ≡ some p
  pub length-seal : (key nonce p : Bytes) → length (a.seal key nonce p) ≡ length p + 16

pub data FrameError : Type 0 where
  stream_ended : ReadError → FrameError
  frame_size open_failed conn_failed : FrameError

-- The writing side. `sent` holds what the TCP connection took, `attempts` counts its calls.
pub record FrameWriter : Type 0 where
  pub key : Bytes
  pub nonce : ℕ
  pub sent : List Bytes
  pub attempts : ℕ

pub record FrameReader : Type 0 where
  pub key : Bytes
  pub rbuf : Bytes
  pub input : Bytes

-- The 12 bytes for the counter, a uint64.
unfoldable pub frame_nonce : ℕ → Bytes
frame_nonce n = zeros 4 ++ be64 (n % 2 ^ 64)

-- The packet of one frame: length, nonce and ciphertext.
abbrev pub packet : Aead → Bytes → ℕ → Bytes → Bytes
packet a key n payload =
    let sealed = frame_nonce n ++ a.seal key (frame_nonce n) payload in
    be32 (length sealed) ++ sealed

module _ (a : Aead) (works : ℕ → Bool) where
  pub write_frame_locked : FrameWriter → Bytes → FrameWriter × Option FrameError
  write_frame_locked c payload =
      let n = (c.nonce + 1) % 2 ^ 64 in
      let tried = record c { nonce = n; attempts = c.attempts + 1 } in
      if works c.attempts
      then (record tried { sent = c.sent ++ (packet a c.key n payload ∷ []) }, none)
      else (tried, some conn_failed)

  -- `for len(b) > 0`; the length of `b` is fuel enough.
  pub write_loop : ℕ → FrameWriter → Bytes → ℕ → Option (FrameWriter × ℕ × Option FrameError)
  write_loop fuel c [] total = some (c, total, none)
  write_loop zero c (x ∷ xs) total = none
  write_loop (suc fuel) c (x ∷ xs) total =
      let b = x ∷ xs in
      let chunk = if ltb (max_frame_len - 32) (length b) then take (max_frame_len - 32) b else b in
      let r = write_frame_locked c chunk in
      let rest = write_loop fuel r.0 (drop (length chunk) b) (total + length chunk) in
      elim r.1 [ none ↦ rest | some e ↦ some (r.0, total, some e) ]

  pub write : FrameWriter → Bytes → Option (FrameWriter × ℕ × Option FrameError)
  write c b = write_loop (length b) c b 0

module _ (a : Aead) where
  -- One frame of the stream: its plaintext, and what follows.
  pub next_frame : Bytes → Bytes → Result FrameError (Bytes × Bytes)
  next_frame key input = elim (read_full 4 input) [
    | err e ↦ err (stream_ended e)
    | ok (hdr, rest) ↦
        let n = from_be32 hdr in
        if leb n 0 || ltb max_frame_len n then err frame_size else elim (read_full n rest) [
          | err e ↦ err (stream_ended e)
          | ok (frame, rest') ↦
              if ltb (length frame) 12
              then err frame_size
              else elim (a.open_sealed key (take 12 frame) (drop 12 frame)) [
                | none ↦ err open_failed
                | some plain ↦ ok (plain, rest')
              ]
        ]
  ]

  -- `for len(c.rbuf) == 0`, then the copy into a buffer of `n` bytes.
  pub read_loop : ℕ → ℕ → FrameReader → Option (Result FrameError (Bytes × FrameReader))
  read_loop zero n c = none
  read_loop (suc fuel) n c =
      let xs = take n c.rbuf in
      if ltb 0 (length c.rbuf)
      then some (ok (xs, record c { rbuf = drop n c.rbuf }))
      else elim (next_frame c.key c.input) [
        | err e ↦ some (err e)
        | ok (plain, rest) ↦ read_loop fuel n (record c { rbuf = plain; input = rest })
      ]

  -- Every frame takes four bytes, so the stream's length is fuel enough.
  pub read : ℕ → FrameReader → Option (Result FrameError (Bytes × FrameReader))
  read n c = read_loop (length c.input + 2) n c
