-- ===== src/FakeTls/ServerHello.antt =====
-- internal/faketls/server_hello.go and client.go: the ServerHello, the change of ciphers and the
-- padding that answer a ClientHello, and the client's reading of them. HMAC-SHA256 is a
-- parameter, and so is what `rand.Read` leaves in a buffer.
pub mod Shape
pub mod Padding
pub mod RoundTrip
use phantom_proxy.Common.{
  ℕ, ◌+◌, ◌-◌, ◌*◌, ◌/◌, ◌%◌, ◌^◌, ◌≡◌, Bool, Option, none, some, [], ◌∷◌, ◌++◌, if◌then◌else◌,
  length, take, drop,
}
use phantom_proxy.Common.Int.{ℤ, pos, pos_part, ◌-ℤ◌, ◌+ℤ◌, ltb_ℤ, is_not_pos}
use phantom_proxy.Common.Bytes.{Bytes, codes, eqb, be16, from_be16}
use phantom_proxy.Common.Result.{Result, ReadError, read_full, ◌>>=◌}
use phantom_proxy.Common.Slice.{Outcome}
use phantom_proxy.FakeTls.Random.{Rand, rand_int}
use phantom_proxy.FakeTls.Record.{record_handshake, record_application_data, to_record}
use phantom_proxy.FakeTls.Hello.{ClientHello, random_offset, random_length}
use phantom_proxy.FakeTls.Digest.{without_random}
use phantom_proxy.FakeTls.Rotator.{Rotator, pick_or}

abbrev pub record_change_cipher : ℕ
record_change_cipher = 0x14

abbrev pub profile_chrome : Bytes
profile_chrome = codes "chrome"

-- `rand.Read` on a buffer of zeros: what the k-th call leaves in a buffer of `n` bytes, and
-- whether it returns an error.
pub record ByteSource : Type 0 where
  pub bytes : ℕ → ℕ → Bytes
  pub fails : ℕ → Bool
  pub length-bytes : (k n : ℕ) → length (bytes k n) ≡ n

-- The extension supported_versions with TLS 1.3.
abbrev pub supported_versions : Bytes
supported_versions = 0x00 ∷ 0x2b ∷ 0x00 ∷ 0x02 ∷ 0x03 ∷ 0x04 ∷ []

abbrev pub psk_key_exchange_modes : Bytes
psk_key_exchange_modes = 0x00 ∷ 0x2d ∷ 0x00 ∷ 0x02 ∷ 0x01 ∷ 0x01 ∷ []

abbrev pub renegotiation_info : Bytes
renegotiation_info = 0xff ∷ 0x01 ∷ 0x00 ∷ 0x01 ∷ 0x00 ∷ []

abbrev pub ec_point_formats : Bytes
ec_point_formats = 0x00 ∷ 0x0b ∷ 0x00 ∷ 0x02 ∷ 0x01 ∷ 0x00 ∷ []

module _ (src : ByteSource) where
  unfoldable pub key_share : ℕ → Bytes
  key_share k =
      let share = 0x00 ∷ 0x1d ∷ 0x00 ∷ 0x20 ∷ src.bytes k 32 in
      0x00 ∷ 0x33 ∷ (be16 (length share) ++ share)

  -- `result[1..3]` are patched with the length of what follows them. `be16` keeps 16 bits.
  unfoldable pub finalize_server_hello : ℕ → ClientHello → Bytes → Bytes
  finalize_server_hello k ch ext =
      let body =
        0x03
        ∷ 0x03
        ∷ (src.bytes k 32
            ++ (length ch.session_id % 256
                ∷ (ch.session_id
                    ++ (be16 ch.cipher_suite ++ (0x00 ∷ (be16 (length ext) ++ ext)))))) in
      let n = length body in 0x02 ∷ n / 2 ^ 16 % 256 ∷ n / 256 % 256 ∷ n % 256 ∷ body

  -- The extensions of a profile.
  unfoldable pub extensions_of : ℕ → Bytes → Bytes
  extensions_of k profile =
      if eqb profile (codes "firefox")
      then key_share k ++ (supported_versions ++ psk_key_exchange_modes)
      else if eqb profile (codes "edge")
      then supported_versions ++ (renegotiation_info ++ key_share k)
      else if eqb profile (codes "safari")
      then supported_versions ++ (key_share k ++ ec_point_formats)
      else supported_versions ++ key_share k

  unfoldable pub build_server_hello : ℕ → ClientHello → Bytes → Bytes
  build_server_hello k ch profile = finalize_server_hello (k + 1) ch (extensions_of k profile)

pub record NoiseParams : Type 0 where
  pub mean : ℤ
  pub jitter : ℤ

module _ (rnd : Rand) where
  -- The number `k` counts the calls of `randInt`.
  unfoldable pub padding_len : ℕ → NoiseParams → ℕ
  padding_len k n =
      let jitter = if is_not_pos n.jitter then 512 else pos_part n.jitter in
      let size = n.mean -ℤ pos jitter +ℤ pos (rand_int rnd k (2 * jitter)) in
      if is_not_pos n.mean
      then 1024 + rand_int rnd k 3072
      else if ltb_ℤ size (pos 1000)
      then 1000
      else pos_part size

-- `copy(packet[11:43], mac)`
unfoldable pub with_random : Bytes → Bytes → Bytes
with_random mac packet =
    let d = take random_length mac in
    take random_offset packet ++ (d ++ drop (random_offset + length d) packet)

pub data AnswerError : Type 0 where
  no_padding write_failed : AnswerError

-- The three records, before the digest.
unfoldable pub answer_records : Bytes → Bytes → Bytes
answer_records hello pad =
    to_record record_handshake hello
    ++ (to_record record_change_cipher (0x01 ∷ []) ++ to_record record_application_data pad)

module _ (hmac : Bytes → Bytes → Bytes) where
  unfoldable pub sealed : ClientHello → Bytes → Bytes → Bytes
  sealed ch secret packet =
      let blank = without_random packet in with_random (hmac secret (ch.random ++ blank)) blank

module _ (hmac : Bytes → Bytes → Bytes) (rnd : Rand) (src : ByteSource) where
  -- The packet for a profile. `works` tells whether the write to the connection succeeds.
  unfoldable pub answer_with :
      Bool → ℕ → ClientHello → Bytes → NoiseParams → Bytes → Result AnswerError Bytes
  answer_with works k ch secret noise profile =
      let pad = src.bytes (k + 2) (padding_len rnd (k + 1) noise) in
      if src.fails (k + 2)
      then Result.err no_padding
      else if works
      then Result.ok
          (sealed hmac ch secret (answer_records (build_server_hello src k ch profile) pad))
      else Result.err write_failed

  abbrev lift_answer : Result AnswerError Bytes → Outcome AnswerError Bytes
  lift_answer (Result.err e) = Outcome.err e
  lift_answer (Result.ok packet) = Outcome.ok packet

  -- A rotator that panics is left as it was.
  abbrev then_answer :
      (Bytes → Result AnswerError Bytes)
      → Option (Rotator Bytes)
      → Option (Bytes × Option (Rotator Bytes))
      → Option (Rotator Bytes) × Outcome AnswerError Bytes
  then_answer f old none = (old, Outcome.panics)
  then_answer f old (some (profile, r)) = (r, lift_answer (f profile))

  -- The rotator, which has picked also where there is an error, and the packet for the client.
  unfoldable pub write_server_hello_with_noise :
      Bool
      → ℕ
      → ℕ
      → ℕ
      → ClientHello
      → Bytes
      → NoiseParams
      → Option (Rotator Bytes)
      → Option (Rotator Bytes) × Outcome AnswerError Bytes
  write_server_hello_with_noise works k now later ch secret noise rotator =
      then_answer (answer_with works k ch secret noise) rotator
        (pick_or rnd profile_chrome k now later rotator)

pub data HandshakeError : Type 0 where
  server_hello change_cipher application_data : ReadError → HandshakeError

-- One record of any type: what is left of the stream.
unfoldable pub skip_record : (ReadError → HandshakeError) → Bytes → Result HandshakeError Bytes
skip_record wrap input = elim (read_full 5 input) [
  | Result.err e ↦ Result.err (wrap e)
  | Result.ok (header, rest) ↦ elim (read_full (from_be16 (drop 3 header)) rest) [
    | Result.err e ↦ Result.err (wrap e)
    | Result.ok (payload, tail) ↦ Result.ok tail
  ]
]

unfoldable pub read_server_handshake : Bytes → Result HandshakeError Bytes
read_server_handshake input = do
  a ← skip_record server_hello input
  b ← skip_record change_cipher a
  skip_record application_data b
