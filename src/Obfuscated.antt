-- ===== src/Obfuscated.antt =====
-- internal/obfuscated2/handshake.go and header.go: the 64-byte header that opens an obfuscated2
-- connection. SHA-256 and the key stream of AES-CTR are parameters: `ctr key iv i` is byte `i` of
-- the stream. A `cipher.Stream` is its key, its IV and the position it has reached.
pub mod Handshake
pub mod Header
use phantom_proxy.Common.{
  ℕ, zero, suc, ◌+◌, Bool, not, ◌||◌, Option, none, some, List, [], ◌∷◌, ◌++◌, ◌==◌, if◌then◌else◌,
  length, get_or, take, drop,
}
use phantom_proxy.Common.Int.{ℤ, wrap16, signed16}
use phantom_proxy.Common.Bytes.{Bytes, eqb, le16, from_le16, le32, from_le32}
use phantom_proxy.Common.Result.{Result, ok, err, ReadError, read_full}
use phantom_proxy.Common.Xor.{xor_bytes}

-- `connTypePaddedIntermediate`
abbrev pub conn_type : ℕ
conn_type = 0xdddddddd

pub record Stream : Type 0 where
  pub key : Bytes
  pub iv : Bytes
  pub position : ℕ

pub data HandshakeError : Type 0 where
  short_header : ReadError → HandshakeError
  bad_conn_type no_random : HandshakeError

unfoldable pub reverse : Bytes → Bytes
reverse [] = []
reverse (b ∷ bs) = reverse bs ++ (b ∷ [])

-- `header[8:40]` and `header[40:56]`
unfoldable pub key_part : Bytes → Bytes
key_part header = take 32 (drop 8 header)

unfoldable pub iv_part : Bytes → Bytes
iv_part header = take 16 (drop 40 header)

-- The headers that would look like another protocol.
unfoldable pub is_reserved : Bytes → Bool
is_reserved header =
    let b = get_or header 0 0 in
    b == 0xef
    || b == 0x48
    || b == 0x50
    || b == 0x47
    || b == 0x16
    || b == 0x14
    || eqb (take 4 (drop 4 header)) (0 ∷ 0 ∷ 0 ∷ 0 ∷ [])

-- The first candidate that is not reserved: `draws` are the reads of `rand.Reader`.
unfoldable pub pick_header : List Bytes → Result HandshakeError Bytes
unfolding is_reserved
pick_header [] = err no_random
pick_header (header ∷ draws) =
    let more = pick_header draws in if is_reserved header then more else ok header

-- The connection type and the data centre in place of the bytes from 56 to 61.
unfoldable pub with_dc : ℤ → Bytes → Bytes
with_dc dc_id header = take 56 header ++ (le32 conn_type ++ (le16 (wrap16 dc_id) ++ drop 62 header))

module _ (ctr : Bytes → Bytes → ℕ → ℕ) where
  unfoldable pub key_stream : Stream → ℕ → Bytes
  key_stream s zero = []
  key_stream s (suc n) =
      ctr s.key s.iv s.position
      ∷ key_stream (record { key = s.key; iv = s.iv; position = s.position + 1 }) n

  -- `XORKeyStream`: the bytes and the stream behind them.
  unfoldable pub xor_key_stream : Stream → Bytes → Bytes × Stream
  xor_key_stream s p = (
    xor_bytes p (key_stream s (length p)),
    record { key = s.key; iv = s.iv; position = s.position + length p },
  )

-- The sender takes an empty secret for none, where the receiver only takes nil.
unfoldable pub sender_secret : Option Bytes → Option Bytes
sender_secret none = none
sender_secret (some []) = none
sender_secret (some (c ∷ cs)) = some (c ∷ cs)

module _ (sha256 : Bytes → Bytes) where
  unfoldable pub derive_key : Bytes → Bytes → Bytes
  derive_key header_key secret = sha256 (header_key ++ secret)

  -- The key of a header with and without a secret.
  unfoldable pub key_of : Option Bytes → Bytes → Bytes
  key_of none header = key_part header
  key_of (some secret) header = derive_key (key_part header) secret

  unfoldable pub new_ctr : Option Bytes → Bytes → Stream
  new_ctr secret header = record { key = key_of secret header; iv = iv_part header; position = 0 }

module _ (sha256 : Bytes → Bytes) (ctr : Bytes → Bytes → ℕ → ℕ) where
  -- `outgoingHeader`: what is sent, and the streams of the side that sends it.
  unfoldable pub outgoing_header :
      ℤ → Option Bytes → List Bytes → Result HandshakeError (Bytes × Stream × Stream)
  outgoing_header dc_id secret draws = elim (pick_header draws) [
    | err e ↦ err e
    | ok drawn ↦
        let header = with_dc dc_id drawn in
        let (encrypted, enc) =
          xor_key_stream ctr (new_ctr sha256 (sender_secret secret) header) header in
        ok (
          take 56 header ++ drop 56 encrypted,
          enc,
          new_ctr sha256 (sender_secret secret) (reverse header),
        )
  ]

  -- `Handshake` on a stream: the data centre, the streams for writing and reading, and the rest.
  unfoldable pub handshake :
      Option Bytes → Bytes → Result HandshakeError (ℤ × Stream × Stream × Bytes)
  handshake secret input = elim (read_full 64 input) [
    | err e ↦ err (short_header e)
    | ok (header, rest) ↦
        let (decrypted, dec) = xor_key_stream ctr (new_ctr sha256 secret header) header in
        if not (from_le32 (drop 56 decrypted) == conn_type)
        then err bad_conn_type
        else ok (
          signed16 (from_le16 (drop 60 decrypted)),
          new_ctr sha256 secret (reverse header),
          dec,
          rest,
        )
  ]

  -- `TryParseHeader`
  unfoldable pub try_parse_header : Bytes → Bytes → Option ℤ
  try_parse_header header [] = none
  try_parse_header header (c ∷ cs) =
      let decrypted = (xor_key_stream ctr (new_ctr sha256 (some (c ∷ cs)) header) header).0 in
      if not (length header == 64)
      then none
      else if not (from_le32 (drop 56 decrypted) == conn_type)
      then none
      else some (signed16 (from_le16 (drop 60 decrypted)))
