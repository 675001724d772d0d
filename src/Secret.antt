-- ===== src/Secret.antt =====
-- internal/mtproto/secret.go: the secrets that users put into their Telegram client.
-- The decoders and the encoder of encoding/hex and encoding/base64 are parameters.
pub mod RoundTrip
use phantom_proxy.Common.{
  ℕ, ◌+◌, Bool, not, ◌&&◌, Option, none, some, [], ◌∷◌, ◌++◌, ltb, ◌==◌, if◌then◌else◌, length,
  take, drop,
}
use phantom_proxy.Common.Bytes.{Bytes}
use phantom_proxy.Common.Result.{Result, ok, err}

abbrev pub fake_tls_prefix : ℕ
fake_tls_prefix = 0xee

abbrev pub secure_prefix : ℕ
secure_prefix = 0xdd

abbrev pub key_length : ℕ
key_length = 16

pub record Secret : Type 0 where
  pub key : Bytes
  pub host : Bytes
  pub mode : ℕ

unfoldable pub is_fake_tls : Secret → Bool
is_fake_tls s = s.mode == fake_tls_prefix

unfoldable pub is_secure : Secret → Bool
is_secure s = s.mode == secure_prefix

pub data SecretError : Type 0 where
  empty_secret bad_format too_short bad_prefix short_key empty_host : SecretError

-- The rest of `ParseSecret` on the bytes behind the mode byte.
parse_payload : ℕ → Bytes → Result SecretError Secret
parse_payload mode payload =
    if ltb (length payload) key_length
    then err short_key
    else if mode == fake_tls_prefix
    then (if length payload == key_length
        then err empty_host
        else ok
            (record { key = take key_length payload; host = drop key_length payload; mode = mode }))
    else ok (record { key = take key_length payload; host = []; mode = mode })

parse_bytes : Option Bytes → Result SecretError Secret
unfolding parse_payload
parse_bytes none = err bad_format
parse_bytes (some []) = err too_short
parse_bytes (some (_ ∷ [])) = err too_short
parse_bytes (some (mode ∷ c ∷ cs)) =
    if not (mode == fake_tls_prefix) && not (mode == secure_prefix)
    then err bad_prefix
    else parse_payload mode (c ∷ cs)

-- The first decoder that takes the text.
or_else : Option Bytes → Option Bytes → Option Bytes
or_else none b = b
or_else (some d) b = some d

module _ (hex_decode base64_decode : Bytes → Option Bytes) where
  pub parse_secret : Bytes → Result SecretError Secret
  unfolding parse_bytes or_else
  parse_secret [] = err empty_secret
  parse_secret (c ∷ cs) = parse_bytes (or_else (hex_decode (c ∷ cs)) (base64_decode (c ∷ cs)))

module _ (hex_encode : Bytes → Bytes) where
  unfoldable pub encode_hex : Secret → Bytes
  encode_hex s =
      hex_encode (if s.mode == fake_tls_prefix then s.mode ∷ (s.key ++ s.host) else s.mode ∷ s.key)

  pub encode_secure_hex : Bytes → Bytes
  encode_secure_hex key = hex_encode (secure_prefix ∷ key)
