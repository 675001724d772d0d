-- ===== src/FakeTls/Digest.antt =====
-- internal/faketls/client_hello.go and client.go: the digest in the 32 random bytes of a
-- ClientHello, as the server checks it and as the client makes it. HMAC-SHA256 is a parameter.
pub mod Laws
use phantom_proxy.Common.{
  ℕ, zero, ◌+◌, ◌-◌, not, ◌&&◌, [], ◌++◌, ltb, if◌then◌else◌, length, take, drop,
}
use Prim.Native.Nat.{bit_xor}
use phantom_proxy.Common.Bytes.{Bytes, zeros, eqb, from_le32, le32}
use phantom_proxy.Common.Xor.{xor_bytes}
use phantom_proxy.Common.Result.{Result, ok, err, ◌>>=◌, ◌>>◌, fail_if}
use phantom_proxy.Common.Slice.{contents, Outcome}
use phantom_proxy.FakeTls.Hello.{ClientHello, HelloError, sni}

abbrev pub timestamp_skew_seconds : ℕ
timestamp_skew_seconds = 120

pub data DigestError : Type 0 where
  raw_too_short bad_digest bad_timestamp sni_mismatch : DigestError

-- The record with its random bytes set to zero.
unfoldable pub without_random : Bytes → Bytes
without_random r = take 11 r ++ (zeros 32 ++ drop 43 r)

-- `|now - ts|` on int64.
abbrev pub clock_diff : ℕ → ℕ → ℕ
clock_diff now ts = (now - ts) + (ts - now)

module _ (hmac : Bytes → Bytes → Bytes) where
  unfoldable pub computed : Bytes → Bytes → Bytes → Bytes
  computed secret raw random = xor_bytes (hmac secret (without_random raw)) random

  -- `validateClientHello` at the Unix time `now`.
  unfoldable pub check_digest : ℕ → Bytes → Bytes → Bytes → Result DigestError (Unit {0})
  check_digest now secret raw random = do
    fail_if (ltb (length raw) 43) raw_too_short
    fail_if (not (eqb (zeros 28) (take 28 (computed secret raw random)))) bad_digest
    fail_if
        (ltb timestamp_skew_seconds
          (clock_diff now (from_le32 (drop 28 (computed secret raw random)))))
        bad_timestamp
    ok tt

  abbrev lift_outcome : Result DigestError (Unit {0}) → Outcome DigestError (Unit {0})
  lift_outcome (ok u) = Outcome.ok u
  lift_outcome (err e) = Outcome.err e

  -- `ValidateClientHello`; `SNI` returns no error, and may panic.
  unfoldable pub with_sni :
      ℕ → ClientHello → Bytes → Bytes → Outcome HelloError Bytes → Outcome DigestError (Unit {0})
  with_sni now ch secret hostname Outcome.panics = Outcome.panics
  with_sni now ch secret hostname (Outcome.err e) =
      lift_outcome (check_digest now secret (contents ch.raw) ch.random)
  with_sni now ch secret hostname (Outcome.ok name) =
      if not (eqb name []) && (not (eqb hostname []) && not (eqb name hostname))
      then Outcome.err sni_mismatch
      else lift_outcome (check_digest now secret (contents ch.raw) ch.random)

  unfoldable pub validate_client_hello :
      ℕ → ClientHello → Bytes → Bytes → Outcome DigestError (Unit {0})
  unfolding with_sni
  validate_client_hello now ch secret hostname = with_sni now ch secret hostname (sni ch)

  -- The end of `generateClientHelloRecord`, on the record that utls has built.
  unfoldable pub sign_record : ℕ → Bytes → Bytes → Bytes
  sign_record ts secret record_bytes =
      let d = hmac secret (without_random record_bytes) in
      take 11 record_bytes
      ++ ((take 28 d ++ le32 (bit_xor (from_le32 (drop 28 d)) ts)) ++ drop 43 record_bytes)
