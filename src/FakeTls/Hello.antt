-- ===== src/FakeTls/Hello.antt =====
-- internal/faketls/client_hello.go: reading a ClientHello, and its server name.
-- A record is read into a slice of exactly its size; `Raw` is then made by `append`, whose spare
-- capacity the runtime chooses: `spare` zero bytes, a parameter.
pub mod Parse
pub mod ServerName
pub mod Extensions
use phantom_proxy.Common.{
  ℕ, zero, suc, ◌+◌, ◌*◌, Bool, true, false, not, ◌||◌, Option, none, some, [], ◌++◌, ltb, leb,
  ◌==◌, if◌then◌else◌, length, get_or, take, drop,
}
use phantom_proxy.Common.Bytes.{Bytes, zeros, from_be16}
use phantom_proxy.Common.Result.{ReadError, read_full}
use phantom_proxy.Common.Slice.{
  Outcome, ok, ◌>>=◌, ◌>>◌, fail_if, or_fail, Slice, contents, exact, at, cut, from, upto,
}
use phantom_proxy.FakeTls.Record.{record_handshake}
use phantom_proxy.FakeTls.Policy.{max_record_payload}

abbrev pub random_offset : ℕ
random_offset = 11

abbrev pub random_length : ℕ
random_length = 32

pub data HelloError : Type 0 where
  header_unread payload_unread : ReadError → HelloError
  not_handshake record_too_big not_client_hello hello_truncated hello_too_short : HelloError

pub record ClientHello : Type 0 where
  pub raw : Slice
  pub random : Bytes
  pub session_id : Bytes
  pub cipher_suite : ℕ

-- `int(payload[1])<<16 | int(payload[2])<<8 | int(payload[3])`
abbrev pub uint24 : ℕ → ℕ → ℕ → ℕ
uint24 a b c = a * 65536 + b * 256 + c

-- The first cipher suite, if the list has two bytes.
unfoldable pub cipher_suite_at : Slice → ℕ → ℕ → Outcome HelloError ℕ
cipher_suite_at hello pos cs_len = elim (leb 2 cs_len) [
  | true ↦ do s ← cut hello pos (pos + 2); ok (from_be16 (contents s))
  | false ↦ ok 0
]

-- The fields of `hello[:helloLen]`, of 34 bytes or more.
unfoldable pub parse_fields : Slice → Slice → Outcome HelloError ClientHello
unfolding cipher_suite_at
parse_fields raw hello = do
  random ← cut hello 2 34
  sid_len ← at hello 34
  sid ← cut hello 35 (35 + sid_len)
  suites ← cut hello (35 + sid_len) (37 + sid_len)
  suite ← cipher_suite_at hello (37 + sid_len) (from_be16 (contents suites))
  ok (record {
    raw = raw;
    random = contents random;
    session_id = contents sid;
    cipher_suite = suite;
  })

-- From `payload` on, behind the check of the record header.
unfoldable pub parse_payload : Slice → Bytes → Outcome HelloError ClientHello
parse_payload raw bytes = do
  let payload = exact bytes
  fail_if (ltb payload.len 4 || not (get_or bytes 0 0 == 0x01)) not_client_hello
  let hello_len = uint24 (get_or bytes 1 0) (get_or bytes 2 0) (get_or bytes 3 0)
  tail ← from payload 4
  fail_if (ltb tail.len hello_len) hello_truncated
  hello ← upto tail hello_len
  fail_if (ltb hello.len 34) hello_too_short
  parse_fields raw hello

-- The hello, and what is left of the stream.
unfoldable pub parse_client_hello : ℕ → Bytes → Outcome HelloError (ClientHello × Bytes)
unfolding parse_payload
parse_client_hello spare input = do
  (header, rest) ← or_fail (read_full 5 input) header_unread
  fail_if (not (get_or header 0 0 == record_handshake)) not_handshake
  let payload_len = from_be16 (drop 3 header)
  fail_if (ltb (max_record_payload + 2048) payload_len) record_too_big
  (payload, rest') ← or_fail (read_full payload_len rest) payload_unread
  let full = header ++ payload
  ch ← parse_payload (record { mem = full ++ zeros spare; len = length full }) payload
  ok (ch, rest')

-- `parseSNI`: the inner loop over the names, `none` where it ends without a host name.
unfoldable pub sni_names : ℕ → Bytes → Option Bytes
sni_names zero names = none
sni_names (suc fuel) names =
    let name_len = from_be16 (drop 1 names) in
    let behind = drop 3 names in
    let later = sni_names fuel (drop name_len behind) in
    if ltb (length names) 3
    then none
    else if ltb (length behind) name_len
    then none
    else if get_or names 0 0 == 0
    then some (take name_len behind)
    else later

-- One round of the outer loop: an extension's type, its bytes and what follows, or `none` where
-- the loop ends.
unfoldable pub next_extension : Bytes → Option (ℕ × Bytes × Bytes)
next_extension exts =
    let ext_len = from_be16 (drop 2 exts) in
    let behind = drop 4 exts in
    if ltb (length exts) 4
    then none
    else if ltb (length behind) ext_len
    then none
    else some (from_be16 exts, take ext_len behind, drop ext_len behind)

-- The outer loop. Every round takes four bytes, so the length is fuel enough.
unfoldable pub parse_sni_loop : ℕ → Bytes → Bytes
unfolding sni_names
parse_sni_loop zero exts = []
parse_sni_loop (suc fuel) exts = elim (next_extension exts) [
  | none ↦ []
  | some (ext_type, ext, rest) ↦ elim (ext_type == 0x0000) [
    | false ↦ parse_sni_loop fuel rest
    | true ↦ elim (ltb (length ext) 2) [
      | true ↦ []
      | false ↦ elim (sni_names (length ext) (drop 2 ext)) [
        | some host ↦ host
        | none ↦ parse_sni_loop fuel rest
      ]
    ]
  ]
]

unfoldable pub parse_sni : Bytes → Bytes
parse_sni exts = parse_sni_loop (suc (length exts)) exts

-- `SNI()` ends in `return ""`, or in the slice of the extensions.
abbrev pub or_empty : Bool → Outcome HelloError Bytes → Outcome HelloError Bytes
or_empty true rest = ok []
or_empty false rest = rest

-- `hello[pos : pos+extLen]` has no check of its own.
unfoldable pub extensions_at : Slice → ℕ → Outcome HelloError Bytes
extensions_at hello pos = do
  len_bytes ← cut hello pos (pos + 2)
  exts ← cut hello (pos + 2) (pos + 2 + from_be16 (contents len_bytes))
  ok (parse_sni (contents exts))

unfoldable pub after_suites : Slice → ℕ → Outcome HelloError Bytes
unfolding extensions_at
after_suites hello pos = or_empty (leb hello.len pos) do
  comp_len ← at hello pos
  let pos' = pos + 1 + comp_len
  or_empty (ltb hello.len (pos' + 2)) (extensions_at hello pos')

unfoldable pub after_session : Slice → ℕ → Outcome HelloError Bytes
unfolding after_suites
after_session hello pos = or_empty (ltb hello.len (pos + 2)) do
  len_bytes ← cut hello pos (pos + 2)
  after_suites hello (pos + 2 + from_be16 (contents len_bytes))

unfoldable pub hello_sni : Slice → Outcome HelloError Bytes
unfolding after_session
hello_sni hello =
    or_empty (leb hello.len 34) do sid_len ← at hello 34; after_session hello (35 + sid_len)

unfoldable pub sni : ClientHello → Outcome HelloError Bytes
unfolding hello_sni
sni ch = or_empty (ltb ch.raw.len 5) do
  payload ← from ch.raw 5
  let bytes = payload.mem
  or_empty (ltb payload.len 4 || not (get_or bytes 0 0 == 0x01)) do
    tail ← from payload 4
    let hello_len = uint24 (get_or bytes 1 0) (get_or bytes 2 0) (get_or bytes 3 0)
    or_empty (ltb tail.len hello_len) do hello ← upto tail hello_len; hello_sni hello
