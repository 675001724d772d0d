-- ===== src/Examples/FakeTls.antt =====
-- Fake TLS at concrete inputs: a random source that fails at every third call, a connection that
-- fails at its third write, and a keyed hash that is a constant.
use phantom_proxy.Common.{
  ℕ, suc, ◌+◌, ◌%◌, ◌≤◌, ◌<◌, ◌≡◌, refl, ◌≢◌, ◌⊎◌, inl, Bool, true, false, not, ◌||◌, Option, none,
  some, List, [], ◌∷◌, ◌++◌, arith, ltb, leb, ◌==◌, if◌then◌else◌, length, take, drop,
}
use phantom_proxy.Common.Int.{pos}
use phantom_proxy.Common.Bytes.{
  Bytes, All, IsByte, zeros, be16, codes, flatten, from_be16, from_le32,
}
use phantom_proxy.Common.Result.{eof, ok, err}
use phantom_proxy.Common.Slice.{Outcome, panics}
use phantom_proxy.Common.Xor.{xor_bytes}
use phantom_proxy.FakeTls.Random.{Rand}
use phantom_proxy.FakeTls.Policy.{RecordPolicy}
use phantom_proxy.FakeTls.Record.{RecordConn, Written, write}
use phantom_proxy.FakeTls.Record.Write.{Sends, write-Sends}
use phantom_proxy.FakeTls.Record.Read.{drain}
use phantom_proxy.FakeTls.Record.RoundTrip.{drain-write}
use phantom_proxy.FakeTls.Hello.{ClientHello, parse_client_hello, sni, parse_sni}
use phantom_proxy.FakeTls.Hello.Parse.{
  Parts, IsHello, body, message, to_hello_record, raw_of, parse_client_hello_panics,
  parse_client_hello-record,
}
use phantom_proxy.FakeTls.Hello.ServerName.{tail_of, sni-record}
use phantom_proxy.FakeTls.Hello.Extensions.{Extension, to_extensions, name_list, parse_sni_lem}
use phantom_proxy.FakeTls.Digest.{
  bad_timestamp, check_digest, sign_record, without_random, clock_diff,
}
use phantom_proxy.FakeTls.Digest.Laws.{check_digest_sound, check_digest-sign_record}

abbrev draw : ℕ → ℕ → Option ℕ
draw k m = if k % 3 == 2 || leb m 5 then none else some 5

draw-lt : (k m n : ℕ) → draw k m ≡ some n → n < m
draw-lt k m n e = ground arith

abbrev rnd : Rand
rnd = record { int = draw; int-lt = draw-lt }

abbrev works : ℕ → Bool
works k = not (k == 2)

abbrev tidy : RecordPolicy
tidy = record {
  min_chunk = pos 2;
  max_chunk = pos 7;
  enable_drs = false;
  enable_split_tls = true;
  record_jitter_ms = pos 0;
  decoy_permille = pos 0;
}

abbrev conn : RecordConn
conn = record {
  policy = tidy;
  records_written = 0;
  bytes_written = 0;
  split_done = false;
  sent = [];
  attempts = 0;
  draws = 0;
}

abbrev greeting : Bytes
greeting = codes "hello, world"

write-Sends_example :
    (r : Written) × (write rnd works conn greeting ≡ some r) × Sends conn greeting 0 r
write-Sends_example = write-Sends rnd works conn greeting

-- What that call of `Write` did.
abbrev done : Written
done = (write-Sends rnd works conn greeting).0

drain-write_example :
    (drain
        (suc (length (flatten done.0.sent)))
        4
        (record { read_buf = []; input = flatten done.0.sent })
      ≡ some (take done.1 greeting, eof))
    × ((done.2 ≢ none) ⊎ (take done.1 greeting ≡ greeting))
drain-write_example =
    drain-write rnd works conn done.0 greeting 4 done.1 done.2 refl (omega arith)
      (write-Sends rnd works conn greeting).1

-- A hello with a session id of two bytes and one cipher suite.
abbrev parts : Parts
parts = record {
  head = 0x03 ∷ 0x03 ∷ zeros 32;
  sid = 7 ∷ 8 ∷ [];
  suites = 0x13 ∷ 0x01 ∷ [];
  more = tail_of (0 ∷ []) 300 (1 ∷ 2 ∷ []);
}

parts-IsHello : IsHello parts
unfolding zeros
parts-IsHello = record {
  head_len = refl;
  sid_len = omega arith;
  suites_ge = omega arith;
  suites_lt = omega arith;
}

parse_client_hello-record_example :
    parse_client_hello 16 (to_hello_record 3 1 (message (body parts)) ++ (9 ∷ []))
    ≡ Outcome.ok (
      record {
        raw = raw_of 16 (to_hello_record 3 1 (message (body parts)));
        random = drop 2 parts.head;
        session_id = parts.sid;
        cipher_suite = from_be16 parts.suites;
      },
      9 ∷ [],
    )
parse_client_hello-record_example =
    parse_client_hello-record 16 3 1 parts (9 ∷ []) parts-IsHello (unfold zeros be16 in omega arith)

abbrev short_hello : Bytes
short_hello = zeros 34

parse_client_hello_panics_example :
    parse_client_hello 16 (to_hello_record 3 1 (0x01 ∷ 0 ∷ 0 ∷ 34 ∷ short_hello) ++ []) ≡ panics
unfolding zeros
parse_client_hello_panics_example =
    parse_client_hello_panics 16 3 1 0 0 34 short_hello [] (omega arith) (omega arith) (omega arith)
      (inl refl)

abbrev seen : ClientHello
seen = record {
  raw = raw_of 16 (to_hello_record 3 1 (message (body parts)));
  random = drop 2 parts.head;
  session_id = parts.sid;
  cipher_suite = 0x1301;
}

-- The extensions are announced as 300 bytes, two of which are there.
sni-record_example : sni seen ≡ (
    if ltb (2 + 16) 300
    then panics
    else Outcome.ok (parse_sni (take 300 ((1 ∷ 2 ∷ []) ++ zeros 16))))
sni-record_example =
    sni-record seen 16 3 1 300 parts (0 ∷ []) (1 ∷ 2 ∷ []) parts-IsHello
      (unfold zeros be16 in omega arith) refl (omega arith) refl

abbrev others : List Extension
others = (43, 2 ∷ 3 ∷ 4 ∷ []) ∷ []

parse_sni_lem_example :
    parse_sni (
      to_extensions others
      ++ (be16 0
          ++ (be16 (length (name_list (codes "a.org")))
              ++ (name_list (codes "a.org") ++ (5 ∷ [])))))
    ≡ codes "a.org"
parse_sni_lem_example =
    parse_sni_lem others (codes "a.org") (5 ∷ []) ((omega arith, omega arith, omega arith), tt)
      (omega arith)

abbrev hash : Bytes → Bytes → Bytes
hash k m = zeros 32

length-hash : (k m : Bytes) → length (hash k m) ≡ 32
unfolding zeros
length-hash k m = refl

hash-IsByte : (k m : Bytes) → All IsByte (hash k m)
unfolding zeros
hash-IsByte k m = ground arith

check_digest-sign_record_example :
    check_digest hash 1000
      (codes "key")
      (sign_record hash 900 (codes "key") (zeros 50))
      (take 32 (drop 11 (sign_record hash 900 (codes "key") (zeros 50))))
    ≡ (if ltb 120 (clock_diff 1000 900) then err bad_timestamp else ok tt)
unfolding zeros
check_digest-sign_record_example =
    check_digest-sign_record hash length-hash hash-IsByte 900 (codes "key") (zeros 50) (omega arith)
      1000 (omega arith)

abbrev signed : Bytes
signed = sign_record hash 900 (codes "key") (zeros 50)

check_digest_sound_example :
    (43 ≤ length signed)
    × (take 28 (hash (codes "key") (without_random signed)) ≡ take 28 (take 32 (drop 11 signed)))
    × (clock_diff 1000 (
          from_le32 (
            drop 28
              (xor_bytes (hash (codes "key") (without_random signed)) (take 32 (drop 11 signed)))))
        ≤ 120)
check_digest_sound_example =
    check_digest_sound hash 1000 (codes "key") signed (take 32 (drop 11 signed))
      check_digest-sign_record_example
