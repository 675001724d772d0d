-- ===== src/FakeTls/Hello/Parse.antt =====
-- Which ClientHello records are read, and which ones panic.
use phantom_proxy.Common.{
  ℕ, ◌+◌, ◌/◌, ◌%◌, ◌^◌, ◌≤◌, ◌<◌, ◌≡◌, refl, sym, ap, ◌∙◌, ◌⊎◌, true, [], ◌∷◌, ◌++◌, arith, leb,
  le→ltb, length, length-append, get_or, take, drop, length-drop,
}
use mathlib.Core.Path.{ap₂}
use phantom_proxy.Common.Bytes.{
  Bytes, take-append, zeros, from_be16, be16, from_be16-be16, take_front, drop_front, get_or-append,
  drop-add, drop-append_le,
}
use phantom_proxy.Common.Result.{read_full_exact}
use phantom_proxy.Common.Slice.{ok, panics, ◌>>=◌, Slice, at, cut, from, at_ok, cut_ok}
use phantom_proxy.FakeTls.Record.{record_handshake}
use phantom_proxy.FakeTls.Hello.{
  ClientHello, HelloError, uint24, cipher_suite_at, parse_fields, parse_payload, parse_client_hello,
}

-- The parts of a hello: version and random, session id, cipher suites, and what follows.
pub record Parts : Type 0 where
  pub head : Bytes
  pub sid : Bytes
  pub suites : Bytes
  pub more : Bytes

abbrev pub behind_sid : Parts → Bytes
behind_sid p = be16 (length p.suites) ++ (p.suites ++ p.more)

abbrev pub body : Parts → Bytes
body p = p.head ++ (length p.sid ∷ (p.sid ++ behind_sid p))

pub record IsHello (p : Parts) : Type 0 where
  pub head_len : length p.head ≡ 34
  pub sid_len : length p.sid < 256
  pub suites_ge : 2 ≤ length p.suites
  pub suites_lt : length p.suites < 2 ^ 16

-- The message and the record around a hello, with any version in the record's header.
abbrev pub message : Bytes → Bytes
message b = 0x01 ∷ length b / 65536 ∷ length b / 256 % 256 ∷ length b % 256 ∷ b

abbrev pub to_hello_record : ℕ → ℕ → Bytes → Bytes
to_hello_record v w payload = (record_handshake ∷ v ∷ w ∷ be16 (length payload)) ++ payload

module _ (p : Parts) (h : IsHello p) where
  abbrev hello : Slice
  hello = record { mem = body p; len = length (body p) }

  pub length-body : length (body p) ≡ 37 + length p.sid + length p.suites + length p.more
  unfolding be16
  length-body = omega (
    arith,
    h.head_len,
    length-append p.head (length p.sid ∷ (p.sid ++ behind_sid p)),
    length-append p.sid (behind_sid p),
    length-append p.suites p.more,
  )

  pub drop_head : drop 35 (body p) ≡ p.sid ++ behind_sid p
  drop_head = drop-add 34 1 (body p) ∙ ap (drop 1) (drop_front 34 p.head _ (sym h.head_len))

  pub drop_sid : drop (35 + length p.sid) (body p) ≡ behind_sid p
  drop_sid =
      drop-add 35 (length p.sid) (body p)
      ∙ ap (drop (length p.sid)) drop_head
      ∙ drop_front (length p.sid) p.sid _ refl

  pub drop_suites_len : drop (37 + length p.sid) (body p) ≡ p.suites ++ p.more
  unfolding be16
  drop_suites_len =
      ap (λ (n : ℕ). drop n (body p)) (omega arith)
      ∙ drop-add (35 + length p.sid) 2 (body p)
      ∙ ap (drop 2) drop_sid

  pub sid_byte : get_or (body p) 34 0 ≡ length p.sid
  sid_byte = get_or-append 34 p.head _ 0 (sym h.head_len)

-- The checks of the message header pass: the fields are read from the hello inside the record.
pub parse_payload_fields :
    (raw : Slice) (a b c : ℕ) (tail : Bytes)
    → 34 ≤ uint24 a b c
    → uint24 a b c ≤ length tail
    → parse_payload raw (0x01 ∷ a ∷ b ∷ c ∷ tail)
      ≡ parse_fields raw (record { mem = tail; len = uint24 a b c })
unfolding parse_payload cut from
parse_payload_fields raw a b c tail h k = ground arith

-- A hello with no byte for the session id's length, or whose session id and suites run past the
-- end of the record.
pub parse_fields_panics :
    (raw hello : Slice)
    → (hello.len ≡ 34) ⊎ (length hello.mem < 37 + get_or hello.mem 34 0)
    → parse_fields raw hello ≡ panics
unfolding parse_fields cut at
parse_fields_panics raw hello h = ground arith

abbrev pub raw_of : ℕ → Bytes → Slice
raw_of spare r = record { mem = r ++ zeros spare; len = length r }

-- The record is read whole, whatever follows it.
pub parse_record :
    (spare v w : ℕ) (payload rest : Bytes)
    → length payload ≤ 18432
    → parse_client_hello spare (to_hello_record v w payload ++ rest)
      ≡ (parse_payload (raw_of spare (to_hello_record v w payload)) payload >>= λ ch. ok (ch, rest))
unfolding parse_client_hello be16
parse_record spare v w payload rest h =
    rw (read_full_exact (record_handshake ∷ v ∷ w ∷ be16 (length payload)) (payload ++ rest)) (
      rw (from_be16-be16 (length payload) [] (omega arith))
        (rw (read_full_exact payload rest, le→ltb 18432 (length payload) h)))

-- A ClientHello record, of any sender, with a hello of exactly 34 bytes, or with a session id
-- length that leaves no room for the id and two bytes more inside the record, makes the parser
-- index or slice out of range: it panics, and never returns an error.
pub parse_client_hello_panics :
    (spare v w a b c : ℕ) (tail rest : Bytes)
    → length tail + 4 ≤ 18432
    → 34 ≤ uint24 a b c
    → uint24 a b c ≤ length tail
    → (uint24 a b c ≡ 34) ⊎ (length tail < 37 + get_or tail 34 0)
    → parse_client_hello spare (to_hello_record v w (0x01 ∷ a ∷ b ∷ c ∷ tail) ++ rest) ≡ panics
parse_client_hello_panics spare v w a b c tail rest n lo hi bad =
    let m : Bytes = 0x01 ∷ a ∷ b ∷ c ∷ tail in
    parse_record spare v w m rest (omega arith)
    ∙ ap (λ o. o >>= λ ch. ok (ch, rest))
        (parse_payload_fields (raw_of spare (to_hello_record v w m)) a b c tail lo hi
          ∙ parse_fields_panics _ (record { mem = tail; len = uint24 a b c }) bad)

module _ (p : Parts) (h : IsHello p) (raw : Slice) where
  open h use {head_len, sid_len, suites_ge, suites_lt}

  parsed : ClientHello
  parsed = record {
    raw = raw;
    random = drop 2 p.head;
    session_id = p.sid;
    cipher_suite = from_be16 p.suites;
  }

  random_lem : take 32 (drop 2 (body p)) ≡ drop 2 p.head
  random_lem =
      ap (take 32) (drop-append_le 2 p.head _ (omega arith))
      ∙ take_front 32 (drop 2 p.head) _ (omega (arith, length-drop 2 p.head))

  cut_random :
      cut {E = HelloError} (hello p h) 2 34 ≡ ok (record { mem = drop 2 (body p); len = 32 })
  cut_random = cut_ok (hello p h) 2 34 (omega arith) (omega (arith, length-body p h))

  at_sid : at {E = HelloError} (hello p h) 34 ≡ ok (length p.sid)
  at_sid = at_ok (hello p h) 34 (omega (arith, length-body p h)) ∙ ap ok (sid_byte p h)

  cut_sid :
      cut {E = HelloError} (hello p h) 35 (35 + length p.sid)
      ≡ ok (record { mem = p.sid ++ behind_sid p; len = length p.sid })
  cut_sid =
      cut_ok (hello p h) 35 (35 + length p.sid) (omega arith) (omega (arith, length-body p h))
      ∙ ap₂ (λ m n. ok (record { mem = m; len = n })) (drop_head p h) (omega arith)

  cut_suites_len :
      cut {E = HelloError} (hello p h) (35 + length p.sid) (37 + length p.sid)
      ≡ ok (record { mem = behind_sid p; len = 2 })
  cut_suites_len =
      cut_ok (hello p h) (35 + length p.sid) (37 + length p.sid) (omega arith)
        (omega (arith, length-body p h))
      ∙ ap₂ (λ m n. ok (record { mem = m; len = n })) (drop_sid p h) (omega arith)

  cut_suite :
      cut {E = HelloError} (hello p h) (37 + length p.sid) (37 + length p.sid + 2)
      ≡ ok (record { mem = p.suites ++ p.more; len = 2 })
  cut_suite =
      cut_ok (hello p h) (37 + length p.sid) (37 + length p.sid + 2) (omega arith)
        (omega (arith, length-body p h))
      ∙ ap₂ (λ m n. ok (record { mem = m; len = n })) (drop_suites_len p h) (omega arith)

  suites_len : from_be16 (take 2 (behind_sid p)) ≡ length p.suites
  unfolding be16
  suites_len = from_be16-be16 (length p.suites) [] suites_lt

  first_suite : from_be16 (take 2 (p.suites ++ p.more)) ≡ from_be16 p.suites
  unfolding from_be16
  first_suite = first p.suites suites_ge
    where
      first : (s : Bytes) → 2 ≤ length s → from_be16 (take 2 (s ++ p.more)) ≡ from_be16 s
      first [] k = absurd (omega arith)
      first (a ∷ []) k = absurd (omega arith)
      first (a ∷ b ∷ s) k = refl

  parse_fields-hello : parse_fields raw (hello p h) ≡ ok parsed
  unfolding parse_fields cipher_suite_at parsed
  parse_fields-hello =
      let ge_two : leb 2 (length p.suites) ≡ true = ground arith in
      rw (cut_random, at_sid, cut_sid, cut_suites_len, suites_len)
        (rw (ge_two, cipher_suite_at)
          (rw (cut_suite) (rw (random_lem, take-append p.sid (behind_sid p), first_suite))))

-- A well-formed ClientHello record of at most 18 KB, with any version in its header, is read
-- whole: the result holds the record itself, the 32 random bytes, the session id and the first
-- cipher suite, and the bytes behind the record stay in the stream.
pub parse_client_hello-record :
    (spare v w : ℕ) (p : Parts) (rest : Bytes)
    → IsHello p
    → length (body p) ≤ 18000
    → parse_client_hello spare (to_hello_record v w (message (body p)) ++ rest)
      ≡ ok (
        record {
          raw = raw_of spare (to_hello_record v w (message (body p)));
          random = drop 2 p.head;
          session_id = p.sid;
          cipher_suite = from_be16 p.suites;
        },
        rest,
      )
unfolding parsed
parse_client_hello-record spare v w p rest h fits =
    let n = length (body p) in
    let raw = raw_of spare (to_hello_record v w (message (body p))) in
    let same : uint24 (n / 65536) (n / 256 % 256) (n % 256) ≡ n = omega (arith, fits) in
    parse_record spare v w (message (body p)) rest (omega (arith, fits))
    ∙ ap (λ o. o >>= λ ch. ok (ch, rest))
        (parse_payload_fields raw _ _ _ (body p) (omega (arith, same, length-body p h))
            (omega arith)
          ∙ ap (λ (m : ℕ). parse_fields raw (record { mem = body p; len = m })) same
          ∙ parse_fields-hello p h raw)
