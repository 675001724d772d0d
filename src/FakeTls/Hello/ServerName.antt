-- ===== src/FakeTls/Hello/ServerName.antt =====
-- The server name of a ClientHello: `SNI` on well-formed hellos, and where it panics.
use phantom_proxy.Common.{
  ℕ, ◌+◌, ◌/◌, ◌%◌, ◌^◌, ◌≤◌, ◌<◌, ◌≡◌, refl, ap, ◌∙◌, inl, inr, false, [], ◌∷◌, ◌++◌, append_assoc,
  arith, ltb, leb, if◌then◌else◌, ltb→lt, Bool-cases, length, length-append, get_or, take, drop,
}
use mathlib.Core.Path.{ap₂}
use phantom_proxy.Common.Bytes.{
  Bytes, get_or-drop, zeros, length-zeros, from_be16, be16, from_be16-be16, drop_front, drop-add,
}
use phantom_proxy.Common.Slice.{ok, panics, Slice, cut, from, at_ok, cut_ok, cut_panics}
use phantom_proxy.FakeTls.Hello.{
  ClientHello, HelloError, uint24, parse_sni, extensions_at, after_suites, after_session, hello_sni,
  sni,
}
use phantom_proxy.FakeTls.Hello.Parse.{
  Parts, IsHello, body, behind_sid, message, to_hello_record, raw_of, length-body, sid_byte,
  drop_sid, drop_suites_len,
}

-- What follows the suites: the compression methods, the announced length and the bytes there.
abbrev pub tail_of : Bytes → ℕ → Bytes → Bytes
tail_of comp n exts = length comp ∷ (comp ++ (be16 n ++ exts))

module _ (p : Parts) (h : IsHello p) (comp : Bytes) (n : ℕ) (exts : Bytes) (len : ℕ)
    (more_lem : p.more ≡ tail_of comp n exts) (n_lt : n < 2 ^ 16)
    (len_ge : 40 + length p.sid + length p.suites + length comp ≤ len)
    (len_le : len ≤ length (body p)) where
  abbrev hello : Slice
  hello = record { mem = body p; len = len }

  abbrev at_comp : ℕ
  at_comp = 37 + length p.sid + length p.suites

  length_all : length (body p) ≡ at_comp + 3 + length comp + length exts
  unfolding be16
  length_all =
      omega (arith, length-body p h, ap length more_lem, length-append comp (be16 n ++ exts))

  drop_comp : drop at_comp (body p) ≡ tail_of comp n exts
  drop_comp =
      drop-add (37 + length p.sid) (length p.suites) (body p)
      ∙ ap (drop (length p.suites)) (drop_suites_len p h)
      ∙ drop_front (length p.suites) p.suites p.more refl
      ∙ more_lem

  drop_exts_len : drop (at_comp + 1 + length comp) (body p) ≡ be16 n ++ exts
  drop_exts_len =
      drop-add (at_comp + 1) (length comp) (body p)
      ∙ ap (drop (length comp)) (drop-add at_comp 1 (body p) ∙ ap (drop 1) drop_comp)
      ∙ drop_front (length comp) comp _ refl

  comp_byte : get_or (body p) at_comp 0 ≡ length comp
  comp_byte = get_or-drop at_comp (body p) 0 ∙ ap (λ (l : Bytes). get_or l 0 0) drop_comp

  abbrev at_exts : ℕ
  at_exts = at_comp + 1 + length comp

  cut_exts_len :
      cut {E = HelloError} hello at_exts (at_exts + 2)
      ≡ ok (record { mem = be16 n ++ exts; len = 2 })
  cut_exts_len =
      cut_ok hello at_exts (at_exts + 2) (omega arith) (omega (arith, length_all))
      ∙ ap₂ (λ m k. ok (record { mem = m; len = k })) drop_exts_len (omega arith)

  announced : from_be16 (take 2 (be16 n ++ exts)) ≡ n
  unfolding be16
  announced = from_be16-be16 n [] n_lt

  drop_exts : drop (at_exts + 2) (body p) ≡ exts
  unfolding be16
  drop_exts = drop-add at_exts 2 (body p) ∙ ap (drop 2) drop_exts_len

  cut_exts :
      n ≤ length exts
      → cut {E = HelloError} hello (at_exts + 2) (at_exts + 2 + n)
        ≡ ok (record { mem = exts; len = n })
  cut_exts k =
      cut_ok hello (at_exts + 2) (at_exts + 2 + n) (omega arith) (omega (arith, length_all))
      ∙ ap₂ (λ m l. ok (record { mem = m; len = l })) drop_exts (omega arith)

  extensions_at_lem :
      extensions_at hello at_exts
      ≡ (if ltb (length exts) n then panics else ok (parse_sni (take n exts)))
  unfolding extensions_at
  extensions_at_lem = elim (Bool-cases (ltb (length exts) n)) [
    | inl short ↦
        rw (cut_exts_len, announced)
          (rw (
            cut_panics hello (at_exts + 2) (at_exts + 2 + n)
                (omega (arith, length_all, ltb→lt (length exts) n short)),
            short,
          ))
    | inr enough ↦ rw (cut_exts_len, announced) (rw (cut_exts (ground arith), enough))
  ]

  after_suites_lem : after_suites hello at_comp ≡ extensions_at hello at_exts
  unfolding after_suites
  after_suites_lem =
      let e : leb len at_comp ≡ false = ground arith in
      let f : ltb len (at_exts + 2) ≡ false = ground arith in
      rw (e, at_ok hello at_comp (omega arith), comp_byte) (rw f)

  cut_suites_len :
      cut {E = HelloError} hello (35 + length p.sid) (35 + length p.sid + 2)
      ≡ ok (record { mem = behind_sid p; len = 2 })
  cut_suites_len =
      cut_ok hello (35 + length p.sid) (35 + length p.sid + 2) (omega arith)
        (omega (arith, length_all))
      ∙ ap₂ (λ m k. ok (record { mem = m; len = k })) (drop_sid p h) (omega arith)

  suites_announced : from_be16 (take 2 (behind_sid p)) ≡ length p.suites
  unfolding be16
  suites_announced = from_be16-be16 (length p.suites) [] h.suites_lt

  -- A hello with its session id, suites and compression methods in place: the announced
  -- extensions are searched, or the slicing panics where they would pass the capacity.
  pub hello_sni_lem :
      hello_sni hello ≡ (if ltb (length exts) n then panics else ok (parse_sni (take n exts)))
  unfolding hello_sni after_session
  hello_sni_lem =
      let a : leb len 34 ≡ false = ground arith in
      let b : ltb len (35 + length p.sid + 2) ≡ false = ground arith in
      let c : 35 + length p.sid + 2 + length p.suites ≡ at_comp = omega arith in
      rw (a, at_ok hello 34 (omega arith), sid_byte p h)
        (rw (b, cut_suites_len, suites_announced, c) (after_suites_lem ∙ extensions_at_lem))

-- Behind the record's and the message's header.
sni_hello :
    (ch : ClientHello) (q v w x y a b c m : ℕ) (tail : Bytes)
    → ch.raw ≡ record { mem = q ∷ v ∷ w ∷ x ∷ y ∷ 0x01 ∷ a ∷ b ∷ c ∷ tail; len = m }
    → 9 + uint24 a b c ≤ m
    → m ≤ 9 + length tail
    → sni ch ≡ hello_sni (record { mem = tail; len = uint24 a b c })
unfolding sni from cut
sni_hello ch q v w x y a b c m tail e h k = rw e (ground arith)

-- `SNI` on a hello in a whole record, whose extensions are announced as `n` bytes and are `exts`,
-- to the end of the hello. Within the record and the spare zero bytes behind it the announced
-- bytes are searched for the name; if `n` passes them all, `SNI` panics.
pub sni-record :
    (ch : ClientHello) (spare v w n : ℕ) (p : Parts) (comp exts : Bytes)
    → IsHello p
    → length (body p) ≤ 18000
    → p.more ≡ tail_of comp n exts
    → n < 2 ^ 16
    → ch.raw ≡ raw_of spare (to_hello_record v w (message (body p)))
    → sni ch ≡ (
        if ltb (length exts + spare) n
        then panics
        else ok (parse_sni (take n (exts ++ zeros spare))))
unfolding be16
sni-record ch spare v w n p comp exts h fits e k r =
    let wide : Parts = record p { more = p.more ++ zeros spare } in
    let len = length (body p) in
    let same : uint24 (len / 65536) (len / 256 % 256) (len % 256) ≡ len = omega arith in
    let longer : body p ++ zeros spare ≡ body wide = simp append_assoc in
    let more' : wide.more ≡ tail_of comp n (exts ++ zeros spare) = simp (e, append_assoc) in
    let h' : IsHello wide = record {
      head_len = h.head_len;
      sid_len = h.sid_len;
      suites_ge = h.suites_ge;
      suites_lt = h.suites_lt;
    } in
    let room : 40 + length p.sid + length p.suites + length comp ≤ len =
      omega (arith, length-body p h, ap length e, length-append comp (be16 n ++ exts)) in
    let whole = to_hello_record v w (message (body p)) in
    let mk : ℕ → Slice = λ m. record { mem = whole ++ zeros spare; len = m } in
    let nine : length whole ≡ 9 + len = omega arith in
    sni_hello ch _ v w _ _ _ _ _ (9 + len) (body p ++ zeros spare) (r ∙ ap mk nine) (omega arith)
      (omega (arith, length-append (body p) (zeros spare)))
    ∙ ap₂ (λ t m. hello_sni (record { mem = t; len = m })) longer same
    ∙ hello_sni_lem wide h' comp n (exts ++ zeros spare) len more' k (omega (arith, room))
        (omega (arith, ap length longer, length-append (body p) (zeros spare)))
    ∙ ap (λ (m : ℕ). if ltb m n then panics else ok (parse_sni (take n (exts ++ zeros spare))))
        (length-append exts (zeros spare) ∙ ap (λ (m : ℕ). length exts + m) (length-zeros spare))
