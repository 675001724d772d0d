-- ===== src/FakeTls/Hello/Extensions.antt =====
-- `parseSNI` on a list of extensions.
use phantom_proxy.Common.{
  ℕ, zero, suc, ◌+◌, ◌^◌, ◌≤◌, ◌<◌, ◌≡◌, ap, ◌∙◌, false, some, List, [], ◌∷◌, ◌++◌, append_assoc,
  arith, ltb, ◌==◌, le→ltb, length, length-append, drop,
}
use phantom_proxy.Common.Bytes.{
  Bytes, take_all, be16, from_be16-be16, take-append, drop-append, All,
}
use phantom_proxy.FakeTls.Hello.{sni_names, next_extension, parse_sni_loop, parse_sni}

-- The bytes of a server name extension: a list with one host name.
abbrev pub name_list : Bytes → Bytes
name_list host = be16 (length host + 3) ++ (0x00 ∷ (be16 (length host) ++ host))

abbrev pub Extension : Type 0
Extension = ℕ × Bytes

abbrev pub to_extensions : List Extension → Bytes
to_extensions [] = []
to_extensions ((t, d) ∷ es) = be16 t ++ (be16 (length d) ++ (d ++ to_extensions es))

-- Other extensions: not of the type of a server name.
abbrev pub IsOther : Extension → Type 0
IsOther e = (0 < e.0) × (e.0 < 2 ^ 16) × (length e.1 < 2 ^ 16)

next_extension_lem :
    (t : ℕ) (d rest : Bytes)
    → t < 2 ^ 16
    → length d < 2 ^ 16
    → next_extension (be16 t ++ (be16 (length d) ++ (d ++ rest))) ≡ some (t, d, rest)
unfolding next_extension be16
next_extension_lem t d rest ht hd = ground (
  arith,
  from_be16-be16 t (be16 (length d) ++ (d ++ rest)) ht,
  from_be16-be16 (length d) (d ++ rest) hd,
  take-append d rest,
  drop-append d rest,
  length-append d rest,
)

parse_sni_other :
    (fuel t : ℕ) (d rest : Bytes)
    → 0 < t
    → t < 2 ^ 16
    → length d < 2 ^ 16
    → parse_sni_loop (suc fuel) (be16 t ++ (be16 (length d) ++ (d ++ rest)))
      ≡ parse_sni_loop fuel rest
unfolding parse_sni_loop
parse_sni_other fuel t d rest h ht hd =
    let e : (t == 0) ≡ false = ground arith in
    rw (next_extension_lem t d rest ht hd, parse_sni_loop) (rw (e))

sni_names_lem :
    (fuel : ℕ) (host : Bytes)
    → length host < 2 ^ 16
    → sni_names (suc fuel) (0x00 ∷ (be16 (length host) ++ host)) ≡ some host
unfolding sni_names be16
sni_names_lem fuel host h =
    ground (arith, from_be16-be16 (length host) host h, take_all (length host) host)

parse_sni_name :
    (fuel : ℕ) (host rest : Bytes)
    → length host + 5 < 2 ^ 16
    → parse_sni_loop
        (suc fuel)
        (be16 0 ++ (be16 (length (name_list host)) ++ (name_list host ++ rest)))
      ≡ host
unfolding parse_sni_loop
parse_sni_name fuel host rest h =
    let size : length (name_list host) ≡ length host + 5 = unfold be16 in omega arith in
    let found : sni_names (length host + 5) (drop 2 (name_list host)) ≡ some host =
      unfold be16 in
      ap (λ (m : ℕ). sni_names m (0x00 ∷ (be16 (length host) ++ host)))
        (let five : length host + 5 ≡ suc (length host + 4) = omega arith in five)
      ∙ sni_names_lem (length host + 4) host (omega arith) in
    let e : ltb (length (name_list host)) 2 ≡ false =
      le→ltb (length (name_list host)) 2 (omega arith) in
    rw (next_extension_lem 0 (name_list host) rest (omega arith) (omega arith), parse_sni_loop)
      (rw (e, size) (rw found))

parse_sni_loop_lem :
    (es : List Extension) (host rest : Bytes)
    → All IsOther es
    → length host + 5 < 2 ^ 16
    → (fuel : ℕ) → length es < fuel
    → parse_sni_loop fuel (
        to_extensions es
        ++ (be16 0 ++ (be16 (length (name_list host)) ++ (name_list host ++ rest))))
      ≡ host
unfolding be16
parse_sni_loop_lem es host rest a h zero f = absurd (omega arith)
parse_sni_loop_lem [] host rest a h (suc fuel) f = parse_sni_name fuel host rest h
parse_sni_loop_lem ((t, d) ∷ es) host rest a h (suc fuel) f =
    let name = be16 0 ++ (be16 (length (name_list host)) ++ (name_list host ++ rest)) in
    ap (λ (l : Bytes). parse_sni_loop (suc fuel) (be16 t ++ (be16 (length d) ++ l)))
      (append_assoc d (to_extensions es) name)
    ∙ parse_sni_other fuel t d (to_extensions es ++ name) a.0.0 a.0.1 a.0.2
    ∙ parse_sni_loop_lem es host rest a.1 h fuel (omega arith)

length-to_extensions_ge : (es : List Extension) → length es ≤ length (to_extensions es)
unfolding be16
length-to_extensions_ge [] = omega arith
length-to_extensions_ge ((t, d) ∷ es) =
    omega (arith, length-to_extensions_ge es, length-append d (to_extensions es))

-- Of a list of extensions `parseSNI` returns the host name of the first server name extension,
-- whatever other extensions stand before it and whatever bytes follow.
pub parse_sni_lem :
    (es : List Extension) (host rest : Bytes)
    → All IsOther es
    → length host + 5 < 2 ^ 16
    → parse_sni (
        to_extensions es
        ++ (be16 0 ++ (be16 (length (name_list host)) ++ (name_list host ++ rest))))
      ≡ host
unfolding parse_sni
parse_sni_lem es host rest a h = parse_sni_loop_lem es host rest a h _ (
    omega (
      arith,
      length-to_extensions_ge es,
      length-append (to_extensions es)
          (be16 0 ++ (be16 (length (name_list host)) ++ (name_list host ++ rest))),
    ))
