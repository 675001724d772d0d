-- ===== src/Obfuscated/Header.antt =====
-- `TryParseHeader` and `Handshake` read the same header alike.
use phantom_proxy.Common.{
  ℕ, ◌≡◌, refl, sym, ap, ◌∙◌, inl, inr, Option, none, some, ◌∷◌, ◌++◌, ◌==◌, Bool-cases, length,
  drop,
}
use phantom_proxy.Common.Int.{ℤ}
use phantom_proxy.Common.Bytes.{Bytes, from_le32}
use phantom_proxy.Common.Result.{Result, ok, err, read_full, read_full_exact}
use phantom_proxy.Obfuscated.{
  Stream, HandshakeError, conn_type, new_ctr, xor_key_stream, handshake, try_parse_header,
}

-- The data centre of a handshake that succeeds.
abbrev pub dc_of : Result HandshakeError (ℤ × Stream × Stream × Bytes) → Option ℤ
dc_of (ok (dc_id, enc, dec, rest)) = some dc_id
dc_of (err e) = none

-- On a header of 64 bytes and a secret, `TryParseHeader` finds exactly the data centre that
-- `Handshake` would find on a stream that begins with the header; it fails where that fails.
pub try_parse_header-handshake :
    (sha256 : Bytes → Bytes) (ctr : Bytes → Bytes → ℕ → ℕ) (header rest : Bytes) (c : ℕ)
    (cs : Bytes)
    → length header ≡ 64
    → try_parse_header sha256 ctr header (c ∷ cs)
      ≡ dc_of (handshake sha256 ctr (some (c ∷ cs)) (header ++ rest))
unfolding handshake try_parse_header
try_parse_header-handshake sha256 ctr header rest c cs n =
    let got : read_full 64 (header ++ rest) ≡ ok (header, rest) =
      ap (λ (k : ℕ). read_full k (header ++ rest)) (sym n) ∙ read_full_exact header rest in
    let d : Bytes = (xor_key_stream ctr (new_ctr sha256 (some (c ∷ cs)) header) header).0 in
    rw (got, handshake)
      (rw (n) (elim (Bool-cases (from_le32 (drop 56 d) == conn_type)) [
        | inl e ↦ rw e refl
        | inr e ↦ rw e refl
      ]))
