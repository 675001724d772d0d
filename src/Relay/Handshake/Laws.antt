-- ===== src/Relay/Handshake/Laws.antt =====
-- What the Back server learns from a handshake, and which handshakes it accepts.
use mathlib.Core.Path.{ap₂}
use phantom_proxy.Common.{
  ℕ, ◌%◌, ◌^◌, ◌≡◌, refl, sym, ap, ◌∙◌, inl, inr, not, [], ◌++◌, append-nil, append_assoc, arith,
  if◌then◌else◌, length, length-append, take, drop, take-append-drop, length-take, length-drop,
}
use phantom_proxy.Common.Int.{ℤ, IsInt16, wrap16, signed16, signed16-wrap16, wrap16-lt}
use phantom_proxy.Common.Bytes.{
  Bytes, eqb, eqb_iff, eqb_refl, be16, from_be16, from_be16-be16, take_front, drop_front, drop-add,
}
use phantom_proxy.Common.Result.{
  ok, err, Result-cases, ReadError, read_full, read_full_exact, read_full_splits,
}
use phantom_proxy.Relay.Handshake.{
  bad_magic, bad_auth, short_handshake, Net, Meta, magic, derive_key, parse_client_addr,
  address_bytes, front_handshake, read_meta, accept_back,
}

module _ (net : Net) (hmac : Bytes → Bytes → Bytes) where
  accept_fields :
      (psk nonce tag dc rest later : Bytes)
      → length nonce ≡ 16
      → length tag ≡ 32
      → length dc ≡ 2
      → tag ≡ hmac psk nonce
      → accept_back net hmac psk (magic ++ (nonce ++ (tag ++ (dc ++ rest)))) later
        ≡ ok (
          derive_key hmac psk nonce,
          (read_meta net (signed16 (from_be16 dc)) rest later).0,
          (read_meta net (signed16 (from_be16 dc)) rest later).1,
        )
  unfolding accept_back eqb
  accept_fields psk nonce tag dc rest later hn ht hd auth =
      let hdr : Bytes = magic ++ (nonce ++ (tag ++ dc)) in
      let n1 : length hdr ≡ 54 =
        omega (arith, length-append nonce (tag ++ dc), length-append tag dc) in
      let whole : magic ++ (nonce ++ (tag ++ (dc ++ rest))) ≡ hdr ++ rest = simp append_assoc in
      let got : read_full 54 (magic ++ (nonce ++ (tag ++ (dc ++ rest)))) ≡ ok (hdr, rest) =
        ap (read_full 54) whole
        ∙ ap (λ (k : ℕ). read_full k (hdr ++ rest)) (sym n1)
        ∙ read_full_exact hdr rest in
      let e1 : take 16 (drop 4 hdr) ≡ nonce = take_front 16 nonce (tag ++ dc) (sym hn) in
      let d1 : drop 16 (drop 4 hdr) ≡ tag ++ dc = drop_front 16 nonce (tag ++ dc) (sym hn) in
      let d2 : drop 20 hdr ≡ tag ++ dc = drop-add 4 16 hdr ∙ d1 in
      let e2 : take 32 (drop 20 hdr) ≡ tag = ap (take 32) d2 ∙ take_front 32 tag dc (sym ht) in
      let e3 : drop 52 hdr ≡ dc =
        drop-add 20 32 hdr ∙ ap (drop 32) d2 ∙ drop_front 32 tag dc (sym ht) in
      rw (got, accept_back) (rw (e1, e2, e3) (rw (auth, eqb_refl (hmac psk nonce)) refl))

  -- The address that comes with the metadata, when its six bytes are there in time.
  read_meta_arrived :
      (dc_id : ℤ) (ip4 port later : Bytes)
      → length ip4 ≡ 4
      → length port ≡ 2
      → read_meta net dc_id (ip4 ++ port) later ≡ (
        record { dc_id = dc_id; client_ip = net.ip_string ip4; client_port = from_be16 port },
        later,
      )
  unfolding read_meta
  read_meta_arrived dc_id ip4 port later h4 h2 =
      let n6 : length (ip4 ++ port) ≡ 6 = omega (arith, length-append ip4 port) in
      let got : read_full 6 (ip4 ++ port) ≡ ok (ip4 ++ port, []) =
        ap (read_full 6) (sym (append-nil (ip4 ++ port)))
        ∙ ap (λ (k : ℕ). read_full k ((ip4 ++ port) ++ [])) (sym n6)
        ∙ read_full_exact (ip4 ++ port) [] in
      rw (got, read_meta) (rw (take_front 4 ip4 port (sym h4), drop_front 4 ip4 port (sym h4)) refl)

  -- A Back server with the same pre-shared key accepts what `DialFront` sends, whatever the nonce:
  -- it derives the session key of the Front side, and it reads back the data centre, the four
  -- address bytes and the port modulo 2 ^ 16. The data centre fits 16 bits, the nonce, the tag
  -- and a parsed address have the lengths their packages document, and the address bytes arrive
  -- before the deadline.
  pub accept_back-front_handshake :
      (psk nonce : Bytes) (dc_id : ℤ) (client_addr later : Bytes)
      → length nonce ≡ 16
      → ((k m : Bytes) → length (hmac k m) ≡ 32)
      → ((s : Bytes) → length (address_bytes net (net.parse_ip4 s)) ≡ 4)
      → IsInt16 dc_id
      → accept_back net hmac psk (front_handshake net hmac psk nonce dc_id client_addr) later
        ≡ ok (
          derive_key hmac psk nonce,
          record {
            dc_id = dc_id;
            client_ip =
                net.ip_string
                  (address_bytes net (net.parse_ip4 (parse_client_addr net client_addr).0));
            client_port = (parse_client_addr net client_addr).1 % 2 ^ 16;
          },
          later,
        )
  unfolding front_handshake be16
  accept_back-front_handshake psk nonce dc_id client_addr later hn hh h4 hd =
      let ip4 : Bytes = address_bytes net (net.parse_ip4 (parse_client_addr net client_addr).0) in
      let port : ℕ = (parse_client_addr net client_addr).1 % 2 ^ 16 in
      let dc : Bytes = be16 (wrap16 dc_id) in
      let back : signed16 (from_be16 dc) ≡ dc_id =
        ap signed16 (from_be16-be16 (wrap16 dc_id) [] (wrap16-lt dc_id))
        ∙ signed16-wrap16 dc_id hd in
      let p : from_be16 (be16 port) ≡ port = from_be16-be16 port [] (omega arith) in
      let r : read_meta net (signed16 (from_be16 dc)) (ip4 ++ be16 port) later
          ≡ (record { dc_id = dc_id; client_ip = net.ip_string ip4; client_port = port }, later) =
        read_meta_arrived (signed16 (from_be16 dc)) ip4 (be16 port) later
          (h4 (parse_client_addr net client_addr).0) refl
        ∙ ap₂
            (λ (d : ℤ) (q : ℕ).
              (record { dc_id = d; client_ip = net.ip_string ip4; client_port = q }, later))
            back p in
      accept_fields psk nonce (hmac psk nonce) dc (ip4 ++ be16 port) later hn (hh psk nonce) refl
        refl
      ∙ ap (λ (x : Meta × Bytes). ok (derive_key hmac psk nonce, x.0, x.1)) r

  accepted_fields :
      (psk input later key left : Bytes) (info : Meta) (hdr rest : Bytes)
      → read_full 54 input ≡ ok (hdr, rest)
      → accept_back net hmac psk input later ≡ ok (key, info, left)
      → (take 4 hdr ≡ magic)
        × (take 32 (drop 20 hdr) ≡ hmac psk (take 16 (drop 4 hdr)))
        × (key ≡ derive_key hmac psk (take 16 (drop 4 hdr)))
  unfolding accept_back
  accepted_fields psk input later key left info hdr rest eq h =
      let nonce : Bytes = take 16 (drop 4 hdr) in
      let tag : Bytes = take 32 (drop 20 hdr) in
      let r : Meta × Bytes = read_meta net (signed16 (from_be16 (drop 52 hdr))) rest later in
      let step : (if not (eqb (take 4 hdr) magic)
            then err bad_magic
            else if not (eqb tag (hmac psk nonce))
            then err bad_auth
            else ok (derive_key hmac psk nonce, r.0, r.1))
          ≡ ok (key, info, left) =
        sym (rw (eq, accept_back) refl) ∙ h in
      ground (arith, eqb_iff (take 4 hdr) magic, eqb_iff tag (hmac psk nonce), step)

  refused :
      {A : Type 0} {a : Bytes × Meta × Bytes} (e : ReadError) → err (short_handshake e) ≡ ok a → A
  refused e h = cc

  -- A connection that is accepted began with the magic bytes, a nonce and the tag
  -- `HMAC(psk, nonce)`: without the key, a tag has to be guessed.
  pub accept_back_sound :
      (psk input later key left : Bytes) (info : Meta)
      → accept_back net hmac psk input later ≡ ok (key, info, left)
      → (nonce : Bytes) × (rest : Bytes) × (input ≡ magic ++ (nonce ++ (hmac psk nonce ++ rest)))
        × (length nonce ≡ 16)
        × (key ≡ derive_key hmac psk nonce)
  unfolding accept_back
  accept_back_sound psk input later key left info h = elim (Result-cases (read_full 54 input)) [
    | inr (e, eq) ↦ refused e (sym (rw (eq, accept_back) refl) ∙ h)
    | inl ((hdr, rest), eq) ↦
        let split = read_full_splits 54 input hdr rest eq in
        let nonce : Bytes = take 16 (drop 4 hdr) in
        let tag : Bytes = take 32 (drop 20 hdr) in
        let facts : (take 4 hdr ≡ magic)
            × (tag ≡ hmac psk nonce)
            × (key ≡ derive_key hmac psk nonce) =
          accepted_fields psk input later key left info hdr rest eq h in
        let d20 : drop 20 hdr ≡ drop 16 (drop 4 hdr) = drop-add 4 16 hdr in
        let d52 : drop 52 hdr ≡ drop 32 (drop 20 hdr) = drop-add 20 32 hdr in
        let parts : hdr ≡ magic ++ (nonce ++ (hmac psk nonce ++ drop 52 hdr)) =
          sym (take-append-drop 4 hdr)
          ∙ ap₂ ◌++◌ facts.0 (
              sym (take-append-drop 16 (drop 4 hdr))
              ∙ ap (λ (l : Bytes). nonce ++ l)
                  (sym d20
                    ∙ sym (take-append-drop 32 (drop 20 hdr))
                    ∙ ap₂ ◌++◌ facts.1 (sym d52))) in
        (
          nonce,
          drop 52 hdr ++ rest,
          split.0 ∙ ap (λ (l : Bytes). l ++ rest) parts ∙ simp append_assoc,
          omega (arith, length-take 16 (drop 4 hdr), length-drop 4 hdr, split.1),
          facts.2,
        )
  ]
