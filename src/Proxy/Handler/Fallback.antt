-- ===== src/Proxy/Handler/Fallback.antt =====
-- A connection that does not begin like TLS. About: handle_other, handle_secure, serve_fallback.
use phantom_proxy.Common.{
  ℕ, zero, suc, ◌<◌, ◌≡◌, refl, ◌⊎◌, inl, inr, Bool, true, false, not, Option, none, some, [], ◌∷◌,
  arith, ltb, if◌then◌else◌, ltb→lt, Bool-cases, length, take, drop,
}
use phantom_proxy.Common.Int.{ℤ}
use phantom_proxy.Common.Bytes.{Bytes}
use phantom_proxy.Common.Result.{Result, read_full, read_full_short, read_full_long}
use mathlib.Core.Option.{some-injective, none-ne-some}
use phantom_proxy.FakeTls.Pool.{Utls}
use phantom_proxy.Users.{User, ManagerError, match_secure_header}
use phantom_proxy.Obfuscated.{try_parse_header}
use phantom_proxy.Proxy.Backend.{Relaying}
use phantom_proxy.Common.Slice.{Outcome}
use phantom_proxy.Proxy.State.{State, World, Ending, relayed, fell_back}
use phantom_proxy.Proxy.Attempt.{relay_user, end_relay}
use phantom_proxy.Proxy.Handler.{
  end_secure, with_secure_match, handle_secure, serve_fallback, end_header, with_header,
  handle_other,
}

-- What the fallback can read of a connection whose first byte is `b`.
abbrev pub left_over : Bool → ℕ → Bytes → Bytes
left_over secure b input = b ∷ (if secure then drop 63 input else input)

module _ (utls : Utls) (w : World) where
  -- The user whose secret opens the header.
  abbrev pub OpenedBy : State utls → Bytes → Bytes → Type 0
  OpenedBy st header name =
      (u : User) × (dc_id : ℤ) × ((match_secure_header
            (λ s. try_parse_header w.sha256 w.ctr header s.key) st.runtime.users.users
          ≡ Result.ok (u, dc_id))
        × (u.name ≡ name))

  end_secure-name :
      (st : State utls) (name found : Bytes) (r : Relaying)
      → (end_secure utls w (end_relay utls w st name r)).1 ≡ some found
      → name ≡ found
  unfolding end_relay
  end_secure-name st name found (Outcome.ok u, (t, m)) h = some-injective _ _ h
  end_secure-name st name found (Outcome.panics, (t, m)) h = absurd (none-ne-some found h)
  end_secure-name st name found (Outcome.err e, (t, m)) h = absurd (none-ne-some found h)

  with_secure_match-user :
      (st : State utls) (r : Result ManagerError (User × ℤ)) (found : Bytes)
      → (with_secure_match utls w st r).1 ≡ some found
      → (u : User) × (dc_id : ℤ) × ((r ≡ Result.ok (u, dc_id)) × (u.name ≡ found))
  unfolding relay_user
  with_secure_match-user st (Result.err e) found h = absurd (none-ne-some found h)
  with_secure_match-user st (Result.ok (u, dc_id)) found h =
      (u, dc_id, (refl, end_secure-name st u.name found _ h))

  -- The two ways in which such a connection ends.
  abbrev Ends : State utls → Bytes → Bytes → Ending → Type 0
  Ends st header left e =
      (e ≡ fell_back left) ⊎ ((name : Bytes) × ((e ≡ relayed name) × OpenedBy st header name))

  end_header-Ends :
      (st : State utls) (ip header left : Bytes) (r : State utls × Option Bytes)
      → ((name : Bytes) → r.1 ≡ some name → OpenedBy st header name)
      → Ends st header left (end_header utls w ip left r).1
  unfolding serve_fallback
  end_header-Ends st ip header left (s, none) h = inl refl
  end_header-Ends st ip header left (s, some name) h = inr (name, (refl, h name refl))

  handle_secure-OpenedBy :
      (st : State utls) (header name : Bytes)
      → (handle_secure utls w st header).1 ≡ some name
      → OpenedBy st header name
  unfolding handle_secure
  handle_secure-OpenedBy st header name h = with_secure_match-user st _ name h

  drop_short : (n : ℕ) (xs : Bytes) → length xs < n → drop n xs ≡ []
  drop_short zero xs h = absurd (omega (arith, h))
  drop_short (suc n) [] h = refl
  drop_short (suc n) (x ∷ xs) h = drop_short n xs (omega (arith, h))

  with_header-Ends :
      (st : State utls) (ip input : Bytes) (b : ℕ)
      → Ends st
          (b ∷ take 63 input)
          (b ∷ drop 63 input)
          (with_header utls w st ip b (read_full 63 input)).1
  unfolding serve_fallback
  with_header-Ends st ip input b = elim (Bool-cases (ltb (length input) 63)) [
    | inl s ↦
        let short = ltb→lt (length input) 63 s in
        rw (read_full_short 63 input short, drop_short 63 input short) (inl refl)
    | inr s ↦ rw (read_full_long 63 input (ground (arith, s))) (
        end_header-Ends st ip (b ∷ take 63 input) (b ∷ drop 63 input)
          (handle_secure utls w st (b ∷ take 63 input))
          (λ name h. handle_secure-OpenedBy st (b ∷ take 63 input) name h))
  ]

  if_secure :
      (secure : Bool) (st : State utls) (ip input : Bytes) (b : ℕ)
      → let opened = with_header utls w st ip b (read_full 63 input) in
        let e = (if not secure then serve_fallback utls w st ip (b ∷ input) else opened).1 in
        (e ≡ fell_back (left_over secure b input))
        ⊎ ((name : Bytes) × (e ≡ relayed name)
            × (secure ≡ true)
            × OpenedBy st (b ∷ take 63 input) name)
  unfolding serve_fallback
  if_secure false st ip input b = inl refl
  if_secure true st ip input b = elim (with_header-Ends st ip input b) [
    | inl h ↦ inl h
    | inr (name, (h, k)) ↦ inr (name, h, refl, k)
  ]

  -- A connection that does not begin like TLS is relayed for a user whose secret opens its first
  -- 64 bytes, where secure mode is on; otherwise it ends at the fallback, which can read the first
  -- byte and then, where secure mode is on, only what follows the first 64 bytes.
  pub handle_other_ends :
      (st : State utls) (ip input : Bytes) (b : ℕ)
      → ((handle_other utls w st ip b input).1
          ≡ fell_back (left_over st.runtime.config.protocols.secure b input))
        ⊎ ((name : Bytes) × ((handle_other utls w st ip b input).1 ≡ relayed name)
            × (st.runtime.config.protocols.secure ≡ true)
            × OpenedBy st (b ∷ take 63 input) name)
  unfolding handle_other
  handle_other_ends st ip input b = if_secure st.runtime.config.protocols.secure st ip input b
