-- ===== src/Proxy/Handler/Sound.antt =====
-- Who is relayed for. About: handle_fake_tls_path and the handling of a rejected ClientHello.
use phantom_proxy.Common.{
  ◌≡◌, refl, sym, ap, ◌∙◌, inl, inr, Bool, true, false, Option, none, some, Bool-cases,
}
use mathlib.Core.Bool.{true≢false}
use phantom_proxy.Common.Bytes.{Bytes, codes, eqb}
use phantom_proxy.Common.Slice.{Outcome}
use phantom_proxy.FakeTls.Hello.{ClientHello, parse_client_hello}
use phantom_proxy.FakeTls.Pool.{Utls}
use phantom_proxy.FakeTls.Rotator.{Rotator}
use phantom_proxy.Users.{User, check_fingerprints}
use phantom_proxy.Users.Match.{IsFirst, match_client_hello-IsFirst}
use phantom_proxy.Config.{fronting_action}
use phantom_proxy.Proxy.State.{Reject, State, World, Ending, relayed, crashes}
use phantom_proxy.Proxy.Handler.{
  front_to, front_host, with_mask, handle_rejected_tls, reject_tls, end_attempt,
  handle_fake_tls_path,
}
use phantom_proxy.Proxy.Attempt.{Attempt, is_valid_for, ja3_of, ja4_of, attempt}
use phantom_proxy.Proxy.Attempt.Sound.{with_hello_sound, IsFresh, IsAllowed}

abbrev is_relayed : Ending → Bool
is_relayed (relayed user) = true
is_relayed _ = false

not_relayed_here :
    {B : Type 0} (x : Ending) (found : Bytes) → x ≡ relayed found → is_relayed x ≡ false → B
not_relayed_here x found h k = absurd (true≢false (sym (ap is_relayed h) ∙ k))

same_user : (a b : Bytes) → relayed a ≡ relayed b → a ≡ b
same_user a b h = cc

module _ (utls : Utls) (w : World) where
  -- A rejected attempt is never relayed.
  front_to-relayed :
      (st : State utls) (taken rest host : Bytes)
      → is_relayed (front_to utls w st taken rest host).1 ≡ false
  unfolding front_to
  front_to-relayed st taken rest host =
      let action = fronting_action st.runtime.config in
      elim (Bool-cases (eqb action (codes "splice"))) [
        | inl e ↦ rw e refl
        | inr e ↦ elim (Bool-cases (eqb action (codes "fallback"))) [
          | inl f ↦ rw (e, f) refl
          | inr f ↦ rw (e, f) refl
        ]
      ]

  front_host-relayed :
      (st : State utls) (taken rest : Bytes) (o : Option Bytes)
      → is_relayed (front_host utls w st taken rest o).1 ≡ false
  front_host-relayed st taken rest none = refl
  front_host-relayed st taken rest (some host) = front_to-relayed st taken rest host

  with_mask-relayed :
      (st : State utls) (ch : Option ClientHello) (taken rest : Bytes)
      (o : Option (Bytes × Option (Rotator Bytes)))
      → is_relayed (with_mask utls w st ch taken rest o).1 ≡ false
  with_mask-relayed st ch taken rest none = refl
  with_mask-relayed st ch taken rest (some (host, r)) = front_host-relayed _ taken rest _

  reject_tls-relayed :
      (st : State utls) (ch : Option ClientHello) (ip taken rest : Bytes) (e : Reject)
      → is_relayed (reject_tls utls w st ch ip taken rest e).1 ≡ false
  unfolding reject_tls handle_rejected_tls
  reject_tls-relayed st ch ip taken rest e = with_mask-relayed _ ch taken rest _

  end_attempt-relayed :
      (ip taken rest : Bytes) (a : Attempt utls w × Option ClientHello) (found : Bytes)
      → (end_attempt utls w ip taken rest a).1 ≡ relayed found
      → a.0.1 ≡ Outcome.ok found
  end_attempt-relayed ip taken rest ((st, Outcome.panics), ch) found h =
      not_relayed_here crashes found h refl
  end_attempt-relayed ip taken rest ((st, Outcome.err e), ch) found h =
      not_relayed_here _ found h (reject_tls-relayed st ch ip taken rest e)
  end_attempt-relayed ip taken rest ((st, Outcome.ok name), ch) found h =
      ap Outcome.ok (same_user name found h)

  -- A Fake TLS connection is relayed for a user only after this: its first bytes are a ClientHello,
  -- whose random bytes the replay cache does not know, which the policy lets through, whose
  -- fingerprints are allowed, and which is valid under the secret of a user of that name, who is
  -- enabled and has a Fake TLS secret, and no user before it matches.
  pub handle_fake_tls_path_sound :
      (st : State utls) (ip input plain taken rest found : Bytes)
      → (handle_fake_tls_path utls w st ip input plain taken rest).1 ≡ relayed found
      → (ch : ClientHello) × (more : Bytes) × (u : User) × (parse_client_hello w.spare input
          ≡ Outcome.ok (ch, more))
        × IsFresh utls w ch st.runtime.replay
        × IsAllowed utls w st ch
        × (check_fingerprints st.runtime.users (ja3_of utls w ch) (ja4_of utls w ch) ≡ none)
        × IsFirst (is_valid_for utls w ch) st.runtime.users.users u
        × (u.name ≡ found)
  unfolding handle_fake_tls_path attempt
  handle_fake_tls_path_sound st ip input plain taken rest found h =
      let opened = end_attempt-relayed ip taken rest (attempt utls w st input plain) found h in
      let (ch, more, (p, (fresh, (allowed, (u, (m, n)))))) =
        with_hello_sound utls w st plain found (parse_client_hello w.spare input) opened in
      let (f, first) =
        match_client_hello-IsFirst (is_valid_for utls w ch) (ja3_of utls w ch) (ja4_of utls w ch)
          st.runtime.users u m in
      (ch, more, u, p, fresh, allowed, f, first, n)
