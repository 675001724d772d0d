-- ===== src/Proxy/Attempt/Sound.antt =====
-- What an attempt that succeeds has passed. About: attempt and its stages.
use phantom_proxy.Common.{
  ◌≡◌, refl, sym, ◌∙◌, inl, inr, Bool, true, false, ◌&&◌, ◌||◌, Option, none, some, Bool-cases,
}
use phantom_proxy.Common.Int.{ℤ}
use phantom_proxy.Common.Bytes.{Bytes}
use phantom_proxy.Common.Result.{Result}
use phantom_proxy.Common.Slice.{Outcome}
use phantom_proxy.FakeTls.Hello.{ClientHello, HelloError}
use phantom_proxy.FakeTls.HelloPolicy.{check_client_hello_policy}
use phantom_proxy.FakeTls.Pool.{Utls}
use phantom_proxy.FakeTls.Rotator.{Rotator}
use phantom_proxy.FakeTls.ServerHello.{AnswerError}
use phantom_proxy.Users.{User, ManagerError, match_client_hello}
use phantom_proxy.Obfuscated.{HandshakeError, Stream}
use phantom_proxy.Replay.{ReplayCache, check}
use phantom_proxy.Proxy.Backend.{Relaying}
use phantom_proxy.Proxy.State.{
  Reject, unmatched, unanswered, not_obfuscated, not_relayed, replayed, by_policy, unparsed, State,
  World, with_replay,
}
use phantom_proxy.Proxy.Attempt.{
  ja3_panics_on, end_relay, relay_user, with_streams, with_answer, with_match, with_policy,
  with_hello, is_valid_for, ja3_of, ja4_of, fingerprints_panic, tries, sni_panics, match_user,
  judge_hello, behind_replay, check_replay,
}

-- An attempt that succeeds, for `name`.
module _ {E A : Type 0} where
  err_ok : {B : Type 0} (e : E) (a : A) → ◌≡◌ {A = Outcome E A} (Outcome.err e) (Outcome.ok a) → B
  err_ok e a h = cc

  panics_ok : {B : Type 0} (a : A) → ◌≡◌ {A = Outcome E A} Outcome.panics (Outcome.ok a) → B
  panics_ok a h = cc

  ok_ok : (a b : A) → ◌≡◌ {A = Outcome E A} (Outcome.ok a) (Outcome.ok b) → a ≡ b
  ok_ok a b h = cc

module _ (utls : Utls) (w : World) where
  end_relay-name :
      (st : State utls) (name found : Bytes) (r : Relaying)
      → (end_relay utls w st name r).1 ≡ Outcome.ok found
      → name ≡ found
  unfolding end_relay
  end_relay-name st name found (Outcome.ok u, (t, m)) h = ok_ok name found h
  end_relay-name st name found (Outcome.panics, (t, m)) h = panics_ok found h
  end_relay-name st name found (Outcome.err e, (t, m)) h = err_ok (not_relayed e) found h

  with_streams-name :
      (st : State utls) (u : User) (ja3 : Bool)
      (r : Result HandshakeError (ℤ × Stream × Stream × Bytes)) (found : Bytes)
      → (with_streams utls w st u ja3 r).1 ≡ Outcome.ok found
      → u.name ≡ found
  unfolding with_streams relay_user
  with_streams-name st u ja3 (Result.err e) found h = err_ok (not_obfuscated e) found h
  with_streams-name st u ja3 (Result.ok (dc_id, enc, dec, rest)) found h =
      end_relay-name st u.name found _ h

  with_answer-name :
      (st : State utls) (u : User) (plain : Bytes) (ja3 : Bool)
      (o : Option (Rotator Bytes) × Outcome AnswerError Bytes) (found : Bytes)
      → (with_answer utls w st u plain ja3 o).1 ≡ Outcome.ok found
      → u.name ≡ found
  unfolding with_answer
  with_answer-name st u plain ja3 (r, Outcome.panics) found h = panics_ok found h
  with_answer-name st u plain ja3 (r, Outcome.err e) found h = err_ok (unanswered e) found h
  with_answer-name st u plain ja3 (r, Outcome.ok packet) found h =
      with_streams-name _ u ja3 _ found h

  -- The user that a result names.
  with_match-user :
      (st : State utls) (ch : ClientHello) (plain : Bytes) (r : Result ManagerError User)
      (found : Bytes)
      → (with_match utls w st ch plain r).1 ≡ Outcome.ok found
      → (u : User) × ((r ≡ Result.ok u) × (u.name ≡ found))
  unfolding with_match
  with_match-user st ch plain (Result.err e) found h = err_ok (unmatched e) found h
  with_match-user st ch plain (Result.ok u) found h =
      (u, (refl, with_answer-name st u plain (ja3_panics_on utls w ch) _ found h))

  -- The user that was matched to a ClientHello.
  abbrev pub Matched : State utls → ClientHello → Bytes → Type 0
  Matched st ch found =
      (u : User) × ((match_client_hello (is_valid_for utls w ch) (ja3_of utls w ch)
            (ja4_of utls w ch) st.runtime.users
          ≡ Result.ok u)
        × (u.name ≡ found))

  match_user-Matched :
      (st : State utls) (ch : ClientHello) (plain found : Bytes)
      → (match_user utls w st ch plain).1 ≡ Outcome.ok found
      → Matched st ch found
  unfolding match_user
  match_user-Matched st ch plain found h =
      elim (Bool-cases (
        fingerprints_panic utls w ch st.runtime.users
        || (sni_panics utls w ch && tries utls w ch st.runtime.users))) [
          | inl e ↦ panics_ok found (sym (rw e refl) ∙ h)
          | inr e ↦ with_match-user st ch plain _ found (sym (rw e refl) ∙ h)
        ]

  with_policy-Matched :
      (st : State utls) (ch : ClientHello) (plain : Bytes) (o : Outcome Reject (Unit {0}))
      (found : Bytes)
      → (with_policy utls w st ch plain o).1 ≡ Outcome.ok found
      → (o ≡ Outcome.ok tt) × Matched st ch found
  unfolding with_policy
  with_policy-Matched st ch plain Outcome.panics found h = panics_ok found h
  with_policy-Matched st ch plain (Outcome.err e) found h = err_ok e found h
  with_policy-Matched st ch plain (Outcome.ok u) found h =
      (refl, match_user-Matched st ch plain found h)

  -- The replay cache does not know the random bytes of the ClientHello.
  abbrev pub IsFresh : ClientHello → Option ReplayCache → Type 0
  IsFresh ch none = Unit
  IsFresh ch (some c) = (check (w.clock 0) c (some (w.replay_key ch.random))).0 ≡ false

  abbrev pub IsAllowed : State utls → ClientHello → Type 0
  IsAllowed st ch =
      check_client_hello_policy by_policy ch st.runtime.config.tls.client_hello_policy
      ≡ Outcome.ok tt

  judge_hello_sound :
      (st : State utls) (ch : ClientHello) (plain found : Bytes)
      → (judge_hello utls w st ch plain).1 ≡ Outcome.ok found
      → IsAllowed st ch × Matched st ch found
  unfolding judge_hello
  judge_hello_sound st ch plain found h = with_policy-Matched st ch plain _ found h

  behind_replay_sound :
      (st : State utls) (ch : ClientHello) (plain found : Bytes) (r : Bool × ReplayCache)
      → (behind_replay utls w st ch plain r).1 ≡ Outcome.ok found
      → (r.0 ≡ false) × (IsAllowed st ch × Matched st ch found)
  unfolding behind_replay
  behind_replay_sound st ch plain found (true, c) h = err_ok replayed found h
  behind_replay_sound st ch plain found (false, c) h =
      (refl, judge_hello_sound (with_replay utls c st) ch plain found h)

  check_replay_sound :
      (st : State utls) (ch : ClientHello) (plain found : Bytes) (o : Option ReplayCache)
      → (check_replay utls w st ch plain o).1 ≡ Outcome.ok found
      → IsFresh ch o × (IsAllowed st ch × Matched st ch found)
  unfolding check_replay
  check_replay_sound st ch plain found none h = (tt, judge_hello_sound st ch plain found h)
  check_replay_sound st ch plain found (some c) h = behind_replay_sound st ch plain found _ h

  pub with_hello_sound :
      (st : State utls) (plain found : Bytes) (o : Outcome HelloError (ClientHello × Bytes))
      → (with_hello utls w st plain o).0.1 ≡ Outcome.ok found
      → (ch : ClientHello) × (rest : Bytes) × ((o ≡ Outcome.ok (ch, rest))
          × (IsFresh ch st.runtime.replay × (IsAllowed st ch × Matched st ch found)))
  unfolding with_hello
  with_hello_sound st plain found Outcome.panics h = panics_ok found h
  with_hello_sound st plain found (Outcome.err e) h = err_ok (unparsed e) found h
  with_hello_sound st plain found (Outcome.ok (ch, rest)) h =
      (ch, rest, (refl, check_replay_sound st ch plain found st.runtime.replay h))
