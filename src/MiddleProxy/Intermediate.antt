-- ===== src/MiddleProxy/Intermediate.antt =====
-- internal/middleproxy/intermediate.go: the padded intermediate transport of the clients, and the
-- raw payloads for the middle proxy. Whether the
-- `k`-th `Write` of the connection below succeeds is an argument.
pub mod Split
use phantom_proxy.Common.{
  Bool, ℕ, zero, suc, ◌+◌, ◌%◌, ◌^◌, not, ◌||◌, Option, none, some, List, [], ◌∷◌, ◌++◌, ltb, ◌==◌,
  if◌then◌else◌, length, take, drop,
}
use phantom_proxy.Common.Bytes.{Bytes, le32, from_le32}
use phantom_proxy.Common.Result.{Result, ok, err}

abbrev pub max_intermediate_len : ℕ
max_intermediate_len = 2 ^ 20

pub data IntermediateError : Type 0 where
  bad_length not_multiple_of_4 write_failed : IntermediateError

-- `nextPaddedIntermediate`: the next payload and what is behind it, or nothing yet.
unfoldable pub next_padded_intermediate : Bytes → Result IntermediateError (Option (Bytes × Bytes))
next_padded_intermediate buf =
    let n = from_le32 buf % 2 ^ 31 in
    if ltb (length buf) 4
    then ok none
    else if n == 0 || ltb max_intermediate_len n
    then err bad_length
    else if ltb (length buf) (4 + n)
    then ok none
    else ok (some (take n (drop 4 buf), drop (4 + n) buf))

-- What a `Write` did: the payloads that the connection below took, the new `wbuf`, its error and
-- the count that it returns.
pub record Written : Type 0 where
  pub payloads : List Bytes
  pub wbuf : Bytes
  pub error : Option IntermediateError
  pub count : ℕ

after : Bytes → Written → Written
after payload w = record w { payloads = payload ∷ w.payloads }

abbrev pub stopped : Bytes → IntermediateError → Written
stopped wbuf e = record { payloads = []; wbuf = wbuf; error = some e; count = 0 }

-- The loop of `Write`, with `orig` bytes given and `k` writes below behind it. A turn takes at
-- least 5 bytes off, so the length is enough fuel.
pub write_loop : (ℕ → Bool) → ℕ → ℕ → ℕ → Bytes → Written
unfolding after
write_loop works orig k zero wbuf = record {
  payloads = [];
  wbuf = wbuf;
  error = none;
  count = orig;
}
write_loop works orig k (suc fuel) wbuf = elim (next_padded_intermediate wbuf) [
  | err e ↦ stopped wbuf e
  | ok none ↦ record { payloads = []; wbuf = wbuf; error = none; count = orig }
  | ok (some (payload, rest)) ↦
      let more = write_loop works orig (k + 1) fuel rest in
      if not (length payload % 4 == 0)
      then stopped wbuf not_multiple_of_4
      else if not (works k)
      then stopped wbuf write_failed
      else after payload more
]

-- `Write(p)` on a connection whose buffer is `wbuf`.
pub write : (ℕ → Bool) → Bytes → Bytes → Written
write works wbuf [] = record { payloads = []; wbuf = wbuf; error = none; count = 0 }
write works wbuf (c ∷ cs) =
    write_loop works (length (c ∷ cs)) 0 (length (wbuf ++ (c ∷ cs))) (wbuf ++ (c ∷ cs))

-- The frame that `Read` hands to the client for one payload of the middle proxy.
unfoldable pub frame : Bytes → Bytes
frame inner = le32 (length inner % 2 ^ 32) ++ inner

-- `Read` of `n` bytes. `next` is the payload of `readOnePayload`.
pub read : ℕ → Bytes → Bytes → Bytes × Bytes
unfolding frame
read n next [] = (take n (frame next), drop n (frame next))
read n next (c ∷ cs) = (take n (c ∷ cs), drop n (c ∷ cs))
