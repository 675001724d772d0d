-- ===== src/FakeTls/HelloPolicy.antt =====
-- internal/faketls/client_hello_policy.go: the extensions that a policy looks for in a
-- ClientHello. Indexing and slicing panic as Go's do.
use phantom_proxy.Common.{
  ℕ, zero, suc, ◌+◌, Bool, true, false, not, ◌&&◌, ◌||◌, [], ltb, leb, ◌==◌, if◌then◌else◌, length,
  get_or, drop,
}
use phantom_proxy.Common.Bytes.{Bytes, codes, eqb, from_be16}
use phantom_proxy.Common.Slice.{Outcome, ok, err, ◌>>=◌, Slice, contents, at, cut, from, upto}
use phantom_proxy.FakeTls.Hello.{ClientHello, uint24}

abbrev pub ext_ech : ℕ
ext_ech = 0xfe0d

abbrev pub policy_accept : Bytes
policy_accept = codes "accept"

abbrev pub policy_reject_fronting : Bytes
policy_reject_fronting = codes "reject_fronting"

-- The loop over the extensions, from what `p` has reached; the length is fuel enough.
unfoldable pub find_extension : ℕ → ℕ → Bytes → Bool
find_extension zero want rest = false
find_extension (suc fuel) want rest =
    let more = find_extension fuel want (drop (4 + from_be16 (drop 2 rest)) rest) in
    if ltb (length rest) 4 then false else if from_be16 rest == want then true else more

module _ {E : Type 0} where
  -- From the extensions' length on.
  unfoldable pub extensions_have : Slice → ℕ → ℕ → Outcome E Bool
  extensions_have hello pos want = do
    size ← cut hello pos (pos + 2)
    region ← cut hello (pos + 2) (pos + 2 + from_be16 (contents size))
    ok (find_extension (suc (length (contents region))) want (contents region))

  -- From the compression methods on.
  unfoldable pub behind_suites : Slice → ℕ → ℕ → Outcome E Bool
  behind_suites hello pos want = do
    comp_len ← at hello pos
    if ltb hello.len (pos + 1 + comp_len + 2)
        then ok false
        else extensions_have hello (pos + 1 + comp_len) want

  -- From the cipher suites on.
  unfoldable pub behind_session : Slice → ℕ → ℕ → Outcome E Bool
  behind_session hello pos want = do
    size ← cut hello pos (pos + 2)
    let next = pos + 2 + from_be16 (contents size)
    if leb hello.len next then ok false else behind_suites hello next want

  unfoldable pub hello_has : Slice → ℕ → Outcome E Bool
  hello_has hello want = do
    sid_len ← at hello 34
    if ltb hello.len (35 + sid_len + 2) then ok false else behind_session hello (35 + sid_len) want

  -- `hello[:helloLen]`, for a hello that has as many bytes.
  unfoldable pub cut_hello : Slice → ℕ → ℕ → Outcome E Bool
  cut_hello tail hello_len want = do
    hello ← upto tail hello_len
    if ltb hello.len 34 then ok false else hello_has hello want

  unfoldable pub payload_has : Slice → ℕ → ℕ → Outcome E Bool
  payload_has payload hello_len want = do
    tail ← from payload 4
    if ltb tail.len hello_len then ok false else cut_hello tail hello_len want

  unfoldable pub behind_header : Slice → ℕ → Outcome E Bool
  behind_header raw want = do
    payload ← from raw 5
    if ltb payload.len 4 || not (get_or (contents payload) 0 0 == 0x01)
        then ok false
        else payload_has payload
            (uint24 (get_or (contents payload) 1 0) (get_or (contents payload) 2 0)
              (get_or (contents payload) 3 0))
            want

  unfoldable pub has_extension : Slice → ℕ → Outcome E Bool
  has_extension raw want = if ltb raw.len 5 then ok false else behind_header raw want

-- `CheckClientHelloPolicy` of a hello that is there: whether it is rejected, which is only for ECH.
unfoldable pub is_rejected_by : Bytes → Bool → Bool
is_rejected_by policy ech = ech && eqb policy policy_reject_fronting

module _ {E : Type 0} where
  -- The error is `PolicyError` with the reason "ech".
  unfoldable pub check_client_hello_policy : E → ClientHello → Bytes → Outcome E (Unit {0})
  check_client_hello_policy reject ch policy =
      if eqb policy [] || eqb policy policy_accept then ok tt else do
        ech ← has_extension ch.raw ext_ech
        if is_rejected_by policy ech then err reject else ok tt
