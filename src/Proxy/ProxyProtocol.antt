-- ===== src/Proxy/ProxyProtocol.antt =====
-- internal/proxy/proxyproto.go: the PROXY v1 header in front of a connection. `bufio.Reader` has
-- the bytes up to the end of the stream; `net.JoinHostPort` is a parameter.
pub mod Header
use phantom_proxy.Common.{
  ℕ, Bool, not, ◌||◌, Option, none, some, List, [], ◌∷◌, ltb, ◌==◌, if◌then◌else◌, length, get_or,
  take,
}
use phantom_proxy.Common.Bytes.{Bytes, codes, eqb}
use phantom_proxy.Common.Text.{trim_space}
use phantom_proxy.Common.Result.{Result, err, ok}
use phantom_proxy.Proxy.Address.{Net}

-- What is accepted: the address of the client, and the bytes that its `Read` will give.
pub record Accepted : Type 0 where
  pub remote : Bytes
  pub input : Bytes

pub data HeaderError : Type 0 where
  no_peek no_line bad_header : HeaderError

-- `ReadString('\n')`: up to and with the newline.
unfoldable pub read_line : Bytes → Option (Bytes × Bytes)
read_line [] = none
read_line (c ∷ s) =
    let rest = read_line s in
    if c == 10
    then some (c ∷ [], s)
    else elim rest [ none ↦ none | some (line, tail) ↦ some (c ∷ line, tail) ]

abbrev onto_first : ℕ → List Bytes → List Bytes
onto_first c [] = (c ∷ []) ∷ []
onto_first c (w ∷ ws) = (c ∷ w) ∷ ws

-- `strings.Split(s, " ")`
unfoldable pub split_blank : Bytes → List Bytes
split_blank [] = [] ∷ []
split_blank (c ∷ s) = let rest = split_blank s in if c == 32 then [] ∷ rest else onto_first c rest

module _ (net : Net) where
  unfoldable pub from_line : Bytes → Bytes → Bytes → Result HeaderError Accepted
  from_line remote line tail =
      let parts = split_blank (trim_space line) in
      let family = get_or parts 1 [] in
      if ltb (length parts) 6
      then err bad_header
      else if eqb family (codes "TCP4") || eqb family (codes "TCP6")
      then ok (record {
        remote = net.join_host_port (get_or parts 2 []) (get_or parts 4 []);
        input = tail;
      })
      else ok (record { remote = remote; input = tail })

  abbrev with_line : Bytes → Option (Bytes × Bytes) → Result HeaderError Accepted
  with_line remote none = err no_line
  with_line remote (some (line, tail)) = from_line remote line tail

  -- `closes` tells that the stream ends in EOF, not in another error such as a reset. Where the
  -- stream ends within 6 bytes in EOF, it is handed on without the bytes that were read.
  unfoldable pub accept_with_proxy_protocol :
      Bool → Bytes → Bytes → Bool → Result HeaderError Accepted
  accept_with_proxy_protocol enabled remote input closes =
      if not enabled
      then ok (record { remote = remote; input = input })
      else if ltb (length input) 6
      then (if closes then ok (record { remote = remote; input = [] }) else err no_peek)
      else if not (eqb (take 6 input) (codes "PROXY "))
      then ok (record { remote = remote; input = input })
      else with_line remote (read_line input)
