-- ===== src/Relay/Handshake.antt =====
-- internal/relay/tunnel.go: the PHRP handshake. `DialFront` sends it, `acceptBack` reads it.
-- HMAC-SHA256 and the functions of package net are parameters. Bytes that come after the 200 ms
-- deadline for the client's address are `later`.
pub mod Laws
use phantom_proxy.Common.{
  Bool, ℕ, ◌+◌, ◌-◌, ◌*◌, ◌%◌, ◌^◌, not, ◌||◌, Option, none, some, [], ◌∷◌, ◌++◌, ltb,
  if◌then◌else◌, take, drop,
}
use phantom_proxy.Common.Int.{ℤ, wrap16, signed16}
use phantom_proxy.Common.Bytes.{Bytes, codes, eqb, be16, from_be16}
use phantom_proxy.Common.Result.{Result, ok, err, ReadError, read_full}

abbrev pub magic : Bytes
magic = codes "PHRP"

pub data HandshakeError : Type 0 where
  short_handshake : ReadError → HandshakeError
  bad_magic bad_auth : HandshakeError

pub data FrontError : Type 0 where
  psk_required not_dialled not_drawn not_written : FrontError

-- `net.SplitHostPort`, `net.ParseIP(s).To4()` and `net.IP.String` of package net.
pub record Net : Type 0 where
  pub split_host_port : Bytes → Option (Bytes × Bytes)
  pub parse_ip4 : Bytes → Option Bytes
  pub ip_string : Bytes → Bytes

pub record Meta : Type 0 where
  pub dc_id : ℤ
  pub client_ip : Bytes
  pub client_port : ℕ

module _ (hmac : Bytes → Bytes → Bytes) where
  pub derive_key : Bytes → Bytes → Bytes
  derive_key psk nonce = hmac psk (codes "phantom-relay-v1" ++ nonce)

-- The digits at the front of a port, as a number. Go's `int` wraps past 63 bits; only the number
-- modulo 2 ^ 16 is sent.
pub port_digits : ℕ → Bytes → ℕ
port_digits p [] = p
port_digits p (c ∷ cs) =
    let more = port_digits (p * 10 + (c - b'0')) cs in if ltb c b'0' || ltb b'9' c then p else more

module _ (net : Net) where
  host_and_port : Bytes → Option (Bytes × Bytes) → Bytes × ℕ
  host_and_port remote none = (remote, 0)
  host_and_port remote (some (host, port)) = (host, port_digits 0 port)

  pub parse_client_addr : Bytes → Bytes × ℕ
  unfolding host_and_port
  parse_client_addr [] = ([], 0)
  parse_client_addr remote = host_and_port remote (net.split_host_port remote)

  unfoldable pub address_bytes : Option Bytes → Bytes
  address_bytes none = 0 ∷ 0 ∷ 0 ∷ 0 ∷ []
  address_bytes (some ip4) = ip4

  -- What `DialFront` writes: magic, nonce, tag, data centre, address and port of the client.
  pub front_handshake : (Bytes → Bytes → Bytes) → Bytes → Bytes → ℤ → Bytes → Bytes
  front_handshake hmac psk nonce dc_id client_addr =
      let (ip, port) = parse_client_addr client_addr in
      magic
      ++ (nonce
          ++ (hmac psk nonce
              ++ (be16 (wrap16 dc_id)
                  ++ (address_bytes (net.parse_ip4 ip) ++ be16 (port % 2 ^ 16)))))

  -- `DialFront`, with the key that `newAEAD` derives. The dial, the random bytes (`none` is their
  -- error) and the write are outside.
  unfoldable pub dial_front :
      (Bytes → Bytes → Bytes)
      → (dials : Bool) → Option Bytes
      → (writes : Bool) → Bytes
      → ℤ
      → Bytes
      → Result FrontError (Bytes × Bytes)
  dial_front hmac dials drawn writes psk dc_id client_addr =
      if eqb psk [] then err psk_required else if not dials then err not_dialled else elim drawn [
        | none ↦ err not_drawn
        | some nonce ↦
            if writes
            then ok (front_handshake hmac psk nonce dc_id client_addr, derive_key hmac psk nonce)
            else err not_written
      ]

  -- The six bytes with the client's address, if they come in time; else what came is lost.
  pub read_meta : ℤ → Bytes → Bytes → Meta × Bytes
  read_meta dc_id in_time later = elim (read_full 6 in_time) [
    | err e ↦ (record { dc_id = dc_id; client_ip = []; client_port = 0 }, later)
    | ok (extra, rest) ↦ (
      record {
        dc_id = dc_id;
        client_ip = net.ip_string (take 4 extra);
        client_port = from_be16 (drop 4 extra);
      },
      rest ++ later,
    )
  ]

  -- The session key, the metadata, and what is left of the stream.
  pub accept_back :
      (Bytes → Bytes → Bytes) → Bytes → Bytes → Bytes → Result HandshakeError (Bytes × Meta × Bytes)
  accept_back hmac psk input later = elim (read_full 54 input) [
    | err e ↦ err (short_handshake e)
    | ok (hdr, rest) ↦
        let nonce = take 16 (drop 4 hdr) in
        let tag = take 32 (drop 20 hdr) in
        let (meta, left) = read_meta (signed16 (from_be16 (drop 52 hdr))) rest later in
        if not (eqb (take 4 hdr) magic)
        then err bad_magic
        else if not (eqb tag (hmac psk nonce))
        then err bad_auth
        else ok (derive_key hmac psk nonce, meta, left)
  ]
