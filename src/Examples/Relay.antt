-- ===== src/Examples/Relay.antt =====
-- The relay's tunnel and the obfuscated2 header at concrete inputs: a sealed frame is its
-- plaintext with 16 zero bytes, and a keyed hash is 32 bytes of which the first is the key's length.
use phantom_proxy.Common.{
  ℕ, suc, ◌-◌, ◌%◌, ◌^◌, ◌≡◌, refl, ap, ◌≢◌, ◌⊎◌, Bool, not, none, some, List, [], ◌∷◌, ◌++◌, arith,
  ◌==◌, length, length-append, take, drop,
}
use phantom_proxy.Common.Int.{negsuc}
use phantom_proxy.Common.Bytes.{Bytes, zeros, codes, flatten, eqb, take_front, length-zeros}
use phantom_proxy.Common.Result.{eof, ok}
use phantom_proxy.Relay.Frame.{Aead, IsAead, stream_ended, FrameWriter}
use phantom_proxy.Relay.Frame.Write.{Written, write-Sends}
use phantom_proxy.Relay.Frame.RoundTrip.{drain, drain_frames-write}
use phantom_proxy.Relay.Handshake.{
  Net, derive_key, address_bytes, front_handshake, parse_client_addr, accept_back, magic,
}
use phantom_proxy.Relay.Handshake.Laws.{accept_back-front_handshake, accept_back_sound}
use phantom_proxy.Obfuscated.{
  try_parse_header, Stream, is_reserved, pick_header, outgoing_header, handshake,
}
use phantom_proxy.Obfuscated.Header.{dc_of, try_parse_header-handshake}
use phantom_proxy.Obfuscated.Handshake.{handshake-outgoing_header}

abbrev aead : Aead
aead = record {
  seal = λ key nonce p. p ++ zeros 16;
  open_sealed = λ key nonce sealed. some (take (length sealed - 16) sealed);
}

aead-IsAead : IsAead aead
aead-IsAead = record {
  open-seal = λ key nonce p.
      ap some
        (take_front _ p (zeros 16) (omega (arith, length-append p (zeros 16), length-zeros 16)));
  length-seal = λ key nonce p. omega (arith, length-append p (zeros 16), length-zeros 16);
}

abbrev works : ℕ → Bool
works k = not (k == 1)

abbrev writer : FrameWriter
writer = record { key = codes "key"; nonce = 0; sent = []; attempts = 0 }

abbrev done : Written
done = (write-Sends aead works writer (codes "hello")).0

drain_frames-write_example :
    (drain aead aead-IsAead
        (suc 5)
        2
        (record { key = codes "key"; rbuf = []; input = flatten done.0.sent })
      ≡ some (take done.1 (codes "hello"), stream_ended eof))
    × ((done.2 ≢ none) ⊎ (take done.1 (codes "hello") ≡ codes "hello"))
drain_frames-write_example =
    drain_frames-write aead aead-IsAead works writer done.0 (codes "hello") 2 done.1 done.2 refl
      (omega arith) (write-Sends aead works writer (codes "hello")).1

abbrev hash : Bytes → Bytes → Bytes
hash k m = length k ∷ zeros 31

length-hash : (k m : Bytes) → length (hash k m) ≡ 32
unfolding zeros
length-hash k m = refl

abbrev net : Net
net = record {
  split_host_port = λ s. some (take 3 s, drop 4 s);
  parse_ip4 = λ s. some (1 ∷ 2 ∷ 3 ∷ 4 ∷ []);
  ip_string = λ b. b;
}

four : (s : Bytes) → length (address_bytes net (net.parse_ip4 s)) ≡ 4
unfolding address_bytes
four s = refl

abbrev greeting : Bytes
greeting = front_handshake net hash (codes "psk") (zeros 16) (negsuc 1) (codes "a.b:443")

accept_back-front_handshake_example :
    accept_back net hash (codes "psk") greeting (9 ∷ [])
    ≡ ok (
      derive_key hash (codes "psk") (zeros 16),
      record {
        dc_id = negsuc 1;
        client_ip =
            net.ip_string
              (address_bytes net (net.parse_ip4 (parse_client_addr net (codes "a.b:443")).0));
        client_port = (parse_client_addr net (codes "a.b:443")).1 % 2 ^ 16;
      },
      9 ∷ [],
    )
accept_back-front_handshake_example =
    accept_back-front_handshake net hash (codes "psk") (zeros 16) (negsuc 1) (codes "a.b:443")
      (9 ∷ []) (length-zeros 16) length-hash four (omega arith)

accept_back_sound_example :
    (nonce : Bytes) × (rest : Bytes) × (greeting
      ≡ magic ++ (nonce ++ (hash (codes "psk") nonce ++ rest)))
    × (length nonce ≡ 16)
    × (derive_key hash (codes "psk") (zeros 16) ≡ derive_key hash (codes "psk") nonce)
accept_back_sound_example =
    accept_back_sound net hash (codes "psk") greeting (9 ∷ [])
      (derive_key hash (codes "psk") (zeros 16)) (9 ∷ [])
      (record {
        dc_id = negsuc 1;
        client_ip =
            net.ip_string
              (address_bytes net (net.parse_ip4 (parse_client_addr net (codes "a.b:443")).0));
        client_port = (parse_client_addr net (codes "a.b:443")).1 % 2 ^ 16;
      })
      accept_back-front_handshake_example

-- The first draw is reserved.
abbrev draws : List Bytes
draws = (0xef ∷ zeros 63) ∷ (7 ∷ 7 ∷ 7 ∷ 7 ∷ 7 ∷ zeros 59) ∷ []

second_draw : pick_header draws ≡ ok (7 ∷ 7 ∷ 7 ∷ 7 ∷ 7 ∷ zeros 59)
unfolding pick_header is_reserved eqb zeros
second_draw = refl

handshake-outgoing_header_example :
    (sent : Bytes) × (enc : Stream) × (dec : Stream) × (outgoing_header
        (hash [])
        (λ k v i. i % 256)
        (negsuc 3)
        (some (codes "s"))
        draws
      ≡ ok (sent, enc, dec))
    × (handshake (hash []) (λ k v i. i % 256) (some (codes "s")) (sent ++ (1 ∷ []))
        ≡ ok (negsuc 3, dec, enc, 1 ∷ []))
handshake-outgoing_header_example =
    handshake-outgoing_header (hash []) (λ k v i. i % 256) (negsuc 3) (some (codes "s")) draws
      (7 ∷ 7 ∷ 7 ∷ 7 ∷ 7 ∷ zeros 59) (1 ∷ []) (λ e. cc) second_draw (unfold zeros in refl)
      (omega arith)

try_parse_header-handshake_example :
    try_parse_header (hash []) (λ k v i. i % 256) (zeros 64) (codes "s")
    ≡ dc_of (handshake (hash []) (λ k v i. i % 256) (some (codes "s")) (zeros 64 ++ (1 ∷ [])))
try_parse_header-handshake_example =
    try_parse_header-handshake (hash []) (λ k v i. i % 256) (zeros 64) (1 ∷ []) 115 []
      (length-zeros 64)
