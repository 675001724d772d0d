-- ===== src/Examples/Server.antt =====
-- The server's tables at concrete inputs.
use phantom_proxy.Common.{
  ◌%◌, ◌^◌, ℕ, ◌+◌, ◌*◌, ◌≤◌, ◌<◌, ◌≡◌, refl, inl, Bool, true, false, Option, none, some, List, [],
  ◌∷◌, arith, length,
}
use phantom_proxy.Common.Int.{pos, negsuc}
use phantom_proxy.Common.Bytes.{Bytes, codes, eqb}
use phantom_proxy.Common.Map.{lookup, insert, erase}
use phantom_proxy.Limit.{new_conn_limiter, count, Event, opens, closes}
use phantom_proxy.Limit.Live.{occurrences, run, run-live_le}
use phantom_proxy.Probe.{
  Blacklist, purge_loop, purge_expired_locked, with_maps, recent, times_of, is_before,
  record_locked, record_probe, is_blocked,
}
use phantom_proxy.Probe.Window.{record_probe-blocks, EndOfBlock}
use phantom_proxy.Replay.{ReplayCache, fresh, evict, check_key, check}
use phantom_proxy.Replay.Seen.{check-entries_le, check-again, check_all, StaysSmall}
use phantom_proxy.Secret.{Secret, parse_secret, encode_hex}
use phantom_proxy.Secret.RoundTrip.{IsSecret, parse_secret-encode_hex}
use phantom_proxy.Users.{
  User, Manager, with_users, remove_first, refresh_mask_host, add_user, update_user, remove_user,
  has_name, any_enabled,
}
use phantom_proxy.Users.Names.{
  UniqueNames, settled, operations-UniqueNames, remove_user_succeeds, WithoutOne,
}
use phantom_proxy.Stats.{snapshot}
use phantom_proxy.Stats.Totals.{
  track_all, connects, moves, connects_in, upload_in, snapshot-track_all,
}
use phantom_proxy.Common.Result.{ok}

abbrev events : List Event
events =
    opens (codes "a")
    ∷ opens (codes "a")
    ∷ opens (codes "a")
    ∷ closes (codes "a")
    ∷ opens (codes "b")
    ∷ []

run-live_le_example :
    (count (run (new_conn_limiter (pos 2), []) events).0.counts (codes "a")
      ≡ occurrences (codes "a") (run (new_conn_limiter (pos 2), []) events).1)
    × (occurrences (codes "a") (run (new_conn_limiter (pos 2), []) events).1 ≤ 2)
run-live_le_example = run-live_le (pos 2) events 97 [] refl

-- Two invalid connections at most; the first one was seen at time 5.
abbrev watch : Blacklist
watch = record {
  threshold = 2;
  duration = 100;
  window = 50;
  counts = (codes "a", 5 ∷ []) ∷ [];
  blocked = [];
}

abbrev blocking : Blacklist
blocking = record {
  threshold = 2;
  duration = 100;
  window = 50;
  counts = [];
  blocked = (codes "a", 110) ∷ [];
}

watch-blocks : record_probe 10 10 10 (some watch) (codes "a") ≡ (true, some blocking)
unfolding record_probe record_locked purge_expired_locked purge_loop with_maps is_before lookup
    insert erase recent times_of eqb
watch-blocks = refl

record_probe-blocks_example :
    (until : ℕ) × (lookup (codes "a") blocking.blocked ≡ some until)
    × EndOfBlock 10 10 (purge_expired_locked 10 watch) (codes "a") until
    × ((p t : ℕ) → p ≤ t → t < until → (is_blocked p t (some blocking) (codes "a")).0 ≡ true)
record_probe-blocks_example = record_probe-blocks 10 10 10 watch blocking 97 [] watch-blocks

abbrev cache : ReplayCache
cache = record { entries = (codes "x", 3) ∷ []; max = 2; ttl = 50; hits = 0 }

check-entries_le_example : length (check 20 cache (some (codes "y"))).1.entries ≤ 3
check-entries_le_example = check-entries_le 20 cache (codes "y")

cache-passes : (check 20 cache (some (codes "y"))).0 ≡ false
unfolding check check_key evict fresh lookup insert eqb
cache-passes = refl

-- Another key passes in between, and the first entry of the cache expires.
abbrev between : List (ℕ × Bytes)
between = (54, codes "z") ∷ []

cache-StaysSmall : StaysSmall 60 (check 20 cache (some (codes "y"))).1 between
unfolding StaysSmall check check_key evict fresh lookup insert eqb
cache-StaysSmall = (omega arith, omega arith, omega arith)

check-again_example :
    ((check 60 (check_all (check 20 cache (some (codes "y"))).1 between) (some (codes "y"))).0
      ≡ true)
    × ((check 60
          (check_all (check 20 cache (some (codes "y"))).1 between)
          (some (codes "y"))).1.hits
        ≡ (check_all (check 20 cache (some (codes "y"))).1 between).hits + 1)
check-again_example =
    check-again 20 60 cache (codes "y") between cache-passes (omega arith) cache-StaysSmall

-- Hexadecimal with its digits as numbers.
hex_encode : Bytes → Bytes
hex_encode [] = []
hex_encode (b ∷ bs) = b ∷ 0 ∷ hex_encode bs

hex_decode : Bytes → Option Bytes
hex_decode [] = some []
hex_decode (_ ∷ []) = none
hex_decode (b ∷ _ ∷ bs) = elim (hex_decode bs) [ none ↦ none | some d ↦ some (b ∷ d) ]

decode_encode : (d : Bytes) → hex_decode (hex_encode d) ≡ some d
unfolding hex_decode hex_encode
decode_encode [] = refl
decode_encode (b ∷ bs) = rw (decode_encode bs) refl

length-hex_encode : (d : Bytes) → length (hex_encode d) ≡ 2 * length d
unfolding hex_encode
length-hex_encode [] = refl
length-hex_encode (b ∷ bs) = omega (arith, length-hex_encode bs)

abbrev secret : Secret
secret = record {
  key = 1 ∷ 2 ∷ 3 ∷ 4 ∷ 5 ∷ 6 ∷ 7 ∷ 8 ∷ 9 ∷ 10 ∷ 11 ∷ 12 ∷ 13 ∷ 14 ∷ 15 ∷ 16 ∷ [];
  host = codes "a.org";
  mode = 0xee;
}

secret-IsSecret : IsSecret secret
unfolding IsSecret
secret-IsSecret = (refl, inl (refl, omega arith))

parse_secret-encode_hex_example :
    parse_secret hex_decode (λ t. none) (encode_hex hex_encode secret) ≡ ok secret
parse_secret-encode_hex_example =
    parse_secret-encode_hex hex_decode (λ t. none) hex_encode decode_encode length-hex_encode secret
      secret-IsSecret

abbrev user : Bytes → Bool → User
user n on = record { name = n; secret = secret; enabled = on }

abbrev manager : Manager
manager = record {
  users = user (codes "ann") true ∷ user (codes "bob") false ∷ [];
  mask_host = codes "a.org";
  ja3_allow = [];
  ja4_allow = [];
}

manager-UniqueNames : UniqueNames manager.users
unfolding UniqueNames has_name eqb
manager-UniqueNames = (refl, (refl, tt))

operations-UniqueNames_example :
    UniqueNames (settled manager (add_user manager (user (codes "cid") true))).users
    × UniqueNames (update_user manager (codes "ann") none (some false)).1.users
    × UniqueNames (remove_user manager (codes "ann")).1.users
operations-UniqueNames_example =
    operations-UniqueNames manager (user (codes "cid") true) (codes "ann") none (some false)
      manager-UniqueNames

bob-removed : (remove_user manager (codes "bob")).0 ≡ none
unfolding remove_user refresh_mask_host with_users remove_first any_enabled has_name eqb
bob-removed = refl

remove_user_succeeds_example :
    WithoutOne (codes "bob") manager.users (remove_user manager (codes "bob")).1.users
    × (has_name (codes "bob") (remove_user manager (codes "bob")).1.users ≡ false)
    × (any_enabled (remove_user manager (codes "bob")).1.users ≡ true)
remove_user_succeeds_example =
    remove_user_succeeds manager (codes "bob") manager-UniqueNames bob-removed

snapshot-track_all_example :
    ((snapshot (
        track_all []
          (connects (codes "ann") ∷ moves (codes "bob") (pos 7) (negsuc 2) ∷ []))).total_connections
      ≡ connects_in (connects (codes "ann") ∷ moves (codes "bob") (pos 7) (negsuc 2) ∷ []) % 2 ^ 64)
    × ((snapshot (
          track_all []
            (connects (codes "ann") ∷ moves (codes "bob") (pos 7) (negsuc 2) ∷ []))).upload_bytes
        ≡ upload_in (connects (codes "ann") ∷ moves (codes "bob") (pos 7) (negsuc 2) ∷ []) % 2 ^ 64)
snapshot-track_all_example =
    snapshot-track_all (connects (codes "ann") ∷ moves (codes "bob") (pos 7) (negsuc 2) ∷ [])
