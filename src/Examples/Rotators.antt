-- ===== src/Examples/Rotators.antt =====
-- The rotators, the answer to a ClientHello, the recorder and JA4 at concrete inputs.
use phantom_proxy.Common.{
  length, ◌≤◌, ℕ, ◌*◌, ◌%◌, ◌<◌, ◌≡◌, refl, true, false, Option, none, some, List, [], ◌∷◌, ◌++◌,
  arith, leb, if◌then◌else◌, take, drop,
}
use mathlib.Core.List.{Memᴰ, Permᴰ}
use phantom_proxy.Common.Int.{pos, negsuc}
use phantom_proxy.Common.Bytes.{Bytes, All, codes, zeros, length-zeros}
use phantom_proxy.Common.Result.{Result}
use phantom_proxy.Common.Slice.{Outcome, exact}
use phantom_proxy.FakeTls.Random.{Rand}
use phantom_proxy.FakeTls.Hello.{ClientHello}
use phantom_proxy.FakeTls.Digest.{without_random}
use phantom_proxy.FakeTls.Rotator.{Rotator, new_rotator, pick, per_connection, adaptive}
use phantom_proxy.FakeTls.Rotator.Bounds.{
  Event, failed, succeeded, picked, run, IsValid, new_rotator-IsValid, picks_from_pool,
}
use phantom_proxy.FakeTls.Rotator.Adaptive
use phantom_proxy.FakeTls.Rotator.Adaptive.{
  Handshake, after, streak, rotations, failing, adaptive_log, every_member_picked,
}
use phantom_proxy.FakeTls.ServerHello.{
  ByteSource, NoiseParams, write_server_hello_with_noise, read_server_handshake,
}
use phantom_proxy.FakeTls.ServerHello.RoundTrip.{read_server_handshake-write}
use phantom_proxy.FakeTls.Fronting.{new_recorder, prepend, read, read_all, splice}
use phantom_proxy.FakeTls.Fronting.Capture.{splice_loses_nothing}
use phantom_proxy.FakeTls.Fingerprint.{ja4_text}
use phantom_proxy.FakeTls.Fingerprint.Order.{ja4_text-Perm}

abbrev draw : ℕ → ℕ → Option ℕ
draw k m = if leb m 1 then none else some 1

draw-lt : (k m n : ℕ) → draw k m ≡ some n → n < m
draw-lt k m n e = ground arith

abbrev rnd : Rand
rnd = record { int = draw; int-lt = draw-lt }

abbrev profiles : List Bytes
profiles = codes "chrome" ∷ codes "firefox" ∷ codes "edge" ∷ []

abbrev events : List Event
events = picked 0 400 401 ∷ failed 402 ∷ succeeded ∷ picked 1 403 404 ∷ []

picks_from_pool_example :
    (xs : List Bytes) × (r : Rotator Bytes) × (run rnd events
        (new_rotator profiles per_connection (negsuc 0) (pos 2) 5)
      ≡ some (xs, r))
    × All (λ a. Memᴰ a profiles) xs
    × ((r.pool ≡ profiles) × IsValid r)
picks_from_pool_example =
    picks_from_pool rnd events profiles per_connection (negsuc 0) (pos 2) 5 (omega arith)

-- The last handshake first: two failures after a success, and five before it.
abbrev handshakes : List Handshake
handshakes =
    Adaptive.failed 9
    ∷ Adaptive.failed 8
    ∷ Adaptive.succeeded
    ∷ Adaptive.failed 5
    ∷ Adaptive.failed 4
    ∷ Adaptive.failed 3
    ∷ Adaptive.failed 2
    ∷ Adaptive.failed 1
    ∷ []

abbrev turned : Rotator Bytes
turned = after handshakes (new_rotator profiles adaptive (pos 300) (pos 2) 0)

adaptive_log_example :
    (turned.pool ≡ profiles)
    × (turned.failures ≡ streak handshakes % 2)
    × (turned.current_idx ≡ rotations 2 handshakes % 3)
adaptive_log_example = adaptive_log handshakes profiles (pos 300) (pos 2) 0 (omega arith)

every_member_picked_example :
    pick rnd 0 70 71
      (after (failing 60 (2 * 2)) (new_rotator profiles adaptive (pos 300) (pos 2) 0))
    ≡ some (
      codes "edge",
      after (failing 60 (2 * 2)) (new_rotator profiles adaptive (pos 300) (pos 2) 0),
    )
every_member_picked_example =
    every_member_picked rnd profiles (pos 300) (pos 2) 0 60 2 0 70 71 (codes "edge") refl

-- A constant hash, and a source of zeros.
abbrev hash : Bytes → Bytes → Bytes
hash key message = zeros 32

abbrev src : ByteSource
src = record { bytes = λ k n. zeros n; fails = λ k. false; length-bytes = λ k n. length-zeros n }

abbrev hello : ClientHello
hello = record { raw = exact []; random = zeros 32; session_id = 7 ∷ 8 ∷ []; cipher_suite = 0x1301 }

abbrev noise : NoiseParams
noise = record { mean = pos 3000; jitter = negsuc 4 }

read_server_handshake-write_example :
    (packet : Bytes) × (r : Option (Rotator Bytes)) × (write_server_hello_with_noise hash rnd src
        true 0 400 401 hello
        (codes "key")
        noise
        (some (new_rotator profiles adaptive (pos 300) (pos 2) 0))
      ≡ (r, Outcome.ok packet))
    × (read_server_handshake (packet ++ (9 ∷ [])) ≡ Result.ok (9 ∷ []))
    × (take 32 (drop 11 packet) ≡ hash (codes "key") (hello.random ++ without_random packet))
read_server_handshake-write_example =
    read_server_handshake-write hash (λ k m. length-zeros 32) rnd src 0 400 401 hello (codes "key")
      noise (some (new_rotator profiles adaptive (pos 300) (pos 2) 0)) (9 ∷ [])
      (new_rotator-IsValid profiles adaptive (pos 300) (pos 2) 0 (omega arith)) refl (omega arith)
      (omega arith)

read_back :
    1
    ≤ length (read_all ((2, 5) ∷ (3, 2) ∷ []) (prepend (22 ∷ []) (new_recorder (codes "abcdef")))).0
unfolding read_all read prepend
read_back = omega arith

splice_loses_nothing_example :
    let (sent, t) =
      splice
        ((4, 3) ∷ [])
        (read_all ((2, 5) ∷ (3, 2) ∷ []) (prepend (22 ∷ []) (new_recorder (codes "abcdef")))).1 in
    (sent ++ t.conn ≡ 22 ∷ codes "abcdef") × (t.pending ≡ [])
splice_loses_nothing_example =
    splice_loses_nothing ((2, 5) ∷ (3, 2) ∷ []) ((4, 3) ∷ []) (22 ∷ []) (codes "abcdef") read_back

ja4_text-Perm_example :
    ja4_text (λ m. m) (λ m. m) (λ m. m) 0x0303 (1 ∷ 2 ∷ []) (43 ∷ []) (codes "h2") (codes "a.org")
    ≡ ja4_text (λ m. m) (λ m. m) (λ m. m) 0x0303 (2 ∷ 1 ∷ []) (43 ∷ []) (codes "h2") (codes "a.org")
ja4_text-Perm_example =
    ja4_text-Perm (λ m. m) (λ m. m) (λ m. m) 0x0303 (codes "h2") (codes "a.org")
      (Permᴰ.swap refl refl) (Permᴰ.cons refl Permᴰ.nil)
