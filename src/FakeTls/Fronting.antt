-- ===== src/FakeTls/Fronting.antt =====
-- internal/faketls/fronting.go and record.go: the connections that keep or give back what was read,
-- and the ways a rejected connection ends. A connection is the bytes that it will still deliver;
-- how many of them one `Read` delivers is an argument.
pub mod Capture
use phantom_proxy.Common.{
  ℕ, ◌+◌, ◌-◌, ◌/◌, min, Option, none, some, List, [], ◌∷◌, ◌++◌, ltb, ◌==◌, if◌then◌else◌, length,
  take, drop,
}
use phantom_proxy.Common.Int.{ℤ, pos, is_not_pos}
use phantom_proxy.Common.Bytes.{Bytes, codes, eqb}
use phantom_proxy.Common.Text.{decimal}

pub record ReadRecorder : Type 0 where
  pub conn : Bytes
  pub capture : Bytes
  pub pending : Bytes

abbrev pub new_recorder : Bytes → ReadRecorder
new_recorder conn = record { conn = conn; capture = []; pending = [] }

-- `Read` into a buffer of `n` bytes, of which the connection gives `given` at most.
unfoldable pub read : ℕ → ℕ → ReadRecorder → Bytes × ReadRecorder
read n given r =
    let got = take (min n given) r.conn in
    if ltb 0 (length r.pending)
    then (take n r.pending, record r { pending = drop n r.pending })
    else (got, record r { conn = drop (min n given) r.conn; capture = r.capture ++ got })

-- The buffers and the deliveries of a sequence of reads, one after the other.
unfoldable pub read_all : List (ℕ × ℕ) → ReadRecorder → Bytes × ReadRecorder
read_all [] r = ([], r)
read_all ((n, given) ∷ more) r =
    let (got, s) = read n given r in let (rest, t) = read_all more s in (got ++ rest, t)

unfoldable pub recorder_snapshot : ReadRecorder → Bytes
recorder_snapshot r = r.capture

unfoldable pub prepend : Bytes → ReadRecorder → ReadRecorder
prepend b r =
    if length b == 0 then r else record r { pending = r.pending ++ b; capture = r.capture ++ b }

-- What `handleRejectedTLS` and `SpliceToHost` send to the host: the snapshot, and then what
-- `io.Copy` reads from the recorder itself, with the reads that it makes.
unfoldable pub splice : List (ℕ × ℕ) → ReadRecorder → Bytes × ReadRecorder
unfolding recorder_snapshot
splice copy r = let (copied, t) = read_all copy r in (recorder_snapshot r ++ copied, t)

pub record PrefixConn : Type 0 where
  pub conn : Bytes
  pub prefix : Bytes

unfoldable pub read_prefix : ℕ → ℕ → PrefixConn → Bytes × PrefixConn
read_prefix n given c =
    if ltb 0 (length c.prefix)
    then (take n c.prefix, record c { prefix = drop n c.prefix })
    else (take (min n given) c.conn, record c { conn = drop (min n given) c.conn })

-- `SpliceToHost` up to the dial: the address, `none` without a host.
unfoldable pub splice_target : Bytes → ℤ → Option Bytes
splice_target host port =
    if eqb host []
    then none
    else some (host ++ (codes ":" ++ decimal (if is_not_pos port then pos 443 else port)))

unfoldable pub redirect_to_domain : Bytes → Bytes
redirect_to_domain domain =
    let body = codes "https://" ++ (domain ++ (codes "/" ++ (13 ∷ 10 ∷ []))) in
    codes "HTTP/1.1 302 Found"
    ++ ((13 ∷ 10 ∷ [])
        ++ (codes "Connection: close"
            ++ ((13 ∷ 10 ∷ [])
                ++ (codes "Content-Type: text/plain; charset=utf-8"
                    ++ ((13 ∷ 10 ∷ [])
                        ++ (codes "Location: https://"
                            ++ (domain
                                ++ (codes "/"
                                    ++ ((13 ∷ 10 ∷ [])
                                        ++ (codes "Content-Length: "
                                            ++ (decimal (pos (length body))
                                                ++ ((13 ∷ 10 ∷ 13 ∷ 10 ∷ []) ++ body))))))))))))
