-- ===== src/Proxy/ProxyProtocol/Header.antt =====
-- A PROXY header that is well formed is accepted. About: accept_with_proxy_protocol, read_line,
-- split_blank.
use phantom_proxy.Common.{
  ℕ, ◌<◌, ◌≡◌, refl, sym, ap, ◌∙◌, inl, inr, Bool, true, false, ◌||◌, some, List, [], ◌∷◌, ◌++◌,
  append-nil, append_assoc, arith, ltb, ◌==◌, if◌then◌else◌, Bool-cases, length, length-append,
}
use phantom_proxy.Common.Bytes.{Bytes, All, codes, eqb}
use phantom_proxy.Common.Text.{is_space, trim_left, trim_last, trim_right, trim_space}
use phantom_proxy.Common.Result.{ok}
use phantom_proxy.Proxy.Address.{Net}
use phantom_proxy.Proxy.ProxyProtocol.{
  Accepted, read_line, split_blank, from_line, accept_with_proxy_protocol,
}

abbrev NotSpace : ℕ → Type 0
NotSpace c = is_space c ≡ false

-- A word of a header: one byte or more, and no white space.
abbrev pub IsWord : Bytes → Type 0
IsWord w = (0 < length w) × All NotSpace w

-- The words with a blank between any two.
unfoldable pub line_of : List Bytes → Bytes
line_of [] = []
line_of (w ∷ []) = w
line_of (w ∷ v ∷ ws) = w ++ (32 ∷ line_of (v ∷ ws))

not_32 : (c : ℕ) → NotSpace c → (c == 32) ≡ false
unfolding is_space
not_32 c h = ground (arith, h)

not_10 : (c : ℕ) → NotSpace c → (c == 10) ≡ false
unfolding is_space
not_10 c h = ground (arith, h)

split_word : (w s : Bytes) → All NotSpace w → split_blank (w ++ (32 ∷ s)) ≡ w ∷ split_blank s
unfolding split_blank
split_word [] s h = refl
split_word (c ∷ w) s h = rw (not_32 c h.0, split_word w s h.1) refl

split_last : (w : Bytes) → All NotSpace w → split_blank w ≡ w ∷ []
unfolding split_blank
split_last [] h = refl
split_last (c ∷ w) h = rw (not_32 c h.0, split_last w h.1) refl

split_blank-line_of :
    (w : Bytes) (ws : List Bytes) → All IsWord (w ∷ ws) → split_blank (line_of (w ∷ ws)) ≡ w ∷ ws
unfolding line_of
split_blank-line_of w [] h = split_last w h.0.1
split_blank-line_of w (v ∷ ws) h =
    split_word w (line_of (v ∷ ws)) h.0.1 ∙ ap (λ x. w ∷ x) (split_blank-line_of v ws h.1)

kept_byte : (c : ℕ) (s : Bytes) → NotSpace c → trim_last c s ≡ c ∷ s
unfolding trim_last
kept_byte c [] h = rw h refl
kept_byte c (d ∷ s) h = refl

trim_right-word : (w s : Bytes) → All NotSpace w → trim_right (w ++ s) ≡ w ++ trim_right s
unfolding trim_right
trim_right-word [] s h = refl
trim_right-word (c ∷ w) s h =
    ap (trim_last c) (trim_right-word w s h.1) ∙ kept_byte c (w ++ trim_right s) h.0

kept_blank : (s : Bytes) → 0 < length s → trim_last 32 s ≡ 32 ∷ s
unfolding trim_last
kept_blank [] h = absurd (omega (arith, h))
kept_blank (d ∷ s) h = refl

length-line_of : (w : Bytes) (ws : List Bytes) → All IsWord (w ∷ ws) → 0 < length (line_of (w ∷ ws))
unfolding line_of
length-line_of w [] h = h.0.0
length-line_of w (v ∷ ws) h = omega (arith, length-append w (32 ∷ line_of (v ∷ ws)), h.0.0)

trim_right-line_of :
    (w : Bytes) (ws : List Bytes)
    → All IsWord (w ∷ ws)
    → trim_right (line_of (w ∷ ws) ++ (13 ∷ 10 ∷ [])) ≡ line_of (w ∷ ws)
unfolding line_of trim_right trim_last is_space
trim_right-line_of w [] h = trim_right-word w (13 ∷ 10 ∷ []) h.0.1 ∙ append-nil w
trim_right-line_of w (v ∷ ws) h =
    ap trim_right (append_assoc w (32 ∷ line_of (v ∷ ws)) (13 ∷ 10 ∷ []))
    ∙ trim_right-word w (32 ∷ (line_of (v ∷ ws) ++ (13 ∷ 10 ∷ []))) h.0.1
    ∙ ap (λ x. w ++ trim_last 32 x) (trim_right-line_of v ws h.1)
    ∙ ap (λ x. w ++ x) (kept_blank (line_of (v ∷ ws)) (length-line_of v ws h.1))

read_line-word :
    (w s line tail : Bytes)
    → All NotSpace w
    → read_line s ≡ some (line, tail)
    → read_line (w ++ s) ≡ some (w ++ line, tail)
unfolding read_line
read_line-word [] s line tail h e = e
read_line-word (c ∷ w) s line tail h e = rw (not_10 c h.0, read_line-word w s line tail h.1 e) refl

read_line-blank :
    (s line tail : Bytes)
    → read_line s ≡ some (line, tail)
    → read_line (32 ∷ s) ≡ some (32 ∷ line, tail)
unfolding read_line
read_line-blank s line tail e = rw e refl

read_line-line_of :
    (w : Bytes) (ws : List Bytes) (rest : Bytes)
    → All IsWord (w ∷ ws)
    → read_line (line_of (w ∷ ws) ++ (13 ∷ 10 ∷ rest))
      ≡ some (line_of (w ∷ ws) ++ (13 ∷ 10 ∷ []), rest)
unfolding line_of read_line
read_line-line_of w [] rest h = read_line-word w (13 ∷ 10 ∷ rest) (13 ∷ 10 ∷ []) rest h.0.1 refl
read_line-line_of w (v ∷ ws) rest h =
    ap read_line (append_assoc w (32 ∷ line_of (v ∷ ws)) (13 ∷ 10 ∷ rest))
    ∙ read_line-word w _ _ rest h.0.1 (
        read_line-blank (line_of (v ∷ ws) ++ (13 ∷ 10 ∷ rest)) _ rest
          (read_line-line_of v ws rest h.1))
    ∙ ap (λ x. some (x, rest)) (sym (append_assoc w (32 ∷ line_of (v ∷ ws)) (13 ∷ 10 ∷ [])))

-- The words of a header behind `PROXY`.
abbrev pub words_of : Bytes → Bytes → Bytes → Bytes → Bytes → List Bytes
words_of family src dst sport dport = family ∷ src ∷ dst ∷ sport ∷ dport ∷ []

-- A header of the PROXY protocol, in front of `rest`.
abbrev pub header_of : Bytes → Bytes → Bytes → Bytes → Bytes → Bytes → Bytes
header_of family src dst sport dport rest =
    line_of (codes "PROXY" ∷ words_of family src dst sport dport) ++ (13 ∷ 10 ∷ rest)

proxy-IsWord : IsWord (codes "PROXY")
unfolding is_space
proxy-IsWord = (omega arith, (refl, (refl, (refl, (refl, (refl, tt))))))

parts_of :
    (ws : List Bytes)
    → All IsWord (codes "PROXY" ∷ ws)
    → split_blank (trim_space (line_of (codes "PROXY" ∷ ws) ++ (13 ∷ 10 ∷ []))) ≡ codes "PROXY" ∷ ws
unfolding trim_space trim_left is_space line_of
parts_of [] h =
    ap split_blank (trim_right-line_of (codes "PROXY") [] h)
    ∙ split_blank-line_of (codes "PROXY") [] h
parts_of (w ∷ ws) h =
    ap split_blank (trim_right-line_of (codes "PROXY") (w ∷ ws) h)
    ∙ split_blank-line_of (codes "PROXY") (w ∷ ws) h

module _ (net : Net) where
  abbrev pub accepted : Bytes → Bytes → Bytes → Bytes → Bytes → Accepted
  accepted remote family src sport rest = record {
    remote =
        if eqb family (codes "TCP4") || eqb family (codes "TCP6")
        then net.join_host_port src sport
        else remote;
    input = rest;
  }

  from_line-header :
      (remote rest family src dst sport dport : Bytes)
      → All IsWord (words_of family src dst sport dport)
      → from_line net remote
          (line_of (codes "PROXY" ∷ words_of family src dst sport dport) ++ (13 ∷ 10 ∷ []))
          rest
        ≡ ok (accepted remote family src sport rest)
  unfolding from_line
  from_line-header remote rest family src dst sport dport h =
      let parts = parts_of (words_of family src dst sport dport) (proxy-IsWord, h) in
      elim (Bool-cases (eqb family (codes "TCP4") || eqb family (codes "TCP6"))) [
        | inl e ↦ rw (parts, e) refl
        | inr e ↦ rw (parts, e) refl
      ]

  long_enough : (c d e f g i : ℕ) (s : Bytes) → ltb (length (c ∷ d ∷ e ∷ f ∷ g ∷ i ∷ s)) 6 ≡ false
  long_enough c d e f g i s = ground arith

  -- A connection that begins with a PROXY header of six words without white space, with one blank
  -- between them, is accepted: for TCP4 and TCP6 its address is made of the third and the fifth
  -- word, else it keeps its own, and it delivers exactly the bytes behind the header.
  pub accept_with_proxy_protocol-header_of :
      (remote rest family src dst sport dport : Bytes) (closes : Bool)
      → All IsWord (words_of family src dst sport dport)
      → accept_with_proxy_protocol net true remote
          (header_of family src dst sport dport rest)
          closes
        ≡ ok (accepted remote family src sport rest)
  unfolding accept_with_proxy_protocol line_of eqb
  accept_with_proxy_protocol-header_of remote rest family src dst sport dport closes h =
      let ws = words_of family src dst sport dport in
      let read = read_line-line_of (codes "PROXY") ws rest (proxy-IsWord, h) in
      rw (long_enough _ _ _ _ _ _ _)
        (rw read (from_line-header remote rest family src dst sport dport h))
