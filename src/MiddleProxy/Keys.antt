-- ===== src/MiddleProxy/Keys.antt =====
-- internal/middleproxy/crypto.go and config.go: the key material of a connection, and the middle
-- proxies of a data centre. MD5 and SHA-1 are parameters.
use phantom_proxy.Common.{
  ℕ, zero, suc, ◌≡◌, Bool, true, false, List, [], ◌∷◌, ◌++◌, arith, ◌==◌, if◌then◌else◌, length,
  length-append, take, drop, length-take,
}
use phantom_proxy.Common.Bytes.{Bytes, codes}
use phantom_proxy.Common.Int.{ℤ, pos, negsuc}

pub record Endpoint : Type 0 where
  pub host : Bytes
  pub port : ℕ

unfoldable pub or_empty_ip : Bytes → Bytes
or_empty_ip [] = 0 ∷ 0 ∷ 0 ∷ 0 ∷ []
or_empty_ip (c ∷ cs) = c ∷ cs

-- The key of 32 bytes and the IV: `copy` cuts or leaves zeros only if a hash has another length.
unfoldable pub derive_keys :
    (Bytes → Bytes)
    → (Bytes → Bytes)
    → Bytes
    → Bytes
    → Bytes
    → Bytes
    → Bytes
    → Bytes
    → Bytes
    → Bytes
    → Bytes
    → Bytes × Bytes
derive_keys md5 sha1 nonce_srv nonce_clt clt_ts srv_ip clt_port purpose clt_ip srv_port secret =
    let s =
      nonce_srv
      ++ (nonce_clt
          ++ (clt_ts
              ++ (or_empty_ip srv_ip
                  ++ (clt_port
                      ++ (purpose
                          ++ (or_empty_ip clt_ip
                              ++ (srv_port ++ (secret ++ (nonce_srv ++ nonce_clt))))))))) in
    (take 12 (md5 (drop 1 s)) ++ take 20 (sha1 s), md5 (drop 2 s))

at_8888 : Bytes → List Endpoint
at_8888 host = record { host = host; port = 8888 } ∷ []

-- `DefaultProxiesV4`, by the number without its sign.
unfoldable pub default_proxies : Bool → ℕ → List Endpoint
unfolding at_8888
default_proxies media n =
    if n == 1
    then at_8888 (codes "149.154.175.50")
    else if n == 2
    then at_8888 (codes "149.154.161.144")
    else if n == 3
    then at_8888 (codes "149.154.175.100")
    else if n == 4
    then at_8888 (if media then codes "149.154.165.109" else codes "91.108.4.136")
    else if n == 5
    then at_8888 (codes "91.108.56.183")
    else []

-- The endpoints of the other sign, where there are none of this one.
or_other : List Endpoint → List Endpoint → List Endpoint
or_other [] other = other
or_other (e ∷ es) other = e ∷ es

unfoldable pub resolve_endpoints : ℤ → List Endpoint
unfolding or_other
resolve_endpoints (pos zero) = or_other (default_proxies false 2) (default_proxies true 2)
resolve_endpoints (pos (suc n)) =
    or_other (default_proxies false (suc n)) (default_proxies true (suc n))
resolve_endpoints (negsuc n) =
    or_other (default_proxies true (suc n)) (default_proxies false (suc n))

-- What `deriveKeys` makes is a key of AES-256 and an IV of one block, for hashes of the lengths of
-- MD5 and SHA-1.
pub length-derive_keys :
    (md5 sha1 : Bytes → Bytes)
    (nonce_srv nonce_clt clt_ts srv_ip clt_port purpose clt_ip srv_port secret : Bytes)
    → ((m : Bytes) → length (md5 m) ≡ 16)
    → ((m : Bytes) → length (sha1 m) ≡ 20)
    → (length
          (derive_keys md5 sha1 nonce_srv nonce_clt clt_ts srv_ip clt_port purpose clt_ip srv_port
            secret).0
        ≡ 32)
      × (length
            (derive_keys md5 sha1 nonce_srv nonce_clt clt_ts srv_ip clt_port purpose clt_ip srv_port
              secret).1
          ≡ 16)
unfolding derive_keys
length-derive_keys md5 sha1 a b c d e f g h i h5 h1 =
    let s : Bytes =
      a
      ++ (b ++ (c ++ (or_empty_ip d ++ (e ++ (f ++ (or_empty_ip g ++ (h ++ (i ++ (a ++ b))))))))) in
    (
      omega (
        arith,
        length-append (take 12 (md5 (drop 1 s))) (take 20 (sha1 s)),
        length-take 12 (md5 (drop 1 s)),
        length-take 20 (sha1 s),
        h5 (drop 1 s),
        h1 s,
      ),
      h5 (drop 2 s),
    )
