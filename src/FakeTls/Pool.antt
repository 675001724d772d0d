-- ===== src/FakeTls/Pool.antt =====
-- internal/faketls/pool.go: the TLS fingerprints by name, and their rotator. The identifiers of
-- the utls library are parameters.
pub mod Names
use phantom_proxy.Common.{
  ℕ, Option, none, some, List, [], ◌∷◌, ◌==◌, if◌then◌else◌, length, get_elem?,
}
use phantom_proxy.Common.Int.{ℤ}
use phantom_proxy.Common.Bytes.{Bytes, codes, eqb}
use phantom_proxy.Common.Map.{lookup}
use phantom_proxy.Common.Text.{trim_space, to_lower}
use phantom_proxy.Common.Result.{Result, err, ok, ◌>>=◌}
use phantom_proxy.FakeTls.Rotator.{Rotator, new_rotator}

pub record Utls : Type 1 where
  pub ClientHelloId : Type 0
  pub chrome_auto : ClientHelloId
  pub chrome_120 : ClientHelloId
  pub chrome_120_pq : ClientHelloId
  pub chrome_115_pq : ClientHelloId
  pub chrome_106_shuffle : ClientHelloId
  pub firefox_auto : ClientHelloId
  pub firefox_120 : ClientHelloId
  pub firefox_105 : ClientHelloId
  pub edge_auto : ClientHelloId
  pub edge_106 : ClientHelloId
  pub safari_auto : ClientHelloId
  pub safari_16_0 : ClientHelloId

pub data PoolError : Type 0 where
  empty_name : PoolError
  unknown_name : Bytes → PoolError

abbrev pub default_names : List Bytes
default_names =
    codes "chrome_auto"
    ∷ codes "chrome_120"
    ∷ codes "chrome_120_pq"
    ∷ codes "firefox_auto"
    ∷ codes "firefox_120"
    ∷ codes "edge_auto"
    ∷ codes "safari_auto"
    ∷ []

module _ (utls : Utls) where
  abbrev pub registry : List (Bytes × utls.ClientHelloId)
  registry =
      (codes "chrome_auto", utls.chrome_auto)
      ∷ (codes "chrome_120", utls.chrome_120)
      ∷ (codes "chrome_120_pq", utls.chrome_120_pq)
      ∷ (codes "chrome_115_pq", utls.chrome_115_pq)
      ∷ (codes "chrome_106_shuffle", utls.chrome_106_shuffle)
      ∷ (codes "firefox_auto", utls.firefox_auto)
      ∷ (codes "firefox_120", utls.firefox_120)
      ∷ (codes "firefox_105", utls.firefox_105)
      ∷ (codes "edge_auto", utls.edge_auto)
      ∷ (codes "edge_106", utls.edge_106)
      ∷ (codes "safari_auto", utls.safari_auto)
      ∷ (codes "safari_16_0", utls.safari_16_0)
      ∷ []

  abbrev or_unknown : Bytes → Option utls.ClientHelloId → Result PoolError utls.ClientHelloId
  or_unknown name none = err (unknown_name name)
  or_unknown name (some id) = ok id

  unfoldable pub parse_fingerprint : Bytes → Result PoolError utls.ClientHelloId
  parse_fingerprint name =
      let key = to_lower (trim_space name) in
      if eqb key [] then err empty_name else or_unknown name (lookup key registry)

  -- The loop: the identifiers, and the names as the registry has them.
  unfoldable pub parse_names : List Bytes → Result PoolError (List utls.ClientHelloId × List Bytes)
  parse_names [] = ok ([], [])
  parse_names (name ∷ names) = do
    id ← parse_fingerprint name
    rest ← parse_names names
    ok (id ∷ rest.0, to_lower (trim_space name) ∷ rest.1)

  unfoldable pub parse_fingerprint_pool :
      List Bytes → Result PoolError (List utls.ClientHelloId × List Bytes)
  parse_fingerprint_pool names = parse_names (if length names == 0 then default_names else names)

  pub record FingerprintRotator : Type 0 where
    pub names : List Bytes
    pub rotator : Rotator utls.ClientHelloId

  unfoldable pub new_fingerprint_rotator :
      List Bytes → Bytes → ℤ → ℤ → ℕ → Result PoolError FingerprintRotator
  new_fingerprint_rotator names strategy interval_sec threshold now = do
    parsed ← parse_fingerprint_pool names
    ok (record {
      names = parsed.1;
      rotator = new_rotator parsed.0 strategy interval_sec threshold now;
    })

  -- The name at the current index: `none` is the panic of an index out of range.
  unfoldable pub current_name : Option FingerprintRotator → Option Bytes
  current_name none = some (codes "chrome_auto")
  current_name (some r) =
      if length r.names == 0
      then some (codes "chrome_auto")
      else get_elem? r.names r.rotator.current_idx
