-- ===== src/Telegram.antt =====
-- internal/telegram/dc.go and `ResolveEndpoints` of internal/middleproxy/config.go: which address
-- serves a data centre. Positive numbers are the main data centres, negative ones those for media.
pub mod Resolve
use phantom_proxy.Common.{ℕ, zero, suc, Option, none, some, List, [], ◌∷◌, ◌==◌, if◌then◌else◌}
use phantom_proxy.Common.Bytes.{Bytes, codes}
use phantom_proxy.Common.Int.{ℤ, pos, negsuc}

-- `dcAddresses` at a positive and at a negative key, which is given without its sign.
unfoldable pub main_addresses : ℕ → List Bytes
main_addresses n =
    if n == 1
    then codes "149.154.175.50:443" ∷ codes "149.154.175.53:443" ∷ []
    else if n == 2
    then codes "149.154.167.51:443" ∷ codes "95.161.76.100:443" ∷ []
    else if n == 3
    then codes "149.154.175.100:443" ∷ []
    else if n == 4
    then codes "149.154.167.91:443" ∷ []
    else if n == 5
    then codes "149.154.171.5:443" ∷ codes "91.108.56.100:443" ∷ []
    else []

unfoldable pub media_addresses : ℕ → List Bytes
media_addresses n =
    if n == 1
    then codes "149.154.175.52:443" ∷ []
    else if n == 2
    then codes "149.154.167.151:443"
      ∷ codes "149.154.167.222:443"
      ∷ codes "149.154.167.223:443"
      ∷ []
    else if n == 3
    then codes "149.154.175.102:443" ∷ []
    else if n == 4
    then codes "149.154.164.250:443"
      ∷ codes "149.154.166.120:443"
      ∷ codes "149.154.167.118:443"
      ∷ []
    else if n == 5
    then codes "91.108.56.102:443" ∷ codes "91.108.56.128:443" ∷ codes "91.108.56.151:443" ∷ []
    else []

-- A data centre 0 stands for the second.
unfoldable pub dc_addresses : ℤ → List Bytes
unfolding main_addresses media_addresses
dc_addresses (pos zero) = main_addresses 2
dc_addresses (pos (suc n)) = main_addresses (suc n)
dc_addresses (negsuc n) = media_addresses (suc n)

unfoldable pub first : List Bytes → Option Bytes
first [] = none
first (a ∷ _) = some a

-- An error is `none`.
unfoldable pub resolve_addr : ℤ → Bytes → Option Bytes
unfolding dc_addresses first
resolve_addr dc_id [] = first (dc_addresses dc_id)
resolve_addr dc_id (c ∷ cs) = some (c ∷ cs)
