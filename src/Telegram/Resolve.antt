-- ===== src/Telegram/Resolve.antt =====
-- Which data centres have an address.
use phantom_proxy.Common.{ℕ, zero, suc, ◌+◌, ◌≤◌, ◌≡◌, refl, ◌≢◌, ◌↔◌, none, some, [], ◌∷◌, arith}
use phantom_proxy.Common.Bytes.{Bytes}
use phantom_proxy.Common.Int.{ℤ, pos, negsuc, pos_part, neg_part}
use phantom_proxy.Telegram.{main_addresses, media_addresses, dc_addresses, first, resolve_addr}

-- A data centre without a configured backend resolves exactly if its number is between -5 and 5;
-- with a backend, each one resolves to the backend.
pub resolve_addr-known :
    (dc_id : ℤ) (c : ℕ) (cs : Bytes)
    → ((resolve_addr dc_id [] ≢ none) ↔ (pos_part dc_id + neg_part dc_id ≤ 5))
      × (resolve_addr dc_id (c ∷ cs) ≡ some (c ∷ cs))
unfolding resolve_addr dc_addresses main_addresses media_addresses first
resolve_addr-known (pos zero) c cs = (ground arith, refl)
resolve_addr-known (pos (suc n)) c cs = (ground arith, refl)
resolve_addr-known (negsuc n) c cs = (ground arith, refl)
