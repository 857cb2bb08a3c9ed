-- ===== src/Listing/Order.antt =====
-- The order of the listing.
use fleet_api.Base.{String, Bool, arith}
use fleet_api.Paging.Keys.{IsOrder}
use fleet_api.Listing.{is_newer}

-- Newest first, and by descending identifier, is a strict total order of the keys.
pub is_newer-IsOrder :
    (collates : String → String → Bool) → IsOrder collates → IsOrder (is_newer collates)
is_newer-IsOrder collates h = record {
  irrefl = λ a. ground (arith, h.irrefl a.id);
  trans = λ a b c p q. ground (arith, h.trans c.id b.id a.id);
  connex = λ a b p q. ground (arith, h.connex b.id a.id);
}
