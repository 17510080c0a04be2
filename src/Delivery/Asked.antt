-- ===== src/Delivery/Asked.antt =====
-- `create` of apps/api/src/delivery/delivery.service.ts: a customer asks for the delivery of metal.
-- The code takes no lock from the check to the insert; here the two are one piece.
use alkeva.Common.{ℕ, Bool, not, ◌&&◌, ◌==◌, Option, some, ◌∷◌, any, none}
use alkeva.Common.Int.{ℤ, pos, ltb_ℤ}
use alkeva.Common.Keyed.{has_key}
use alkeva.Assets.{MetalAsset, metal_eq, xau, xpt}
use alkeva.Codes.{
  delivery_not_eligible, amount_too_small, insufficient_metal, delivery_already_open,
  unique_violation,
}
use alkeva.Schema.{Db, DeliveryRequest, DeliveryStatus}
use alkeva.Request.{Action, pure, gets, raise_if, modify, ◌>>=◌, ◌>>◌}
use alkeva.Ledger.{assert_can_move_money}
use alkeva.Orders.Settle.{notify}
use alkeva.Treasury.{audit}
use alkeva.Portfolio.Projection.{Portfolio, for_user}
use alkeva.Delivery.{is_open}

-- `createDeliveryDto`, without the address and the telephone number.
pub record CreateDelivery : Type 0 where
  pub asset : MetalAsset
  pub grams_mg : ℕ

abbrev pub held_of : MetalAsset → Portfolio → ℤ
held_of xau snapshot = snapshot.gold.grams_mg
held_of xpt snapshot = snapshot.platinum.grams_mg

abbrev pub is_open_of : ℕ → MetalAsset → DeliveryRequest → Bool
is_open_of user_id asset d = d.user_id == user_id && (metal_eq d.asset asset && is_open d.status)

abbrev pub new_delivery : ℕ → ℕ → CreateDelivery → DeliveryRequest
new_delivery id user_id dto = record {
  id = id;
  user_id = user_id;
  asset = dto.asset;
  grams_mg = dto.grams_mg;
  status = DeliveryStatus.requested;
  reviewer_id = none;
}

abbrev pub add_delivery : DeliveryRequest → Db → Db
add_delivery row db = record db { deliveries = row ∷ db.deliveries }

-- The row, and what is told of it.
abbrev pub write_delivery : DeliveryRequest → Action DeliveryRequest
write_delivery row = do
  modify (add_delivery row)
  modify (audit (some row.user_id) "delivery_requested" (some row.id))
  modify (notify (some row.user_id) "delivery_requested")
  pure row

-- The insert; the id is a primary key.
abbrev pub insert_delivery : DeliveryRequest → Action DeliveryRequest
insert_delivery row = do
  taken ← gets (λ db. has_key (λ (d : DeliveryRequest). d.id) row.id db.deliveries)
  raise_if taken unique_violation
  write_delivery row

-- The checks on what the customer holds, and that nothing of that metal is asked for already.
unfoldable pub open_request : ℕ → ℕ → CreateDelivery → Portfolio → Action DeliveryRequest
open_request id user_id dto snapshot = do
  raise_if (not snapshot.tier.delivery_eligible) delivery_not_eligible
  raise_if (dto.grams_mg == 0) amount_too_small
  raise_if (ltb_ℤ (held_of dto.asset snapshot) (pos dto.grams_mg)) insufficient_metal
  already ← gets (λ db. any (is_open_of user_id dto.asset) db.deliveries)
  raise_if already delivery_already_open
  insert_delivery (new_delivery id user_id dto)

-- `create`
unfoldable pub create : Option ℕ → ℕ → ℕ → CreateDelivery → Action DeliveryRequest
create cutoff id user_id dto = do
  assert_can_move_money user_id
  snapshot ← for_user cutoff user_id
  open_request id user_id dto snapshot
