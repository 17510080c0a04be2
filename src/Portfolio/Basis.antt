-- ===== src/Portfolio/Basis.antt =====
-- `costBasis` of apps/api/src/portfolio/portfolio.service.ts: settled orders, replayed in the order in
-- which they settled. The replay never goes below zero, so it counts in natural numbers.
use alkeva.Common.{
  ℕ, ◌+◌, ◌-◌, ◌*◌, ◌/◌, Bool, true, false, ◌&&◌, Option, none, some, List, [], ◌∷◌, ltb, leb, ◌==◌,
  if◌then◌else◌,
}
use alkeva.Assets.{MetalAsset, metal_eq, OrderSide, buy, sell}
use alkeva.Schema.{Db, Order, Quote, is_order_settled}
use alkeva.Orders.Queries.{find_quote}

-- A settled order with what its quote says.
pub record Trade : Type 0 where
  pub side : OrderSide
  pub grams_mg : ℕ
  pub total_cents : ℕ
  pub settled_at : Option ℕ
  pub created_at : ℕ

-- The order of `asc`, in which NULL comes last.
abbrev pub before_null : Option ℕ → Option ℕ → Bool
before_null (some a) (some b) = ltb a b
before_null (some a) none = true
before_null none _ = false

-- `order by settled_at asc, created_at asc`: not after.
abbrev pub not_after : Trade → Trade → Bool
not_after a b =
    if before_null a.settled_at b.settled_at
    then true
    else if before_null b.settled_at a.settled_at
    then false
    else leb a.created_at b.created_at

unfoldable pub insert : Trade → List Trade → List Trade
insert t [] = t ∷ []
insert t (u ∷ us) = let rest = insert t us in if not_after t u then t ∷ u ∷ us else u ∷ rest

unfoldable pub sorted : List Trade → List Trade
unfolding insert
sorted [] = []
sorted (t ∷ ts) = insert t (sorted ts)

abbrev pub trade_of : Order → Option Quote → List Trade → List Trade
trade_of o none trades = trades
trade_of o (some q) trades =
    record {
      side = o.side;
      grams_mg = q.grams_mg;
      total_cents = q.total_cents;
      settled_at = o.settled_at;
      created_at = o.created_at;
    }
    ∷ trades

-- `orders inner join quotes`, the settled ones of a user in a metal.
unfoldable pub trades_of : ℕ → MetalAsset → Db → List Order → List Trade
trades_of user_id asset db [] = []
trades_of user_id asset db (o ∷ os) =
    let rest = trades_of user_id asset db os in
    if o.user_id == user_id && metal_eq o.asset asset && is_order_settled o.status
    then trade_of o (find_quote o.quote_id db) rest
    else rest

-- What is still held, and what it cost.
pub record Position : Type 0 where
  pub held_mg : ℕ
  pub cost_cents : ℕ

abbrev pub sold_of : ℕ → ℕ → ℕ
sold_of held_mg grams_mg = if ltb held_mg grams_mg then held_mg else grams_mg

-- A sale retires cost in proportion to the grams that leave.
unfoldable pub retire : Position → ℕ → Position
retire p grams_mg =
    let sold_mg = sold_of p.held_mg grams_mg in
    let cost_removed = (p.cost_cents * sold_mg) / p.held_mg in
    let left_mg = p.held_mg - sold_mg in
    record {
      held_mg = left_mg;
      cost_cents = if left_mg == 0 then 0 else p.cost_cents - cost_removed;
    }

abbrev pub apply_side : OrderSide → ℕ → ℕ → Position → Position
apply_side buy grams_mg total_cents p = record {
  held_mg = p.held_mg + grams_mg;
  cost_cents = p.cost_cents + total_cents;
}
apply_side sell grams_mg total_cents p = if leb p.held_mg 0 then p else retire p grams_mg

-- The loop over the rows.
unfoldable pub replay : List Trade → Position → Position
unfolding retire
replay [] p = p
replay (t ∷ ts) p = replay ts (apply_side t.side t.grams_mg t.total_cents p)

-- `costBasis`
unfoldable pub cost_basis : ℕ → MetalAsset → Db → ℕ
unfolding sorted trades_of replay
cost_basis user_id asset db =
    (replay (sorted (trades_of user_id asset db db.orders))
      (record { held_mg = 0; cost_cents = 0 })).cost_cents
