-- ===== src/Orders/Queries.antt =====
-- The reads of apps/api/src/orders/orders.service.ts.
use alkeva.Common.{
  ℕ, ◌+◌, String, Bool, true, false, not, ◌&&◌, ◌||◌, Option, none, some, List, [], ◌∷◌, ltb, ◌==◌,
  if◌then◌else◌,
}
use alkeva.Common.Int.{ℤ, pos, ◌+ℤ◌, ◌-ℤ◌, leb_ℤ}
use alkeva.Common.Table.{find_row, find_where, sum_by}
use alkeva.Assets.{MetalAsset, metal_eq, OrderSide, sell, side_eq, eat_day_start_utc}
use alkeva.Codes.{Code, conflict, tier_txn_cap, tier_daily_cap}
use alkeva.Schema.{
  Db, Order, OrderStatus, Quote, HoldingTier, VaultHolding, VaultKind, intake, outtake, User,
  is_order_settled, is_order_review,
}
use alkeva.Request.{Action, pure, gets, raise_if, ◌>>=◌, ◌>>◌}
use text.Mathlib.Text.{◌==◌ as str_eq}

abbrev pub find_quote : ℕ → Db → Option Quote
find_quote id db = find_row (λ (q : Quote). q.id) id db.quotes

abbrev pub find_order : ℕ → Db → Option Order
find_order id db = find_row (λ (o : Order). o.id) id db.orders

-- The total of an order's quote (`inner join`).
abbrev quote_total : Db → Order → ℕ
quote_total db o = elim (find_quote o.quote_id db) [ none ↦ 0 | some q ↦ q.total_cents ]

-- The sum of the totals of the orders that a query selects.
abbrev total_where : (Order → Bool) → Db → ℕ
total_where p db = sum_by (λ o. if p o then quote_total db o else 0) db.orders

abbrev since : ℕ → ℕ → Bool
since now at = leb_ℤ (eat_day_start_utc now) (pos at)

abbrev settled_since : ℕ → Order → Bool
settled_since now o = elim o.settled_at [ none ↦ false | some at ↦ since now at ]

-- `turnoverToday`: today's orders of a user, settled or waiting in review.
unfoldable pub turnover_today : ℕ → ℕ → Db → ℕ
turnover_today now user_id db =
    total_where
      (λ o.
        o.user_id == user_id
        && (is_order_settled o.status || is_order_review o.status)
        && since now o.created_at)
      db

-- `dailySellbackUsed`
pub daily_sellback_used : ℕ → Db → ℕ
daily_sellback_used now db =
    total_where (λ o. side_eq o.side sell && is_order_settled o.status && settled_since now o) db

abbrev pub add_kind : VaultKind → ℤ → ℕ → ℤ
add_kind intake mg grams_mg = mg +ℤ pos grams_mg
add_kind outtake mg grams_mg = mg -ℤ pos grams_mg

-- `physicalVaultMg`: intake less outtake.
unfoldable pub physical_mg : MetalAsset → List VaultHolding → ℤ
physical_mg asset [] = pos 0
physical_mg asset (v ∷ vs) =
    if metal_eq v.asset asset
    then add_kind v.kind (physical_mg asset vs) v.grams_mg
    else physical_mg asset vs

-- `order by rank limit 1` among the rows that pass.
abbrev pub lower_rank : HoldingTier → Option HoldingTier → HoldingTier
lower_rank t none = t
lower_rank t (some u) = if ltb u.rank t.rank then u else t

unfoldable pub lowest_tier : (HoldingTier → Bool) → List HoldingTier → Option HoldingTier
lowest_tier p [] = none
lowest_tier p (t ∷ ts) =
    let rest = lowest_tier p ts in if p t then some (lower_rank t rest) else rest

-- An account with no cached tier name counts as the lowest tier.
unfoldable pub tier_of : ℕ → Db → Option HoldingTier
tier_of user_id db = elim (find_row (λ (u : User). u.id) user_id db.users) [
  | none ↦ lowest_tier (λ _. true) db.holding_tiers
  | some u ↦ elim u.holding_tier [
    | none ↦ lowest_tier (λ _. true) db.holding_tiers
    | some name ↦
        if str_eq name ""
        then lowest_tier (λ _. true) db.holding_tiers
        else lowest_tier (λ t. str_eq t.name name) db.holding_tiers
  ]
]

abbrev exceeds : ℕ → Option ℕ → Bool
exceeds amount none = false
exceeds amount (some cap) = ltb cap amount

-- `checkTierCaps`: a cap of NULL, and a tier name with no row, mean uncapped.
unfoldable pub check_tier_caps : ℕ → ℕ → ℕ → Db → Option Code
check_tier_caps now user_id total_cents db = elim (tier_of user_id db) [
  | none ↦ none
  | some tier ↦
      let used_today =
        total_where (λ o. o.user_id == user_id && is_order_settled o.status && settled_since now o)
          db in
      if exceeds total_cents tier.per_txn_cap_cents
      then some tier_txn_cap
      else if exceeds (used_today + total_cents) tier.daily_cap_cents
      then some tier_daily_cap
      else none
]

-- `OrderResponse`, with numbers in place of their digits.
pub record OrderResponse : Type 0 where
  pub id : ℕ
  pub quote_id : ℕ
  pub side : OrderSide
  pub asset : MetalAsset
  pub status : OrderStatus
  pub failure_reason : Option Code
  pub ledger_transaction_id : Option ℕ
  pub grams_mg : ℕ
  pub total_cents : ℕ
  pub created_at : ℕ
  pub settled_at : Option ℕ

unfoldable pub serialize : Order → Quote → OrderResponse
serialize order quote = record {
  id = order.id;
  quote_id = order.quote_id;
  side = order.side;
  asset = order.asset;
  status = order.status;
  failure_reason = order.failure_reason;
  ledger_transaction_id = order.ledger_transaction_id;
  grams_mg = quote.grams_mg;
  total_cents = quote.total_cents;
  created_at = order.created_at;
  settled_at = order.settled_at;
}

abbrev pub key_eq : ℕ × String → ℕ × String → Bool
key_eq (u, k) (v, j) = u == v && str_eq k j

abbrev pub find_order_by_key : ℕ × String → Db → Option Order
find_order_by_key key db = find_where (λ o. key_eq o.idempotency_key key) db.orders

-- `findByKey`: an earlier order under the key, unless the key was used for something else.
unfoldable pub find_by_key : ℕ × String → ℕ → ℕ → Action (Option OrderResponse)
unfolding serialize
find_by_key key user_id quote_id = do
  found ← gets (find_order_by_key key)
  elim found [
    | none ↦ pure none
    | some order ↦ do
      quote ← gets (find_quote order.quote_id)
      elim quote [
        | none ↦ pure none
        | some quote ↦ do
          raise_if (not (order.user_id == user_id) || not (order.quote_id == quote_id)) conflict
          pure (some (serialize order quote))
      ]
  ]
