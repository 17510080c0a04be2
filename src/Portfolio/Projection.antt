-- ===== src/Portfolio/Projection.antt =====
-- `forUser`, `badgesFor` and `progress` of apps/api/src/portfolio/portfolio.service.ts.
use alkeva.Common.{
  ℕ, suc, ◌+◌, ◌*◌, ◌/◌, Bool, not, ◌&&◌, Option, none, some, List, [], ◌∷◌, ltb, leb, ◌==◌, length,
  filter, is_some, if◌then◌else◌,
}
use alkeva.Common.Int.{ℤ, pos, negsuc, neg, pos_part, ◌+ℤ◌, ◌-ℤ◌, leb_ℤ, ltb_ℤ}
use alkeva.Common.Table.{find_where}
use alkeva.Assets.{MetalAsset, xau, xpt, etb, metal, mg_per_gram, buy, side_eq}
use alkeva.Schema.{Db, PriceTick, Order, HoldingTier, User, is_order_settled}
use alkeva.Request.{Action, pure, gets, ◌>>=◌}
use alkeva.Ledger.{balance_for_user, find_user}
use alkeva.Quotes.{latest_tick}
use alkeva.Portfolio.Basis.{cost_basis, before_null}
use alkeva.Portfolio.Tier.{TierDto, tier_for, by_rank, head}

-- Division of a bigint, which rounds towards zero.
abbrev pub trunc_div : ℤ → ℕ → ℤ
trunc_div (pos n) d = pos (n / d)
trunc_div (negsuc n) d = neg (suc n / d)

abbrev pub scale : ℕ → ℤ → ℤ
scale k (pos n) = pos (k * n)
scale k (negsuc n) = neg (k * suc n)

-- `latestTick`
unfoldable pub latest_trusted : MetalAsset → Db → Option PriceTick
unfolding latest_tick
latest_trusted asset db = latest_tick asset (filter (λ t. not t.suspect) db.price_ticks)

-- `HoldingDto`
pub record HoldingDto : Type 0 where
  pub asset : MetalAsset
  pub grams_mg : ℤ
  pub value_cents : ℤ
  pub cost_basis_cents : ℕ
  pub gain_loss_cents : ℤ
  pub gain_loss_pct_milli : Option ℤ

abbrev pub value_of : Option PriceTick → ℤ → ℤ
value_of none mg = pos 0
value_of (some t) mg = trunc_div (scale t.etb_cents_per_gram mg) mg_per_gram

abbrev pub pct_milli : ℤ → ℕ → Option ℤ
pct_milli gain cost = if cost == 0 then none else some (trunc_div (scale 100000 gain) cost)

unfoldable pub holding_of : ℕ → MetalAsset → Db → HoldingDto
unfolding latest_trusted cost_basis
holding_of user_id asset db =
    let mg = balance_for_user user_id (metal asset) db in
    let value = value_of (latest_trusted asset db) mg in
    let cost = cost_basis user_id asset db in
    record {
      asset = asset;
      grams_mg = mg;
      value_cents = value;
      cost_basis_cents = cost;
      gain_loss_cents = value -ℤ pos cost;
      gain_loss_pct_milli = pct_milli (value -ℤ pos cost) cost;
    }

abbrev pub rate_of : Option PriceTick → Option ℕ → Option ℕ
rate_of none other = other
rate_of (some t) other = some t.etb_rate_micro

-- `BadgeDto`: whether a badge is earned, and since when.
pub record Badge : Type 0 where
  pub earned : Bool
  pub earned_at : Option ℕ

pub record Badges : Type 0 where
  pub first_purchase : Badge
  pub ten_trades : Badge
  pub gold_holder : Badge
  pub platinum_holder : Badge
  pub early_adopter : Badge

-- `order by settled_at asc`
unfoldable pub insert_order : Order → List Order → List Order
insert_order o [] = o ∷ []
insert_order o (p ∷ ps) =
    let rest = insert_order o ps in
    if before_null p.settled_at o.settled_at then p ∷ rest else o ∷ p ∷ ps

unfoldable pub settled_orders : ℕ → List Order → List Order
unfolding insert_order
settled_orders user_id [] = []
settled_orders user_id (o ∷ os) =
    let rest = settled_orders user_id os in
    if o.user_id == user_id && is_order_settled o.status then insert_order o rest else rest

abbrev pub settled_at_of : Option Order → Option ℕ
settled_at_of none = none
settled_at_of (some o) = o.settled_at

-- The element at an index.
abbrev pub get_elem? : List Order → ℕ → Option Order
get_elem? [] n = none
get_elem? (o ∷ os) n = elim n [ ℕ.zero ↦ some o | ℕ.suc m ↦ get_elem? os m ]

abbrev pub since : Option ℕ → Badge
since at = record { earned = is_some at; earned_at = at }

-- `BADGE_EARLY_ADOPTER_BEFORE`, where it is set to a date.
abbrev pub adopter_badge : Option ℕ → Option User → Badge
adopter_badge none u = since none
adopter_badge (some cutoff) none = since none
adopter_badge (some cutoff) (some u) =
    if ltb u.created_at cutoff then since (some u.created_at) else since none

-- `badgesFor`
unfoldable pub badges_for : Option ℕ → ℕ → ℤ → ℤ → Db → Badges
unfolding settled_orders
badges_for cutoff user_id xau_mg xpt_mg db =
    let settled = settled_orders user_id db.orders in
    record {
      first_purchase =
          since (settled_at_of (find_where (λ (o : Order). side_eq o.side buy) settled));
      ten_trades = record {
        earned = leb 10 (length settled);
        earned_at = settled_at_of (get_elem? settled 9);
      };
      gold_holder = record { earned = leb_ℤ (pos 1000) xau_mg; earned_at = none };
      platinum_holder = record { earned = ltb_ℤ (pos 0) xpt_mg; earned_at = none };
      early_adopter = adopter_badge cutoff (find_user user_id db);
    }

-- `PortfolioResponse`
pub record Portfolio : Type 0 where
  pub etb_cents : ℤ
  pub gold : HoldingDto
  pub platinum : HoldingDto
  pub total_metal_value_cents : ℤ
  pub total_value_cents : ℤ
  pub total_cost_basis_cents : ℕ
  pub total_gain_loss_cents : ℤ
  pub total_gain_loss_pct_milli : Option ℤ
  pub tier : TierDto
  pub badges : Badges

-- The page for what the customer holds, with the badges.
unfoldable pub page_of : Option ℕ → ℕ → ℤ → HoldingDto → HoldingDto → TierDto → Action Portfolio
unfolding badges_for
page_of cutoff user_id etb_cents gold platinum tier = do
  let metals = gold.value_cents +ℤ platinum.value_cents
  let cost = gold.cost_basis_cents + platinum.cost_basis_cents
  badges ← gets (badges_for cutoff user_id gold.grams_mg platinum.grams_mg)
  pure (record {
    etb_cents = etb_cents;
    gold = gold;
    platinum = platinum;
    total_metal_value_cents = metals;
    total_value_cents = etb_cents +ℤ metals;
    total_cost_basis_cents = cost;
    total_gain_loss_cents = metals -ℤ pos cost;
    total_gain_loss_pct_milli = pct_milli (metals -ℤ pos cost) cost;
    tier = tier;
    badges = badges;
  })

-- `forUser`; the tier counts a total below zero, which sound books do not have, as zero.
unfoldable pub for_user : Option ℕ → ℕ → Action Portfolio
unfolding holding_of latest_trusted
for_user cutoff user_id = do
  etb_cents ← gets (balance_for_user user_id etb)
  gold ← gets (holding_of user_id xau)
  platinum ← gets (holding_of user_id xpt)
  rate ← gets (λ db. rate_of (latest_trusted xau db) (rate_of (latest_trusted xpt db) none))
  let total = etb_cents +ℤ (gold.value_cents +ℤ platinum.value_cents)
  tier ← tier_for user_id (pos_part total) rate
  page_of cutoff user_id etb_cents gold platinum tier

-- The band after the customer's, by rank; the first for a customer without one.
abbrev pub next_band : Option ℕ → List HoldingTier → Option HoldingTier
next_band none bands = head bands
next_band (some rank) bands = find_where (λ b. b.rank == rank + 1) bands

-- `ProgressResponse`
pub record Progress : Type 0 where
  pub tier : TierDto
  pub total_tiers : ℕ
  pub next : Option HoldingTier
  pub badges : Badges

-- `progress`
unfoldable pub progress : Option ℕ → ℕ → Action Progress
unfolding by_rank for_user
progress cutoff user_id = do
  snapshot ← for_user cutoff user_id
  bands ← gets (λ db. by_rank db.holding_tiers)
  pure (record {
    tier = snapshot.tier;
    total_tiers = length bands;
    next = next_band snapshot.tier.rank bands;
    badges = snapshot.badges;
  })
