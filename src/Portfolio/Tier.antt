-- ===== src/Portfolio/Tier.antt =====
-- `tierFor` and `cacheTier` of apps/api/src/portfolio/portfolio.service.ts.
use alkeva.Common.{
  ℕ, ◌-◌, ◌*◌, ◌/◌, String, Bool, true, false, Option, none, some, List, [], ◌∷◌, ltb, leb, ◌==◌,
  if◌then◌else◌,
}
use text.Mathlib.Text.{◌==◌ as str_eq}
use alkeva.Common.Table.{update_row}
use alkeva.Assets.{micro}
use alkeva.Schema.{Db, HoldingTier, User}
use alkeva.Request.{Action, pure, gets, modify, ◌>>=◌, ◌>>◌}
use alkeva.Ledger.{find_user}

-- `order by rank asc`
unfoldable pub insert_band : HoldingTier → List HoldingTier → List HoldingTier
insert_band b [] = b ∷ []
insert_band b (c ∷ cs) =
    let rest = insert_band b cs in if leb b.rank c.rank then b ∷ c ∷ cs else c ∷ rest

unfoldable pub by_rank : List HoldingTier → List HoldingTier
unfolding insert_band
by_rank [] = []
by_rank (b ∷ bs) = insert_band b (by_rank bs)

-- The customer's total in US cents, at the rate of the tick; nothing without a rate.
unfoldable pub holding_usd_cents : ℕ → Option ℕ → ℕ
holding_usd_cents total_value_cents none = 0
holding_usd_cents total_value_cents (some fx) =
    if fx == 0 then 0 else (total_value_cents * micro) / fx

abbrev pub ceiling_cents : HoldingTier → Option ℕ
ceiling_cents b = elim b.max_usd [ none ↦ none | some usd ↦ some (usd * 100) ]

-- `b.maxUsd === null || holdingUsdCents < BigInt(b.maxUsd) * 100n`
abbrev pub under : ℕ → Option ℕ → Bool
under holding none = true
under holding (some ceiling) = ltb holding ceiling

abbrev pub floor_of : Option HoldingTier → ℕ
floor_of none = 0
floor_of (some b) = elim b.max_usd [ none ↦ 0 | some usd ↦ usd * 100 ]

-- The band that is reached, the one below it and the one above it.
pub record Place : Type 0 where
  pub current : HoldingTier
  pub below : Option HoldingTier
  pub above : Option HoldingTier

abbrev pub head : List HoldingTier → Option HoldingTier
head [] = none
head (b ∷ bs) = some b

-- `findIndex`, with the neighbours; without one, the last band, which has no floor of its own.
unfoldable pub place_in : ℕ → Option HoldingTier → List HoldingTier → Option Place
place_in holding below [] = none
place_in holding below (b ∷ bs) =
    let later = place_in holding (some b) bs in
    if under holding (ceiling_cents b)
    then some (record { current = b; below = below; above = head bs })
    else later

unfoldable pub last_band : List HoldingTier → Option HoldingTier
last_band [] = none
last_band (b ∷ []) = some b
last_band (b ∷ c ∷ cs) = last_band (c ∷ cs)

abbrev pub top_of : Option HoldingTier → Option Place
top_of none = none
top_of (some b) = some (record { current = b; below = none; above = none })

abbrev pub or_top : Option Place → Option HoldingTier → Option Place
or_top none top = top_of top
or_top (some p) top = some p

unfoldable pub place : ℕ → List HoldingTier → Option Place
unfolding place_in last_band
place holding bands = or_top (place_in holding none bands) (last_band bands)

-- The part of the band that is covered, in thousandths of a percent.
unfoldable pub progress_pct_milli : ℕ → ℕ → Option ℕ → Option ℕ
progress_pct_milli holding floor none = none
progress_pct_milli holding floor (some ceiling) =
    let span = ceiling - floor in
    let into = holding - floor in
    let clamped = if ltb span into then span else into in
    if ltb floor ceiling then some ((clamped * 100000) / span) else none

-- `TierDto`
pub record TierDto : Type 0 where
  pub name : Option String
  pub rank : Option ℕ
  pub holding_usd_cents : ℕ
  pub band_max_usd : Option ℕ
  pub next_name : Option String
  pub progress_pct_milli : Option ℕ
  pub delivery_eligible : Bool
  pub per_txn_cap_cents : Option ℕ
  pub daily_cap_cents : Option ℕ

abbrev pub no_tier : ℕ → TierDto
no_tier holding = record {
  name = none;
  rank = none;
  holding_usd_cents = holding;
  band_max_usd = none;
  next_name = none;
  progress_pct_milli = none;
  delivery_eligible = false;
  per_txn_cap_cents = none;
  daily_cap_cents = none;
}

abbrev pub name_of : Option HoldingTier → Option String
name_of none = none
name_of (some b) = some b.name

abbrev pub tier_dto : ℕ → Place → TierDto
tier_dto holding p = record {
  name = some p.current.name;
  rank = some p.current.rank;
  holding_usd_cents = holding;
  band_max_usd = p.current.max_usd;
  next_name = name_of p.above;
  progress_pct_milli = progress_pct_milli holding (floor_of p.below) (ceiling_cents p.current);
  delivery_eligible = p.current.delivery_eligible;
  per_txn_cap_cents = p.current.per_txn_cap_cents;
  daily_cap_cents = p.current.daily_cap_cents;
}

abbrev pub has_tier : String → Option User → Bool
has_tier name none = false
has_tier name (some u) = elim u.holding_tier [ none ↦ false | some t ↦ str_eq t name ]

abbrev pub set_tier : ℕ → String → Db → Db
set_tier user_id name db = record db {
  users =
      update_row (λ (u : User). u.id) user_id (λ u. record u { holding_tier = some name }) db.users;
}

-- `cacheTier`
unfoldable pub cache_tier : ℕ → String → Action (Unit {0})
cache_tier user_id name = do
  user ← gets (find_user user_id)
  modify (λ db. if has_tier name user then db else set_tier user_id name db)

abbrev pub settle_tier : ℕ → ℕ → Option Place → Action TierDto
settle_tier user_id holding none = pure (no_tier holding)
settle_tier user_id holding (some p) =
    cache_tier user_id p.current.name >> pure (tier_dto holding p)

-- `tierFor`
unfoldable pub tier_for : ℕ → ℕ → Option ℕ → Action TierDto
unfolding holding_usd_cents place by_rank
tier_for user_id total_value_cents fx_rate_micro = do
  let holding = holding_usd_cents total_value_cents fx_rate_micro
  bands ← gets (λ db. by_rank db.holding_tiers)
  settle_tier user_id holding (place holding bands)
