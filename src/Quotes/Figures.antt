-- ===== src/Quotes/Figures.antt =====
-- What apps/api/src/quotes/quotes.service.ts stores and refuses.
use alkeva.Common.{
  ℕ, ◌+◌, ◌*◌, ◌/◌, ◌≤◌, ◌<◌, ◌≡◌, ◌⊎◌, refl, false, true, inl, inr, none, some, List, [], ◌∷◌, In,
  ltb, ltb→lt, ltb→ge, Bool-cases, Option-cases, arith,
}
use native.Mathlib.Nat.{mul-le-mul_left}
use alkeva.Fees.{compute_fees}
use alkeva.Assets.{MetalAsset, metal_eq, OrderSide, buy, sell, mg_per_gram, quote_ttl_seconds}
use alkeva.Schema.{PriceTick, Quote, Db, FeeConfig, open_quote}
use alkeva.Request.{ok}
use alkeva.Quotes.{QuoteEnv, CreateQuote, newer, latest_tick, unit_price, create}

-- Fees lie on top of a purchase and come out of a sale.
abbrev pub Splits : OrderSide → ℕ → ℕ → ℕ → Type 0
Splits buy subtotal fees total = total ≡ subtotal + fees
Splits sell subtotal fees total = total + fees ≡ subtotal

-- The figures of a row agree with one another: its total is what its entries move.
abbrev pub IsBalanced : Quote → Type 0
IsBalanced q =
    Splits q.side q.subtotal_cents (q.fee_cents + q.tax_cents + q.reforest_cents) q.total_cents

-- The tick is in the list, and no tick of its metal is newer.
pub record IsNewest (asset : MetalAsset) (ticks : List PriceTick) (t : PriceTick) : Type 0 where
  pub place : In t ticks
  pub asset_is : metal_eq t.asset asset ≡ true
  pub newest : (u : PriceTick) → In u ticks → metal_eq u.asset asset ≡ true → u.at ≤ t.at

module _ (asset : MetalAsset) where
  nobody :
      (ts : List PriceTick)
      → latest_tick asset ts ≡ none
      → (u : PriceTick) → In u ts
      → metal_eq u.asset asset ≡ true
      → ⊥
  unfolding latest_tick
  nobody [] h u place mine = place.lower
  nobody (x ∷ ts) h u place mine = elim (Bool-cases (metal_eq x.asset asset)) [
    | inl own ↦ cc (rw own at h)
    | inr other ↦ elim place [
      | inl e ↦ cc (other, rw e at mine)
      | inr later ↦ nobody ts (rw other at h) u later mine
    ]
  ]

  same_tick : (a b : PriceTick) → some a ≡ some b → a ≡ b
  same_tick a b e = cc

  alone :
      (x : PriceTick) (ts : List PriceTick)
      → metal_eq x.asset asset ≡ true
      → latest_tick asset ts ≡ none
      → IsNewest asset (x ∷ ts) x
  alone x ts mine h = record {
    place = inl refl;
    asset_is = mine;
    newest = λ u place own. elim place [
      | inl e ↦ rw e (omega arith)
      | inr later ↦ absurd (nobody ts h u later own)
    ];
  }

  ahead :
      (x s : PriceTick) (ts : List PriceTick)
      → metal_eq x.asset asset ≡ true
      → s.at ≤ x.at
      → IsNewest asset ts s
      → IsNewest asset (x ∷ ts) x
  ahead x s ts mine le w = record {
    place = inl refl;
    asset_is = mine;
    newest = λ u place own. elim place [
      | inl e ↦ rw e (omega arith)
      | inr later ↦ let b = w.newest u later own in omega arith
    ];
  }

  behind :
      (x s : PriceTick) (ts : List PriceTick)
      → (metal_eq x.asset asset ≡ false) ⊎ (x.at < s.at)
      → IsNewest asset ts s
      → IsNewest asset (x ∷ ts) s
  behind x s ts c w = record {
    place = inr w.place;
    asset_is = w.asset_is;
    newest = λ u place own. elim place [
      | inl e ↦ elim c [ inl other ↦ cc (other, rw e at own) | inr lt ↦ rw e (omega arith) ]
      | inr later ↦ w.newest u later own
    ];
  }

  latest_tick-IsNewest :
      (ts : List PriceTick) (t : PriceTick) → latest_tick asset ts ≡ some t → IsNewest asset ts t
  unfolding latest_tick newer
  latest_tick-IsNewest [] t h = cc
  latest_tick-IsNewest (x ∷ ts) t h = elim (Bool-cases (metal_eq x.asset asset)) [
    | inr other ↦ behind x t ts (inl other) (latest_tick-IsNewest ts t (rw other at h))
    | inl own ↦ elim (Option-cases (latest_tick asset ts)) [
      | inl first ↦ rw (← same_tick x t (rw (own, first) at h)) (alone x ts own first)
      | inr (s, later) ↦
          let w = latest_tick-IsNewest ts s later in
          elim (Bool-cases (ltb x.at s.at)) [
            | inl lt ↦
                rw (← same_tick s t (rw (own, later, lt) at h))
                  (behind x s ts (inr (ltb→lt x.at s.at lt)) w)
            | inr ge ↦
                rw (← same_tick x t (rw (own, later, ge) at h))
                  (ahead x s ts own (ltb→ge x.at s.at ge) w)
          ]
    ]
  ]

-- The spread moves the middle price away from the customer, by its share rounded down.
abbrev pub IsSpread : OrderSide → ℕ → ℕ → ℕ → Type 0
IsSpread buy bps mid unit =
    (mid * 10000 + mid * bps < unit * 10000 + 10000) × (unit * 10000 ≤ mid * 10000 + mid * bps)
IsSpread sell bps mid unit =
    (mid * 10000 ≤ unit * 10000 + mid * bps) × (unit * 10000 + mid * bps < mid * 10000 + 10000)

-- A charge is its rate, in thousandths of a percent, of the subtotal, rounded down.
abbrev pub IsShare : ℕ → ℕ → ℕ → Type 0
IsShare subtotal rate charge =
    (charge * 100000 ≤ subtotal * rate) × (subtotal * rate < (charge + 1) * 100000)

-- The tick that a quote was made from could be traded on at the time `now`.
pub record IsTradeable (env : QuoteEnv) (now : ℕ) (t : PriceTick) : Type 0 where
  pub fresh : now ≤ t.at + env.quote_max_tick_age_sec * 1000
  pub confirmed : t.suspect ≡ false

pub record IsPriced (env : QuoteEnv) (now : ℕ) (dto : CreateQuote) (t : PriceTick) (q : Quote)
    : Type 0 where
  pub side : q.side ≡ dto.side
  pub asset : q.asset ≡ dto.asset
  pub tick : q.price_tick_id ≡ t.id
  pub unit : IsSpread dto.side env.quote_spread_bps t.etb_cents_per_gram q.unit_etb_cents_per_gram
  pub floored : q.subtotal_cents ≡ q.unit_etb_cents_per_gram * q.grams_mg / mg_per_gram
  pub grams_pos : 0 < q.grams_mg
  pub subtotal_pos : 0 < q.subtotal_cents
  pub total_pos : 0 < q.total_cents
  pub expiry : q.expires_at ≡ now + quote_ttl_seconds * 1000
  pub is_open : q.status ≡ open_quote

-- The commission and the service fee, the tax and the reforestation, by the rates in force.
pub record IsCharged (cfg : FeeConfig) (q : Quote) : Type 0 where
  pub commission : ℕ
  pub fee : q.fee_cents ≡ commission + cfg.service_fee_cents
  pub share : IsShare q.subtotal_cents cfg.commission_pct_milli commission
  pub tax : IsShare q.subtotal_cents cfg.tax_pct_milli q.tax_cents
  pub reforest : IsShare q.subtotal_cents cfg.reforest_pct_milli q.reforest_cents

unit_price-IsSpread :
    (env : QuoteEnv) (side : OrderSide) (mid : ℕ)
    → env.quote_spread_bps ≤ 10000
    → IsSpread side env.quote_spread_bps mid (unit_price env side mid)
unfolding unit_price
unit_price-IsSpread env buy mid h = (omega arith, omega arith)
unit_price-IsSpread env sell mid h =
    let part : mid * env.quote_spread_bps ≤ mid * 10000 = mul-le-mul_left mid h in
    (omega arith, omega arith)

floor-IsShare : (subtotal rate : ℕ) → IsShare subtotal rate (subtotal * rate / 100000)
floor-IsShare subtotal rate = (omega arith, omega arith)

compute_fees-IsCharged :
    (cfg : FeeConfig) (q : Quote)
    → q.fee_cents ≡ (compute_fees q.subtotal_cents cfg).fee_cents
    → q.tax_cents ≡ (compute_fees q.subtotal_cents cfg).tax_cents
    → q.reforest_cents ≡ (compute_fees q.subtotal_cents cfg).reforest_cents
    → IsCharged cfg q
unfolding compute_fees
compute_fees-IsCharged cfg q fee tax reforest = record {
  commission = q.subtotal_cents * cfg.commission_pct_milli / 100000;
  fee = fee;
  share = floor-IsShare q.subtotal_cents cfg.commission_pct_milli;
  tax = rw tax (floor-IsShare q.subtotal_cents cfg.tax_pct_milli);
  reforest = rw reforest (floor-IsShare q.subtotal_cents cfg.reforest_pct_milli);
}

module _ (env : QuoteEnv) (now id user : ℕ) (dto : CreateQuote) (db : Db) where
  unpriced :
      (q : Quote)
      → latest_tick dto.asset db.price_ticks ≡ none
      → (create env now id user dto db).0 ≡ ok q
      → ⊥
  unfolding create
  unpriced q missing h = cc (rw missing at h)

  uncharged : (q : Quote) → db.fee_config ≡ none → (create env now id user dto db).0 ≡ ok q → ⊥
  unfolding create
  uncharged q missing h = ground arith

  figures :
      (q : Quote) (t : PriceTick) (cfg : FeeConfig)
      → latest_tick dto.asset db.price_ticks ≡ some t
      → db.fee_config ≡ some cfg
      → (create env now id user dto db).0 ≡ ok q
      → (q.unit_etb_cents_per_gram ≡ unit_price env dto.side t.etb_cents_per_gram)
        × (q.fee_cents ≡ (compute_fees q.subtotal_cents cfg).fee_cents)
        × (q.tax_cents ≡ (compute_fees q.subtotal_cents cfg).tax_cents)
        × (q.reforest_cents ≡ (compute_fees q.subtotal_cents cfg).reforest_cents)
  unfolding create
  figures q t cfg newest fees h = (ground arith, ground arith, ground arith, ground arith)

  -- A quote that is stored, with a spread of a hundred percent at most, was made from a tick of its metal
  -- than which none is newer, which was fresh and not suspect. Its unit price is the price of the tick
  -- moved against the customer by the spread, its subtotal the floored product of unit price and
  -- grams, its charges the shares of the subtotal by the fees in force, rounded down; its total is the
  -- subtotal plus the charges on a purchase and less them on a sale. Grams, subtotal and total are
  -- above zero; the request adds that one row to the table of quotes.
  pub create-IsPriced :
      (q : Quote)
      → env.quote_spread_bps ≤ 10000
      → (create env now id user dto db).0 ≡ ok q
      → (t : PriceTick) × (cfg : FeeConfig) × IsNewest dto.asset db.price_ticks t
        × IsTradeable env now t
        × IsPriced env now dto t q
        × (db.fee_config ≡ some cfg)
        × IsCharged cfg q
        × IsBalanced q
        × ((create env now id user dto db).1.quotes ≡ q ∷ db.quotes)
  unfolding create
  create-IsPriced q spread h = elim (Option-cases (latest_tick dto.asset db.price_ticks)) [
    | inl missing ↦ absurd (unpriced q missing h)
    | inr (t, newest) ↦ elim (Option-cases db.fee_config) [
      | inl missing ↦ absurd (uncharged q missing h)
      | inr (cfg, fees) ↦
          let (unit, fee, tax, reforest) = figures q t cfg newest fees h in
          (
            t,
            cfg,
            latest_tick-IsNewest dto.asset db.price_ticks t newest,
            ground arith,
            record {
              side = ground arith;
              asset = ground arith;
              tick = ground arith;
              unit = rw unit (unit_price-IsSpread env dto.side t.etb_cents_per_gram spread);
              floored = ground arith;
              grams_pos = ground arith;
              subtotal_pos = ground arith;
              total_pos = ground arith;
              expiry = ground arith;
              is_open = ground arith;
            },
            fees,
            compute_fees-IsCharged cfg q fee tax reforest,
            ground arith,
            ground arith,
          )
    ]
  ]

  -- A request in ETB buys as many milligrams as the amount covers before fees and no more, so the
  -- subtotal is at most the amount asked for.
  pub create_within_budget :
      (q : Quote) (etb_cents : ℕ)
      → dto.grams_mg ≡ none
      → dto.etb_cents ≡ some etb_cents
      → (create env now id user dto db).0 ≡ ok q
      → (q.unit_etb_cents_per_gram * q.grams_mg ≤ etb_cents * mg_per_gram)
        × (etb_cents * mg_per_gram < q.unit_etb_cents_per_gram * (q.grams_mg + 1))
        × (q.subtotal_cents ≤ etb_cents)
  unfolding create
  create_within_budget q etb_cents no_grams asked h = (ground arith, ground arith, ground arith)
