-- ===== src/Quotes.antt =====
-- apps/api/src/quotes/quotes.service.ts: the quote engine, the one place where prices are rounded.
-- Amounts of a request are the digits that its schema lets through, so natural numbers.
pub mod Figures
pub mod Effects
use alkeva.Common.{
  ℕ, ◌+◌, ◌-◌, ◌*◌, ◌/◌, Bool, true, false, ◌&&◌, Option, none, some, List, [], ◌∷◌, ltb, leb, ◌==◌,
  if◌then◌else◌,
}
use alkeva.Assets.{MetalAsset, metal_eq, OrderSide, buy, sell, mg_per_gram, quote_ttl_seconds}
use alkeva.Codes.{no_price_data, stale_price, price_unverified, amount_too_small, range_error}
use alkeva.Schema.{PriceTick, Quote, Db, open_quote}
use alkeva.Request.{
  Result, ok, err, Action, pure, raise, gets, or_raise, raise_if, modify, ◌>>=◌, ◌>>◌,
}
use alkeva.Fees.{FeeBreakdown, get_config, compute_fees}

-- The settings that the engine reads (`QUOTE_SPREAD_BPS` is at most 1000).
pub record QuoteEnv : Type 0 where
  pub quote_spread_bps : ℕ
  pub quote_max_tick_age_sec : ℕ

-- `CreateQuoteDto`
pub record CreateQuote : Type 0 where
  pub side : OrderSide
  pub asset : MetalAsset
  pub grams_mg : Option ℕ
  pub etb_cents : Option ℕ

-- `where asset = … order by at desc limit 1`
unfoldable pub newer : PriceTick → Option PriceTick → PriceTick
newer t none = t
newer t (some u) = if ltb t.at u.at then u else t

unfoldable pub latest_tick : MetalAsset → List PriceTick → Option PriceTick
unfolding newer
latest_tick asset [] = none
latest_tick asset (t ∷ ts) =
    let rest = latest_tick asset ts in if metal_eq t.asset asset then some (newer t rest) else rest

-- The unit price: the mid moved by the dealer spread, away from the customer.
unfoldable pub unit_price : QuoteEnv → OrderSide → ℕ → ℕ
unit_price env buy mid = mid + mid * env.quote_spread_bps / 10000
unit_price env sell mid = mid - mid * env.quote_spread_bps / 10000

-- Grams, given or bought with an amount of ETB; a division by a price of 0 is a RangeError.
unfoldable pub normalize_amount : ℕ → Option ℕ → Option ℕ → Result ℕ
normalize_amount unit (some grams_mg) etb_cents = ok grams_mg
normalize_amount unit none (some etb_cents) =
    if unit == 0 then err range_error else ok (etb_cents * mg_per_gram / unit)
normalize_amount unit none none = err amount_too_small

abbrev from_result : {A : Type 0} → Result A → Action A
from_result (ok a) = pure a
from_result (err e) = raise e

-- A total of less than 0 on a sale counts as 0, which is refused as well.
unfoldable pub total_of : OrderSide → ℕ → FeeBreakdown → ℕ
total_of buy subtotal f = subtotal + f.fee_cents + f.tax_cents + f.reforest_cents
total_of sell subtotal f = subtotal - f.fee_cents - f.tax_cents - f.reforest_cents

abbrev is_sell : OrderSide → Bool
is_sell sell = true
is_sell buy = false

-- `create`, at the time `now`, with the id of the new row.
unfoldable pub create : QuoteEnv → ℕ → ℕ → ℕ → CreateQuote → Action Quote
unfolding latest_tick unit_price normalize_amount total_of get_config compute_fees
create env now quote_id user_id dto = do
  found ← gets (λ db. latest_tick dto.asset db.price_ticks)
  tick ← or_raise found no_price_data
  raise_if (ltb (env.quote_max_tick_age_sec * 1000) (now - tick.at)) stale_price
  raise_if tick.suspect price_unverified
  let mid = tick.etb_cents_per_gram
  let unit = unit_price env dto.side mid
  grams_mg ← from_result (normalize_amount unit dto.grams_mg dto.etb_cents)
  raise_if (leb grams_mg 0) amount_too_small
  let subtotal_cents = unit * grams_mg / mg_per_gram
  raise_if (leb subtotal_cents 0) amount_too_small
  cfg ← get_config
  let fees = compute_fees subtotal_cents cfg
  let total_cents = total_of dto.side subtotal_cents fees
  raise_if (is_sell dto.side && leb total_cents 0) amount_too_small
  let row : Quote = record {
    id = quote_id;
    user_id = user_id;
    side = dto.side;
    asset = dto.asset;
    grams_mg = grams_mg;
    price_tick_id = tick.id;
    unit_etb_cents_per_gram = unit;
    subtotal_cents = subtotal_cents;
    fee_cents = fees.fee_cents;
    tax_cents = fees.tax_cents;
    reforest_cents = fees.reforest_cents;
    total_cents = total_cents;
    status = open_quote;
    expires_at = now + quote_ttl_seconds * 1000;
  }
  modify (λ db. record db { quotes = row ∷ db.quotes })
  pure row
