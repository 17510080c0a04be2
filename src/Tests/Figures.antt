-- ===== src/Tests/Figures.antt =====
-- The theorems on prices, rates and portfolios, at work on readings and rows.
use alkeva.Common.{
  ℕ, ◌+◌, ◌*◌, ◌≤◌, ◌<◌, ◌≡◌, refl, ◌⊎◌, true, false, none, some, List, [], ◌∷◌, arith,
}
use alkeva.Common.Table.{sum_by}
use alkeva.Assets.{xau, xpt}
use alkeva.Schema.{PriceTick, HoldingTier}
use alkeva.Tests.Data.{fresh, busy, tick}
use alkeva.Worker.{
  WorkerEnv, FxState, Feeds, FeedResult, WorkerState, get_fx_micro, live_cache, moved_bps,
  compute_etb_cents_per_gram, fx_confirmations, fetch_metal, tick_row, tick_metal, is_suspect,
  record_tick,
}
use alkeva.Worker.Rate.{
  Reached, start, call, Repeated, get_fx_micro-accepted, get_fx_micro-confirmed,
}
use alkeva.Worker.Ticks.{
  IsAnchored, IsTrusted, newest_trusted, compute_etb_cents_per_gram-bounds, tick_metal-guarded,
}
use alkeva.Portfolio.Basis.{cost_basis, trades_of}
use alkeva.Portfolio.Bounds.{spent, cost_basis-le}
use alkeva.Portfolio.Tier.{Place, place, place_in, last_band}
use alkeva.Portfolio.Bands.{Belongs, place-Belongs}

abbrev env : WorkerEnv
env = record { fx_max_move_bps = 200; fx_cache_seconds = 3600; price_max_tick_move_bps = 300 }

abbrev first_state : FxState
first_state = record { cache = none; good = some 100000000; pending = none }

-- The state after a reading of 120 where 100 was accepted.
abbrev reading : ℕ → FxState → FxState
reading now s = (get_fx_micro env now (some 120000000) s).state

abbrev fifth : FxState
fifth =
    reading 4000000 (reading 3000000 (reading 2000000 (reading 1000000 (reading 0 first_state))))

abbrev heard_five : List ℕ
heard_five = 120000000 ∷ 120000000 ∷ 120000000 ∷ 120000000 ∷ 120000000 ∷ []

reading-Reached : Reached env heard_five fifth
unfolding get_fx_micro live_cache moved_bps
reading-Reached = call 4000000 (some 120000000) (
    call 3000000 (some 120000000) (
      call 2000000 (some 120000000)
        (call 1000000 (some 120000000) (call 0 (some 120000000) (start (some 100000000))))))

expired : live_cache 5000000 fifth ≡ none
unfolding get_fx_micro live_cache moved_bps
expired = refl

old_good : fifth.good ≡ some 100000000
unfolding get_fx_micro live_cache moved_bps
old_good = refl

new_good : (get_fx_micro env 5000000 (some 120000000) fifth).state.good ≡ some 120000000
unfolding get_fx_micro live_cache moved_bps
new_good = refl

new_rate : (get_fx_micro env 5000000 (some 120000000) fifth).rate ≡ some 120000000
unfolding get_fx_micro live_cache moved_bps
new_rate = refl

far : 200 < moved_bps 100000000 120000000
unfolding moved_bps
far = omega arith

get_fx_micro-accepted_example :
    (get_fx_micro env 5000000 (some 120000000) fifth).state.good ≡ some 120000000
get_fx_micro-accepted_example =
    get_fx_micro-accepted env 5000000 (some 120000000) 120000000 reading-Reached new_rate

get_fx_micro-confirmed_example :
    Path ℕ 120000000 120000000 × Repeated env 100000000 fx_confirmations (120000000 ∷ heard_five)
get_fx_micro-confirmed_example =
    get_fx_micro-confirmed env 5000000 120000000 100000000 120000000 reading-Reached expired
      old_good new_good far

compute_etb_cents_per_gram-bounds_example :
    let price = compute_etb_cents_per_gram 3000000000 155520000 in
    (price * (1000000 * 1000000 * 31103) ≤ 3000000000 * 155520000 * 100000)
    × (3000000000 * 155520000 * 100000 < (price + 1) * (1000000 * 1000000 * 31103))
compute_etb_cents_per_gram-bounds_example = compute_etb_cents_per_gram-bounds 3000000000 155520000

abbrev near : FeedResult
near = record { usd_per_oz_micro = 3010000000; source = "swissquote" }

abbrev feeds : Feeds
feeds = record { primary = λ _. none; fallback = λ _. some near }

abbrev worker : WorkerState
worker = record {
  db = fresh;
  fx = first_state;
  last_good = λ _. some 3000000000;
  staff_alerts = [];
}

anchored : IsAnchored worker
anchored xau t e = price e
  where
    price : some tick ≡ some t → some 3000000000 ≡ some t.usd_per_oz_micro
    price h = cc
anchored xpt t e = cc

abbrev new_tick : PriceTick
new_tick = tick_row 1060000 2 xau near 155520000 false

ticked :
    newest_trusted xau (tick_metal env 1060000 2 feeds feeds 155520000 xau worker).db.price_ticks
    ≡ some new_tick
unfolding tick_metal is_suspect record_tick moved_bps
ticked = refl

tick_metal-guarded_example :
    (new_tick ≡ tick)
    ⊎ ((feed : FeedResult) × (fetch_metal feeds xau ≡ some feed)
        × (new_tick ≡ tick_row 1060000 2 xau feed 155520000 false)
        × IsTrusted env 1060000 2 feeds feeds 155520000 xau worker feed tick)
tick_metal-guarded_example =
    tick_metal-guarded env 1060000 2 feeds feeds 155520000 xau worker tick new_tick anchored refl
      ticked

cost_basis-le_example : cost_basis 7 xau busy ≤ sum_by spent (trades_of 7 xau busy busy.orders)
cost_basis-le_example = cost_basis-le 7 xau busy

abbrev amber : HoldingTier
amber = record {
  name = "Amber";
  rank = 1;
  max_usd = some 100;
  delivery_eligible = false;
  per_txn_cap_cents = some 100000;
  daily_cap_cents = some 500000;
}

abbrev pub ruby : HoldingTier
ruby = record amber { name = "Ruby"; rank = 2; max_usd = none; delivery_eligible = true }

abbrev at_ruby : Place
at_ruby = record { current = ruby; below = some amber; above = none }

placed : place 25000 (amber ∷ ruby ∷ []) ≡ some at_ruby
unfolding place place_in last_band
placed = refl

place-Belongs_example : Belongs 25000 (amber ∷ ruby ∷ []) ruby
place-Belongs_example = place-Belongs 25000 (amber ∷ ruby ∷ []) at_ruby placed
