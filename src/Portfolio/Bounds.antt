-- ===== src/Portfolio/Bounds.antt =====
-- Bounds of the cost basis of apps/api/src/portfolio/portfolio.service.ts.
use alkeva.Common.{ℕ, ◌+◌, ◌≤◌, ◌<◌, ◌≡◌, refl, inl, inr, List, [], ◌∷◌, All, arith, Bool-cases}
use alkeva.Common.Table.{sum_by}
use alkeva.Assets.{MetalAsset, OrderSide, buy, sell}
use alkeva.Schema.{Db}
use alkeva.Portfolio.Basis.{
  Trade, Position, not_after, insert, sorted, trades_of, retire, apply_side, replay, cost_basis,
}

-- What was paid for the metal.
abbrev pub spent : Trade → ℕ
spent t = elim t.side [ buy ↦ t.total_cents | sell ↦ 0 ]

abbrev pub bought : Trade → ℕ
bought t = elim t.side [ buy ↦ t.grams_mg | sell ↦ 0 ]

-- Nothing held has no cost.
abbrev pub IsClosed : Position → Type 0
IsClosed p = p.held_mg ≡ 0 → p.cost_cents ≡ 0

step-bounds :
    (side : OrderSide) (g c : ℕ) (p : Position)
    → let q = apply_side side g c p in
      (q.cost_cents ≤ (elim side [ buy ↦ c | sell ↦ 0 ]) + p.cost_cents)
      × (q.held_mg ≤ (elim side [ buy ↦ g | sell ↦ 0 ]) + p.held_mg)
unfolding retire
step-bounds buy g c p = (omega arith, omega arith)
step-bounds sell g c p = (ground arith, ground arith)

-- The replay never holds more than was bought or counts more than was paid.
replay-bounds :
    (ts : List Trade) (p : Position)
    → ((replay ts p).cost_cents ≤ sum_by spent ts + p.cost_cents)
      × ((replay ts p).held_mg ≤ sum_by bought ts + p.held_mg)
unfolding replay
replay-bounds [] p = (omega arith, omega arith)
replay-bounds (t ∷ ts) p =
    let step = step-bounds t.side t.grams_mg t.total_cents p in
    let rest = replay-bounds ts (apply_side t.side t.grams_mg t.total_cents p) in
    (omega arith, omega arith)

sum-insert :
    (w : Trade → ℕ) (t : Trade) (ts : List Trade) → sum_by w (insert t ts) ≡ w t + sum_by w ts
unfolding insert
sum-insert w t [] = refl
sum-insert w t (u ∷ us) = elim (Bool-cases (not_after t u)) [
  | inl first ↦ rw first refl
  | inr later ↦ rw (later, sum-insert w t us) (omega arith)
]

sum-sorted : (w : Trade → ℕ) (ts : List Trade) → sum_by w (sorted ts) ≡ sum_by w ts
unfolding sorted
sum-sorted w [] = refl
sum-sorted w (t ∷ ts) = rw (sum-insert w t (sorted ts), sum-sorted w ts) refl

-- The cost basis of a metal is at most what the customer has paid for it in settled orders.
pub cost_basis-le :
    (user : ℕ) (asset : MetalAsset) (db : Db)
    → cost_basis user asset db ≤ sum_by spent (trades_of user asset db db.orders)
unfolding cost_basis
cost_basis-le user asset db =
    let trades = trades_of user asset db db.orders in
    let bound = (replay-bounds (sorted trades) (record { held_mg = 0; cost_cents = 0 })).0 in
    let same = sum-sorted spent trades in omega arith

step-IsClosed :
    (side : OrderSide) (g c : ℕ) (p : Position)
    → 0 < g
    → IsClosed p
    → IsClosed (apply_side side g c p)
unfolding retire
step-IsClosed buy g c p some_grams closed h = absurd (omega arith)
step-IsClosed sell g c p some_grams closed h = ground arith

-- If every trade is of some metal, then a holding that is sold out has no cost left.
pub replay-IsClosed :
    (ts : List Trade) (p : Position)
    → All (λ (t : Trade). 0 < t.grams_mg) ts
    → IsClosed p
    → IsClosed (replay ts p)
unfolding replay
replay-IsClosed [] p some_grams closed = closed
replay-IsClosed (t ∷ ts) p (g, gs) closed =
    replay-IsClosed ts (apply_side t.side t.grams_mg t.total_cents p) gs
      (step-IsClosed t.side t.grams_mg t.total_cents p g closed)
