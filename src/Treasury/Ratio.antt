-- ===== src/Treasury/Ratio.antt =====
-- The reserve figures of apps/api/src/treasury/treasury.service.ts.
use alkeva.Common.{
  ℕ, ◌*◌, ◌/◌, ◌≤◌, ◌<◌, ◌≡◌, ◌==◌, some, none, if◌then◌else◌, arith, inl, inr, Bool-cases,
}
use alkeva.Common.Int.{ℤ, pos, negsuc, neg_part, ◌+ℤ◌, ◌≤ℤ◌, int_laws}
use alkeva.Assets.{MetalAsset, vault}
use alkeva.Schema.{Db, system_account}
use alkeva.Ledger.{balance}
use alkeva.Books.{IsSound}
use alkeva.Treasury.{reserve_for, ratio}
use native.Mathlib.Nat.{le-div_iff_mul-le}

at_least_100 : (n d : ℕ) → 0 < d → d ≤ n → 100000 ≤ n * 100000 / d
at_least_100 n d p h = (le-div_iff_mul-le p).1 (omega arith)

ratio_bound : (p : ℤ) (d : ℕ) → 0 < d → pos d ≤ℤ p → pos 100000 ≤ℤ ratio p d
ratio_bound (pos n) d p h = let k = at_least_100 n d p (omega arith) in omega arith
ratio_bound (negsuc n) d p h = omega arith

covered : (p b : ℤ) → pos 0 ≤ℤ p +ℤ b → 0 < neg_part b → pos (neg_part b) ≤ℤ p
covered p (pos n) h g = omega arith
covered p (negsuc n) h g = omega int_laws

shown :
    (p b r : ℤ)
    → pos 0 ≤ℤ p +ℤ b
    → (if neg_part b == 0 then none else some (ratio p (neg_part b))) ≡ some r
    → pos 100000 ≤ℤ r
shown p b r h e = elim (Bool-cases (neg_part b == 0)) [
  | inl zero ↦ cc (rw zero at e)
  | inr owed ↦ given (ground arith) (rw owed at e)
]
  where
    given : 0 < neg_part b → some (ratio p (neg_part b)) ≡ some r → pos 100000 ≤ℤ r
    given g q = same (ratio p (neg_part b)) (ratio_bound p (neg_part b) g (covered p b h g)) q
      where
        same : (x : ℤ) → pos 100000 ≤ℤ x → some x ≡ some r → pos 100000 ≤ℤ r
        same x l eq = ground arith

-- In sound books the page shows no shortfall: where it shows a ratio of stock to what customers
-- are owed, the ratio is at least 100%, and the stock that is free to sell is not below zero.
pub reserve_for-Sound :
    (m : MetalAsset) (db : Db) (r : ℤ)
    → IsSound db
    → (reserve_for m db).reserve_ratio_pct_milli ≡ some r
    → (pos 0 ≤ℤ (reserve_for m db).available_mg) × (pos 100000 ≤ℤ r)
unfolding reserve_for
reserve_for-Sound m db r s h =
    (s.reserved m, shown _ (balance (system_account (vault m)) db.entries) r (s.reserved m) h)
