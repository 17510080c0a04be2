-- ===== src/Tests/State.antt =====
-- The books of Tests/Data are sound.
use alkeva.Common.{ℕ, refl, arith, ◌≡◌}
use alkeva.Common.Int.{pos, ◌+ℤ◌, ◌≤ℤ◌}
use alkeva.Common.Table.{sum_by}
use alkeva.Assets.{Asset, MetalAsset, etb, metal, xau, xpt, vault, delivery_hold}
use alkeva.Schema.{user_account, system_account}
use alkeva.Books.{IsSound, held_mg}
use alkeva.Ledger.{balance}
use alkeva.Ledger.Balance.{asset_total}
use alkeva.Orders.Queries.{physical_mg}
use alkeva.Tests.Data.{busy}

busy_solvent : (u : ℕ) (a : Asset) → pos 0 ≤ℤ balance (user_account u a) busy.entries
unfolding balance ◌+ℤ◌
busy_solvent u etb = ground arith
busy_solvent u (metal xau) = ground arith
busy_solvent u (metal xpt) = ground arith

busy_reserved :
    (m : MetalAsset)
    → pos 0 ≤ℤ physical_mg m busy.vault_holdings +ℤ balance (system_account (vault m)) busy.entries
unfolding balance physical_mg ◌+ℤ◌
busy_reserved xau = omega arith
busy_reserved xpt = omega arith

busy_zero_sum : (a : Asset) → asset_total a busy.entries ≡ pos 0
unfolding ◌+ℤ◌
busy_zero_sum etb = refl
busy_zero_sum (metal xau) = refl
busy_zero_sum (metal xpt) = refl

busy_delivery_escrow :
    (m : MetalAsset)
    → balance (system_account (delivery_hold m)) busy.entries
      ≡ pos (sum_by (held_mg m) busy.deliveries)
unfolding balance ◌+ℤ◌
busy_delivery_escrow xau = refl
busy_delivery_escrow xpt = refl

pub busy-Sound : IsSound busy
unfolding balance ◌+ℤ◌
busy-Sound = record {
  solvent = busy_solvent;
  reserved = busy_reserved;
  zero_sum = busy_zero_sum;
  payout_escrow = refl;
  delivery_escrow = busy_delivery_escrow;
}
