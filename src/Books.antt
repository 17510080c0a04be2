-- ===== src/Books.antt =====
-- What holds of the books at all times, over the tables that hold money and metal: the ledger's
-- entries, the vault's records, the payouts and the delivery requests.
pub mod Postings
pub mod Moves
use alkeva.Common.{ℕ, ◌+◌, ◌≡◌, Bool, true, false, ◌&&◌, List, if◌then◌else◌}
use alkeva.Common.Int.{ℤ, pos, ◌+ℤ◌, ◌≤ℤ◌}
use alkeva.Common.Table.{sum_by}
use alkeva.Assets.{
  Asset, MetalAsset, metal_eq, cash, payout_hold, vault, delivery_hold, SystemAccountName,
}
use alkeva.Schema.{
  Db, AccountId, user_account, system_account, LedgerEntry, VaultHolding, Payout, PayoutStatus,
  DeliveryRequest, DeliveryStatus,
}
use alkeva.Ledger.{balance}
use alkeva.Ledger.Balance.{asset_total}
use alkeva.Orders.Queries.{physical_mg}

-- A payout whose cents are in escrow: asked for, and neither paid out nor refused.
abbrev pub is_held_payout : PayoutStatus → Bool
is_held_payout PayoutStatus.requested = true
is_held_payout PayoutStatus.approved = true
is_held_payout PayoutStatus.processing = true
is_held_payout _ = false

abbrev pub held_cents : Payout → ℕ
held_cents p = if is_held_payout p.status then p.amount_cents else 0

-- A delivery whose metal is in escrow.
abbrev pub is_held_delivery : DeliveryStatus → Bool
is_held_delivery DeliveryStatus.approved = true
is_held_delivery DeliveryStatus.scheduled = true
is_held_delivery _ = false

abbrev pub held_mg : MetalAsset → DeliveryRequest → ℕ
held_mg m d = if metal_eq d.asset m && is_held_delivery d.status then d.grams_mg else 0

-- No customer's balance is below zero; the metal in the vault covers what customers are owed;
-- no asset is made or lost; and the escrow accounts hold exactly what is open.
pub record Sound (entries : List LedgerEntry) (vault_rows : List VaultHolding)
    (payouts : List Payout) (deliveries : List DeliveryRequest) : Type 0 where
  pub solvent : (u : ℕ) (a : Asset) → pos 0 ≤ℤ balance (user_account u a) entries
  pub reserved :
      (m : MetalAsset)
      → pos 0 ≤ℤ physical_mg m vault_rows +ℤ balance (system_account (vault m)) entries
  pub zero_sum : (a : Asset) → asset_total a entries ≡ pos 0
  pub payout_escrow : balance (system_account payout_hold) entries ≡ pos (sum_by held_cents payouts)
  pub delivery_escrow :
      (m : MetalAsset)
      → balance (system_account (delivery_hold m)) entries ≡ pos (sum_by (held_mg m) deliveries)

abbrev pub IsSound : Db → Type 0
IsSound db = Sound db.entries db.vault_holdings db.payouts db.deliveries
