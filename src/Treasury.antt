-- ===== src/Treasury.antt =====
-- apps/api/src/treasury: capital and vault records, and the reserve figures of the dashboard.
pub mod Sound
pub mod Ratio
use alkeva.Common.{
  ℕ, suc, ◌+◌, ◌*◌, ◌/◌, String, Bool, true, false, Option, none, some, List, [], ◌∷◌, ◌==◌, ltb,
  if◌then◌else◌,
}
use alkeva.Common.Int.{ℤ, pos, negsuc, neg, pos_part, neg_part, ◌+ℤ◌, ◌-ℤ◌, ltb_ℤ}
use alkeva.Assets.{MetalAsset, etb, cash, external, vault}
use alkeva.Codes.{vault_below_owed, float_below_halt}
use alkeva.Schema.{
  Db, system_account, VaultKind, intake, outtake, VaultHolding, TxnKind, TreasuryConfig,
}
use alkeva.Request.{Action, pure, gets, raise_if, modify, transaction, ◌>>=◌, ◌>>◌}
use alkeva.Ledger.{
  EntrySpec, Balances, balance, system_account_id, lock_and_read_balances, post_transaction,
}
use alkeva.Orders.Queries
use alkeva.Orders.Queries.{physical_mg}

-- `TreasuryVaultEntryDto`
pub record VaultEntry : Type 0 where
  pub asset : MetalAsset
  pub kind : VaultKind
  pub grams_mg : ℕ

pub data Direction : Type 0 where
  inward outward : Direction

-- `TreasuryCapitalEntryDto`
pub record CapitalEntry : Type 0 where
  pub direction : Direction
  pub amount_cents : ℕ

abbrev pub audit : Option ℕ → String → Option ℕ → Db → Db
audit actor_id action target_id db = record db {
  audit_logs =
      record { actor_id = actor_id; action = action; target_id = target_id } ∷ db.audit_logs;
}

-- What customers are owed, at least 0.
unfoldable pub owed : ℤ → ℤ
owed vault_balance = pos (neg_part vault_balance)

abbrev pub below_owed : VaultKind → ℤ → ℕ → ℤ → Bool
below_owed intake physical grams_mg vault_balance = false
below_owed outtake physical grams_mg vault_balance =
    ltb_ℤ (physical -ℤ pos grams_mg) (owed vault_balance)

abbrev pub vault_row : ℕ → VaultEntry → VaultHolding
vault_row actor_id dto = record {
  asset = dto.asset;
  kind = dto.kind;
  grams_mg = dto.grams_mg;
  recorded_by = actor_id;
}

abbrev vault_action : VaultKind → String
vault_action intake = "vault_intake"
vault_action outtake = "vault_outtake"

-- The rows of the vault have no id here, so the audit row names none.
abbrev pub store_vault : ℕ → VaultEntry → Action (Unit {0})
store_vault actor_id dto = do
  modify (λ db. record db { vault_holdings = vault_row actor_id dto ∷ db.vault_holdings })
  modify (audit (some actor_id) (vault_action dto.kind) none)

-- The transaction of `recordVault` under the lock of the vault account.
unfoldable pub write_vault : ℕ → VaultEntry → Balances → Action (Unit {0})
unfolding owed
write_vault actor_id dto balances = do
  physical ← gets (λ db. physical_mg dto.asset db.vault_holdings)
  let refused =
      below_owed dto.kind physical dto.grams_mg (balances (system_account (vault dto.asset)))
  raise_if refused vault_below_owed
  store_vault actor_id dto

unfoldable pub record_vault_tx : ℕ → VaultEntry → Action (Unit {0})
record_vault_tx actor_id dto = do
  balances ← lock_and_read_balances (system_account (vault dto.asset) ∷ [])
  write_vault actor_id dto balances

-- `recordVault`
unfoldable pub record_vault : ℕ → VaultEntry → Action (Unit {0})
record_vault actor_id dto = do
  system_account_id (vault dto.asset)
  transaction (record_vault_tx actor_id dto)

-- Capital taken out may not push the cash float below the halt threshold (0 without a row).
abbrev pub below_halt : Direction → ℕ → ℤ → Option TreasuryConfig → Bool
below_halt inward amount_cents cash_balance cfg = false
below_halt outward amount_cents cash_balance none = ltb_ℤ (cash_balance -ℤ pos amount_cents) (pos 0)
below_halt outward amount_cents cash_balance (some cfg) =
    ltb_ℤ (cash_balance -ℤ pos amount_cents) (pos cfg.halt_threshold_cents)

abbrev pub capital_entries : Direction → ℕ → List EntrySpec
capital_entries inward amount =
    record { account_id = system_account external; asset = etb; amount = neg amount }
    ∷ record { account_id = system_account cash; asset = etb; amount = pos amount }
    ∷ []
capital_entries outward amount =
    record { account_id = system_account external; asset = etb; amount = pos amount }
    ∷ record { account_id = system_account cash; asset = etb; amount = neg amount }
    ∷ []

abbrev capital_action : Direction → String
capital_action inward = "capital_in"
capital_action outward = "capital_out"

unfoldable pub post_capital : ℕ → ℕ → CapitalEntry → Action ℕ
post_capital txn_id actor_id dto = post_transaction txn_id (record {
  kind = TxnKind.treasury;
  subject = none;
  initiated_by = some actor_id;
  entries = capital_entries dto.direction dto.amount_cents;
})

abbrev pub audit_capital : ℕ → CapitalEntry → ℕ → Action (Unit {0})
audit_capital actor_id dto id =
    modify (audit (some actor_id) (capital_action dto.direction) (some id))

unfoldable pub store_capital : ℕ → ℕ → CapitalEntry → Action (Unit {0})
store_capital txn_id actor_id dto = do
  id ← post_capital txn_id actor_id dto
  audit_capital actor_id dto id

-- The transaction of `recordCapital` under the locks of the two accounts.
unfoldable pub write_capital : ℕ → ℕ → CapitalEntry → Balances → Action (Unit {0})
write_capital txn_id actor_id dto balances = do
  cfg ← gets (λ db. db.treasury_config)
  let refused = below_halt dto.direction dto.amount_cents (balances (system_account cash)) cfg
  raise_if refused float_below_halt
  store_capital txn_id actor_id dto

unfoldable pub record_capital_tx : ℕ → ℕ → CapitalEntry → Action (Unit {0})
record_capital_tx txn_id actor_id dto = do
  balances ← lock_and_read_balances (system_account cash ∷ system_account external ∷ [])
  write_capital txn_id actor_id dto balances

-- `recordCapital`
unfoldable pub record_capital : ℕ → ℕ → CapitalEntry → Action (Unit {0})
record_capital txn_id actor_id dto = do
  system_account_id cash
  system_account_id external
  transaction (record_capital_tx txn_id actor_id dto)

-- `TreasuryReserveDto`
pub record Reserve : Type 0 where
  pub physical_mg : ℤ
  pub issued_mg : ℕ
  pub available_mg : ℤ
  pub reserve_ratio_pct_milli : Option ℤ

-- `physicalMg * 100_000n / issuedMg`, rounded towards 0.
abbrev pub ratio : ℤ → ℕ → ℤ
ratio (pos n) issued = pos (n * 100000 / issued)
ratio (negsuc n) issued = neg (suc n * 100000 / issued)

-- `reserveFor`
unfoldable pub reserve_for : MetalAsset → Db → Reserve
reserve_for asset db =
    let physical = Queries.physical_mg asset db.vault_holdings in
    let vault_balance = balance (system_account (vault asset)) db.entries in
    let issued = neg_part vault_balance in
    record {
      physical_mg = physical;
      issued_mg = issued;
      available_mg = physical +ℤ vault_balance;
      reserve_ratio_pct_milli = if issued == 0 then none else some (ratio physical issued);
    }
