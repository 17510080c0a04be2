-- ===== src/Schema/Rows.antt =====
-- The tables of packages/db/src/schema.ts.
use alkeva.Common.{ℕ, String, Bool, false, ◌&&◌, ◌==◌, Option, List}
use alkeva.Common.Int.{ℤ}
use alkeva.Codes.{Code}
use alkeva.Assets.{Asset, MetalAsset, SystemAccountName, OrderSide, asset_eq, name_eq}
use alkeva.Schema.Enums.{
  Role, UserStatus, TxnKind, OrderStatus, QuoteStatus, PaymentStatus, PayoutStatus, VaultKind,
  DeliveryStatus, ComplianceAction,
}

-- An account row, named by its owner: the unique indexes account_user_asset_uq and
-- account_system_uq make owners and rows one to one.
pub data AccountId : Type 0 where
  user_account : ℕ → Asset → AccountId
  system_account : SystemAccountName → AccountId

abbrev pub account_eq : AccountId → AccountId → Bool
account_eq (user_account u a) (user_account v b) = u == v && asset_eq a b
account_eq (system_account m) (system_account n) = name_eq m n
account_eq _ _ = false

pub record User : Type 0 where
  pub id : ℕ
  pub role : Role
  pub status : UserStatus
  pub email_verified_at : Option ℕ
  pub kyc_tier : ℕ
  pub holding_tier : Option String
  pub created_at : ℕ

pub record Freeze : Type 0 where
  pub user_id : ℕ
  pub lifted_at : Option ℕ

pub record LedgerTransaction : Type 0 where
  pub id : ℕ
  pub kind : TxnKind
  pub subject : Option ℕ  -- order_id, payment_id or payout_id, by the kind
  pub initiated_by : Option ℕ

pub record LedgerEntry : Type 0 where
  pub transaction_id : ℕ
  pub account_id : AccountId
  pub asset : Asset
  pub amount : ℤ

pub record PriceTick : Type 0 where
  pub id : ℕ
  pub asset : MetalAsset
  pub usd_per_oz_micro : ℕ
  pub etb_rate_micro : ℕ
  pub etb_cents_per_gram : ℕ
  pub suspect : Bool
  pub at : ℕ

pub record Quote : Type 0 where
  pub id : ℕ
  pub user_id : ℕ
  pub side : OrderSide
  pub asset : MetalAsset
  pub grams_mg : ℕ
  pub price_tick_id : ℕ
  pub unit_etb_cents_per_gram : ℕ
  pub subtotal_cents : ℕ
  pub fee_cents : ℕ
  pub tax_cents : ℕ
  pub reforest_cents : ℕ
  pub total_cents : ℕ
  pub status : QuoteStatus
  pub expires_at : ℕ

pub record Order : Type 0 where
  pub id : ℕ
  pub quote_id : ℕ
  pub user_id : ℕ
  pub side : OrderSide
  pub asset : MetalAsset
  pub status : OrderStatus
  pub idempotency_key : ℕ × String  -- `${userId}:${clientKey}`
  pub ledger_transaction_id : Option ℕ
  pub failure_reason : Option Code
  pub receipt_serial : Option ℕ
  pub created_at : ℕ
  pub settled_at : Option ℕ

pub record FeeConfig : Type 0 where
  pub commission_pct_milli : ℕ
  pub service_fee_cents : ℕ
  pub tax_pct_milli : ℕ
  pub reforest_pct_milli : ℕ

pub record TreasuryConfig : Type 0 where
  pub halt_threshold_cents : ℕ
  pub daily_sellback_ceiling_cents : ℕ

pub record HoldingTier : Type 0 where
  pub name : String
  pub rank : ℕ
  pub max_usd : Option ℕ
  pub delivery_eligible : Bool
  pub per_txn_cap_cents : Option ℕ
  pub daily_cap_cents : Option ℕ

pub record Payment : Type 0 where
  pub id : ℕ
  pub user_id : ℕ
  pub chapa_tx_ref : ℕ
  pub amount_cents : ℕ
  pub status : PaymentStatus
  pub created_at : ℕ
  pub credited_at : Option ℕ

pub record Payout : Type 0 where
  pub id : ℕ
  pub user_id : ℕ
  pub amount_cents : ℕ
  pub status : PayoutStatus
  pub bank_code : ℕ
  pub account_number : String
  pub account_name : String
  pub idempotency_key : ℕ × String
  pub approved_by : Option ℕ
  pub chapa_transfer_ref : Option ℕ
  pub failure_reason : Option Code
  pub created_at : ℕ
  pub settled_at : Option ℕ

pub record VaultHolding : Type 0 where
  pub asset : MetalAsset
  pub kind : VaultKind
  pub grams_mg : ℕ
  pub recorded_by : ℕ

pub record DeliveryRequest : Type 0 where
  pub id : ℕ
  pub user_id : ℕ
  pub asset : MetalAsset
  pub grams_mg : ℕ
  pub status : DeliveryStatus
  pub reviewer_id : Option ℕ

pub record ComplianceEvent : Type 0 where
  pub user_id : ℕ
  pub rule_key : String
  pub action : ComplianceAction
  pub order_id : Option ℕ  -- `evidence ->> 'orderId'`
  pub resolved_by : Option ℕ

pub record AuditLog : Type 0 where
  pub actor_id : Option ℕ
  pub action : String
  pub target_id : Option ℕ

-- A call of `notifications.emit` (to one user) or `notifications.emitToStaff` (to none).
pub record Notice : Type 0 where
  pub user_id : Option ℕ
  pub template : String

pub record Db : Type 0 where
  pub accounts : List AccountId
  pub transactions : List LedgerTransaction
  pub entries : List LedgerEntry
  pub users : List User
  pub freezes : List Freeze
  pub price_ticks : List PriceTick
  pub quotes : List Quote
  pub orders : List Order
  pub fee_config : Option FeeConfig
  pub treasury_config : Option TreasuryConfig
  pub holding_tiers : List HoldingTier
  pub payments : List Payment
  pub payouts : List Payout
  pub vault_holdings : List VaultHolding
  pub deliveries : List DeliveryRequest
  pub legal_names : List (ℕ × String)  -- identity_verification: user_id, legal_name
  pub compliance_events : List ComplianceEvent
  pub audit_logs : List AuditLog
  pub notices : List Notice
  pub receipt_serial_seq : ℕ
