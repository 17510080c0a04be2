-- ===== src/Codes.antt =====
-- The machine-readable codes with which the API refuses a request.
use alkeva.Assets.{Asset}

pub data Code : Type 0 where
  -- ledger
  account_create_failed system_account_missing account_missing : Code
  ledger_unbalanced : Asset → Code
  ledger_empty_transaction ledger_entry_refused : Code
  account_frozen staff_account email_unverified kyc_required : Code
  -- quotes and fees
  no_price_data stale_price price_unverified amount_too_small fee_config_missing : Code
  range_error : Code
  -- orders
  quote_not_found quote_consumed quote_expired insufficient_balance insufficient_metal : Code
  tier_txn_cap tier_daily_cap reserve_halt float_halt sellback_ceiling : Code
  treasury_config_missing conflict order_not_found cannot_approve_own : Code
  compliance_rejected order_not_in_review review_expired : Code
  -- treasury
  vault_below_owed float_below_halt : Code
  -- payouts
  payout_daily_limit payout_daily_count payout_not_pending payout_not_found : Code
  rejected_by_finance chapa_refused chapa_unconfigured : Code
  -- delivery
  not_found cannot_decide_own delivery_not_eligible delivery_already_open : Code
  delivery_not_open delivery_status : Code
  -- payments
  payment_not_found user_not_found chapa_error payments_unconfigured : Code
  -- emailed codes and sessions
  code_rate_limited code_invalid code_expired code_locked invalid_refresh : Code
  -- a statement that breaks a unique index
  unique_violation : Code
