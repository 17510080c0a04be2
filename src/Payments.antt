-- ===== src/Payments.antt =====
-- apps/api/src/payments/payments.service.ts: deposits through the payment provider, which are
-- credited once the provider's own answer agrees with what was asked for. Their reversals are in
-- Payments/Reverse, the calls of the customer, the webhook and the timer in Payments/Requests.
pub mod Reverse
pub mod Requests
pub mod Sound
pub mod Handlers
pub mod Verified
pub mod Once
use alkeva.Common.{
  ℕ, ◌+◌, ◌-◌, ◌*◌, ◌/◌, String, Bool, true, false, not, ◌&&◌, ◌||◌, Option, none, some, List, [],
  ◌∷◌, ltb, ◌==◌, is_some, filter, if◌then◌else◌,
}
use text.Mathlib.Text.{starts_with, ◌==◌ as str_eq}
use alkeva.Common.Int.{ℤ, pos, pos_part, ltb_ℤ, leb_ℤ}
use alkeva.Common.Table.{find_row, find_where, update_row, claim_row}
use alkeva.Assets.{etb, external}
use alkeva.Codes.{
  Code, payment_not_found, user_not_found, amount_too_small, chapa_error, payments_unconfigured,
}
use alkeva.Schema.{
  Db, Payment, PaymentStatus, Freeze, User, UserStatus, ComplianceAction, AccountId, user_account,
  system_account, TxnKind,
}
use alkeva.Request.{
  Result, ok, err, Action, pure, raise, gets, or_raise, raise_if, modify, transaction, ◌>>=◌, ◌>>◌,
}
use alkeva.Ledger.{
  Balances, ensure_user_account, system_account_id, lock_and_read_balances, post_transaction,
  assert_can_move_money, find_user, has_freeze,
}
use alkeva.Ledger.Move.{move_entries}
use alkeva.Orders.Settle.{notify}
use alkeva.Treasury.{audit}
use alkeva.Chapa.{
  ChapaEnv, configured, test_mode, Double, etb_to_cents, CallResult, unconfigured, threw, api_error,
  answered, Reply, verify,
}

-- `ChapaVerifyData`, the fields that are read.
pub record VerifyData : Type 0 where
  pub status : String
  pub currency : String
  pub mode : String
  pub amount : Double

-- The provider's answers are functions of what is asked; `to_lower_case` is JavaScript's.
pub record PaymentsEnv : Type 0 where
  pub chapa : ChapaEnv
  pub deposit_min_cents : ℕ
  pub verify_reply : ℕ → Reply VerifyData
  pub initialize : ℕ → ℕ → Bool
  pub to_lower_case : String → String

abbrev pub find_payment : ℕ → Db → Option Payment
find_payment tx_ref db = find_where (λ p. p.chapa_tx_ref == tx_ref) db.payments

abbrev pub set_payments : List Payment → Db → Db
set_payments rows db = record db { payments = rows }

abbrev pub update_payment : ℕ → (Payment → Payment) → Action (Unit {0})
update_payment id f =
    modify (λ db. set_payments (update_row (λ (p : Payment). p.id) id f db.payments) db)

-- `update payments set … where id = … and status in (…)`, without a look at what it returns.
abbrev pub move_status : ℕ → (PaymentStatus → Bool) → PaymentStatus → Action (Unit {0})
move_status id from to =
    update_payment id (λ p. if from p.status then record p { status = to } else p)

-- `CREDITABLE`
abbrev pub is_creditable : PaymentStatus → Bool
is_creditable PaymentStatus.credited = false
is_creditable PaymentStatus.reversed = false
is_creditable _ = true

abbrev pub is_credited : PaymentStatus → Bool
is_credited PaymentStatus.credited = true
is_credited _ = false

abbrev pub is_initiated : PaymentStatus → Bool
is_initiated PaymentStatus.initiated = true
is_initiated _ = false

abbrev pub is_unpaid : PaymentStatus → Bool
is_unpaid PaymentStatus.initiated = true
is_unpaid PaymentStatus.webhook_received = true
is_unpaid _ = false

abbrev pub is_awaited : PaymentStatus → Bool
is_awaited PaymentStatus.verified = true
is_awaited st = is_unpaid st

abbrev pub post_move : ℕ → Option ℕ → Payment → AccountId → AccountId → ℕ → Action ℕ
post_move txn_id initiated_by payment src dst amount = post_transaction txn_id (record {
  kind = TxnKind.deposit;
  subject = some payment.id;
  initiated_by = initiated_by;
  entries = move_entries src dst etb amount;
})

abbrev pub mark_credited : ℕ → Payment → Payment
mark_credited now p = record p { status = PaymentStatus.credited; credited_at = some now }

abbrev pub own : Payment → AccountId
own payment = user_account payment.user_id etb

abbrev pub outside : AccountId
outside = system_account external

abbrev pub audit_credited : Payment → ℕ → Action Bool
audit_credited payment _ = modify (audit none "deposit_credited" (some payment.id)) >> pure true

unfoldable pub post_credit : ℕ → Payment → Balances → Action Bool
post_credit txn_id payment balances = do
  id ← post_move txn_id (some payment.user_id) payment outside (own payment) payment.amount_cents
  audit_credited payment id

unfoldable pub finish_credit : ℕ → Payment → Option (Payment × List Payment) → Action Bool
finish_credit txn_id payment none = pure false
finish_credit txn_id payment (some (claimed, rows)) = do
  modify (set_payments rows)
  balances ← lock_and_read_balances (own payment ∷ outside ∷ [])
  post_credit txn_id payment balances

-- The transaction of `settleByTxRef`: whether it credited.
unfoldable pub credit_tx : ℕ → ℕ → Payment → Action Bool
credit_tx now txn_id payment = do
  claimed ← gets (λ db.
      claim_row (λ (p : Payment). p.id) payment.id (λ p. is_creditable p.status) (mark_credited now)
        db.payments)
  finish_credit txn_id payment claimed

abbrev pub announce_credit : Payment → Bool → Action (Unit {0})
announce_credit payment credited =
    if credited then modify (notify (some payment.user_id) "deposit_credited") else pure tt

unfoldable pub credit : ℕ → ℕ → Payment → Action (Unit {0})
credit now txn_id payment = do
  ensure_user_account payment.user_id etb
  system_account_id external
  credited ← transaction (credit_tx now txn_id payment)
  announce_credit payment credited

-- Status aside: currency, mode and the exact amount agree with what was asked for.
unfoldable pub agrees : ChapaEnv → Payment → VerifyData → Bool
agrees chapa payment verified =
    str_eq verified.currency "ETB"
    && (etb_to_cents verified.amount == payment.amount_cents)
    && str_eq verified.mode (if test_mode chapa then "test" else "live")

-- What a verified answer does to an open payment.
unfoldable pub apply_verified : ChapaEnv → ℕ → ℕ → Payment → VerifyData → Action (Unit {0})
apply_verified chapa now txn_id payment verified =
    if str_eq verified.status "failed"
    then move_status payment.id is_creditable PaymentStatus.failed
    else if not (str_eq verified.status "success")
    then pure tt
    else if agrees chapa payment verified
    then credit now txn_id payment
    else modify (audit none "payment_verify_mismatch" (some payment.id))

-- The errors of the client are thrown on.
abbrev pub apply_answer :
    ChapaEnv → ℕ → ℕ → Payment → CallResult (Option VerifyData) → Action (Unit {0})
apply_answer chapa now txn_id payment unconfigured = raise payments_unconfigured
apply_answer chapa now txn_id payment threw = raise chapa_error
apply_answer chapa now txn_id payment (api_error status definitive) = raise chapa_error
apply_answer chapa now txn_id payment (answered none) = pure tt
apply_answer chapa now txn_id payment (answered (some verified)) =
    apply_verified chapa now txn_id payment verified

abbrev pub settle_row : PaymentsEnv → ℕ → ℕ → ℕ → Option Payment → Action (Unit {0})
settle_row env now txn_id tx_ref none = pure tt
settle_row env now txn_id tx_ref (some payment) =
    if is_creditable payment.status
    then apply_answer env.chapa now txn_id payment (verify env.chapa (env.verify_reply tx_ref))
    else pure tt

-- `settleByTxRef`
unfoldable pub settle_by_tx_ref : PaymentsEnv → ℕ → ℕ → ℕ → Action (Unit {0})
settle_by_tx_ref env now txn_id tx_ref = do
  rows ← gets (find_payment tx_ref)
  settle_row env now txn_id tx_ref rows
