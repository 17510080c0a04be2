-- ===== src/Payments/Reverse.antt =====
-- `handleReversal` of apps/api/src/payments/payments.service.ts: the provider took a deposit back.
use alkeva.Common.{
  ℕ, String, Bool, true, false, not, ◌||◌, Option, none, some, List, [], ◌∷◌, ltb, if◌then◌else◌,
}
use text.Mathlib.Text.{◌==◌ as str_eq}
use alkeva.Common.Int.{ℤ, pos, pos_part, ltb_ℤ, leb_ℤ}
use alkeva.Common.Table.{update_row, claim_row}
use alkeva.Assets.{etb, external}
use alkeva.Schema.{Db, Payment, PaymentStatus, User, UserStatus, ComplianceAction}
use alkeva.Request.{Action, pure, gets, modify, transaction, ◌>>=◌, ◌>>◌}
use alkeva.Ledger.{
  Balances, ensure_user_account, system_account_id, lock_and_read_balances, has_freeze,
}
use alkeva.Orders.Settle.{notify}
use alkeva.Treasury.{audit}
use alkeva.Chapa.{CallResult, answered, verify}
use alkeva.Payments.{
  VerifyData, PaymentsEnv, find_payment, set_payments, move_status, is_credited, post_move, own,
  outside,
}

-- What the provider says of the payment, in lower case; an exception reads as nothing.
abbrev pub status_text : (String → String) → CallResult (Option VerifyData) → String
status_text to_lower_case (answered (some verified)) = to_lower_case verified.status
status_text to_lower_case _ = to_lower_case ""

abbrev pub is_taken_back : String → Bool
is_taken_back status = str_eq status "refunded" || str_eq status "reversed"

-- What is still in the account, at most the deposit.
unfoldable pub debit_of : ℤ → ℕ → ℕ
debit_of available amount_cents =
    if leb_ℤ (pos amount_cents) available
    then amount_cents
    else if ltb_ℤ (pos 0) available
    then pos_part available
    else 0

abbrev pub mark_reversed : Payment → Payment
mark_reversed p = record p { status = PaymentStatus.reversed }

abbrev pub freeze_rows : ℕ → Db → Db
freeze_rows user_id db = record db {
  freezes = record { user_id = user_id; lifted_at = none } ∷ db.freezes;
  users =
      update_row (λ (u : User). u.id) user_id (λ u. record u { status = UserStatus.frozen })
        db.users;
}

-- A freeze, unless one is open, and the evidence.
unfoldable pub freeze_for : Payment → Action Bool
freeze_for payment = do
  frozen ← gets (λ db. has_freeze payment.user_id db.freezes)
  modify (λ db. if frozen then db else freeze_rows payment.user_id db)
  modify (λ db. record db {
    compliance_events =
        record {
          user_id = payment.user_id;
          rule_key = "deposit_reversed";
          action = ComplianceAction.freeze;
          order_id = none;
          resolved_by = none;
        }
        ∷ db.compliance_events;
  })
  modify (audit none "deposit_reversed" (some payment.id))
  pure true

abbrev pub post_debit : ℕ → Payment → ℕ → Action ℕ
post_debit txn_id payment debited =
    if ltb 0 debited
    then post_move txn_id none payment (own payment) outside debited
    else pure txn_id

unfoldable pub debit_and_freeze : ℕ → Payment → Balances → Action Bool
debit_and_freeze txn_id payment balances = do
  post_debit txn_id payment (debit_of (balances (own payment)) payment.amount_cents)
  freeze_for payment

unfoldable pub finish_reversal : ℕ → Payment → Option (Payment × List Payment) → Action Bool
finish_reversal txn_id payment none = pure false
finish_reversal txn_id payment (some (claimed, rows)) = do
  modify (set_payments rows)
  balances ← lock_and_read_balances (own payment ∷ outside ∷ [])
  debit_and_freeze txn_id payment balances

-- The transaction of `handleReversal`: whether it applied.
unfoldable pub reverse_tx : ℕ → Payment → Action Bool
reverse_tx txn_id payment = do
  claimed ← gets (λ db.
      claim_row (λ (p : Payment). p.id) payment.id (λ p. is_credited p.status) mark_reversed
        db.payments)
  finish_reversal txn_id payment claimed

abbrev pub announce_reversal : Payment → Bool → Action (Unit {0})
announce_reversal payment false = pure tt
announce_reversal payment true =
    modify (notify (some payment.user_id) "deposit_reversed") >> modify (notify none "staff_alert")

unfoldable pub reverse : ℕ → Payment → Action (Unit {0})
reverse txn_id payment = do
  ensure_user_account payment.user_id etb
  system_account_id external
  applied ← transaction (reverse_tx txn_id payment)
  announce_reversal payment applied

unfoldable pub reverse_row : PaymentsEnv → ℕ → ℕ → Option Payment → Action (Unit {0})
reverse_row env txn_id tx_ref none = pure tt
reverse_row env txn_id tx_ref (some payment) =
    if not
      (is_taken_back (status_text env.to_lower_case (verify env.chapa (env.verify_reply tx_ref))))
    then (modify (audit none "payment_reversal_unconfirmed" (some payment.id))
        >> modify (notify none "staff_alert"))
    else if is_credited payment.status
    then reverse txn_id payment
    else move_status payment.id (λ st. not (is_credited st)) PaymentStatus.failed

-- `handleReversal`
unfoldable pub handle_reversal : PaymentsEnv → ℕ → ℕ → Action (Unit {0})
handle_reversal env txn_id tx_ref = do
  rows ← gets (find_payment tx_ref)
  reverse_row env txn_id tx_ref rows
