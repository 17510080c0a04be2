-- ===== src/Payments/Verified.antt =====
-- What apps/api/src/payments/payments.service.ts has checked before it credits a deposit, and that
-- it credits it once.
use alkeva.Common.{
  ℕ, ◌≡◌, refl, ◌⊎◌, inl, inr, Bool, true, false, not, ◌&&◌, Option, none, some, List, [], ◌∷◌,
  ◌==◌, if◌then◌else◌, arith, ==_iff,
}
use text.Mathlib.Text.{◌==◌ as str_eq}
use text.Mathlib.TextEquality.{eq_iff}
use alkeva.Common.Int.{◌+ℤ◌}
use alkeva.Common.Table.{update_row, claim_row, claim_row-eq-some}
use alkeva.Assets.{etb, external}
use alkeva.Schema.{Db, Payment, PaymentStatus, AccountId}
use alkeva.Request.{pure, modify, transaction, ◌>>=◌, ◌>>◌}
use alkeva.Request.Keeps.{Keeps, bind-Keeps, Keeps-bind_at, AllOk, bind-AllOk, transaction-AllOk}
use alkeva.Ledger.{balance, lock_and_read_balances, posted, ensure_user_account, system_account_id}
use alkeva.Ledger.Accounts.{ensure_user_account-Keeps, system_account_id-Keeps}
use alkeva.Ledger.Balance.{delta}
use alkeva.Ledger.Post.{post_transaction-AllOk}
use alkeva.Ledger.Move.{move_entries}
use alkeva.Ledger.Reads.{lock_and_read_balances-AllOk}
use alkeva.Treasury.{audit}
use alkeva.Chapa.{
  ChapaEnv, test_mode, etb_to_cents, CallResult, unconfigured, threw, api_error, answered, verify,
}
use alkeva.Payments.{
  PaymentsEnv, VerifyData, find_payment, set_payments, move_status, is_creditable, mark_credited,
  post_move, own, outside, audit_credited, post_credit, finish_credit, credit_tx, announce_credit,
  credit, agrees, apply_verified, apply_answer, settle_row, settle_by_tx_ref,
}

-- The entries are the same, or the deposit has been moved in and its row says so.
abbrev Outcome : ℕ → Payment → Db → Db → Type 0
Outcome now payment before after =
    (after.entries ≡ before.entries)
    ⊎ (((a : AccountId)
          → balance a after.entries
            ≡ delta a (move_entries outside (own payment) etb payment.amount_cents)
              +ℤ balance a before.entries)
        × (after.payments
            ≡ update_row (λ (p : Payment). p.id) payment.id (mark_credited now) before.payments))

module _ (now txn : ℕ) (payment : Payment) (before : Db) where
  abbrev Same : Db → Type 0
  Same d = (d.entries ≡ before.entries) × (d.payments ≡ before.payments)

  credit_tx-Outcome :
      (d : Db) → Same d → AllOk (λ _. Outcome now payment before) (credit_tx now txn payment d)
  unfolding credit_tx finish_credit post_credit posted
  credit_tx-Outcome d (same_entries, same_payments) =
      go
        (claim_row (λ (p : Payment). p.id) payment.id (λ p. is_creditable p.status)
          (mark_credited now) d.payments)
        refl
    where
      Q : Bool → Db → Type 0
      Q _ = Outcome now payment before

      go :
          (claimed : Option (Payment × List Payment))
          → claim_row
              (λ (p : Payment). p.id)
              payment.id
              (λ p. is_creditable p.status)
              (mark_credited now)
              d.payments
            ≡ claimed
          → AllOk Q (finish_credit txn payment claimed d)
      go none e = inl same_entries
      go (some (u, rows)) e =
          let (r, found, open_row, eu, er) =
            claim_row-eq-some (λ (p : Payment). p.id) payment.id (λ p. is_creditable p.status)
              (mark_credited now) d.payments e in
          let after = set_payments rows d in
          bind-AllOk Q (lock_and_read_balances (own payment ∷ outside ∷ []))
            (post_credit txn payment) after
            (lock_and_read_balances-AllOk _ _ after (
              bind-AllOk Q
                (post_move txn (some payment.user_id) payment outside (own payment)
                  payment.amount_cents)
                (audit_credited payment) after
                (post_transaction-AllOk _ txn _ after (λ m.
                  inr (
                    (λ a. rw (m.each_balance a, same_entries) refl),
                    rw (er, same_payments) refl,
                  )))))

  credit-Outcome : Outcome now payment before (credit now txn payment before).1
  unfolding credit
  credit-Outcome =
      bind-Keeps Same (Outcome now payment before) (ensure_user_account payment.user_id etb)
        (λ _.
          system_account_id external
          >> (transaction (credit_tx now txn payment) >>= announce_credit payment))
        (λ _ r. inl r.0) (ensure_user_account-Keeps Same (λ _ _ r. r) payment.user_id etb)
        (λ _.
          bind-Keeps Same (Outcome now payment before) (system_account_id external)
            (λ _. transaction (credit_tx now txn payment) >>= announce_credit payment)
            (λ _ r. inl r.0) (system_account_id-Keeps Same (λ _ _ r. r) external)
            (λ _ d r.
              Keeps-bind_at (Outcome now payment before) (transaction (credit_tx now txn payment))
                (announce_credit payment) d
                (transaction-AllOk (Outcome now payment before) (credit_tx now txn payment) d
                  (inl r.0) (credit_tx-Outcome d r))
                told))
        before (refl, refl)
    where
      told : (b : Bool) → Keeps (Outcome now payment before) (announce_credit payment b)
      told true d o = o
      told false d o = o

-- The provider's answer about a deposit, for which it may be credited.
pub record Confirmed (chapa : ChapaEnv) (payment : Payment) (verified : VerifyData) : Type 0 where
  pub successful : verified.status ≡ "success"
  pub in_etb : verified.currency ≡ "ETB"
  pub exact : etb_to_cents verified.amount ≡ payment.amount_cents
  pub in_mode : verified.mode ≡ (if test_mode chapa then "test" else "live")

agrees-Confirmed :
    (chapa : ChapaEnv) (payment : Payment) (v : VerifyData)
    → str_eq v.status "success" ≡ true
    → agrees chapa payment v ≡ true
    → Confirmed chapa payment v
unfolding agrees
agrees-Confirmed chapa payment v success agree =
    let (a, b, c) =
      split (str_eq v.currency "ETB") (etb_to_cents v.amount == payment.amount_cents) _ agree in
    record {
      successful = (eq_iff v.status "success").0 success;
      in_etb = (eq_iff v.currency "ETB").0 a;
      exact = (==_iff (etb_to_cents v.amount) payment.amount_cents).0 b;
      in_mode = (eq_iff v.mode (if test_mode chapa then "test" else "live")).0 c;
    }
  where
    split : (x y z : Bool) → (x && y && z) ≡ true → (x ≡ true) × (y ≡ true) × (z ≡ true)
    split x y z h = ground arith

-- A credit: the deposit was open, the provider has confirmed it, its exact amount has moved from the
-- outside to the customer, and its row is the only one that has changed.
pub record Credited (env : PaymentsEnv) (now tx_ref : ℕ) (before after : Db) : Type 0 where
  pub payment : Payment
  pub verified : VerifyData
  pub known : find_payment tx_ref before ≡ some payment
  pub was_open : is_creditable payment.status ≡ true
  pub said : verify env.chapa (env.verify_reply tx_ref) ≡ answered (some verified)
  pub confirmed : Confirmed env.chapa payment verified
  pub balances :
      (a : AccountId)
      → balance a after.entries
        ≡ delta a (move_entries outside (own payment) etb payment.amount_cents)
          +ℤ balance a before.entries
  pub rows :
      after.payments
      ≡ update_row (λ (p : Payment). p.id) payment.id (mark_credited now) before.payments

module _ (env : PaymentsEnv) (now txn tx_ref : ℕ) (before : Db) where
  abbrev Verified : Db → Type 0
  Verified after = (after.entries ≡ before.entries) ⊎ Credited env now tx_ref before after

  module _ (payment : Payment) (known : find_payment tx_ref before ≡ some payment)
      (was_open : is_creditable payment.status ≡ true) where
    apply_verified-Verified :
        (v : VerifyData)
        → verify env.chapa (env.verify_reply tx_ref) ≡ answered (some v)
        → Verified (apply_verified env.chapa now txn payment v before).1
    unfolding apply_verified
    apply_verified-Verified v said =
        go (str_eq v.status "failed") (str_eq v.status "success") (agrees env.chapa payment v) refl
          refl
      where
        credit_case : Confirmed env.chapa payment v → Verified (credit now txn payment before).1
        credit_case confirmed = elim (credit-Outcome now txn payment before) [
          | inl same ↦ inl same
          | inr (balances, rows) ↦ inr (record {
            payment = payment;
            verified = v;
            known = known;
            was_open = was_open;
            said = said;
            confirmed = confirmed;
            balances = balances;
            rows = rows;
          })
        ]

        go :
            (failed success agree : Bool)
            → str_eq v.status "success" ≡ success
            → agrees env.chapa payment v ≡ agree
            → Verified
                ((if failed
                    then move_status payment.id is_creditable PaymentStatus.failed
                    else if not success
                    then pure tt
                    else if agree
                    then credit now txn payment
                    else modify (audit none "payment_verify_mismatch" (some payment.id)))
                  before).1
        go true success agree e f = inl refl
        go false false agree e f = inl refl
        go false true true e f = credit_case (agrees-Confirmed env.chapa payment v e f)
        go false true false e f = inl refl

    answered-Credited :
        (answer : CallResult (Option VerifyData))
        → verify env.chapa (env.verify_reply tx_ref) ≡ answer
        → Verified (apply_answer env.chapa now txn payment answer before).1
    answered-Credited unconfigured e = inl refl
    answered-Credited threw e = inl refl
    answered-Credited (api_error status definitive) e = inl refl
    answered-Credited (answered none) e = inl refl
    answered-Credited (answered (some v)) e = apply_verified-Verified v e

  -- Settling a deposit leaves the ledger as it is, or the deposit was open and the provider has
  -- confirmed it as successful, in ETB, in the expected mode and for the exact amount; then that
  -- amount has moved from the outside to the customer, every other balance is the same, and the row
  -- of the deposit is marked as credited.
  pub settle_by_tx_ref-confirmed : Verified (settle_by_tx_ref env now txn tx_ref before).1
  unfolding settle_by_tx_ref
  settle_by_tx_ref-confirmed = go (find_payment tx_ref before) refl
    where
      open_case :
          (payment : Payment) (open_row : Bool)
          → find_payment tx_ref before ≡ some payment
          → is_creditable payment.status ≡ open_row
          → Verified
              ((if open_row
                  then apply_answer env.chapa now txn payment
                      (verify env.chapa (env.verify_reply tx_ref))
                  else pure tt)
                before).1
      open_case payment true known was_open =
          answered-Credited payment known was_open (verify env.chapa (env.verify_reply tx_ref)) refl
      open_case payment false known closed = inl refl

      go :
          (rows : Option Payment)
          → find_payment tx_ref before ≡ rows
          → Verified (settle_row env now txn tx_ref rows before).1
      go none e = inl refl
      go (some payment) e = open_case payment (is_creditable payment.status) e refl
