-- ===== src/Payments/Sound.antt =====
-- Crediting and reversing a deposit (apps/api/src/payments/payments.service.ts) keep the books sound.
use alkeva.Common.{
  ℕ, ◌≡◌, refl, ◌≤◌, Bool, true, false, Option, none, some, List, [], ◌∷◌, ltb, if◌then◌else◌,
  arith,
}
use alkeva.Common.Int.{ℤ, pos, ◌+ℤ◌, ◌≤ℤ◌, zero-+ℤ}
use alkeva.Common.Table.{claim_row}
use alkeva.Assets.{
  Asset, MetalAsset, SystemAccountName, name_eq, etb, xau, xpt, external, payout_hold, vault,
  delivery_hold,
}
use alkeva.Schema.{Db, Payment, AccountId, user_account, system_account}
use alkeva.Request.{Result, ok, err, pure}
use alkeva.Request.Keeps.{AllOk, bind-AllOk}
use alkeva.Ledger.{has_freeze, balance, balances_of, lock_and_read_balances, posted, PostTxnSpec}
use alkeva.Ledger.Balance.{delta}
use alkeva.Ledger.Post.{Moved, post_transaction-AllOk}
use alkeva.Ledger.Move.{delta_elsewhere}
use alkeva.Ledger.Reads.{account_eq_refl, balances_of_locked, lock_and_read_balances-AllOk}
use alkeva.Books.{Sound, IsSound}
use alkeva.Books.Postings.{posting-Sound}
use alkeva.Books.Moves.{same_user, take_covered, give_covered}
use alkeva.Payments.{
  is_creditable, is_credited, mark_credited, post_move, own, outside, audit_credited, post_credit,
  finish_credit, credit_tx, set_payments,
}
use alkeva.Payments.Reverse.{
  debit_of, mark_reversed, freeze_rows, freeze_for, post_debit, debit_and_freeze, finish_reversal,
  reverse_tx,
}

-- A posting that changes no vault, payout or delivery account, and leaves each customer with zero or
-- more.
pub quiet-Sound :
    {txn : ℕ} {spec : PostTxnSpec} {before after : Db}
    → IsSound before
    → Moved txn spec before after
    → ((x : SystemAccountName)
        → name_eq external x ≡ false
        → delta (system_account x) spec.entries ≡ pos 0)
    → ((u : ℕ) (a : Asset)
        → pos 0
          ≤ℤ delta (user_account u a) spec.entries +ℤ balance (user_account u a) before.entries)
    → Sound after.entries before.vault_holdings before.payouts before.deliveries
quiet-Sound {before} s m quiet users =
    posting-Sound s m before.vault_holdings before.payouts before.deliveries users
      (λ k. rw (quiet (vault k) (not_vault k), zero-+ℤ _) (s.reserved k))
      (rw (quiet payout_hold refl) (zero-+ℤ _))
      (λ k. rw (quiet (delivery_hold k) (not_delivery k)) (zero-+ℤ _))
  where
    not_vault : (k : MetalAsset) → name_eq external (vault k) ≡ false
    not_vault xau = refl
    not_vault xpt = refl

    not_delivery : (k : MetalAsset) → name_eq external (delivery_hold k) ≡ false
    not_delivery xau = refl
    not_delivery xpt = refl

module _ (txn : ℕ) (payment : Payment) (db : Db) (s : IsSound db) where
  post_credit-AllOk :
      (balances : AccountId → ℤ) → AllOk (λ _. IsSound) (post_credit txn payment balances db)
  unfolding post_credit posted
  post_credit-AllOk balances =
      bind-AllOk (λ _. IsSound)
        (post_move txn (some payment.user_id) payment outside (own payment) payment.amount_cents)
        (audit_credited payment) db
        (post_transaction-AllOk _ txn _ db (λ m.
          quiet-Sound s m
            (λ x h.
              delta_elsewhere outside (own payment) etb payment.amount_cents (system_account x) h
                refl)
            (λ u a.
              give_covered outside (own payment) etb payment.amount_cents (user_account u a) _
                (s.solvent u a) refl)))

  post_debit-AllOk :
      (debited : ℕ)
      → pos debited ≤ℤ balance (own payment) db.entries
      → AllOk (λ _. IsSound) (post_debit txn payment debited db)
  unfolding posted
  post_debit-AllOk debited enough = go (ltb 0 debited)
    where
      go :
          (some_left : Bool)
          → AllOk
              (λ _. IsSound)
              ((if some_left
                  then post_move txn none payment (own payment) outside debited
                  else pure txn)
                db)
      go false = s
      go true = post_transaction-AllOk _ txn _ db (λ m.
          quiet-Sound s m
            (λ x h. delta_elsewhere (own payment) outside etb debited (system_account x) refl h)
            (λ u a.
              take_covered (own payment) outside etb debited (user_account u a) _ (s.solvent u a)
                refl (λ same. rw (← same_user payment.user_id u etb a same) enough)))

-- At most the deposit and at most what is there is debited.
pub debit_of-bounds : (b : ℤ) (n : ℕ) → pos 0 ≤ℤ b → (pos (debit_of b n) ≤ℤ b) × (debit_of b n ≤ n)
unfolding debit_of
debit_of-bounds b n h = (ground arith, ground arith)

module _ (payment : Payment) where
  pub credit_tx-AllOk :
      (now txn : ℕ) (db : Db) → IsSound db → AllOk (λ _. IsSound) (credit_tx now txn payment db)
  unfolding credit_tx finish_credit
  credit_tx-AllOk now txn db s = go (
      claim_row (λ (p : Payment). p.id) payment.id (λ p. is_creditable p.status) (mark_credited now)
        db.payments)
    where
      go :
          (claimed : Option (Payment × List Payment))
          → AllOk (λ _. IsSound) (finish_credit txn payment claimed db)
      go none = s
      go (some (u, rows)) =
          let after = set_payments rows db in
          bind-AllOk (λ _. IsSound) (lock_and_read_balances (own payment ∷ outside ∷ []))
            (post_credit txn payment) after
            (lock_and_read_balances-AllOk _ _ after (
              post_credit-AllOk txn payment after s
                (balances_of (own payment ∷ outside ∷ []) after.entries)))

  frozen_too : (db : Db) → IsSound db → AllOk (λ _. IsSound) (freeze_for payment db)
  unfolding freeze_for
  frozen_too db s = go (has_freeze payment.user_id db.freezes)
    where
      go : (frozen : Bool) → IsSound (if frozen then db else freeze_rows payment.user_id db)
      go true = s
      go false = s

  pub reverse_tx-AllOk :
      (txn : ℕ) (db : Db) → IsSound db → AllOk (λ _. IsSound) (reverse_tx txn payment db)
  unfolding reverse_tx finish_reversal debit_and_freeze
  reverse_tx-AllOk txn db s = go (
      claim_row (λ (p : Payment). p.id) payment.id (λ p. is_credited p.status) mark_reversed
        db.payments)
    where
      ids : List AccountId
      ids = own payment ∷ outside ∷ []

      weaken :
          (r : Result ℕ × Db)
          → AllOk (λ _. IsSound) r
          → AllOk (λ _ d. AllOk (λ _. IsSound) (freeze_for payment d)) r
      weaken (ok a, d) p = frozen_too d p
      weaken (err e, d) p = tt

      go :
          (claimed : Option (Payment × List Payment))
          → AllOk (λ _. IsSound) (finish_reversal txn payment claimed db)
      go none = s
      go (some (u, rows)) =
          let after = set_payments rows db in
          let there = balances_of ids after.entries (own payment) in
          let debited = debit_of there payment.amount_cents in
          let here =
            balances_of_locked ids after.entries (own payment)
              (rw (account_eq_refl (own payment)) refl) in
          bind-AllOk (λ _. IsSound) (lock_and_read_balances ids) (debit_and_freeze txn payment)
            after
            (lock_and_read_balances-AllOk _ _ after (
              bind-AllOk (λ _. IsSound) (post_debit txn payment debited) (λ _. freeze_for payment)
                after
                (weaken (post_debit txn payment debited after) (
                  post_debit-AllOk txn payment after s debited (
                    rw (← here)
                      (debit_of-bounds there payment.amount_cents
                        (rw here (s.solvent payment.user_id etb))).0)))))
