-- ===== src/Payouts/Once.antt =====
-- A payout of apps/api/src/payouts/payouts.service.ts is resolved once: the conditional update is
-- the mutex between the transfer, the webhook, the sweeper and a member of staff.
use alkeva.Common.{ℕ, ◌≡◌, refl, Bool, true, false, Option, none, some, List, [], ◌∷◌}
use alkeva.Common.Table.{find_row, claim_row-eq-some, claim_row-eq-none, find_row-update_row_self}
use alkeva.Assets.{external}
use alkeva.Codes.{Code}
use alkeva.Schema.{Db, Payout, PayoutStatus, system_account}
use alkeva.Request.{Result, ok, err}
use alkeva.Request.Keeps.{AllOk, bind-AllOk}
use alkeva.Ledger.{lock_and_read_balances, posted}
use alkeva.Ledger.Post.{post_transaction-AllOk}
use alkeva.Ledger.Reads.{lock_and_read_balances-AllOk}
use alkeva.Books.{is_held_payout}
use alkeva.Payouts.{
  claim_status, is_in_flight, mark_settled, mark_rejected, post_move, audit_settled,
  post_settlement, finish_settlement, settle_tx, refund_tx, finish_refund,
}
use alkeva.Payouts.Release.{hold}

-- The row of a payout says that it has been resolved.
abbrev pub IsResolved : ℕ → Db → Type 0
IsResolved payout_id db =
    (r : Payout) × (find_row (λ (p : Payout). p.id) payout_id db.payouts ≡ some r)
    × (is_held_payout r.status ≡ false)

not_in_flight : (st : PayoutStatus) → is_held_payout st ≡ false → is_in_flight st ≡ false
not_in_flight PayoutStatus.requested h = cc
not_in_flight PayoutStatus.approved h = cc
not_in_flight PayoutStatus.processing h = cc
not_in_flight PayoutStatus.settled h = refl
not_in_flight PayoutStatus.rejected h = refl

resolved-settle :
    (now txn : ℕ) (actor : Option ℕ) (payout : Payout) (db : Db)
    → IsResolved payout.id db
    → settle_tx now txn actor payout db ≡ (ok false, db)
unfolding settle_tx finish_settlement
resolved-settle now txn actor payout db (r, found, closed) =
    rw
      (claim_row-eq-none (λ (p : Payout). p.id) payout.id (λ p. is_in_flight p.status)
        (mark_settled now) db.payouts r found (not_in_flight r.status closed))
      refl

resolved-refund :
    (txn : ℕ) (actor : Option ℕ) (reason : Code) (payout : Payout) (db : Db)
    → IsResolved payout.id db
    → refund_tx txn actor is_held_payout reason payout db ≡ (ok none, db)
unfolding refund_tx finish_refund
resolved-refund txn actor reason payout db (r, found, closed) =
    rw
      (claim_row-eq-none (λ (p : Payout). p.id) payout.id (λ p. is_held_payout p.status)
        (mark_rejected reason) db.payouts r found closed)
      refl

-- A settlement that reports that it settled has resolved the payout.
settle_tx-resolves :
    (now txn : ℕ) (actor : Option ℕ) (payout : Payout) (db : Db)
    → AllOk (λ done db'. done ≡ true → IsResolved payout.id db') (settle_tx now txn actor payout db)
unfolding settle_tx finish_settlement post_settlement posted
settle_tx-resolves now txn actor payout db =
    go (claim_status payout.id is_in_flight (mark_settled now) db) refl
  where
    Q : Bool → Db → Type 0
    Q done d = done ≡ true → IsResolved payout.id d

    go :
        (claimed : Option (Payout × List Payout))
        → claim_status payout.id is_in_flight (mark_settled now) db ≡ claimed
        → AllOk Q (finish_settlement txn actor payout claimed db)
    go none e = λ h. cc
    go (some (u, rows)) e =
        let (r, found, open_row, eu, er) =
          claim_row-eq-some (λ (p : Payout). p.id) payout.id (λ p. is_in_flight p.status)
            (mark_settled now) db.payouts e in
        let after = record db { payouts = rows } in
        let kept =
          find_row-update_row_self (λ (p : Payout). p.id) payout.id (mark_settled now) db.payouts r
            found refl in
        bind-AllOk Q (lock_and_read_balances (hold ∷ system_account external ∷ []))
          (post_settlement txn actor payout) after
          (lock_and_read_balances-AllOk _ _ after (
            bind-AllOk Q
              (post_move txn actor payout.id hold (system_account external) payout.amount_cents)
              (audit_settled actor payout.id) after
              (post_transaction-AllOk _ txn _ after
                (λ moved done. (mark_settled now r, rw er kept, refl)))))

-- Once a settlement has gone through, no settlement and no refund of the same payout does anything
-- more, whoever asks for it and in whatever order.
pub settle_tx-once :
    (now now' txn txn' : ℕ) (actor actor' : Option ℕ) (reason : Code) (payout : Payout) (db : Db)
    → (settle_tx now txn actor payout db).0 ≡ ok true
    → let db' = (settle_tx now txn actor payout db).1 in
      (settle_tx now' txn' actor' payout db' ≡ (ok false, db'))
      × (refund_tx txn' actor' is_held_payout reason payout db' ≡ (ok none, db'))
settle_tx-once now now' txn txn' actor actor' reason payout db h =
    let done =
      resolved (settle_tx now txn actor payout db) h (settle_tx-resolves now txn actor payout db) in
    (
      resolved-settle now' txn' actor' payout _ done,
      resolved-refund txn' actor' reason payout _ done,
    )
  where
    resolved :
        (r : Result Bool × Db)
        → r.0 ≡ ok true
        → AllOk (λ done db'. done ≡ true → IsResolved payout.id db') r
        → IsResolved payout.id r.1
    resolved (ok true, d) e k = k refl
    resolved (ok false, d) e k = cc
    resolved (err c, d) e k = cc
