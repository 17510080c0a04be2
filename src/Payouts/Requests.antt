-- ===== src/Payouts/Requests.antt =====
-- `settleLedger` and `refundIfStatus` of apps/api/src/payouts/payouts.service.ts as whole calls.
use alkeva.Payouts.Release.{settle_tx-AllOk, refund_tx-AllOk}
use alkeva.Treasury.Sound.{system_account_id-Sound}
use alkeva.Common.{ℕ, ◌≡◌, Bool, true, false, Option, none, some, if◌then◌else◌}
use alkeva.Common.Table.{find_row}
use alkeva.Assets.{etb, payout_hold, external}
use alkeva.Codes.{Code, payout_not_found}
use alkeva.Schema.{Db, Payout, PayoutStatus}
use alkeva.Request.{Action, pure, or_raise, modify, transaction, ◌>>=◌, ◌>>◌}
use alkeva.Request.Keeps.{Keeps, bind-Keeps, Keeps-bind_at, transaction-AllOk}
use alkeva.Ledger.{system_account_id, ensure_user_account}
use alkeva.Ledger.Accounts.{system_account_id-Keeps, ensure_user_account-Keeps}
use alkeva.Orders.Settle.{notify}
use alkeva.Books.{IsSound, is_held_payout}
use alkeva.Payouts.{settle_tx, refund_tx, settle_ledger, refund_peeked, refund_if_status}

-- The row of the payout in the table has the amount of this copy, which may have been read earlier.
abbrev pub IsAmountOf : Payout → Db → Type 0
IsAmountOf payout db =
    (r : Payout)
    → find_row (λ (p : Payout). p.id) payout.id db.payouts ≡ some r
    → r.amount_cents ≡ payout.amount_cents

-- If the books are sound and the payout is a copy, which may be stale in everything but its amount,
-- of the row of its id, the books are sound after it is settled, or found not to be in flight.
pub settle_ledger-Sound :
    (now txn : ℕ) (actor : Option ℕ) (payout : Payout) (db : Db)
    → IsSound db
    → IsAmountOf payout db
    → IsSound (settle_ledger now txn actor payout db).1
unfolding settle_ledger
settle_ledger-Sound now txn actor payout db s found =
    bind-Keeps R IsSound (system_account_id payout_hold)
      (λ _. system_account_id external >> (transaction tx >>= announce)) (λ _ r. r.0)
      (system_account_id-Keeps R (λ _ _ r. r) payout_hold)
      (λ _.
        bind-Keeps R IsSound (system_account_id external) (λ _. transaction tx >>= announce)
          (λ _ r. r.0) (system_account_id-Keeps R (λ _ _ r. r) external)
          (λ _ db' r.
            Keeps-bind_at IsSound (transaction tx) announce db'
              (transaction-AllOk IsSound tx db' r.0
                (settle_tx-AllOk now txn actor payout db' r.0 r.1))
              announce-Sound))
      db (s, found)
  where
    R : Db → Type 0
    R d = IsSound d × IsAmountOf payout d

    tx : Action Bool
    tx = settle_tx now txn actor payout

    announce : Bool → Action (Unit {0})
    announce settled =
        if settled then modify (notify (some payout.user_id) "payout_settled") else pure tt

    announce-Sound : (settled : Bool) → Keeps IsSound (announce settled)
    announce-Sound true db s = s
    announce-Sound false db s = s

-- If the books are sound and each status in `from` is one in which the cents are held, the books
-- are sound after a refund, whether or not the payout was in one of them.
pub refund_if_status-Sound :
    (txn payout_id : ℕ) (from : PayoutStatus → Bool) (reason : Code) (actor : Option ℕ) (db : Db)
    → ((st : PayoutStatus) → from st ≡ true → is_held_payout st ≡ true)
    → IsSound db
    → IsSound (refund_if_status txn payout_id from reason actor db).1
unfolding refund_if_status refund_peeked
refund_if_status-Sound txn payout_id from reason actor db held s =
    go (find_row (λ (p : Payout). p.id) payout_id db.payouts)
  where
    tx : Payout → Action (Option Payout)
    tx peek = refund_tx txn actor from reason peek

    go :
        (rows : Option Payout)
        → IsSound ((or_raise rows payout_not_found >>= refund_peeked txn actor from reason) db).1
    go none = s
    go (some peek) =
        bind-Keeps IsSound IsSound (system_account_id payout_hold)
          (λ _. ensure_user_account peek.user_id etb >> transaction (tx peek)) (λ _ r. r)
          (system_account_id-Sound payout_hold)
          (λ _.
            bind-Keeps IsSound IsSound (ensure_user_account peek.user_id etb)
              (λ _. transaction (tx peek)) (λ _ r. r)
              (ensure_user_account-Keeps IsSound (λ _ _ r. r) peek.user_id etb)
              (λ _ db' s'.
                transaction-AllOk IsSound (tx peek) db' s'
                  (refund_tx-AllOk txn actor from reason peek db' s' held)))
          db s
