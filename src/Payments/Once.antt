-- ===== src/Payments/Once.antt =====
-- A deposit of apps/api/src/payments/payments.service.ts is credited once.
use alkeva.Common.{ℕ, ◌≡◌, ◌≢◌, refl, inl, inr, false, some, ◌==◌}
use alkeva.Common.Table.{find_row, find_where-update_row}
use alkeva.Schema.{Db, Payment}
use alkeva.Request.{ok}
use alkeva.Payments.{PaymentsEnv, find_payment, is_creditable, mark_credited, settle_by_tx_ref}
use alkeva.Payments.Verified.{settle_by_tx_ref-confirmed}

-- A row that has been credited or reversed is left alone.
settled_again :
    (env : PaymentsEnv) (now txn tx_ref : ℕ) (db : Db) (r : Payment)
    → find_payment tx_ref db ≡ some r
    → is_creditable r.status ≡ false
    → settle_by_tx_ref env now txn tx_ref db ≡ (ok tt, db)
unfolding settle_by_tx_ref
settled_again env now txn tx_ref db r found closed = rw (found, closed) refl

-- If the deposit that is found under the reference is also the row of its id, then once settling it
-- has changed the ledger, settling it again does nothing at all, whenever that is and whatever the
-- provider answers then, as long as the rows of the deposits are as the first settlement left them;
-- whatever else has changed in the database.
pub settle_by_tx_ref-once :
    (env env' : PaymentsEnv) (now now' txn txn' tx_ref : ℕ) (before later : Db)
    → ((p : Payment)
        → find_payment tx_ref before ≡ some p
        → find_row (λ (p : Payment). p.id) p.id before.payments ≡ some p)
    → let after = (settle_by_tx_ref env now txn tx_ref before).1 in
      (after.entries ≢ before.entries)
      → later.payments ≡ after.payments
      → settle_by_tx_ref env' now' txn' tx_ref later ≡ (ok tt, later)
settle_by_tx_ref-once env env' now now' txn txn' tx_ref before later unique changed same =
    elim (settle_by_tx_ref-confirmed env now txn tx_ref before) [
      | inl unmoved ↦ absurd (changed unmoved)
      | inr c ↦
          settled_again env' now' txn' tx_ref later (mark_credited now c.payment)
            (rw (same, c.rows)
              (find_where-update_row (λ (p : Payment). p.id) (λ p. p.chapa_tx_ref == tx_ref)
                (mark_credited now) before.payments c.payment (λ p. refl) c.known
                (unique c.payment c.known)))
            refl
    ]
