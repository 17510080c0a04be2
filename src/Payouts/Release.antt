-- ===== src/Payouts/Release.antt =====
-- Settling and refunding a payout (apps/api/src/payouts/payouts.service.ts) keep the books sound.
use alkeva.Common.{ℕ, ◌+◌, ◌≡◌, refl, Bool, true, false, Option, none, some, List, [], ◌∷◌, arith}
use alkeva.Common.Table.{find_row, update_row, claim_row-eq-some, sum_by, sum_by-update_row}
use alkeva.Assets.{MetalAsset, etb, xau, xpt, payout_hold, external, vault, delivery_hold}
use alkeva.Codes.{Code}
use alkeva.Schema.{Db, Payout, PayoutStatus, AccountId, user_account, system_account, account_eq}
use alkeva.Request.Keeps.{AllOk, bind-AllOk}
use alkeva.Ledger.{balances_of, lock_and_read_balances, posted}
use alkeva.Ledger.Post.{post_transaction-AllOk}
use alkeva.Ledger.Reads.{lock_and_read_balances-AllOk}
use alkeva.Books.{IsSound, held_cents, is_held_payout}
use alkeva.Payouts.{
  claim_status, is_in_flight, mark_settled, mark_rejected, post_move, audit_settled,
  post_settlement, finish_settlement, settle_tx, give_back, post_refund, finish_refund, refund_tx,
}
use alkeva.Payouts.Escrow.{released-Sound}

combine : (a b c d e : ℕ) → a + b ≡ c + d → b ≡ e → d ≡ 0 → a + e ≡ c
combine a b c d e h k z = omega arith

-- What a claim takes out of the sum of the held payouts.
claimed_total :
    (payout_id : ℕ) (from : PayoutStatus → Bool) (mark : Payout → Payout) (db : Db) (u : Payout)
    (rows : List Payout)
    → claim_status payout_id from mark db ≡ some (u, rows)
    → ((st : PayoutStatus) → from st ≡ true → is_held_payout st ≡ true)
    → ((p : Payout) → held_cents (mark p) ≡ 0)
    → (r : Payout) × (find_row (λ (p : Payout). p.id) payout_id db.payouts ≡ some r)
      × (u ≡ mark r)
      × (sum_by held_cents rows + r.amount_cents ≡ sum_by held_cents db.payouts)
claimed_total payout_id from mark db u rows e held gone =
    let (r, found, open_row, eu, er) =
      claim_row-eq-some (λ (p : Payout). p.id) payout_id (λ p. from p.status) mark db.payouts e in
    (r, found, eu, rw er (total r found (held r.status open_row)))
  where
    total :
        (r : Payout)
        → find_row (λ (p : Payout). p.id) payout_id db.payouts ≡ some r
        → is_held_payout r.status ≡ true
        → sum_by held_cents (update_row (λ (p : Payout). p.id) payout_id mark db.payouts)
            + r.amount_cents
          ≡ sum_by held_cents db.payouts
    total r found h =
        combine _ _ _ _ r.amount_cents
          (sum_by-update_row (λ (p : Payout). p.id) held_cents payout_id mark db.payouts r found)
          (counted h) (gone r)
      where
        counted : is_held_payout r.status ≡ true → held_cents r ≡ r.amount_cents
        counted e = rw e refl

abbrev pub hold : AccountId
hold = system_account payout_hold

-- Paying out: the held cents leave the platform.
settled-AllOk :
    (txn : ℕ) (actor : Option ℕ) (payout : Payout) (db : Db) (rows : List Payout)
    → IsSound db
    → sum_by held_cents rows + payout.amount_cents ≡ sum_by held_cents db.payouts
    → AllOk
        (λ _. IsSound)
        (post_settlement txn actor payout
          (balances_of (hold ∷ system_account external ∷ []) db.entries)
          (record db { payouts = rows }))
unfolding post_settlement posted
settled-AllOk txn actor payout db rows s total =
    bind-AllOk (λ _. IsSound)
      (post_move txn actor payout.id hold (system_account external) payout.amount_cents)
      (audit_settled actor payout.id) (record db { payouts = rows })
      (post_transaction-AllOk _ txn _ (record db { payouts = rows })
        (λ moved.
          released-Sound {ps = db.payouts} s moved (system_account external) payout.amount_cents
            rows refl refl not_vault not_delivery total))
  where
    not_vault :
        (k : MetalAsset) → account_eq (system_account external) (system_account (vault k)) ≡ false
    not_vault xau = refl
    not_vault xpt = refl

    not_delivery :
        (k : MetalAsset)
        → account_eq (system_account external) (system_account (delivery_hold k)) ≡ false
    not_delivery xau = refl
    not_delivery xpt = refl

-- Giving back: the held cents return to the customer.
refunded-AllOk :
    (txn user : ℕ) (actor : Option ℕ) (row : Payout) (db : Db) (rows : List Payout)
    → IsSound db
    → sum_by held_cents rows + row.amount_cents ≡ sum_by held_cents db.payouts
    → AllOk
        (λ _. IsSound)
        (post_refund txn actor user row
          (balances_of (hold ∷ user_account user etb ∷ []) db.entries)
          (record db { payouts = rows }))
unfolding post_refund posted
refunded-AllOk txn user actor row db rows s total =
    bind-AllOk (λ _. IsSound)
      (post_move txn actor row.id hold (user_account user etb) row.amount_cents) (give_back row)
      (record db { payouts = rows })
      (post_transaction-AllOk _ txn _ (record db { payouts = rows })
        (λ moved.
          released-Sound {ps = db.payouts} s moved (user_account user etb) row.amount_cents rows
            refl refl (λ k. refl) (λ k. refl) total))

pub in_flight_held : (st : PayoutStatus) → is_in_flight st ≡ true → is_held_payout st ≡ true
in_flight_held st h = ground arith

pub settle_tx-AllOk :
    (now txn : ℕ) (actor : Option ℕ) (payout : Payout) (db : Db)
    → IsSound db
    → ((r : Payout)
        → find_row (λ (p : Payout). p.id) payout.id db.payouts ≡ some r
        → r.amount_cents ≡ payout.amount_cents)
    → AllOk (λ _. IsSound) (settle_tx now txn actor payout db)
unfolding settle_tx finish_settlement
settle_tx-AllOk now txn actor payout db s same =
    go (claim_status payout.id is_in_flight (mark_settled now) db) refl
  where
    go :
        (claimed : Option (Payout × List Payout))
        → claim_status payout.id is_in_flight (mark_settled now) db ≡ claimed
        → AllOk (λ _. IsSound) (finish_settlement txn actor payout claimed db)
    go none e = s
    go (some (u, rows)) e =
        let (r, found, eu, total) =
          claimed_total payout.id is_in_flight (mark_settled now) db u rows e in_flight_held
            (λ p. refl) in
        bind-AllOk (λ _. IsSound) (lock_and_read_balances (hold ∷ system_account external ∷ []))
          (post_settlement txn actor payout) (record db { payouts = rows })
          (lock_and_read_balances-AllOk _ _ (record db { payouts = rows })
            (settled-AllOk txn actor payout db rows s (rw (← same r found) total)))

amount_of :
    (reason : Code) (db : Db) (rows : List Payout) (u r : Payout)
    → u ≡ mark_rejected reason r
    → sum_by held_cents rows + r.amount_cents ≡ sum_by held_cents db.payouts
    → sum_by held_cents rows + u.amount_cents ≡ sum_by held_cents db.payouts
amount_of reason db rows u r eu total = rw eu total

pub refund_tx-AllOk :
    (txn : ℕ) (actor : Option ℕ) (from : PayoutStatus → Bool) (reason : Code) (peek : Payout)
    (db : Db)
    → IsSound db
    → ((st : PayoutStatus) → from st ≡ true → is_held_payout st ≡ true)
    → AllOk (λ _. IsSound) (refund_tx txn actor from reason peek db)
unfolding refund_tx finish_refund
refund_tx-AllOk txn actor from reason peek db s held =
    go (claim_status peek.id from (mark_rejected reason) db) refl
  where
    go :
        (claimed : Option (Payout × List Payout))
        → claim_status peek.id from (mark_rejected reason) db ≡ claimed
        → AllOk (λ _. IsSound) (finish_refund txn actor peek claimed db)
    go none e = s
    go (some (u, rows)) e =
        let (r, found, eu, total) =
          claimed_total peek.id from (mark_rejected reason) db u rows e held (λ p. refl) in
        bind-AllOk (λ _. IsSound)
          (lock_and_read_balances (hold ∷ user_account peek.user_id etb ∷ []))
          (post_refund txn actor peek.user_id u) (record db { payouts = rows })
          (lock_and_read_balances-AllOk _ _ (record db { payouts = rows })
            (refunded-AllOk txn peek.user_id actor u db rows s
              (amount_of reason db rows u r eu total)))
