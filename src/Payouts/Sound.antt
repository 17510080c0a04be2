-- ===== src/Payouts/Sound.antt =====
-- The transaction that asks for a payout (apps/api/src/payouts/payouts.service.ts) keeps the books
-- sound.
use alkeva.Payouts.Escrow.{held-Sound}
use alkeva.Common.Int.{ltb_ℤ→ge}
use alkeva.Common.{
  ℕ, ◌+◌, ◌≡◌, refl, Bool, true, false, Option, none, some, List, [], ◌∷◌, ◌==◌, ◌||◌, any, arith,
  if◌then◌else◌,
}
use alkeva.Common.Int.{ℤ, pos, ◌≤ℤ◌, ltb_ℤ}
use alkeva.Common.Table.{update_row-head, sum_by}
use alkeva.Assets.{etb, payout_hold}
use alkeva.Codes.{Code}
use alkeva.Schema.{
  Db, Payout, PayoutStatus, AccountId, user_account, system_account, VaultHolding, DeliveryRequest,
  LedgerEntry,
}
use alkeva.Request.{pure, modify, ◌>>=◌, ◌>>◌}
use alkeva.Request.Keeps.{AllOk, bind-AllOk}
use alkeva.Ledger.{balance, balances_of, lock_and_read_balances, posted}
use alkeva.Ledger.Post.{post_transaction-AllOk}
use alkeva.Ledger.Reads.{account_eq_refl, balances_of_locked, lock_and_read_balances-AllOk}
use alkeva.Books.{Sound, IsSound, held_cents, is_held_payout}
use alkeva.Orders.Queries.{key_eq}
use alkeva.Payouts.{
  PayoutsEnv, claim_payout, add_payout, finish_request, judge_request, run_request, request_tx,
  refusal_of, audit_held, post_move, mark_rejected,
}

refusal_of-none :
    (env : PayoutsEnv) (now : ℕ) (row : Payout) (balances : AccountId → ℤ) (db : Db)
    → refusal_of env now row balances db ≡ none
    → pos row.amount_cents ≤ℤ balances (user_account row.user_id etb)
refusal_of-none env now row balances db h =
    ltb_ℤ→ge (balances (user_account row.user_id etb)) (pos row.amount_cents)
      (go (ltb_ℤ (balances (user_account row.user_id etb)) (pos row.amount_cents)) _ _ h)
  where
    go :
        (poor : Bool) (c : Code) (o : Option Code)
        → (if poor then some c else o) ≡ none
        → poor ≡ false
    go true c o e = cc
    go false c o e = refl

-- A change of the payouts that leaves what is held as it was.
same_held-Sound :
    {entries : List LedgerEntry} {vs : List VaultHolding} {ps : List Payout}
    {ds : List DeliveryRequest}
    → Sound entries vs ps ds
    → (ps' : List Payout) → sum_by held_cents ps' ≡ sum_by held_cents ps
    → Sound entries vs ps' ds
same_held-Sound s ps' e = record {
  solvent = s.solvent;
  reserved = s.reserved;
  zero_sum = s.zero_sum;
  payout_escrow = rw e s.payout_escrow;
  delivery_escrow = s.delivery_escrow;
}

zero_plus : (n : ℕ) → 0 + n ≡ n
zero_plus n = omega arith

-- The decision on a request whose row is in the table and counted in no balance yet.
finish_request-AllOk :
    (txn : ℕ) (row : Payout) (refusal : Option Code) (db : Db)
    → IsSound db
    → row.status ≡ PayoutStatus.requested
    → (refusal ≡ none → pos row.amount_cents ≤ℤ balance (user_account row.user_id etb) db.entries)
    → AllOk (λ _. IsSound) (finish_request txn row refusal (add_payout row db))
unfolding finish_request posted
finish_request-AllOk txn row (some code) db s st enough =
    rw (update_row-head (λ (p : Payout). p.id) (mark_rejected code) row db.payouts) (
      same_held-Sound s (mark_rejected code row ∷ db.payouts)
        (zero_plus (sum_by held_cents db.payouts)))
finish_request-AllOk txn row none db s st enough =
    bind-AllOk (λ _. IsSound) (post_move txn _ row.id _ _ row.amount_cents) (audit_held row)
      (add_payout row db)
      (post_transaction-AllOk _ txn _ (add_payout row db) (λ moved.
        held-Sound {ps = db.payouts} s moved row.user_id row.amount_cents (row ∷ db.payouts) refl
          (enough refl) (counted row.status refl)))
  where
    counted :
        (status : PayoutStatus)
        → row.status ≡ status
        → row.amount_cents + sum_by held_cents db.payouts
          ≡ (if is_held_payout row.status then row.amount_cents else 0)
            + sum_by held_cents db.payouts
    counted status e = rw st refl

judge_request-AllOk :
    (env : PayoutsEnv) (now txn : ℕ) (row : Payout) (db : Db)
    → IsSound db
    → row.status ≡ PayoutStatus.requested
    → let ids = user_account row.user_id etb ∷ system_account payout_hold ∷ [] in
      AllOk
        (λ _. IsSound)
        (judge_request env now txn row (balances_of ids db.entries) (add_payout row db))
unfolding judge_request
judge_request-AllOk env now txn row db s st =
    finish_request-AllOk txn row (refusal_of env now row read (add_payout row db)) db s st (λ fine.
      rw (← balances_of_locked ids db.entries own (rw (account_eq_refl own) refl))
        (refusal_of-none env now row read (add_payout row db) fine))
  where
    own : AccountId
    own = user_account row.user_id etb

    ids : List AccountId
    ids = own ∷ system_account payout_hold ∷ []

    read : AccountId → ℤ
    read = balances_of ids db.entries

run_request-AllOk :
    (env : PayoutsEnv) (now txn : ℕ) (row : Payout) (db : Db)
    → IsSound db
    → row.status ≡ PayoutStatus.requested
    → AllOk (λ _. IsSound) (run_request env now txn row true (add_payout row db))
unfolding run_request
run_request-AllOk env now txn row db s st =
    bind-AllOk (λ _. IsSound) (lock_and_read_balances ids) (judge_request env now txn row)
      (add_payout row db)
      (lock_and_read_balances-AllOk _ ids (add_payout row db)
        (judge_request-AllOk env now txn row db s st))
  where
    ids : List AccountId
    ids = user_account row.user_id etb ∷ system_account payout_hold ∷ []

-- If the books are sound and the row to be inserted is in status requested, the books are sound
-- when the transaction of the request ends without an error: held, refused or replayed.
pub request_tx-AllOk :
    (env : PayoutsEnv) (now txn : ℕ) (row : Payout) (db : Db)
    → IsSound db
    → row.status ≡ PayoutStatus.requested
    → AllOk (λ _. IsSound) (request_tx env now txn row db)
unfolding request_tx claim_payout run_request
request_tx-AllOk env now txn row db s st =
    go (any (λ p. key_eq p.idempotency_key row.idempotency_key || p.id == row.id) db.payouts)
  where
    go :
        (taken : Bool)
        → AllOk
            (λ _. IsSound)
            (((λ d. (if taken then pure false else (modify (add_payout row) >> pure true)) d)
                >>= run_request env now txn row)
              db)
    go true = s
    go false = run_request-AllOk env now txn row db s st
