-- ===== src/Payouts/Amounts.antt =====
-- Settling and refunding (apps/api/src/payouts/payouts.service.ts) leave the amount of every payout
-- as it is: they keep whatever does not depend on the rest.
use alkeva.Common.{
  ℕ, ◌≡◌, refl, Bool, true, false, inl, inr, Option, none, some, List, all, Bool-cases,
  if◌then◌else◌, ◌∷◌, [],
}
use alkeva.Common.Table.{find_row, update_row, claim_row-eq-some}
use alkeva.Assets.{etb, payout_hold, external}
use alkeva.Codes.{Code, payout_not_found, chapa_refused}
use alkeva.Schema.{
  Db, AccountId, Payout, PayoutStatus, LedgerTransaction, LedgerEntry, AuditLog, Notice,
  user_account, system_account,
}
use alkeva.Request.{Action, pure, or_raise, modify, transaction, ◌>>=◌, ◌>>◌}
use alkeva.Request.Keeps.{Keeps, Keeps-bind, Keeps-transaction}
use alkeva.Ledger.{
  PostTxnSpec, has_account, system_account_id, ensure_user_account, lock_and_read_balances,
  post_transaction, posted,
}
use alkeva.Ledger.Accounts.{system_account_id-Keeps, ensure_user_account-Keeps}
use alkeva.Ledger.Post.{post_transaction-cases}
use alkeva.Orders.Settle.{notify}
use alkeva.Payouts.{
  claim_status, is_in_flight, mark_settled, mark_rejected, post_move, audit_settled,
  post_settlement, finish_settlement, settle_tx, settle_ledger, give_back, post_refund,
  finish_refund, refund_tx, refund_peeked, refund_if_status,
}
use alkeva.Payouts.Transfer.{
  TransferEnv, told, refund_and_reject, Verdict, paid, unpaid, unclear, found_again, act_on,
  verdict_on, resolve_reference, resolve_by_verify,
}
use alkeva.Payouts.Transfers.{found_again-Keeps}

-- A property of the database that asks for the payouts alone, and of them for ids and amounts.
pub record IsOfAmounts (P : Db → Type 0) : Type 0 where
  pub accounts_free : (db : Db) (rows : List AccountId) → P db → P (record db { accounts = rows })
  pub books_free :
      (db : Db) (ts : List LedgerTransaction) (es : List LedgerEntry)
      → P db
      → P (record db { transactions = ts; entries = es })
  pub notes_free :
      (db : Db) (ls : List AuditLog) (ns : List Notice)
      → P db
      → P (record db { audit_logs = ls; notices = ns })
  pub marks_free :
      (db : Db) (id : ℕ) (f : Payout → Payout)
      → ((p : Payout) → ((f p).id ≡ p.id) × ((f p).amount_cents ≡ p.amount_cents))
      → P db
      → P (record db { payouts = update_row (λ (p : Payout). p.id) id f db.payouts })

module _ (P : Db → Type 0) (free : IsOfAmounts P) where
  lock-Keeps : (ids : List AccountId) → Keeps P (lock_and_read_balances ids)
  unfolding lock_and_read_balances
  lock-Keeps ids db h = elim (Bool-cases (all (λ a. has_account a db.accounts) ids)) [
    | inl there ↦ rw there h
    | inr missing ↦ rw missing h
  ]

  post-Keeps : (txn : ℕ) (spec : PostTxnSpec) → Keeps P (post_transaction txn spec)
  unfolding posted
  post-Keeps txn spec db h = elim (post_transaction-cases txn spec db) [
    | inl (e, refused) ↦ rw refused h
    | inr (done, zero) ↦ rw done (written h)
  ]
    where
      written : P db → P (posted txn spec db)
      written p = free.books_free db _ _ p

  claimed :
      (id : ℕ) (from : PayoutStatus → Bool) (f : Payout → Payout) (db : Db) (u : Payout)
      (rows : List Payout)
      → ((p : Payout) → ((f p).id ≡ p.id) × ((f p).amount_cents ≡ p.amount_cents))
      → claim_status id from f db ≡ some (u, rows)
      → P db
      → P (record db { payouts = rows })
  claimed id from f db u rows same e h =
      let (r, _, _, _, updated) =
        claim_row-eq-some (λ (p : Payout). p.id) id (λ p. from p.status) f db.payouts e in
      rw updated (free.marks_free db id f same h)

  settle_tx-Keeps :
      (now txn : ℕ) (actor : Option ℕ) (payout : Payout) → Keeps P (settle_tx now txn actor payout)
  unfolding settle_tx finish_settlement post_settlement
  settle_tx-Keeps now txn actor payout db h =
      go (claim_status payout.id is_in_flight (mark_settled now) db) refl
    where
      go :
          (o : Option (Payout × List Payout))
          → claim_status payout.id is_in_flight (mark_settled now) db ≡ o
          → P (finish_settlement txn actor payout o db).1
      go none e = h
      go (some (u, rows)) e =
          Keeps-bind P
            (lock_and_read_balances (system_account payout_hold ∷ system_account external ∷ []))
            (post_settlement txn actor payout) (lock-Keeps _)
            (λ b.
              Keeps-bind P
                (post_move txn actor payout.id (system_account payout_hold)
                  (system_account external) payout.amount_cents)
                (audit_settled actor payout.id) (post-Keeps txn _)
                (λ id d p. free.notes_free d _ d.notices p))
            (record db { payouts = rows })
            (claimed payout.id is_in_flight (mark_settled now) db u rows (λ p. (refl, refl)) e h)

  settle_ledger-Keeps :
      (now txn : ℕ) (actor : Option ℕ) (payout : Payout)
      → Keeps P (settle_ledger now txn actor payout)
  unfolding settle_ledger
  settle_ledger-Keeps now txn actor payout =
      Keeps-bind P (system_account_id payout_hold) (λ _. escrowed)
        (system_account_id-Keeps P free.accounts_free payout_hold)
        (λ _.
          Keeps-bind P (system_account_id external) (λ _. moved)
            (system_account_id-Keeps P free.accounts_free external)
            (λ _.
              Keeps-bind P (transaction (settle_tx now txn actor payout)) announce
                (Keeps-transaction P _ (settle_tx-Keeps now txn actor payout)) announced))
    where
      announce : Bool → Action (Unit {0})
      announce settled =
          if settled then modify (notify (some payout.user_id) "payout_settled") else pure tt

      moved : Action (Unit {0})
      moved = transaction (settle_tx now txn actor payout) >>= announce

      escrowed : Action (Unit {0})
      escrowed = system_account_id external >>= λ _. moved

      announced : (b : Bool) → Keeps P (announce b)
      announced true d p = free.notes_free d d.audit_logs _ p
      announced false d p = p

  refund_tx-Keeps :
      (txn : ℕ) (actor : Option ℕ) (from : PayoutStatus → Bool) (reason : Code) (peek : Payout)
      → Keeps P (refund_tx txn actor from reason peek)
  unfolding refund_tx finish_refund post_refund
  refund_tx-Keeps txn actor from reason peek db h =
      go (claim_status peek.id from (mark_rejected reason) db) refl
    where
      go :
          (o : Option (Payout × List Payout))
          → claim_status peek.id from (mark_rejected reason) db ≡ o
          → P (finish_refund txn actor peek o db).1
      go none e = h
      go (some (u, rows)) e =
          Keeps-bind P
            (lock_and_read_balances
              (system_account payout_hold ∷ user_account peek.user_id etb ∷ []))
            (post_refund txn actor peek.user_id u) (lock-Keeps _)
            (λ b.
              Keeps-bind P
                (post_move txn actor u.id (system_account payout_hold)
                  (user_account peek.user_id etb) u.amount_cents)
                (give_back u) (post-Keeps txn _) (λ id d p. p))
            (record db { payouts = rows })
            (claimed peek.id from (mark_rejected reason) db u rows (λ p. (refl, refl)) e h)

  refund_peeked-Keeps :
      (txn : ℕ) (actor : Option ℕ) (from : PayoutStatus → Bool) (reason : Code) (peek : Payout)
      → Keeps P (refund_peeked txn actor from reason peek)
  unfolding refund_peeked
  refund_peeked-Keeps txn actor from reason peek =
      Keeps-bind P (system_account_id payout_hold)
        (λ _.
          ensure_user_account peek.user_id etb
          >> transaction (refund_tx txn actor from reason peek))
        (system_account_id-Keeps P free.accounts_free payout_hold)
        (λ _.
          Keeps-bind P (ensure_user_account peek.user_id etb)
            (λ _. transaction (refund_tx txn actor from reason peek))
            (ensure_user_account-Keeps P free.accounts_free peek.user_id etb)
            (λ _. Keeps-transaction P _ (refund_tx-Keeps txn actor from reason peek)))

  refund_if_status-Keeps :
      (txn id : ℕ) (from : PayoutStatus → Bool) (reason : Code) (actor : Option ℕ)
      → Keeps P (refund_if_status txn id from reason actor)
  unfolding refund_if_status
  refund_if_status-Keeps txn id from reason actor db =
      go (find_row (λ (p : Payout). p.id) id db.payouts) db
    where
      go :
          (rows : Option Payout)
          → Keeps P (or_raise rows payout_not_found >>= refund_peeked txn actor from reason)
      go none d h = h
      go (some peek) d h = refund_peeked-Keeps txn actor from reason peek d h

  -- Asking the provider keeps whatever depends on the ids and the amounts of the payouts alone.
  pub resolve_by_verify-Keeps :
      (env : TransferEnv) (now txn : ℕ) (actor : Option ℕ) (payout : Payout)
      → Keeps P (resolve_by_verify env now txn actor payout)
  unfolding resolve_by_verify refund_and_reject
  resolve_by_verify-Keeps env now txn actor payout = go payout.chapa_transfer_ref
    where
      told-Keeps : (rejected : Option Payout) → Keeps P (told rejected actor)
      told-Keeps none d h = h
      told-Keeps (some r) d h = free.notes_free d _ _ h

      refused-Keeps : Keeps P (refund_and_reject txn payout.id actor)
      refused-Keeps =
          Keeps-bind P (refund_if_status txn payout.id is_in_flight chapa_refused actor)
            (λ rejected. told rejected actor)
            (refund_if_status-Keeps txn payout.id is_in_flight chapa_refused actor) told-Keeps

      acted : (v : Verdict) → Keeps P (act_on now txn actor payout v)
      acted unclear = λ d h. h
      acted paid =
          Keeps-bind P (settle_ledger now txn actor payout) (λ _. found_again payout.id)
            (settle_ledger-Keeps now txn actor payout) (λ _. found_again-Keeps P payout.id)
      acted unpaid =
          Keeps-bind P (refund_and_reject txn payout.id actor) (λ _. found_again payout.id)
            refused-Keeps (λ _. found_again-Keeps P payout.id)

      go : (r : Option ℕ) → Keeps P (resolve_reference env now txn actor payout r)
      go none = λ d h. h
      go (some r) = acted (verdict_on env r)
