-- ===== src/Payouts/Transfers.antt =====
-- What the transfers of apps/api/src/payouts/payouts.service.ts do to the books.
use alkeva.Common.{
  ℕ, String, ◌≡◌, refl, sym, ap, ◌∙◌, true, false, not, Option, none, some, List, ◌==◌, arith,
}
use alkeva.Common.Table.{
  find_row, update_row, claim_row-eq-some, sum_by, sum_by-update_row, find_row-update_row_self,
  find_row-key,
}
use alkeva.Common.Int.{pos}
use alkeva.Codes.{payout_not_found, cannot_approve_own, chapa_unconfigured, chapa_refused}
use alkeva.Schema.{Db, Payout, PayoutStatus}
use alkeva.Request.{Action, pure, gets, raise_if, ◌>>=◌, ◌>>◌}
use alkeva.Request.Keeps.{Keeps, Keeps-bind, Keeps-bind_at, Keeps-or_raise, Keeps-raise_if}
use alkeva.Ledger.{assert_can_move_money}
use alkeva.Ledger.Accounts.{assert_can_move_money-Keeps}
use alkeva.Books.{IsSound, held_cents, is_held_payout}
use alkeva.Chapa.{
  configured, Envelope, CallResult, unconfigured, threw, api_error, answered, request_raw,
}
use alkeva.Payouts.{claim_status, is_requested, is_in_flight, settle_ledger, refund_if_status}
use alkeva.Payouts.Requests.{IsAmountOf, settle_ledger-Sound, refund_if_status-Sound}
use alkeva.Payouts.Transfer.{
  TransferEnv, find_payout, must_get, told, refund_and_reject, Verdict, paid, unpaid, unclear,
  found_again, act_on, verdict_on, resolve_reference, resolve_by_verify, mark_processing,
  set_payouts, pending_or_told, after_transfer, send, execute_transfer, approve,
}

pub must_get-Keeps : (P : Db → Type 0) (id : ℕ) → Keeps P (must_get id)
unfolding must_get
must_get-Keeps P id db h = Keeps-or_raise P (find_payout id db) payout_not_found db h

pub found_again-Keeps : (P : Db → Type 0) (id : ℕ) → Keeps P (found_again id)
found_again-Keeps P id =
    Keeps-bind P (must_get id) (λ p. pure (some p)) (must_get-Keeps P id) (λ p db h. h)

in_flight_held : (st : PayoutStatus) → is_in_flight st ≡ true → is_held_payout st ≡ true
in_flight_held st h = ground arith

refund_and_reject-Sound :
    (txn id : ℕ) (actor : Option ℕ) → Keeps IsSound (refund_and_reject txn id actor)
unfolding refund_and_reject
refund_and_reject-Sound txn id actor =
    Keeps-bind IsSound (refund_if_status txn id is_in_flight chapa_refused actor)
      (λ rejected. told rejected actor)
      (λ db s. refund_if_status-Sound txn id is_in_flight chapa_refused actor db in_flight_held s)
      after
  where
    after : (rejected : Option Payout) → Keeps IsSound (told rejected actor)
    after none db s = s
    after (some r) db s = s

pub resolve_by_verify-Sound :
    (env : TransferEnv) (now txn : ℕ) (actor : Option ℕ) (payout : Payout) (db : Db)
    → IsSound db
    → IsAmountOf payout db
    → IsSound (resolve_by_verify env now txn actor payout db).1
unfolding resolve_by_verify
resolve_by_verify-Sound env now txn actor payout db s amount = go payout.chapa_transfer_ref
  where
    acted : (v : Verdict) → IsSound (act_on now txn actor payout v db).1
    acted unclear = s
    acted paid =
        Keeps-bind_at IsSound (settle_ledger now txn actor payout) (λ _. found_again payout.id) db
          (settle_ledger-Sound now txn actor payout db s amount)
          (λ _. found_again-Keeps IsSound payout.id)
    acted unpaid =
        Keeps-bind_at IsSound (refund_and_reject txn payout.id actor) (λ _. found_again payout.id)
          db (refund_and_reject-Sound txn payout.id actor db s)
          (λ _. found_again-Keeps IsSound payout.id)

    go :
        (reference : Option ℕ) → IsSound (resolve_reference env now txn actor payout reference db).1
    go none = s
    go (some r) = acted (verdict_on env r)

module _ (env : TransferEnv) (now txn : ℕ) (actor : Option ℕ) where
  after_transfer-Sound :
      (processing : Payout) (reply : CallResult (Envelope String)) (db : Db)
      → IsSound db
      → IsAmountOf processing db
      → IsSound (after_transfer env now txn actor processing reply db).1
  after_transfer-Sound p (answered envelope) db s amount =
      Keeps-bind_at IsSound (resolve_by_verify env now txn actor p) (pending_or_told p) db
        (resolve_by_verify-Sound env now txn actor p db s amount) after
    where
      after : (r : Option Payout) → Keeps IsSound (pending_or_told p r)
      after none db s = s
      after (some r) db s = s
  after_transfer-Sound p (api_error status true) db s amount =
      Keeps-bind_at IsSound (refund_and_reject txn p.id actor) (λ _. must_get p.id) db
        (refund_and_reject-Sound txn p.id actor db s) (λ _. must_get-Keeps IsSound p.id)
  after_transfer-Sound p (api_error status false) db s amount = s
  after_transfer-Sound p threw db s amount = s
  after_transfer-Sound p unconfigured db s amount = s

  -- A claimed payout is held as before, and its row has the amount of the copy.
  claimed :
      (payout : Payout) (db : Db) (u : Payout) (rows : List Payout)
      → claim_status payout.id is_requested (mark_processing actor) db ≡ some (u, rows)
      → IsSound db
      → IsSound (set_payouts rows db) × IsAmountOf u (set_payouts rows db)
  claimed payout db u rows e s =
      let (r, found, open_row, eu, er) =
        claim_row-eq-some (λ (p : Payout). p.id) payout.id (λ p. is_requested p.status)
          (mark_processing actor) db.payouts e in
      rw (eu, er) (at_row r found open_row)
    where
      requested_held : (st : PayoutStatus) → is_requested st ≡ true → is_held_payout st ≡ true
      requested_held st h = ground arith

      amount_is : {p q : Payout} → some p ≡ some q → q.amount_cents ≡ p.amount_cents
      amount_is e = cc

      total :
          (r : Payout)
          → find_payout payout.id db ≡ some r
          → is_held_payout r.status ≡ true
          → sum_by held_cents db.payouts
            ≡ sum_by held_cents
                (update_row (λ (p : Payout). p.id) payout.id (mark_processing actor) db.payouts)
      total r found held = ground (
        arith,
        sum_by-update_row (λ (p : Payout). p.id) held_cents payout.id (mark_processing actor)
            db.payouts r found,
      )

      at_row :
          (r : Payout)
          → find_payout payout.id db ≡ some r
          → is_requested r.status ≡ true
          → let after =
              set_payouts
                (update_row (λ (p : Payout). p.id) payout.id (mark_processing actor) db.payouts)
                db in
            IsSound after × IsAmountOf (mark_processing actor r) after
      at_row r found open_row =
          let rows' =
            update_row (λ (p : Payout). p.id) payout.id (mark_processing actor) db.payouts in
          let kept =
            find_row-update_row_self (λ (p : Payout). p.id) payout.id (mark_processing actor)
              db.payouts r found refl in
          let key = find_row-key (λ (p : Payout). p.id) payout.id db.payouts r found in
          (
            record {
              solvent = s.solvent;
              reserved = s.reserved;
              zero_sum = s.zero_sum;
              payout_escrow =
                  s.payout_escrow ∙ ap pos (total r found (requested_held r.status open_row));
              delivery_escrow = s.delivery_escrow;
            },
            λ q again.
                amount_is (
                  sym kept ∙ (ap (λ k. find_row (λ (p : Payout). p.id) k rows') (sym key) ∙ again)),
          )

  -- If the books are sound, they are sound after a transfer has been tried, whatever the provider
  -- answers to the transfer and when it is asked about it.
  pub execute_transfer-Sound :
      (action : String) (payout : Payout)
      → Keeps IsSound (execute_transfer env now txn actor action payout)
  unfolding execute_transfer
  execute_transfer-Sound action payout =
      Keeps-bind IsSound (assert_can_move_money payout.user_id)
        (λ _.
          gets (claim_status payout.id is_requested (mark_processing actor))
          >>= send env now txn actor action)
        (assert_can_move_money-Keeps IsSound payout.user_id)
        (λ _ db s. go db s (claim_status payout.id is_requested (mark_processing actor) db) refl)
    where
      go :
          (db : Db)
          → IsSound db
          → (o : Option (Payout × List Payout))
          → claim_status payout.id is_requested (mark_processing actor) db ≡ o
          → IsSound (send env now txn actor action o db).1
      go db s none e = s
      go db s (some (u, rows)) e =
          let (sound, amount) = claimed payout db u rows e s in
          after_transfer-Sound u (request_raw env.chapa (env.transfer_reply u.id)) _ sound amount

-- If the books are sound, they are sound after an approval, whether it is refused, sends the money or
-- gives it back.
pub approve-Sound :
    (env : TransferEnv) (now txn payout_id actor_id : ℕ) (db : Db)
    → IsSound db
    → IsSound (approve env now txn payout_id actor_id db).1
unfolding approve
approve-Sound env now txn payout_id actor_id =
    Keeps-raise_if IsSound (not (configured env.chapa)) chapa_unconfigured
      (must_get payout_id >>= judged)
      (Keeps-bind IsSound (must_get payout_id) judged (must_get-Keeps IsSound payout_id) (λ payout.
        Keeps-raise_if IsSound (payout.user_id == actor_id) cannot_approve_own
          (execute_transfer env now txn (some actor_id) "payout_approved" payout)
          (execute_transfer-Sound env now txn (some actor_id) "payout_approved" payout)))
  where
    judged : Payout → Action Payout
    judged payout =
        raise_if (payout.user_id == actor_id) cannot_approve_own
        >> execute_transfer env now txn (some actor_id) "payout_approved" payout
