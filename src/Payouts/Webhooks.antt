-- ===== src/Payouts/Webhooks.antt =====
-- The webhook, the refusal and the unclear answers of apps/api/src/payouts/payouts.service.ts.
use alkeva.Common.{
  ℕ, String, ◌≡◌, refl, sym, ap, ◌∙◌, Bool, true, false, ◌&&◌, Option, none, some, List,
  if◌then◌else◌, arith,
}
use mathlib.Core.Path.{subst}
use text.Mathlib.Text.{starts_with, ◌==◌ as str_eq}
use alkeva.Common.Table.{find_where, claim_row-eq-some, find_row-update_row_self, find_row-key}
use alkeva.Codes.{payout_not_pending, rejected_by_finance}
use alkeva.Schema.{Db, Payout, PayoutStatus}
use alkeva.Request.{Result, ok, err, pure, gets, or_raise, modify, ◌>>=◌}
use alkeva.Request.Keeps.{Keeps, Keeps-bind, Keeps-bind_at, Keeps-or_raise, AllOk}
use alkeva.Ledger.{assert_can_move_money}
use alkeva.Ledger.Accounts.{assert_can_move_money-Keeps}
use alkeva.Treasury.{audit}
use alkeva.Books.{IsSound, is_held_payout}
use alkeva.Chapa.{Envelope, CallResult, unconfigured, threw, api_error, answered, request_raw}
use alkeva.Payouts.{claim_status, is_requested, is_in_flight, refund_if_status}
use alkeva.Payouts.Requests.{IsAmountOf, refund_if_status-Sound}
use alkeva.Payouts.Transfer.{
  TransferEnv, find_payout, resolve_by_verify, mark_processing, after_transfer, send,
  execute_transfer, tell_rejected, reject, note_event, transfer_event, has_reference,
  handle_transfer_event,
}
use alkeva.Payouts.Transfers.{resolve_by_verify-Sound}

pub reject-Sound :
    (txn payout_id actor_id : ℕ) (db : Db)
    → IsSound db
    → IsSound (reject txn payout_id actor_id db).1
unfolding reject
reject-Sound txn payout_id actor_id =
    Keeps-bind IsSound
      (refund_if_status txn payout_id is_requested rejected_by_finance (some actor_id))
      (λ rejected. or_raise rejected payout_not_pending >>= tell_rejected actor_id)
      (λ db s.
        refund_if_status-Sound txn payout_id is_requested rejected_by_finance (some actor_id) db
          requested_held s)
      (λ rejected.
        Keeps-bind IsSound (or_raise rejected payout_not_pending) (tell_rejected actor_id)
          (Keeps-or_raise IsSound rejected payout_not_pending) (λ row db s. s))
  where
    requested_held : (st : PayoutStatus) → is_requested st ≡ true → is_held_payout st ≡ true
    requested_held st h = ground arith

-- If the books are sound, and the payout that is found under the reference has the amount of the row
-- of its id, the books are sound after a transfer webhook, whatever its event and the provider say.
pub handle_transfer_event-Sound :
    (env : TransferEnv) (now txn reference : ℕ) (event : String) (db : Db)
    → IsSound db
    → ((p : Payout) → find_where (has_reference reference) db.payouts ≡ some p → IsAmountOf p db)
    → IsSound (handle_transfer_event env now txn reference event db).1
unfolding handle_transfer_event
handle_transfer_event-Sound env now txn reference event db s amounts =
    go (find_where (has_reference reference) db.payouts) refl
  where
    noted : (payout : Payout) (r : Option Payout) → Keeps IsSound (note_event event payout r)
    noted payout (some r) db s = s
    noted payout none db s = silent (str_eq event "payout.success")
      where
        silent :
            (c : Bool)
            → IsSound
                ((if c
                    then pure tt
                    else modify (audit none "payout_webhook_unconfirmed" (some payout.id)))
                  db).1
        silent true = s
        silent false = s

    go :
        (rows : Option Payout)
        → find_where (has_reference reference) db.payouts ≡ rows
        → IsSound (transfer_event env now txn event rows db).1
    go none e = s
    go (some payout) e = checked (is_in_flight payout.status && starts_with event "payout.")
      where
        checked :
            (c : Bool)
            → IsSound
                ((if c
                    then resolve_by_verify env now txn none payout >>= note_event event payout
                    else pure tt)
                  db).1
        checked true =
            Keeps-bind_at IsSound (resolve_by_verify env now txn none payout)
              (note_event event payout) db
              (resolve_by_verify-Sound env now txn none payout db s (amounts payout e))
              (noted payout)
        checked false = s

-- The answer to a transfer that is neither a success nor a definitive refusal.
abbrev pub IsAmbiguous : CallResult (Envelope String) → Type 0
IsAmbiguous (answered envelope) = ⊥
IsAmbiguous (api_error status true) = ⊥
IsAmbiguous _ = Unit

module _ (env : TransferEnv) (now txn : ℕ) (actor : Option ℕ) where
  -- Nothing has moved, and a transfer that was started is on its way.
  abbrev pub Waiting : Payout → Db → Result Payout × Db → Type 0
  Waiting payout before r =
      (r.1.entries ≡ before.entries)
      × AllOk
          (λ (p : Payout) d.
            (p.status ≡ PayoutStatus.processing) × (find_payout payout.id d ≡ some p))
          r

  after-Waiting :
      (payout u : Payout) (before d : Db) (reply : CallResult (Envelope String))
      → IsAmbiguous reply
      → d.entries ≡ before.entries
      → u.status ≡ PayoutStatus.processing
      → find_payout payout.id d ≡ some u
      → Waiting payout before (after_transfer env now txn actor u reply d)
  after-Waiting payout u before d (answered envelope) none_left h st found = absurd none_left
  after-Waiting payout u before d (api_error status true) none_left h st found = absurd none_left
  after-Waiting payout u before d (api_error status false) unclear_answer h st found =
      (h, (st, found))
  after-Waiting payout u before d threw unclear_answer h st found = (h, (st, found))
  after-Waiting payout u before d unconfigured unclear_answer h st found = (h, (st, found))

  -- If the answer to the transfer is unclear, then a transfer that is tried moves nothing in the
  -- ledger: the payout is not started at all, or it waits as processing, with its money still held.
  pub execute_transfer-ambiguous :
      (action : String) (payout : Payout) (before : Db)
      → IsAmbiguous (request_raw env.chapa (env.transfer_reply payout.id))
      → Waiting payout before (execute_transfer env now txn actor action payout before)
  unfolding execute_transfer
  execute_transfer-ambiguous action payout before unclear_answer =
      allowed (assert_can_move_money payout.user_id before)
        (assert_can_move_money-Keeps (λ d. d.entries ≡ before.entries) payout.user_id before refl)
    where
      claim : Db → Option (Payout × List Payout)
      claim d = claim_status payout.id is_requested (mark_processing actor) d

      sent :
          (d : Db)
          → d.entries ≡ before.entries
          → (o : Option (Payout × List Payout))
          → claim_status payout.id is_requested (mark_processing actor) d ≡ o
          → Waiting payout before (send env now txn actor action o d)
      sent d h none e = (h, tt)
      sent d h (some (u, rows)) e =
          let (r, found, open_row, eu, er) =
            claim_row-eq-some (λ (p : Payout). p.id) payout.id (λ p. is_requested p.status)
              (mark_processing actor) d.payouts e in
          let kept =
            find_row-update_row_self (λ (p : Payout). p.id) payout.id (mark_processing actor)
              d.payouts r found refl in
          let key = find_row-key (λ (p : Payout). p.id) payout.id d.payouts r found in
          after-Waiting payout u before _ (request_raw env.chapa (env.transfer_reply u.id))
            (subst (λ k. IsAmbiguous (request_raw env.chapa (env.transfer_reply k)))
              (sym (ap (λ (p : Payout). p.id) eu ∙ key)) unclear_answer)
            h (ap (λ (p : Payout). p.status) eu) (rw (er, eu) kept)

      allowed :
          (r : Result (Unit {0}) × Db)
          → r.1.entries ≡ before.entries
          → Waiting payout before (
              ◌>>=◌
                (λ _. r)
                (λ _.
                  gets (claim_status payout.id is_requested (mark_processing actor))
                  >>= send env now txn actor action)
                before)
      allowed (err e, d) h = (h, tt)
      allowed (ok a, d) h = sent d h (claim d) refl
