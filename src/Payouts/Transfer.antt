-- ===== src/Payouts/Transfer.antt =====
-- The transfer of a withdrawal in apps/api/src/payouts/payouts.service.ts: approval, the call of the
-- provider, what its answers lead to, and the webhook. The reference of a transfer is made from the
-- payout's id one to one, so the id stands for it.
use alkeva.Common.{
  ℕ, String, Bool, true, false, not, ◌&&◌, ◌||◌, Option, none, some, List, [], ◌∷◌, leb, ◌==◌, any,
  all, length, if◌then◌else◌,
}
use text.Mathlib.Text.{starts_with, ◌==◌ as str_eq}
use alkeva.Common.Table.{find_row, find_where}
use alkeva.Codes.{
  payout_not_found, payout_not_pending, cannot_approve_own, chapa_unconfigured, chapa_refused,
  rejected_by_finance,
}
use alkeva.Schema.{Db, Payout, PayoutStatus}
use alkeva.Request.{Action, pure, raise, gets, or_raise, raise_if, modify, ◌>>=◌, ◌>>◌}
use alkeva.Ledger.{assert_can_move_money}
use alkeva.Orders.Settle.{notify}
use alkeva.Treasury.{audit}
use alkeva.Chapa.{
  ChapaEnv, configured, test_mode, Reply, Envelope, CallResult, unconfigured, threw, api_error,
  answered, request_raw, verify,
}
use alkeva.Payouts.{
  claim_status, is_requested, is_in_flight, settle_ledger, refund_if_status, day_totals,
}

-- The provider's answers are functions of the reference; `name_tokens` splits a name into its
-- normalised parts, by the tables of Unicode.
pub record TransferEnv : Type 0 where
  pub chapa : ChapaEnv
  pub payout_min_cents : ℕ
  pub payout_auto_approve_max_cents : ℕ
  pub compliance_review_threshold_cents : ℕ
  pub transfer_reply : ℕ → Reply String
  pub verify_reply : ℕ → Reply String
  pub to_lower_case : String → String
  pub name_tokens : String → List String

abbrev pub find_payout : ℕ → Db → Option Payout
find_payout id db = find_row (λ (p : Payout). p.id) id db.payouts

-- `mustGet`
unfoldable pub must_get : ℕ → Action Payout
must_get id = do rows ← gets (find_payout id); or_raise rows payout_not_found

abbrev pub told : Option Payout → Option ℕ → Action (Unit {0})
told none actor = pure tt
told (some rejected) actor =
    modify (audit actor "payout_transfer_failed" (some rejected.id))
    >> modify (notify (some rejected.user_id) "payout_rejected")

-- `refundAndReject`
unfoldable pub refund_and_reject : ℕ → ℕ → Option ℕ → Action (Unit {0})
refund_and_reject txn_id payout_id actor = do
  rejected ← refund_if_status txn_id payout_id is_in_flight chapa_refused actor
  told rejected actor

-- What the provider says of a transfer, in lower case; an exception says nothing at all.
abbrev pub status_text : (String → String) → CallResult (Option String) → Option String
status_text to_lower_case (answered none) = some ""
status_text to_lower_case (answered (some status)) = some (to_lower_case status)
status_text to_lower_case _ = none

pub data Verdict : Type 0 where
  paid unpaid unclear : Verdict

-- The clear answers; with test keys the sandbox gives none, and its envelope counts as a success.
abbrev pub verdict_of : ChapaEnv → Option String → Verdict
verdict_of chapa none = unclear
verdict_of chapa (some status) =
    if str_eq status "success" || str_eq status "successful"
    then paid
    else if str_eq status "failed" || str_eq status "cancelled"
    then unpaid
    else if test_mode chapa && str_eq status ""
    then paid
    else unclear

abbrev pub found_again : ℕ → Action (Option Payout)
found_again payout_id = must_get payout_id >>= λ p. pure (some p)

abbrev pub act_on : ℕ → ℕ → Option ℕ → Payout → Verdict → Action (Option Payout)
act_on now txn_id actor payout unclear = pure none
act_on now txn_id actor payout paid = settle_ledger now txn_id actor payout >> found_again payout.id
act_on now txn_id actor payout unpaid =
    refund_and_reject txn_id payout.id actor >> found_again payout.id

abbrev pub verdict_on : TransferEnv → ℕ → Verdict
verdict_on env reference =
    verdict_of env.chapa
      (status_text env.to_lower_case (verify env.chapa (env.verify_reply reference)))

abbrev pub resolve_reference :
    TransferEnv → ℕ → ℕ → Option ℕ → Payout → Option ℕ → Action (Option Payout)
resolve_reference env now txn_id actor payout none = pure none
resolve_reference env now txn_id actor payout (some reference) =
    act_on now txn_id actor payout (verdict_on env reference)

-- `resolveByVerify`: the payout as it is afterwards, if the answer was clear.
unfoldable pub resolve_by_verify : TransferEnv → ℕ → ℕ → Option ℕ → Payout → Action (Option Payout)
resolve_by_verify env now txn_id actor payout =
    resolve_reference env now txn_id actor payout payout.chapa_transfer_ref

abbrev pub mark_processing : Option ℕ → Payout → Payout
mark_processing actor p = record p {
  status = PayoutStatus.processing;
  approved_by = actor;
  chapa_transfer_ref = some p.id;
}

abbrev pub set_payouts : List Payout → Db → Db
set_payouts rows db = record db { payouts = rows }

abbrev pub pending_or_told : Payout → Option Payout → Action Payout
pending_or_told processing (some resolved) = pure resolved
pending_or_told processing none =
    modify (notify (some processing.user_id) "payout_approved") >> pure processing

abbrev pub ambiguous : Option ℕ → Payout → Action Payout
ambiguous actor processing =
    modify (audit actor "payout_transfer_ambiguous" (some processing.id)) >> pure processing

-- How the call of the transfer ends: taken, definitely refused, or it may have been queued.
abbrev pub after_transfer :
    TransferEnv → ℕ → ℕ → Option ℕ → Payout → CallResult (Envelope String) → Action Payout
after_transfer env now txn_id actor processing (answered envelope) =
    resolve_by_verify env now txn_id actor processing >>= pending_or_told processing
after_transfer env now txn_id actor processing (api_error status true) =
    refund_and_reject txn_id processing.id actor >> must_get processing.id
after_transfer env now txn_id actor processing (api_error status false) = ambiguous actor processing
after_transfer env now txn_id actor processing threw = ambiguous actor processing
after_transfer env now txn_id actor processing unconfigured = ambiguous actor processing

abbrev pub send :
    TransferEnv → ℕ → ℕ → Option ℕ → String → Option (Payout × List Payout) → Action Payout
send env now txn_id actor action none = raise payout_not_pending
send env now txn_id actor action (some (processing, rows)) =
    modify (set_payouts rows)
    >> (modify (audit actor action (some processing.id))
        >> after_transfer env now txn_id actor processing
            (request_raw env.chapa (env.transfer_reply processing.id)))

-- `executeTransfer`
unfoldable pub execute_transfer : TransferEnv → ℕ → ℕ → Option ℕ → String → Payout → Action Payout
execute_transfer env now txn_id actor action payout = do
  assert_can_move_money payout.user_id
  claimed ← gets (claim_status payout.id is_requested (mark_processing actor))
  send env now txn_id actor action claimed

-- `approve`
unfoldable pub approve : TransferEnv → ℕ → ℕ → ℕ → ℕ → Action Payout
approve env now txn_id payout_id actor_id = do
  raise_if (not (configured env.chapa)) chapa_unconfigured
  payout ← must_get payout_id
  raise_if (payout.user_id == actor_id) cannot_approve_own
  execute_transfer env now txn_id (some actor_id) "payout_approved" payout

abbrev pub tell_rejected : ℕ → Payout → Action Payout
tell_rejected actor_id rejected =
    modify (audit (some actor_id) "payout_rejected" (some rejected.id))
    >> (modify (notify (some rejected.user_id) "payout_rejected") >> pure rejected)

-- `reject`
unfoldable pub reject : ℕ → ℕ → ℕ → Action Payout
reject txn_id payout_id actor_id = do
  rejected ← refund_if_status txn_id payout_id is_requested rejected_by_finance (some actor_id)
  row ← or_raise rejected payout_not_pending
  tell_rejected actor_id row

abbrev pub note_event : String → Payout → Option Payout → Action (Unit {0})
note_event event payout (some resolved) = pure tt
note_event event payout none =
    if str_eq event "payout.success"
    then pure tt
    else modify (audit none "payout_webhook_unconfirmed" (some payout.id))

abbrev pub transfer_event : TransferEnv → ℕ → ℕ → String → Option Payout → Action (Unit {0})
transfer_event env now txn_id event none = pure tt
transfer_event env now txn_id event (some payout) =
    if is_in_flight payout.status && starts_with event "payout."
    then resolve_by_verify env now txn_id none payout >>= note_event event payout
    else pure tt

abbrev pub has_reference : ℕ → Payout → Bool
has_reference reference p = elim p.chapa_transfer_ref [ none ↦ false | some r ↦ r == reference ]

-- `handleTransferEvent`
unfoldable pub handle_transfer_event : TransferEnv → ℕ → ℕ → ℕ → String → Action (Unit {0})
handle_transfer_event env now txn_id reference event = do
  rows ← gets (λ db. find_where (has_reference reference) db.payouts)
  transfer_event env now txn_id event rows

-- `nameMatches`
abbrev pub name_matches : (String → List String) → String → String → Bool
name_matches name_tokens legal_name account_name =
    let legal = name_tokens legal_name in
    let account = name_tokens account_name in
    leb 2 (length account) && all (λ t. any (str_eq t) legal) account

abbrev pub legal_name_of : ℕ → List (ℕ × String) → Option String
legal_name_of user_id [] = none
legal_name_of user_id ((u, name) ∷ rows) =
    if u == user_id then some name else legal_name_of user_id rows

abbrev pub is_settled : PayoutStatus → Bool
is_settled PayoutStatus.settled = true
is_settled _ = false

abbrev pub paid_before : Payout → Payout → Bool
paid_before row p =
    (p.user_id == row.user_id)
    && (p.bank_code == row.bank_code)
    && str_eq p.account_number row.account_number
    && is_settled p.status
    && not (p.id == row.id)

abbrev pub known_name : (String → List String) → Payout → Option String → Bool
known_name name_tokens row none = false
known_name name_tokens row (some legal_name) = name_matches name_tokens legal_name row.account_name

-- `manualReason`: no payout is left out of the day's totals.
unfoldable pub manual_reason : TransferEnv → ℕ → Payout → Db → Option String
unfolding day_totals
manual_reason env now row db =
    let threshold = env.payout_auto_approve_max_cents in
    if leb threshold 0 || leb threshold row.amount_cents
    then some "over_threshold"
    else if not (configured env.chapa)
    then some "chapa_unconfigured"
    else if not (any (paid_before row) db.payouts)
    then some "new_destination"
    else if not (known_name env.name_tokens row (legal_name_of row.user_id db.legal_names))
    then some "name_mismatch"
    else if leb env.compliance_review_threshold_cents (sum_today now row.user_id db)
    then some "daily_aggregate"
    else none
  where
    sum_today : ℕ → ℕ → Db → ℕ
    sum_today at user db = (day_totals at user none db).0
