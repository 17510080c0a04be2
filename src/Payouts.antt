-- ===== src/Payouts.antt =====
-- apps/api/src/payouts/payouts.service.ts: the three transactions that move a withdrawal's cents
-- (hold, settle, refund). What calls them is in the child modules.
pub mod Escrow
pub mod Sound
pub mod Release
pub mod Requests
pub mod Once
pub mod Transfer
pub mod Transfers
pub mod Webhooks
pub mod Intents
pub mod Confirmed
pub mod Consent
pub mod Amounts
pub mod Sweep
pub mod Swept
use alkeva.Common.{
  ℕ, ◌+◌, String, Bool, true, false, not, ◌&&◌, ◌||◌, Option, none, some, List, [], ◌∷◌, ltb, ◌==◌,
  if◌then◌else◌, any,
}
use alkeva.Common.Int.{ℤ, pos, ltb_ℤ, leb_ℤ}
use alkeva.Common.Table.{find_row, update_row, claim_row, sum_by}
use alkeva.Assets.{etb, payout_hold, external, eat_day_start_utc}
use alkeva.Codes.{
  Code, insufficient_balance, payout_daily_limit, payout_daily_count, payout_not_found,
}
use alkeva.Schema.{Db, Payout, PayoutStatus, AccountId, user_account, system_account, TxnKind}
use alkeva.Request.{Action, pure, gets, or_raise, modify, transaction, ◌>>=◌, ◌>>◌}
use alkeva.Ledger.{
  Balances, ensure_user_account, system_account_id, lock_and_read_balances, post_transaction,
}
use alkeva.Ledger.Move.{move_entries}
use alkeva.Orders.Settle.{notify}
use alkeva.Orders.Queries.{key_eq}
use alkeva.Treasury.{audit}

pub record PayoutsEnv : Type 0 where
  pub payout_daily_max_count : ℕ
  pub payout_daily_max_cents : ℕ

-- `PayoutRequestSpec`
pub record PayoutSpec : Type 0 where
  pub amount_cents : ℕ
  pub bank_code : ℕ
  pub account_number : String
  pub account_name : String

-- `COUNTED`: everything not refused.
abbrev is_counted : PayoutStatus → Bool
is_counted PayoutStatus.rejected = false
is_counted _ = true

abbrev is_excluded : Option ℕ → Payout → Bool
is_excluded none p = false
is_excluded (some id) p = p.id == id

abbrev counts_today : ℕ → ℕ → Option ℕ → Payout → Bool
counts_today now user_id exclude_id p =
    p.user_id == user_id
    && is_counted p.status
    && leb_ℤ (eat_day_start_utc now) (pos p.created_at)
    && not (is_excluded exclude_id p)

-- `dayTotals`: the sum and the number of a user's payouts of the day.
unfoldable pub day_totals : ℕ → ℕ → Option ℕ → Db → ℕ × ℕ
day_totals now user_id exclude_id db =
    let counts = counts_today now user_id exclude_id in
    (
      sum_by (λ p. if counts p then p.amount_cents else 0) db.payouts,
      sum_by (λ p. if counts p then 1 else 0) db.payouts,
    )

-- `dailyLimitCode`
unfoldable pub daily_limit_code : PayoutsEnv → ℕ → ℕ → ℕ → Option ℕ → Db → Option Code
daily_limit_code env now user_id amount_cents exclude_id db =
    let (sum, count) = day_totals now user_id exclude_id db in
    if ltb env.payout_daily_max_count (count + 1)
    then some payout_daily_count
    else if ltb env.payout_daily_max_cents (sum + amount_cents)
    then some payout_daily_limit
    else none

-- How the transaction of a request ends; `replay` stands for the `ReplaySentinel`.
pub data PayoutOutcome : Type 0 where
  held : Payout → PayoutOutcome
  refused : Payout → Code → PayoutOutcome
  replay : PayoutOutcome

unfoldable pub new_payout : ℕ → ℕ → ℕ → PayoutSpec → ℕ × String → Payout
new_payout now payout_id user_id spec key = record {
  id = payout_id;
  user_id = user_id;
  amount_cents = spec.amount_cents;
  status = PayoutStatus.requested;
  bank_code = spec.bank_code;
  account_number = spec.account_number;
  account_name = spec.account_name;
  idempotency_key = key;
  approved_by = none;
  chapa_transfer_ref = none;
  failure_reason = none;
  created_at = now;
  settled_at = none;
}

abbrev pub add_payout : Payout → Db → Db
add_payout row db = record db { payouts = row ∷ db.payouts }

-- `insert … on conflict do nothing returning`; the key and the id are unique.
unfoldable pub claim_payout : Payout → Action Bool
claim_payout row = do
  taken ←
      gets
        (λ db. any (λ p. key_eq p.idempotency_key row.idempotency_key || p.id == row.id) db.payouts)
  if taken then pure false else (modify (add_payout row) >> pure true)

abbrev pub mark_rejected : Code → Payout → Payout
mark_rejected code p = record p { status = PayoutStatus.rejected; failure_reason = some code }

-- The balance under the lock first, then the limits of the day.
abbrev pub refusal_of : PayoutsEnv → ℕ → Payout → Balances → Db → Option Code
refusal_of env now row balances db =
    if ltb_ℤ (balances (user_account row.user_id etb)) (pos row.amount_cents)
    then some insufficient_balance
    else daily_limit_code env now row.user_id row.amount_cents (some row.id) db

abbrev pub post_move : ℕ → Option ℕ → ℕ → AccountId → AccountId → ℕ → Action ℕ
post_move txn_id initiated_by payout_id src dst amount = post_transaction txn_id (record {
  kind = TxnKind.withdrawal;
  subject = some payout_id;
  initiated_by = initiated_by;
  entries = move_entries src dst etb amount;
})

abbrev pub audit_held : Payout → ℕ → Action PayoutOutcome
audit_held row id = do
  modify (audit (some row.user_id) "payout_requested" (some row.id))
  pure (held row)

-- A refusal is written; otherwise the cents are held.
unfoldable pub finish_request : ℕ → Payout → Option Code → Action PayoutOutcome
finish_request txn_id row (some code) = do
  modify (λ db. record db {
    payouts = update_row (λ (p : Payout). p.id) row.id (mark_rejected code) db.payouts;
  })
  pure (refused (mark_rejected code row) code)
finish_request txn_id row none = do
  id ←
      post_move txn_id (some row.user_id) row.id (user_account row.user_id etb)
        (system_account payout_hold) row.amount_cents
  audit_held row id

unfoldable pub judge_request : PayoutsEnv → ℕ → ℕ → Payout → Balances → Action PayoutOutcome
judge_request env now txn_id row balances = do
  refusal ← gets (refusal_of env now row balances)
  finish_request txn_id row refusal

unfoldable pub run_request : PayoutsEnv → ℕ → ℕ → Payout → Bool → Action PayoutOutcome
run_request env now txn_id row false = pure replay
run_request env now txn_id row true = do
  balances ← lock_and_read_balances (user_account row.user_id etb ∷ system_account payout_hold ∷ [])
  judge_request env now txn_id row balances

-- The transaction of `request`.
unfoldable pub request_tx : PayoutsEnv → ℕ → ℕ → Payout → Action PayoutOutcome
request_tx env now txn_id row = do
  claimed ← claim_payout row
  run_request env now txn_id row claimed

abbrev pub is_in_flight : PayoutStatus → Bool
is_in_flight PayoutStatus.approved = true
is_in_flight PayoutStatus.processing = true
is_in_flight _ = false

abbrev pub is_requested : PayoutStatus → Bool
is_requested PayoutStatus.requested = true
is_requested _ = false

-- `update payouts set … where id = … and status in (…) returning`
abbrev pub claim_status :
    ℕ → (PayoutStatus → Bool) → (Payout → Payout) → Db → Option (Payout × List Payout)
claim_status payout_id from mark db =
    claim_row (λ (p : Payout). p.id) payout_id (λ p. from p.status) mark db.payouts

abbrev pub mark_settled : ℕ → Payout → Payout
mark_settled now p = record p { status = PayoutStatus.settled; settled_at = some now }

abbrev pub audit_settled : Option ℕ → ℕ → ℕ → Action Bool
audit_settled actor_id payout_id id =
    modify (audit actor_id "payout_settled" (some payout_id)) >> pure true

-- The posting of a settlement, of the amount of the row that was read before the transaction.
unfoldable pub post_settlement : ℕ → Option ℕ → Payout → Balances → Action Bool
post_settlement txn_id actor_id payout balances = do
  id ←
      post_move txn_id actor_id payout.id (system_account payout_hold) (system_account external)
        payout.amount_cents
  audit_settled actor_id payout.id id

unfoldable pub finish_settlement :
    ℕ → Option ℕ → Payout → Option (Payout × List Payout) → Action Bool
finish_settlement txn_id actor_id payout none = pure false
finish_settlement txn_id actor_id payout (some (claimed, payouts')) = do
  modify (λ db. record db { payouts = payouts' })
  balances ← lock_and_read_balances (system_account payout_hold ∷ system_account external ∷ [])
  post_settlement txn_id actor_id payout balances

-- The transaction of `settleLedger`: whether it settled.
unfoldable pub settle_tx : ℕ → ℕ → Option ℕ → Payout → Action Bool
settle_tx now txn_id actor_id payout = do
  claimed ← gets (claim_status payout.id is_in_flight (mark_settled now))
  finish_settlement txn_id actor_id payout claimed

-- `settleLedger`
unfoldable pub settle_ledger : ℕ → ℕ → Option ℕ → Payout → Action (Unit {0})
settle_ledger now txn_id actor_id payout = do
  system_account_id payout_hold
  system_account_id external
  settled ← transaction (settle_tx now txn_id actor_id payout)
  if settled then modify (notify (some payout.user_id) "payout_settled") else pure tt

abbrev pub give_back : Payout → ℕ → Action (Option Payout)
give_back rejected _ = pure (some rejected)

unfoldable pub post_refund : ℕ → Option ℕ → ℕ → Payout → Balances → Action (Option Payout)
post_refund txn_id actor_id user_id rejected balances = do
  id ←
      post_move txn_id actor_id rejected.id (system_account payout_hold) (user_account user_id etb)
        rejected.amount_cents
  give_back rejected id

unfoldable pub finish_refund :
    ℕ → Option ℕ → Payout → Option (Payout × List Payout) → Action (Option Payout)
finish_refund txn_id actor_id peek none = pure none
finish_refund txn_id actor_id peek (some (rejected, payouts')) = do
  modify (λ db. record db { payouts = payouts' })
  balances ←
      lock_and_read_balances (system_account payout_hold ∷ user_account peek.user_id etb ∷ [])
  post_refund txn_id actor_id peek.user_id rejected balances

-- The transaction of `refundIfStatus`.
unfoldable pub refund_tx :
    ℕ → Option ℕ → (PayoutStatus → Bool) → Code → Payout → Action (Option Payout)
refund_tx txn_id actor_id from reason peek = do
  claimed ← gets (claim_status peek.id from (mark_rejected reason))
  finish_refund txn_id actor_id peek claimed

-- `refundIfStatus` from the row that was peeked at.
unfoldable pub refund_peeked :
    ℕ → Option ℕ → (PayoutStatus → Bool) → Code → Payout → Action (Option Payout)
refund_peeked txn_id actor_id from reason peek = do
  system_account_id payout_hold
  ensure_user_account peek.user_id etb
  transaction (refund_tx txn_id actor_id from reason peek)

-- `refundIfStatus`
unfoldable pub refund_if_status :
    ℕ → ℕ → (PayoutStatus → Bool) → Code → Option ℕ → Action (Option Payout)
refund_if_status txn_id payout_id from reason actor_id = do
  rows ← gets (λ db. find_row (λ (p : Payout). p.id) payout_id db.payouts)
  peek ← or_raise rows payout_not_found
  refund_peeked txn_id actor_id from reason peek
