-- ===== src/Orders/Review.antt =====
-- `resolveReview` of apps/api/src/orders/orders.service.ts: compliance decides on a parked order.
use alkeva.Common.{
  ℕ, ◌-◌, ◌*◌, String, Bool, false, not, ◌&&◌, Option, none, some, List, [], ◌∷◌, ltb, ◌==◌,
  if◌then◌else◌, is_some,
}
use alkeva.Common.Table.{claim_row}
use alkeva.Codes.{
  quote_not_found, order_not_found, cannot_approve_own, compliance_rejected, order_not_in_review,
  review_expired, account_frozen,
}
use alkeva.Schema.{Db, Order, OrderStatus, Quote, ComplianceEvent, is_order_review}
use alkeva.Request.{Action, pure, raise, gets, or_raise, raise_if, modify, transaction, ◌>>=◌, ◌>>◌}
use alkeva.Ledger.{lock_and_read_balances, Balances, is_frozen, account_gate}
use alkeva.Orders.Queries.{OrderResponse, serialize, find_quote, find_order}
use alkeva.Orders.Gates.{OrdersEnv, TradeAccounts, accounts_of, lock_ids, Verdict, final_gates}
use alkeva.Orders.Settle.{
  ExecOutcome, settled, review, rejected, replay, notify, reject, settle_order, post_trade,
  emit_receipt,
}
use alkeva.Orders.Execute.{ensure_accounts}

pub data Decision : Type 0 where
  approve decline : Decision

-- The age of the review in minutes is compared as a fraction, so in milliseconds.
unfoldable pub approval_gates :
    OrdersEnv → ℕ → ℕ → TradeAccounts → Order → Quote → Balances → Db → Verdict
approval_gates env now user_id a order quote balance db =
    if ltb (env.review_max_age_min * 60000) (now - order.created_at)
    then Verdict.refuse review_expired
    else if is_frozen user_id db
    then Verdict.refuse account_frozen
    else elim (account_gate user_id db) [
      | some code ↦ Verdict.refuse code
      | none ↦ final_gates now user_id a quote balance db
    ]

-- An approval settles at the figures of the quote; only these three verdicts can arise.
unfoldable pub carry_out_approval :
    ℕ → ℕ → ℕ → TradeAccounts → Order → Quote → Verdict → Action ExecOutcome
unfolding reject
carry_out_approval now txn_id actor_id a order quote (Verdict.abort code) = raise code
carry_out_approval now txn_id actor_id a order quote Verdict.pass = do
  posted_id ← post_trade txn_id actor_id a order quote
  settle_order now posted_id order quote
carry_out_approval now txn_id actor_id a order quote (Verdict.refuse code) = reject order quote code
carry_out_approval now txn_id actor_id a order quote _ = reject order quote review_expired

-- From the locked quote on.
unfoldable pub judge_approval :
    OrdersEnv → ℕ → ℕ → ℕ → ℕ → Order → Quote → Balances → Option Quote → Action ExecOutcome
unfolding reject
judge_approval env now txn_id actor_id user_id order peeked balances none =
    reject order peeked quote_not_found
judge_approval env now txn_id actor_id user_id order peeked balances (some quote) = do
  let a = accounts_of user_id peeked.asset
  verdict ← gets (approval_gates env now user_id a order quote balances)
  carry_out_approval now txn_id actor_id a order quote verdict

-- From the order in review on: lock, read and judge.
unfoldable pub run_review : OrdersEnv → ℕ → ℕ → ℕ → ℕ → Quote → Order → Action ExecOutcome
run_review env now txn_id actor_id user_id peeked order = do
  balances ← lock_and_read_balances (lock_ids (accounts_of user_id peeked.asset) peeked)
  found ← gets (find_quote order.quote_id)
  judge_approval env now txn_id actor_id user_id order peeked balances found

-- The transaction of an approval; `user_id` is the owner of the order as read before it.
unfoldable pub approve_tx : OrdersEnv → ℕ → ℕ → ℕ → ℕ → ℕ → Quote → Action ExecOutcome
approve_tx env now txn_id actor_id order_id user_id peeked = do
  rows ← gets (find_order order_id)
  order ← or_raise rows order_not_in_review
  raise_if (not (is_order_review order.status)) order_not_in_review
  run_review env now txn_id actor_id user_id peeked order

abbrev is_order : ℕ → Option ℕ → Bool
is_order order_id none = false
is_order order_id (some id) = id == order_id

abbrev resolve_event : ℕ → ℕ → ComplianceEvent → ComplianceEvent
resolve_event order_id actor_id e =
    if is_order order_id e.order_id && not (is_some e.resolved_by)
    then record e { resolved_by = some actor_id }
    else e

resolve_events : ℕ → ℕ → List ComplianceEvent → List ComplianceEvent
resolve_events order_id actor_id [] = []
resolve_events order_id actor_id (e ∷ es) =
    resolve_event order_id actor_id e ∷ resolve_events order_id actor_id es

-- `resolveComplianceEvents`, then `auditReview`
unfoldable pub close_review : ℕ → ℕ → String → Action (Unit {0})
unfolding resolve_events
close_review order_id actor_id action = do
  modify (λ db. record db {
    compliance_events = resolve_events order_id actor_id db.compliance_events;
  })
  modify (λ db. record db {
    audit_logs =
        record { actor_id = some actor_id; action = action; target_id = some order_id }
        ∷ db.audit_logs;
  })

abbrev mark_declined : Order → Order
mark_declined o = record o {
  status = OrderStatus.rejected;
  failure_reason = some compliance_rejected;
}

-- The order is rejected only if it was still in review.
abbrev pub claim_declined : ℕ → Db → Option (Order × List Order)
claim_declined order_id db =
    claim_row (λ (o : Order). o.id) order_id (λ o. is_order_review o.status) mark_declined db.orders

unfoldable pub finish_decline : ℕ → ℕ → Quote → Option (Order × List Order) → Action OrderResponse
unfolding close_review
finish_decline order_id actor_id peeked none = raise order_not_in_review
finish_decline order_id actor_id peeked (some (declined, orders')) = do
  modify (λ db. record db { orders = orders' })
  close_review order_id actor_id "review_rejected"
  modify (notify (some declined.user_id) "order_rejected")
  pure (serialize declined peeked)

-- The rejecting half.
unfoldable pub decline_review : ℕ → ℕ → Quote → Action OrderResponse
decline_review order_id actor_id peeked = do
  claimed ← gets (claim_declined order_id)
  finish_decline order_id actor_id peeked claimed

abbrev audit_action : ExecOutcome → String
audit_action (settled order quote) = "review_approved"
audit_action _ = "review_approve_refused"

unfoldable pub answer_approval : ℕ → ExecOutcome → Action OrderResponse
answer_approval user_id (rejected order quote code) = do
  modify (notify (some user_id) "order_rejected")
  raise code
answer_approval user_id (settled order quote) = do emit_receipt order; pure (serialize order quote)
answer_approval user_id (review order quote) = pure (serialize order quote)
answer_approval user_id replay = raise order_not_in_review

-- The audit row says what happened, not what was asked.
unfoldable pub finish_approval : ℕ → Order → ExecOutcome → Action OrderResponse
unfolding close_review answer_approval
finish_approval actor_id order outcome = do
  close_review order.id actor_id (audit_action outcome)
  answer_approval order.user_id outcome

-- The approving half.
unfoldable pub approve_review : OrdersEnv → ℕ → ℕ → ℕ → Order → Quote → Action OrderResponse
approve_review env now txn_id actor_id order peeked = do
  ensure_accounts order.user_id peeked
  outcome ← transaction (approve_tx env now txn_id actor_id order.id order.user_id peeked)
  finish_approval actor_id order outcome

abbrev pub decide : OrdersEnv → ℕ → ℕ → ℕ → Decision → Order → Quote → Action OrderResponse
decide env now txn_id actor_id decline order peeked = decline_review order.id actor_id peeked
decide env now txn_id actor_id approve order peeked =
    approve_review env now txn_id actor_id order peeked

-- `resolveReview` from the order on; nobody decides on their own money.
unfoldable pub decide_order : OrdersEnv → ℕ → ℕ → ℕ → Decision → Order → Action OrderResponse
decide_order env now txn_id actor_id decision order = do
  quotes ← gets (find_quote order.quote_id)
  peeked ← or_raise quotes order_not_found
  raise_if (order.user_id == actor_id) cannot_approve_own
  decide env now txn_id actor_id decision order peeked

-- `resolveReview`
unfoldable pub resolve_review : OrdersEnv → ℕ → ℕ → ℕ → ℕ → Decision → Action OrderResponse
resolve_review env now txn_id order_id actor_id decision = do
  rows ← gets (find_order order_id)
  order ← or_raise rows order_not_found
  decide_order env now txn_id actor_id decision order
