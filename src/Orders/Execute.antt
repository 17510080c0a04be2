-- ===== src/Orders/Execute.antt =====
-- `execute` of apps/api/src/orders/orders.service.ts.
use alkeva.Common.{
  ℕ, String, Bool, true, false, not, ◌||◌, Option, none, some, ◌∷◌, ◌==◌, if◌then◌else◌, any,
}
use alkeva.Assets.{etb, metal, SystemAccountName}
use alkeva.Codes.{quote_not_found, quote_expired, conflict}
use alkeva.Schema.{Order, OrderStatus, Quote, expired, consumed, ComplianceAction}
use alkeva.Request.{Action, pure, raise, gets, or_raise, raise_if, modify, transaction, ◌>>=◌, ◌>>◌}
use alkeva.Ledger.{ensure_user_account, system_account_id, lock_and_read_balances, Balances}
use alkeva.Orders.Queries.{OrderResponse, serialize, find_quote, key_eq, find_by_key}
use alkeva.Orders.Gates.{OrdersEnv, TradeAccounts, accounts_of, lock_ids, Verdict, execution_gates}
use alkeva.Orders.Settle.{
  ExecOutcome, settled, review, rejected, replay, set_order, set_quote_status, notify, reject,
  settle_order, post_trade, emit_receipt,
}

-- `CreateOrderDto`
pub record CreateOrder : Type 0 where
  pub quote_id : ℕ
  pub idempotency_key : String

-- The ids that the database gives to the rows of one request.
pub record OrderIds : Type 0 where
  pub order_id : ℕ
  pub txn_id : ℕ

unfoldable pub new_order : ℕ → ℕ → ℕ → CreateOrder → Quote → Order
new_order now order_id user_id dto peeked = record {
  id = order_id;
  quote_id = dto.quote_id;
  user_id = user_id;
  side = peeked.side;
  asset = peeked.asset;
  status = OrderStatus.created;
  idempotency_key = (user_id, dto.idempotency_key);
  ledger_transaction_id = none;
  failure_reason = none;
  receipt_serial = none;
  created_at = now;
  settled_at = none;
}

-- `insert … on conflict do nothing returning`: whether the row went in. The key and the id are
-- unique.
unfoldable pub claim_order : Order → Action Bool
claim_order order = do
  taken ← gets (λ db.
      any (λ o. key_eq o.idempotency_key order.idempotency_key || o.id == order.id) db.orders)
  if taken
      then pure false
      else (do modify (λ db. record db { orders = order ∷ db.orders }); pure true)

-- Parks an order for compliance and consumes its quote.
unfoldable pub park_order : ℕ → Bool → Order → Quote → Action ExecOutcome
park_order user_id over_line order quote = do
  modify (set_quote_status quote.id consumed)
  let mark = λ (o : Order). record o { status = OrderStatus.review }
  modify (set_order order.id mark)
  modify (λ db. record db {
    compliance_events =
        record {
          user_id = user_id;
          rule_key = if over_line then "txn_over_500k" else "daily_turnover_500k";
          action = ComplianceAction.review;
          order_id = some order.id;
          resolved_by = none;
        }
        ∷ db.compliance_events;
  })
  pure (review (mark order) quote)

-- The quote is used up and the order settled.
unfoldable pub consume_and_settle : ℕ → Order → Quote → ℕ → Action ExecOutcome
unfolding settle_order
consume_and_settle now order quote posted_id = do
  modify (set_quote_status quote.id consumed)
  settle_order now posted_id order quote

-- What each verdict writes.
unfoldable pub carry_out : ℕ → ℕ → ℕ → TradeAccounts → Order → Quote → Verdict → Action ExecOutcome
unfolding reject park_order
carry_out now txn_id user_id a order quote (Verdict.abort code) = raise code
carry_out now txn_id user_id a order quote (Verdict.refuse code) = reject order quote code
carry_out now txn_id user_id a order quote Verdict.expire = do
  modify (set_quote_status quote.id expired)
  reject order quote quote_expired
carry_out now txn_id user_id a order quote (Verdict.park over_line) =
    park_order user_id over_line order quote
carry_out now txn_id user_id a order quote Verdict.pass = do
  posted_id ← post_trade txn_id user_id a order quote
  consume_and_settle now order quote posted_id

-- From the locked quote on: it must be there and be the customer's.
unfoldable pub judge :
    OrdersEnv → ℕ → ℕ → ℕ → Order → Quote → Balances → Option Quote → Action ExecOutcome
unfolding reject
judge env now txn_id user_id order peeked balances none = reject order peeked quote_not_found
judge env now txn_id user_id order peeked balances (some quote) =
    if not (quote.user_id == user_id) then reject order peeked quote_not_found else (do
      let a = accounts_of user_id peeked.asset
      verdict ← gets (execution_gates env now user_id a quote balances)
      carry_out now txn_id user_id a order quote verdict)

-- From the claim of the key on: lock, read and judge.
unfoldable pub run_claimed : OrdersEnv → ℕ → ℕ → ℕ → Order → Quote → Bool → Action ExecOutcome
run_claimed env now txn_id user_id order peeked false = pure replay
run_claimed env now txn_id user_id order peeked true = do
  balances ← lock_and_read_balances (lock_ids (accounts_of user_id peeked.asset) peeked)
  found ← gets (find_quote order.quote_id)
  judge env now txn_id user_id order peeked balances found

-- The transaction of an order, from the claim of its key to the last write.
unfoldable pub execute_tx : OrdersEnv → ℕ → OrderIds → ℕ → CreateOrder → Quote → Action ExecOutcome
execute_tx env now ids user_id dto peeked = do
  let order = new_order now ids.order_id user_id dto peeked
  claimed ← claim_order order
  run_claimed env now ids.txn_id user_id order peeked claimed

-- The account rows that must exist before the transaction opens.
abbrev pub ensure_accounts : ℕ → Quote → Action (Unit {0})
ensure_accounts user_id peeked = do
  ensure_user_account user_id etb
  ensure_user_account user_id (metal peeked.asset)
  system_account_id SystemAccountName.cash
  system_account_id (SystemAccountName.vault peeked.asset)
  system_account_id SystemAccountName.fees
  system_account_id SystemAccountName.tax
  system_account_id SystemAccountName.reforestation
  pure tt

-- What the caller is told, and the notices that go out.
abbrev pub answer : ℕ → CreateOrder → ExecOutcome → Action OrderResponse
answer user_id dto replay = do
  winner ← find_by_key (user_id, dto.idempotency_key) user_id dto.quote_id
  or_raise winner conflict
answer user_id dto (rejected order quote code) = raise code
answer user_id dto (settled order quote) = do emit_receipt order; pure (serialize order quote)
answer user_id dto (review order quote) = do
  modify (notify (some user_id) "order_in_review")
  modify (notify none "staff_alert")
  pure (serialize order quote)

-- `execute` from the quote that was peeked at: the accounts, the transaction and the answer.
unfoldable pub run_order : OrdersEnv → ℕ → OrderIds → ℕ → CreateOrder → Quote → Action OrderResponse
run_order env now ids user_id dto peeked = do
  ensure_accounts user_id peeked
  outcome ← transaction (execute_tx env now ids user_id dto peeked)
  answer user_id dto outcome

-- `execute` from the key that is not in use on.
unfoldable pub place_order : OrdersEnv → ℕ → OrderIds → ℕ → CreateOrder → Action OrderResponse
place_order env now ids user_id dto = do
  rows ← gets (find_quote dto.quote_id)
  peeked ← or_raise rows quote_not_found
  raise_if (not (peeked.user_id == user_id)) quote_not_found
  run_order env now ids user_id dto peeked

abbrev pub replay_or_place :
    OrdersEnv → ℕ → OrderIds → ℕ → CreateOrder → Option OrderResponse → Action OrderResponse
replay_or_place env now ids user_id dto (some response) = pure response
replay_or_place env now ids user_id dto none = place_order env now ids user_id dto

-- `execute`
unfoldable pub execute : OrdersEnv → ℕ → OrderIds → ℕ → CreateOrder → Action OrderResponse
execute env now ids user_id dto = do
  replayed ← find_by_key (user_id, dto.idempotency_key) user_id dto.quote_id
  replay_or_place env now ids user_id dto replayed
