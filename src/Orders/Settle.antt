-- ===== src/Orders/Settle.antt =====
-- The writes of an order transaction of apps/api/src/orders/orders.service.ts.
use alkeva.Common.{ℕ, ◌+◌, String, Option, none, some, ◌∷◌}
use alkeva.Common.Table.{update_row}
use alkeva.Assets.{OrderSide, buy, sell}
use alkeva.Codes.{Code}
use alkeva.Schema.{Db, Order, OrderStatus, Quote, QuoteStatus, TxnKind, bought, sold}
use alkeva.Request.{Action, pure, gets, modify, ◌>>=◌, ◌>>◌}
use alkeva.Ledger.{post_transaction}
use alkeva.Orders.Gates.{TradeAccounts, trade_entries}

-- `ExecOutcome`; `replay` stands for the `ReplaySentinel`, thrown before anything is written.
pub data ExecOutcome : Type 0 where
  settled review : Order → Quote → ExecOutcome
  rejected : Order → Quote → Code → ExecOutcome
  replay : ExecOutcome

abbrev pub set_order : ℕ → (Order → Order) → Db → Db
set_order id f db = record db { orders = update_row (λ (o : Order). o.id) id f db.orders }

abbrev pub set_quote_status : ℕ → QuoteStatus → Db → Db
set_quote_status id status db = record db {
  quotes = update_row (λ (q : Quote). q.id) id (λ q. record q { status = status }) db.quotes;
}

abbrev pub notify : Option ℕ → String → Db → Db
notify user_id template db = record db {
  notices = record { user_id = user_id; template = template } ∷ db.notices;
}

-- `reject`
unfoldable pub reject : Order → Quote → Code → Action ExecOutcome
reject order quote code = do
  let mark = λ (o : Order). record o { status = OrderStatus.rejected; failure_reason = some code }
  modify (set_order order.id mark)
  pure (rejected (mark order) quote code)

abbrev pub kind_of : OrderSide → TxnKind
kind_of buy = bought
kind_of sell = sold

-- The end of a trade: the order is settled and draws the next receipt number.
unfoldable pub settle_order : ℕ → ℕ → Order → Quote → Action ExecOutcome
settle_order now txn_id order quote = do
  serial ← gets (λ db. db.receipt_serial_seq)
  let mark = λ (o : Order). record o {
    status = OrderStatus.settled;
    ledger_transaction_id = some txn_id;
    settled_at = some now;
    receipt_serial = some serial;
  }
  modify (λ db. record (set_order order.id mark db) { receipt_serial_seq = serial + 1 })
  pure (settled (mark order) quote)

-- The posting of a trade.
unfoldable pub post_trade : ℕ → ℕ → TradeAccounts → Order → Quote → Action ℕ
post_trade txn_id initiated_by a order quote = post_transaction txn_id (record {
  kind = kind_of quote.side;
  subject = some order.id;
  initiated_by = some initiated_by;
  entries = trade_entries quote.side a quote;
})

-- `emitReceipt`
abbrev pub emit_receipt : Order → Action (Unit {0})
emit_receipt order = elim order.receipt_serial [
  | none ↦ pure tt
  | some serial ↦ modify (notify (some order.user_id) "order_receipt")
]
