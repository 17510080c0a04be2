-- ===== src/System.antt =====
-- The services of apps/api that move money, as one system: a state is the database, a step is one
-- request that a service handles, to its end, whether it succeeds or not.
use alkeva.Common.{ℕ, String, ◌≡◌, refl, Bool, true, Option, some, List, [], arith}
use alkeva.Common.Int.{int_laws}
use alkeva.Codes.{Code}
use alkeva.Schema.{Db, Payout, PayoutStatus}
use alkeva.Request.{transaction}
use alkeva.Request.Keeps.{transaction-AllOk}
use alkeva.Ledger.{balance}
use alkeva.Orders.Queries.{physical_mg}
use alkeva.Books.{IsSound, is_held_payout}
use alkeva.Quotes.{QuoteEnv, CreateQuote}
use alkeva.Quotes
use alkeva.Quotes.Effects.{create-Sound}
use alkeva.Orders.Gates.{OrdersEnv}
use alkeva.Orders.Execute.{CreateOrder, OrderIds, execute}
use alkeva.Orders.Review.{Decision, resolve_review}
use alkeva.Orders.Handlers.{execute-Sound}
use alkeva.Orders.Decisions.{resolve_review-Sound}
use alkeva.Treasury.{VaultEntry, CapitalEntry, record_vault, record_capital}
use alkeva.Treasury.Sound.{record_vault-Sound, record_capital-Sound}
use alkeva.Payouts.{PayoutsEnv, PayoutSpec, new_payout, request_tx, settle_ledger, refund_if_status}
use alkeva.Payouts.Sound.{request_tx-AllOk}
use alkeva.Common.Table.{find_where}
use alkeva.Payouts.Transfer
use alkeva.Payouts.Transfer.{TransferEnv, has_reference, handle_transfer_event}
use alkeva.Payouts.Transfers.{approve-Sound}
use alkeva.Payouts.Sweep
use alkeva.Payouts.Sweep.{StuckMark}
use alkeva.Payouts.Swept
use alkeva.Common.Keyed.{IsKeyed}
use alkeva.Auth.Codes.{EmailCode}
use alkeva.Payouts.Intents.{ConfirmPayout, create_intent, confirm}
use alkeva.Payouts.Confirmed.{create_intent-Sound, confirm-Sound}
use alkeva.Payouts.Webhooks.{reject-Sound, handle_transfer_event-Sound}
use alkeva.Delivery
use alkeva.Delivery.{decide}
use alkeva.Delivery.Decisions.{decide-Sound}
use alkeva.Delivery.Asked
use alkeva.Delivery.Asked.{CreateDelivery}
use alkeva.Delivery.Opened
use alkeva.Payments.{PaymentsEnv}
use alkeva.Payments.Requests
use alkeva.Payments.Requests.{reconcile_own, handle_charge_event, sweep}
use alkeva.Payments.Handlers
use alkeva.Payments.Handlers.{reconcile_own-Sound, handle_charge_event-Sound, sweep-Sound}
use alkeva.Payouts.Requests.{IsAmountOf, settle_ledger-Sound, refund_if_status-Sound}

pub data Step (quotes_env : QuoteEnv) (orders_env : OrdersEnv) (payouts_env : PayoutsEnv)
    : Db → Db → Type 0 where
  quote :
      (now id user : ℕ) (dto : CreateQuote) (db : Db)
      → Step quotes_env orders_env payouts_env db (Quotes.create quotes_env now id user dto db).1
  order :
      (now : ℕ) (ids : OrderIds) (user : ℕ) (dto : CreateOrder) (db : Db)
      → Step quotes_env orders_env payouts_env db (execute orders_env now ids user dto db).1
  review :
      (now txn order_id actor : ℕ) (decision : Decision) (db : Db)
      → Step quotes_env orders_env payouts_env db
          (resolve_review orders_env now txn order_id actor decision db).1
  vault_entry :
      (actor : ℕ) (dto : VaultEntry) (db : Db)
      → Step quotes_env orders_env payouts_env db (record_vault actor dto db).1
  capital_entry :
      (txn actor : ℕ) (dto : CapitalEntry) (db : Db)
      → Step quotes_env orders_env payouts_env db (record_capital txn actor dto db).1
  hold_payout :
      (now txn id user : ℕ) (spec : PayoutSpec) (key : ℕ × String) (db : Db)
      → Step quotes_env orders_env payouts_env db
          (transaction (request_tx payouts_env now txn (new_payout now id user spec key)) db).1
  payout_intent :
      (hash : ℕ → String → String) (env : TransferEnv) (now id user : ℕ) (code : String)
      (spec : PayoutSpec) (codes : List EmailCode) (db : Db)
      → Step quotes_env orders_env payouts_env db
          (create_intent hash payouts_env env now id user code spec codes db).0.1
  confirm_payout :
      (hash : ℕ → String → String) (env : TransferEnv) (now id txn user : ℕ) (dto : ConfirmPayout)
      (codes : List EmailCode) (db : Db)
      → Step quotes_env orders_env payouts_env db
          (confirm hash payouts_env env now id txn user dto codes db).0.1
  settle_payout :
      (now txn : ℕ) (actor : Option ℕ) (payout : Payout) (db : Db)
      → IsAmountOf payout db
      → Step quotes_env orders_env payouts_env db (settle_ledger now txn actor payout db).1
  refund_payout :
      (txn id : ℕ) (from : PayoutStatus → Bool) (reason : Code) (actor : Option ℕ) (db : Db)
      → ((st : PayoutStatus) → from st ≡ true → is_held_payout st ≡ true)
      → Step quotes_env orders_env payouts_env db (refund_if_status txn id from reason actor db).1
  approve_payout :
      (env : TransferEnv) (now txn payout_id actor : ℕ) (db : Db)
      → Step quotes_env orders_env payouts_env db
          (Transfer.approve env now txn payout_id actor db).1
  reject_payout :
      (txn payout_id actor : ℕ) (db : Db)
      → Step quotes_env orders_env payouts_env db (Transfer.reject txn payout_id actor db).1
  transfer_event :
      (env : TransferEnv) (now txn reference : ℕ) (event : String) (db : Db)
      → ((p : Payout) → find_where (has_reference reference) db.payouts ≡ some p → IsAmountOf p db)
      → Step quotes_env orders_env payouts_env db
          (handle_transfer_event env now txn reference event db).1
  payout_sweep :
      (env : TransferEnv) (now txn : ℕ) (marks : List StuckMark) (db : Db)
      → IsKeyed (λ (p : Payout). p.id) db.payouts
      → Step quotes_env orders_env payouts_env db (Sweep.sweep env now txn marks db).0.1
  ask_delivery :
      (cutoff : Option ℕ) (id user : ℕ) (dto : CreateDelivery) (db : Db)
      → Step quotes_env orders_env payouts_env db (Asked.create cutoff id user dto db).1
  delivery :
      (decision : Delivery.Decision) (txn id reviewer : ℕ) (db : Db)
      → Step quotes_env orders_env payouts_env db (decide decision txn id reviewer db).1
  checkout :
      (env : PaymentsEnv) (now id tx_ref user amount : ℕ) (db : Db)
      → Step quotes_env orders_env payouts_env db
          (Requests.create env now id tx_ref user amount db).1
  reconcile :
      (env : PaymentsEnv) (now txn user id : ℕ) (db : Db)
      → Step quotes_env orders_env payouts_env db (reconcile_own env now txn user id db).1
  charge :
      (env : PaymentsEnv) (now txn tx_ref : ℕ) (event : String) (db : Db)
      → Step quotes_env orders_env payouts_env db
          (handle_charge_event env now txn tx_ref event db).1
  payment_sweep :
      (env : PaymentsEnv) (now txn : ℕ) (db : Db)
      → Step quotes_env orders_env payouts_env db (sweep env now txn db).1

module _ {quotes_env : QuoteEnv} {orders_env : OrdersEnv} {payouts_env : PayoutsEnv} where
  Step-Sound :
      {before after : Db}
      → Step quotes_env orders_env payouts_env before after
      → IsSound before
      → IsSound after
  unfolding new_payout
  Step-Sound (quote now id user dto db) s = create-Sound quotes_env now id user dto db s
  Step-Sound (order now ids user dto db) s = execute-Sound orders_env now ids user dto db s
  Step-Sound (review now txn order_id actor decision db) s =
      resolve_review-Sound orders_env now txn actor order_id decision db s
  Step-Sound (vault_entry actor dto db) s = record_vault-Sound actor dto db s
  Step-Sound (capital_entry txn actor dto db) s = record_capital-Sound txn actor dto db s
  Step-Sound (hold_payout now txn id user spec key db) s =
      let row = new_payout now id user spec key in
      transaction-AllOk IsSound (request_tx payouts_env now txn row) db s
        (request_tx-AllOk payouts_env now txn row db s refl)
  Step-Sound (payout_intent hash env now id user code spec codes db) s =
      create_intent-Sound hash payouts_env env now id user code spec codes db s
  Step-Sound (confirm_payout hash env now id txn user dto codes db) s =
      confirm-Sound hash payouts_env env now id txn user dto codes db s
  Step-Sound (settle_payout now txn actor payout db found) s =
      settle_ledger-Sound now txn actor payout db s found
  Step-Sound (refund_payout txn id from reason actor db held) s =
      refund_if_status-Sound txn id from reason actor db held s
  Step-Sound (approve_payout env now txn payout_id actor db) s =
      approve-Sound env now txn payout_id actor db s
  Step-Sound (reject_payout txn payout_id actor db) s = reject-Sound txn payout_id actor db s
  Step-Sound (transfer_event env now txn reference event db amounts) s =
      handle_transfer_event-Sound env now txn reference event db s amounts
  Step-Sound (payout_sweep env now txn marks db keyed) s =
      Swept.sweep-Sound env now txn marks db s keyed
  Step-Sound (ask_delivery cutoff id user dto db) s = Opened.create-Sound cutoff id user dto db s
  Step-Sound (delivery decision txn id reviewer db) s = decide-Sound decision txn id reviewer db s
  Step-Sound (checkout env now id tx_ref user amount db) s =
      Handlers.create-Sound env now id tx_ref user amount db s
  Step-Sound (reconcile env now txn user id db) s = reconcile_own-Sound env now txn user id db s
  Step-Sound (charge env now txn tx_ref event db) s =
      handle_charge_event-Sound env now txn tx_ref event db s
  Step-Sound (payment_sweep env now txn db) s = sweep-Sound env now txn db s

-- A database of a platform on which nothing has been moved or stored yet.
pub record IsFresh (db : Db) : Type 0 where
  pub no_entries : db.entries ≡ []
  pub no_vault_rows : db.vault_holdings ≡ []
  pub no_payouts : db.payouts ≡ []
  pub no_deliveries : db.deliveries ≡ []

pub data Reach (quotes_env : QuoteEnv) (orders_env : OrdersEnv) (payouts_env : PayoutsEnv)
    (start : Db) : Db → Type 0 where
  here : Reach quotes_env orders_env payouts_env start start
  next :
      {before after : Db}
      → Reach quotes_env orders_env payouts_env start before
      → Step quotes_env orders_env payouts_env before after
      → Reach quotes_env orders_env payouts_env start after

fresh-Sound : (db : Db) → IsFresh db → IsSound db
unfolding balance physical_mg
fresh-Sound db f =
    rw (f.no_entries, f.no_vault_rows, f.no_payouts, f.no_deliveries)
      (record {
        solvent = λ u a. omega arith;
        reserved = λ m. omega int_laws;
        zero_sum = λ a. refl;
        payout_escrow = refl;
        delivery_escrow = λ m. refl;
      })

module _ {quotes_env : QuoteEnv} {orders_env : OrdersEnv} {payouts_env : PayoutsEnv} where
  -- From a database with no entries, vault rows, payouts and delivery requests, whatever requests are
  -- handled, in whatever order and with whatever outcome, the books are sound in the end.
  pub Reach-Sound :
      {start db : Db}
      → IsFresh start
      → Reach quotes_env orders_env payouts_env start db
      → IsSound db
  Reach-Sound f here = fresh-Sound _ f
  Reach-Sound f (next r s) = Step-Sound s (Reach-Sound f r)
