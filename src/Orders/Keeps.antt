-- ===== src/Orders/Keeps.antt =====
-- The order transactions of apps/api/src/orders/orders.service.ts keep the books sound.
use alkeva.Common.{
  ℕ, ◌≡◌, refl, inl, inr, Bool, true, false, Option, none, some, List, [], ◌∷◌, any, ◌||◌, ◌==◌,
  if◌then◌else◌, arith, Bool-cases,
}
use alkeva.Common.Int.{ℤ}
use alkeva.Assets.{MetalAsset, OrderSide, buy, sell}
use alkeva.Codes.{Code}
use alkeva.Schema.{Db, Order, Quote, AccountId, account_eq}
use alkeva.Request.{Result, ok, err, pure, modify, ◌>>◌}
use alkeva.Request.Keeps.{AllOk, bind-AllOk}
use alkeva.Ledger.{lock_and_read_balances, balance, balances_of, Balances, posted}
use alkeva.Ledger.Post.{post_transaction-AllOk}
use alkeva.Ledger.Reads.{balances_of_locked, any-append, lock_and_read_balances-AllOk}
use alkeva.Books.{IsSound}
use alkeva.Orders.Queries.{physical_mg, check_tier_caps, find_quote, key_eq}
use alkeva.Orders.Gates.{
  OrdersEnv, TradeAccounts, accounts_of, push_if, lock_ids, Verdict, verdict_of, trade_gates,
  final_gates, compliance_gates, execution_gates,
}
use alkeva.Orders.Settle.{post_trade}
use alkeva.Orders.Execute.{
  CreateOrder, OrderIds, new_order, claim_order, consume_and_settle, carry_out, judge, run_claimed,
  execute_tx,
}
use alkeva.Orders.Sound.{Covers, trade_gates-Covers, trade-Sound}

any-push_if :
    (p : AccountId → Bool) (b : Bool) (a : AccountId) (ids : List AccountId)
    → any p ids ≡ true
    → any p (push_if b a ids) ≡ true
unfolding push_if
any-push_if p true a ids h = any-append p ids _ h
any-push_if p false a ids h = h

-- The four accounts that every trade locks.
read_locked :
    (user : ℕ) (m : MetalAsset) (peeked : Quote) (x : AccountId) (db : Db)
    → let a = accounts_of user m in
      any (λ b. account_eq b x) (a.user_etb ∷ a.user_metal ∷ a.cash ∷ a.vault ∷ []) ≡ true
      → balances_of (lock_ids (accounts_of user m) peeked) db.entries x ≡ balance x db.entries
unfolding lock_ids
read_locked user m peeked x db h =
    balances_of_locked _ db.entries x
      (any-push_if here _ _ _ (any-push_if here _ _ _ (any-push_if here _ _ _ h)))
  where
    here : AccountId → Bool
    here b = account_eq b x

Covers-read :
    (side : OrderSide) (q : Quote) (user : ℕ) (peeked : Quote) (physical : ℤ) (db : Db)
    → Covers side
        (balances_of (lock_ids (accounts_of user q.asset) peeked) db.entries)
        physical
        (accounts_of user q.asset)
        q
    → Covers side (λ a. balance a db.entries) physical (accounts_of user q.asset) q
Covers-read buy q user peeked physical db (funds, reserve) = (
  rw (← read_locked user q.asset peeked (accounts_of user q.asset).user_etb db (ground arith))
      funds,
  rw (← read_locked user q.asset peeked (accounts_of user q.asset).vault db (ground arith)) reserve,
)
Covers-read sell q user peeked physical db (metal_held, _) = (
  rw (← read_locked user q.asset peeked (accounts_of user q.asset).user_metal db (ground arith))
      metal_held,
  tt,
)

verdict_of-pass : (r : Result (Option Code)) → verdict_of r ≡ Verdict.pass → r ≡ ok none
unfolding verdict_of
verdict_of-pass (ok none) h = refl
verdict_of-pass (ok (some c)) h = cc
verdict_of-pass (err c) h = cc

pub final_gates-pass :
    (now user : ℕ) (a : TradeAccounts) (q : Quote) (balance : Balances) (db : Db)
    → final_gates now user a q balance db ≡ Verdict.pass
    → trade_gates q.side now a q balance db ≡ ok none
unfolding final_gates
final_gates-pass now user a q balance db h =
    verdict_of-pass _ (passed (check_tier_caps now user q.total_cents db) h)
  where
    passed :
        {v : Verdict} (o : Option Code)
        → (elim o [ some code ↦ Verdict.refuse code | none ↦ v ]) ≡ Verdict.pass
        → v ≡ Verdict.pass
    passed none e = e
    passed (some c) e = cc

execution_gates-pass :
    (env : OrdersEnv) (now user : ℕ) (a : TradeAccounts) (q : Quote) (balance : Balances) (db : Db)
    → execution_gates env now user a q balance db ≡ Verdict.pass
    → final_gates now user a q balance db ≡ Verdict.pass
unfolding execution_gates compliance_gates
execution_gates-pass env now user a q balance db h = ground arith

-- Posting a trade that the gates let through.
pub post_trade-AllOk :
    (now user txn by : ℕ) (o : Order) (q peeked : Quote) (db : Db)
    → IsSound db
    → final_gates now user
        (accounts_of user q.asset)
        q
        (balances_of (lock_ids (accounts_of user q.asset) peeked) db.entries)
        db
      ≡ Verdict.pass
    → AllOk (λ _. IsSound) (post_trade txn by (accounts_of user q.asset) o q db)
unfolding post_trade posted
post_trade-AllOk now user txn by o q peeked db s h =
    post_transaction-AllOk (λ _. IsSound) txn _ db
      (λ moved.
        trade-Sound q.side user txn q _ db _ refl
          (Covers-read q.side q user peeked (physical_mg q.asset db.vault_holdings) db
            (trade_gates-Covers q.side now _ q _ db (final_gates-pass now user _ q _ db h)))
          moved s)

carry_out-Sound :
    (now txn user : ℕ) (a : TradeAccounts) (o : Order) (q : Quote) (v : Verdict) (db : Db)
    → IsSound db
    → (v ≡ Verdict.pass → AllOk (λ _. IsSound) (post_trade txn user a o q db))
    → AllOk (λ _. IsSound) (carry_out now txn user a o q v db)
unfolding carry_out consume_and_settle
carry_out-Sound now txn user a o q (Verdict.abort c) db s h = tt
carry_out-Sound now txn user a o q (Verdict.refuse c) db s h = s
carry_out-Sound now txn user a o q Verdict.expire db s h = s
carry_out-Sound now txn user a o q (Verdict.park b) db s h = s
carry_out-Sound now txn user a o q Verdict.pass db s h =
    bind-AllOk (λ _. IsSound) (post_trade txn user a o q) (consume_and_settle now o q) db (h refl)

-- The quote of a trade is locked and read, and the accounts are those of its asset.
trade_at :
    (env : OrdersEnv) (now user txn : ℕ) (m : MetalAsset) (o : Order) (q peeked : Quote) (db : Db)
    → m ≡ q.asset
    → IsSound db
    → let balance = balances_of (lock_ids (accounts_of user m) peeked) db.entries in
      AllOk
        (λ _. IsSound)
        (carry_out now txn user
          (accounts_of user m)
          o
          q
          (execution_gates env now user (accounts_of user m) q balance db)
          db)
trade_at env now user txn m o q peeked db e s = rw e (
    carry_out-Sound now txn user _ o q _ db s (λ pass.
      post_trade-AllOk now user txn user o q peeked db s
        (execution_gates-pass env now user _ q _ db pass)))

judge-AllOk :
    (env : OrdersEnv) (now txn user : ℕ) (o : Order) (peeked : Quote) (db : Db)
    (found : Option Quote)
    → ((q : Quote) → found ≡ some q → peeked.asset ≡ q.asset)
    → IsSound db
    → AllOk
        (λ _. IsSound)
        (judge env now txn user o peeked
          (balances_of (lock_ids (accounts_of user peeked.asset) peeked) db.entries)
          found
          db)
unfolding judge
judge-AllOk env now txn user o peeked db none agree s = s
judge-AllOk env now txn user o peeked db (some q) agree s = elim (Bool-cases (q.user_id == user)) [
  | inl own ↦ rw own (trade_at env now user txn peeked.asset o q peeked db (agree q refl) s)
  | inr other ↦ rw other s
]

run_claimed-AllOk :
    (env : OrdersEnv) (now txn user : ℕ) (o : Order) (peeked : Quote) (claimed : Bool) (db : Db)
    → ((q : Quote) → find_quote o.quote_id db ≡ some q → peeked.asset ≡ q.asset)
    → IsSound db
    → AllOk (λ _. IsSound) (run_claimed env now txn user o peeked claimed db)
unfolding run_claimed
run_claimed-AllOk env now txn user o peeked false db agree s = s
run_claimed-AllOk env now txn user o peeked true db agree s =
    bind-AllOk (λ _. IsSound) (lock_and_read_balances _)
      (λ balances db'. judge env now txn user o peeked balances (find_quote o.quote_id db') db') db
      (lock_and_read_balances-AllOk _ _ db
        (judge-AllOk env now txn user o peeked db (find_quote o.quote_id db) agree s))

claim_order-AllOk :
    (Q : Bool → Db → Type 0) (order : Order) (db : Db)
    → Q false db
    → Q true (record db { orders = order ∷ db.orders })
    → AllOk Q (claim_order order db)
unfolding claim_order
claim_order-AllOk Q order db lost won =
    go (any (λ o. key_eq o.idempotency_key order.idempotency_key || o.id == order.id) db.orders)
  where
    go :
        (taken : Bool)
        → AllOk Q (
            (if taken
                then pure false
                else (modify (λ d. record d { orders = order ∷ d.orders }) >> pure true))
              db)
    go true = lost
    go false = won

-- An order's transaction, whatever it decides, keeps the books sound.
pub execute_tx-AllOk :
    (env : OrdersEnv) (now : ℕ) (ids : OrderIds) (user : ℕ) (dto : CreateOrder) (peeked : Quote)
    (db : Db)
    → ((q : Quote) → find_quote dto.quote_id db ≡ some q → peeked.asset ≡ q.asset)
    → IsSound db
    → AllOk (λ _. IsSound) (execute_tx env now ids user dto peeked db)
unfolding execute_tx new_order run_claimed
execute_tx-AllOk env now ids user dto peeked db agree s =
    let order = new_order now ids.order_id user dto peeked in
    bind-AllOk (λ _. IsSound) (claim_order order) (run_claimed env now ids.txn_id user order peeked)
      db
      (claim_order-AllOk _ order db s (
        run_claimed-AllOk env now ids.txn_id user order peeked true
          (record db { orders = order ∷ db.orders }) agree s))
