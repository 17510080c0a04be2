-- ===== src/Orders/Approval.antt =====
-- An approval of apps/api/src/orders/orders.service.ts keeps the books sound.
use alkeva.Common.{ℕ, ◌≡◌, refl, not, Option, none, some, arith}
use alkeva.Assets.{MetalAsset}
use alkeva.Codes.{order_not_in_review}
use alkeva.Schema.{Db, Order, Quote, is_order_review}
use alkeva.Request.{or_raise, raise_if, ◌>>=◌, ◌>>◌}
use alkeva.Request.Keeps.{AllOk, bind-AllOk, raise_if-AllOk}
use alkeva.Ledger.{lock_and_read_balances, balance, balances_of, Balances}
use alkeva.Ledger.Reads.{lock_and_read_balances-AllOk}
use alkeva.Books.{IsSound}
use alkeva.Orders.Queries.{find_quote, find_order}
use alkeva.Orders.Gates.{OrdersEnv, TradeAccounts, accounts_of, lock_ids, Verdict, final_gates}
use alkeva.Orders.Settle.{settle_order, post_trade}
use alkeva.Orders.Review.{
  approval_gates, carry_out_approval, judge_approval, run_review, approve_tx,
}
use alkeva.Orders.Keeps.{post_trade-AllOk}

approval_gates-pass :
    (env : OrdersEnv) (now user : ℕ) (a : TradeAccounts) (o : Order) (q : Quote)
    (balance : Balances) (db : Db)
    → approval_gates env now user a o q balance db ≡ Verdict.pass
    → final_gates now user a q balance db ≡ Verdict.pass
unfolding approval_gates
approval_gates-pass env now user a o q balance db h = ground arith

carry_out_approval-Sound :
    (now txn actor : ℕ) (a : TradeAccounts) (o : Order) (q : Quote) (v : Verdict) (db : Db)
    → IsSound db
    → (v ≡ Verdict.pass → AllOk (λ _. IsSound) (post_trade txn actor a o q db))
    → AllOk (λ _. IsSound) (carry_out_approval now txn actor a o q v db)
unfolding carry_out_approval settle_order
carry_out_approval-Sound now txn actor a o q (Verdict.abort c) db s h = tt
carry_out_approval-Sound now txn actor a o q Verdict.pass db s h =
    bind-AllOk (λ _. IsSound) (post_trade txn actor a o q)
      (λ posted_id. settle_order now posted_id o q) db (h refl)
carry_out_approval-Sound now txn actor a o q (Verdict.refuse c) db s h = s
carry_out_approval-Sound now txn actor a o q Verdict.expire db s h = s
carry_out_approval-Sound now txn actor a o q (Verdict.park b) db s h = s

approve_at :
    (env : OrdersEnv) (now txn actor user : ℕ) (m : MetalAsset) (o : Order) (q peeked : Quote)
    (db : Db)
    → m ≡ q.asset
    → IsSound db
    → let balance = balances_of (lock_ids (accounts_of user m) peeked) db.entries in
      AllOk
        (λ _. IsSound)
        (carry_out_approval now txn actor
          (accounts_of user m)
          o
          q
          (approval_gates env now user (accounts_of user m) o q balance db)
          db)
approve_at env now txn actor user m o q peeked db e s = rw e (
    carry_out_approval-Sound now txn actor _ o q _ db s (λ pass.
      post_trade-AllOk now user txn actor o q peeked db s
        (approval_gates-pass env now user _ o q _ db pass)))

judge_approval-AllOk :
    (env : OrdersEnv) (now txn actor user : ℕ) (o : Order) (peeked : Quote) (db : Db)
    (found : Option Quote)
    → ((q : Quote) → found ≡ some q → peeked.asset ≡ q.asset)
    → IsSound db
    → AllOk
        (λ _. IsSound)
        (judge_approval env now txn actor user o peeked
          (balances_of (lock_ids (accounts_of user peeked.asset) peeked) db.entries)
          found
          db)
unfolding judge_approval
judge_approval-AllOk env now txn actor user o peeked db none agree s = s
judge_approval-AllOk env now txn actor user o peeked db (some q) agree s =
    approve_at env now txn actor user peeked.asset o q peeked db (agree q refl) s

-- The transaction of an approval keeps the books sound.
pub approve_tx-AllOk :
    (env : OrdersEnv) (now txn actor order_id user : ℕ) (peeked : Quote) (db : Db)
    → ((o : Order) (q : Quote)
        → find_order order_id db ≡ some o
        → find_quote o.quote_id db ≡ some q
        → peeked.asset ≡ q.asset)
    → IsSound db
    → AllOk (λ _. IsSound) (approve_tx env now txn actor order_id user peeked db)
unfolding approve_tx run_review
approve_tx-AllOk env now txn actor order_id user peeked db agree s =
    go (find_order order_id db) (λ o e q. agree o q e)
  where
    go :
        (found : Option Order)
        → ((o : Order)
            → found ≡ some o
            → (q : Quote) → find_quote o.quote_id db ≡ some q
            → peeked.asset ≡ q.asset)
        → AllOk
            (λ _. IsSound)
            ((or_raise found order_not_in_review >>= λ o.
                raise_if (not (is_order_review o.status)) order_not_in_review
                >> run_review env now txn actor user peeked o)
              db)
    go none ag = tt
    go (some o) ag =
        bind-AllOk (λ _. IsSound) (raise_if (not (is_order_review o.status)) order_not_in_review)
          (λ _. run_review env now txn actor user peeked o) db
          (raise_if-AllOk _ (not (is_order_review o.status)) order_not_in_review db (λ _.
            bind-AllOk (λ _. IsSound) (lock_and_read_balances _)
              (λ balances db'.
                judge_approval env now txn actor user o peeked balances (find_quote o.quote_id db')
                  db')
              db
              (lock_and_read_balances-AllOk _ _ db (
                judge_approval-AllOk env now txn actor user o peeked db (find_quote o.quote_id db)
                  (ag o refl) s))))
