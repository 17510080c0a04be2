-- ===== src/Orders/Decisions.antt =====
-- `resolveReview` of apps/api/src/orders/orders.service.ts as a whole request: the books are sound
-- after a decision, however it ends.
use alkeva.Common.{ℕ, ◌≡◌, refl, sym, inl, inr, Option, none, some, List, ◌==◌, ◌∙◌, Bool-cases}
use alkeva.Common.Table.{find_row-key}
use alkeva.Codes.{order_not_found, cannot_approve_own}
use alkeva.Schema.{Db, Order, Quote}
use alkeva.Request.{Action, pure, or_raise, raise_if, transaction, ◌>>=◌, ◌>>◌}
use alkeva.Request.Keeps.{Keeps, Keeps-bind, Keeps-bind_at, bind-Keeps, transaction-AllOk}
use alkeva.Books.{IsSound}
use alkeva.Orders.Queries.{serialize, find_quote, find_order}
use alkeva.Orders.Gates.{OrdersEnv}
use alkeva.Orders.Settle.{ExecOutcome, settled, review, rejected, replay, emit_receipt}
use alkeva.Orders.Execute.{ensure_accounts}
use alkeva.Orders.Review.{
  Decision, approve, decline, close_review, finish_decline, claim_declined, decline_review,
  answer_approval, finish_approval, approve_tx, approve_review, decide, decide_order,
  resolve_review,
}
use alkeva.Orders.Approval.{approve_tx-AllOk}
use alkeva.Orders.Handlers.{ensure_accounts-Keeps, emit_receipt-Sound}

finish_decline-Sound :
    (order_id actor : ℕ) (peeked : Quote) (claimed : Option (Order × List Order))
    → Keeps IsSound (finish_decline order_id actor peeked claimed)
unfolding finish_decline close_review
finish_decline-Sound order_id actor peeked none db s = s
finish_decline-Sound order_id actor peeked (some (o, rows)) db s = s

answer_approval-Sound : (user : ℕ) (out : ExecOutcome) → Keeps IsSound (answer_approval user out)
unfolding answer_approval
answer_approval-Sound user (rejected o q c) db s = s
answer_approval-Sound user (settled o q) db s =
    Keeps-bind IsSound (emit_receipt o) (λ _. pure (serialize o q)) (emit_receipt-Sound o)
      (λ _ _ p. p) db s
answer_approval-Sound user (review o q) db s = s
answer_approval-Sound user replay db s = s

finish_approval-Sound :
    (actor : ℕ) (order : Order) (out : ExecOutcome)
    → Keeps IsSound (finish_approval actor order out)
unfolding finish_approval close_review
finish_approval-Sound actor order out db s = answer_approval-Sound order.user_id out _ s

at_id :
    (order : Order) (order_id i : ℕ) (db : Db)
    → i ≡ order_id
    → find_order order_id db ≡ some order
    → find_order i db ≡ some order
at_id order order_id i db h e = rw h e

module _ (env : OrdersEnv) (now txn actor : ℕ) where
  approve_review-Sound :
      (order : Order) (peeked : Quote) (db : Db)
      → IsSound db
      → find_order order.id db ≡ some order
      → find_quote order.quote_id db ≡ some peeked
      → IsSound (approve_review env now txn actor order peeked db).1
  unfolding approve_review
  approve_review-Sound order peeked db s found quoted =
      bind-Keeps R IsSound (ensure_accounts order.user_id peeked)
        (λ _. transaction tx >>= finish_approval actor order) (λ _ r. r.0)
        (ensure_accounts-Keeps R (λ _ _ r. r) order.user_id peeked)
        (λ _ db' r.
          Keeps-bind_at IsSound (transaction tx) (finish_approval actor order) db'
            (transaction-AllOk IsSound tx db' r.0 (
              approve_tx-AllOk env now txn actor order.id order.user_id peeked db'
                (λ o q e e'. agree db' o q (sym r.1 ∙ e) r.2 e') r.0))
            (finish_approval-Sound actor order))
        db (s, found, quoted)
    where
      R : Db → Type 0
      R d =
          IsSound d
          × (find_order order.id d ≡ some order)
          × (find_quote order.quote_id d ≡ some peeked)

      tx : Action ExecOutcome
      tx = approve_tx env now txn actor order.id order.user_id peeked

      agree :
          (d : Db) (o : Order) (q : Quote)
          → some order ≡ some o
          → find_quote order.quote_id d ≡ some peeked
          → find_quote o.quote_id d ≡ some q
          → peeked.asset ≡ q.asset
      agree d o q e e' e'' = cc

  decide-Sound :
      (decision : Decision) (order : Order) (peeked : Quote) (db : Db)
      → IsSound db
      → find_order order.id db ≡ some order
      → find_quote order.quote_id db ≡ some peeked
      → IsSound (decide env now txn actor decision order peeked db).1
  unfolding decline_review
  decide-Sound approve order peeked db s found quoted =
      approve_review-Sound order peeked db s found quoted
  decide-Sound decline order peeked db s found quoted =
      finish_decline-Sound order.id actor peeked (claim_declined order.id db) db s

  decide_order-Sound :
      (decision : Decision) (order : Order) (db : Db)
      → IsSound db
      → find_order order.id db ≡ some order
      → IsSound (decide_order env now txn actor decision order db).1
  unfolding decide_order
  decide_order-Sound decision order db s found = go (find_quote order.quote_id db) refl
    where
      go :
          (rows : Option Quote)
          → find_quote order.quote_id db ≡ rows
          → IsSound
              ((or_raise rows order_not_found >>= λ peeked.
                  raise_if (order.user_id == actor) cannot_approve_own
                  >> decide env now txn actor decision order peeked)
                db).1
      go none e = s
      go (some peeked) e = elim (Bool-cases (order.user_id == actor)) [
        | inl own ↦ rw own s
        | inr other ↦ rw other (decide-Sound decision order peeked db s found e)
      ]

  -- If the books are sound, they are sound after a decision on an order in review: settled, refused,
  -- declined or failed.
  pub resolve_review-Sound :
      (order_id : ℕ) (decision : Decision) (db : Db)
      → IsSound db
      → IsSound (resolve_review env now txn order_id actor decision db).1
  unfolding resolve_review
  resolve_review-Sound order_id decision db s = go (find_order order_id db) refl
    where
      go :
          (rows : Option Order)
          → find_order order_id db ≡ rows
          → IsSound
              ((or_raise rows order_not_found >>= decide_order env now txn actor decision) db).1
      go none e = s
      go (some order) e = decide_order-Sound decision order db s (
          at_id order order_id order.id db
            (find_row-key (λ (o : Order). o.id) order_id db.orders order e) e)
