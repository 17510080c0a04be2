-- ===== src/Orders/Refusals.antt =====
-- Requests of apps/api/src/orders/orders.service.ts that change nothing.
use alkeva.Common.{ℕ, String, ◌≡◌, refl, ◌==◌, true, some, arith}
use alkeva.Codes.{cannot_approve_own}
use alkeva.Schema.{Db, Order, Quote}
use alkeva.Request.{ok, err}
use alkeva.Request.Keeps.{bind-eq_ok}
use alkeva.Orders.Queries.{serialize, find_quote, find_order, find_order_by_key, find_by_key}
use alkeva.Orders.Gates.{OrdersEnv}
use alkeva.Orders.Execute.{CreateOrder, OrderIds, replay_or_place, execute}
use alkeva.Orders.Review.{Decision, decide_order, resolve_review}

eq_self : (n : ℕ) → (n == n) ≡ true
eq_self n = ground arith

find_by_key-found :
    (key : ℕ × String) (user quote_id : ℕ) (o : Order) (q : Quote) (db : Db)
    → find_order_by_key key db ≡ some o
    → find_quote o.quote_id db ≡ some q
    → o.user_id ≡ user
    → o.quote_id ≡ quote_id
    → find_by_key key user quote_id db ≡ (ok (some (serialize o q)), db)
unfolding find_by_key
find_by_key-found key user quote_id o q db used quoted own same = ground arith

module _ (env : OrdersEnv) (now : ℕ) (ids : OrderIds) (user : ℕ) (dto : CreateOrder) where
  -- A customer who repeats a request under a key that an order of theirs for the same quote already
  -- has gets that order back as it now stands; nothing is charged or written again.
  pub execute_replayed :
      (o : Order) (q : Quote) (db : Db)
      → find_order_by_key (user, dto.idempotency_key) db ≡ some o
      → find_quote o.quote_id db ≡ some q
      → o.user_id ≡ user
      → o.quote_id ≡ dto.quote_id
      → execute env now ids user dto db ≡ (ok (serialize o q), db)
  unfolding execute
  execute_replayed o q db used quoted own same =
      bind-eq_ok (find_by_key (user, dto.idempotency_key) user dto.quote_id)
        (replay_or_place env now ids user dto) db
        (find_by_key-found (user, dto.idempotency_key) user dto.quote_id o q db used quoted own
          same)

-- A member of staff who is the owner of the order cannot decide on it, either way: the request is
-- refused and changes nothing.
pub resolve_review_own :
    (env : OrdersEnv) (now txn order_id actor : ℕ) (decision : Decision) (o : Order) (q : Quote)
    (db : Db)
    → find_order order_id db ≡ some o
    → find_quote o.quote_id db ≡ some q
    → o.user_id ≡ actor
    → resolve_review env now txn order_id actor decision db ≡ (err cannot_approve_own, db)
unfolding resolve_review decide_order
resolve_review_own env now txn order_id actor decision o q db found quoted own =
    rw (found, quoted, own, eq_self actor) refl
