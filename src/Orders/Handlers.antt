-- ===== src/Orders/Handlers.antt =====
-- `execute` and `resolveReview` of apps/api/src/orders/orders.service.ts as whole requests: the
-- books are sound after them, however they end.
use alkeva.Common.{
  ℕ, ◌≡◌, refl, sym, inl, inr, not, String, Option, none, some, List, ◌==◌, ◌∙◌, Option-cases,
  Bool-cases, arith,
}
use alkeva.Assets.{Asset, etb, metal, SystemAccountName}
use alkeva.Codes.{conflict, quote_not_found}
use alkeva.Schema.{Db, Order, Quote, AccountId}
use alkeva.Request.{Action, pure, or_raise, raise_if, transaction, ◌>>=◌, ◌>>◌}
use alkeva.Request.Keeps.{
  Keeps, Keeps-bind, Keeps-or_raise, Keeps-bind_at, bind-Keeps, transaction-AllOk,
}
use alkeva.Ledger.{ensure_user_account, system_account_id}
use alkeva.Ledger.Accounts.{ensure_user_account-Keeps, system_account_id-Keeps}
use alkeva.Books.{IsSound}
use alkeva.Orders.Queries.{OrderResponse, serialize, find_quote, find_by_key}
use alkeva.Orders.Gates.{OrdersEnv}
use alkeva.Orders.Settle.{ExecOutcome, settled, review, rejected, replay, emit_receipt}
use alkeva.Orders.Execute.{
  CreateOrder, OrderIds, ensure_accounts, execute_tx, answer, run_order, place_order,
  replay_or_place, execute,
}
use alkeva.Orders.Keeps.{execute_tx-AllOk}

-- The account rows that a trade needs are made without a change to anything else.
pub ensure_accounts-Keeps :
    (P : Db → Type 0)
    → ((db : Db) (rows : List AccountId) → P db → P (record db { accounts = rows }))
    → (user : ℕ) (peeked : Quote) → Keeps P (ensure_accounts user peeked)
ensure_accounts-Keeps P blind user peeked =
    (own etb (
      own (metal peeked.asset) (
        system SystemAccountName.cash (
          system (SystemAccountName.vault peeked.asset) (
            system SystemAccountName.fees (
              system SystemAccountName.tax
                (system SystemAccountName.reforestation (pure tt, λ _ p. p)))))))).1
  where
    Kept : Type 0
    Kept = (f : Action (Unit {0})) × Keeps P f

    own : Asset → Kept → Kept
    own a (f, k) = (
      ensure_user_account user a >> f,
      Keeps-bind P (ensure_user_account user a) (λ _. f) (ensure_user_account-Keeps P blind user a)
          (λ _. k),
    )

    system : SystemAccountName → Kept → Kept
    system n (f, k) = (
      system_account_id n >> f,
      Keeps-bind P (system_account_id n) (λ _. f) (system_account_id-Keeps P blind n) (λ _. k),
    )

find_by_key-same :
    (key : ℕ × String) (user quote_id : ℕ) (db : Db) → (find_by_key key user quote_id db).1 ≡ db
unfolding find_by_key
find_by_key-same key user quote_id db = ground arith

pub emit_receipt-Sound : (o : Order) → Keeps IsSound (emit_receipt o)
emit_receipt-Sound o db s = elim (Option-cases o.receipt_serial) [
  | inl e ↦ rw e s
  | inr (n, e) ↦ rw e s
]

answer-Sound :
    (user : ℕ) (dto : CreateOrder) (out : ExecOutcome) → Keeps IsSound (answer user dto out)
answer-Sound user dto replay db s =
    Keeps-bind_at IsSound (find_by_key (user, dto.idempotency_key) user dto.quote_id)
      (λ winner. or_raise winner conflict) db
      (rw (find_by_key-same (user, dto.idempotency_key) user dto.quote_id db) s)
      (λ winner. Keeps-or_raise IsSound winner conflict)
answer-Sound user dto (rejected o q c) db s = s
answer-Sound user dto (settled o q) db s =
    Keeps-bind IsSound (emit_receipt o) (λ _. pure (serialize o q)) (emit_receipt-Sound o)
      (λ _ _ p. p) db s
answer-Sound user dto (review o q) db s = s

module _ (env : OrdersEnv) (now : ℕ) (ids : OrderIds) (user : ℕ) (dto : CreateOrder) where
  run_order-Sound :
      (peeked : Quote) (db : Db)
      → IsSound db
      → find_quote dto.quote_id db ≡ some peeked
      → IsSound (run_order env now ids user dto peeked db).1
  unfolding run_order
  run_order-Sound peeked db s found =
      bind-Keeps R IsSound (ensure_accounts user peeked)
        (λ _. transaction (execute_tx env now ids user dto peeked) >>= answer user dto) (λ _ r. r.0)
        (ensure_accounts-Keeps R (λ _ _ r. r) user peeked)
        (λ _ db' r.
          Keeps-bind_at IsSound (transaction (execute_tx env now ids user dto peeked))
            (answer user dto) db'
            (transaction-AllOk IsSound (execute_tx env now ids user dto peeked) db' r.0 (
              execute_tx-AllOk env now ids user dto peeked db' (λ q e. same_asset (sym r.1 ∙ e))
                r.0))
            (answer-Sound user dto))
        db (s, found)
    where
      R : Db → Type 0
      R d = IsSound d × (find_quote dto.quote_id d ≡ some peeked)

      same_asset : {q : Quote} → some peeked ≡ some q → peeked.asset ≡ q.asset
      same_asset e = cc

  place_order-Sound : Keeps IsSound (place_order env now ids user dto)
  unfolding place_order
  place_order-Sound db s = go (find_quote dto.quote_id db) refl
    where
      go :
          (rows : Option Quote)
          → find_quote dto.quote_id db ≡ rows
          → IsSound
              ((or_raise rows quote_not_found >>= λ peeked.
                  raise_if (not (peeked.user_id == user)) quote_not_found
                  >> run_order env now ids user dto peeked)
                db).1
      go none e = s
      go (some peeked) e = elim (Bool-cases (not (peeked.user_id == user))) [
        | inl other ↦ rw other s
        | inr own ↦ rw own (run_order-Sound peeked db s e)
      ]

  replay_or_place-Sound :
      (o : Option OrderResponse) → Keeps IsSound (replay_or_place env now ids user dto o)
  replay_or_place-Sound (some response) db s = s
  replay_or_place-Sound none db s = place_order-Sound db s

  -- If the books are sound, they are sound after an order request: settled, parked, refused, replayed
  -- or failed.
  pub execute-Sound : (db : Db) → IsSound db → IsSound (execute env now ids user dto db).1
  unfolding execute
  execute-Sound db s =
      Keeps-bind_at IsSound (find_by_key (user, dto.idempotency_key) user dto.quote_id)
        (replay_or_place env now ids user dto) db
        (rw (find_by_key-same (user, dto.idempotency_key) user dto.quote_id db) s)
        replay_or_place-Sound
