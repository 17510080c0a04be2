-- ===== src/Payouts/Confirmed.antt =====
-- What the customer's path of a withdrawal (apps/api/src/payouts/payouts.service.ts) does to the
-- books.
use alkeva.Common.{ℕ, String, ◌+◌, refl, not, ◌&&◌, ◌==◌, Option, none, some, List, ltb}
use alkeva.Common.Int.{pos, ltb_ℤ}
use alkeva.Common.Table.{find_where}
use alkeva.Orders.Queries.{key_eq}
use alkeva.Assets.{etb, payout_hold}
use alkeva.Codes.{Code, conflict, insufficient_balance, amount_too_small}
use alkeva.Schema.{Db, Payout}
use alkeva.Request.{Action, Result, ok, err, pure, gets, raise_if, transaction, ◌>>=◌, ◌>>◌}
use alkeva.Request.Keeps.{Keeps, Keeps-bind, Keeps-or_raise, Keeps-raise_if, transaction-AllOk}
use alkeva.Ledger.{assert_can_move_money, ensure_user_account, system_account_id, balance_for_user}
use alkeva.Ledger.Accounts.{assert_can_move_money-Keeps, ensure_user_account-Keeps}
use alkeva.Books.{IsSound}
use alkeva.Treasury.Sound.{system_account_id-Sound}
use alkeva.Auth.Codes.{EmailCode, consume}
use alkeva.Payouts.{
  PayoutsEnv, PayoutSpec, PayoutOutcome, held, refused, replay, new_payout, request_tx,
  daily_limit_code,
}
use alkeva.Payouts.Sound.{request_tx-AllOk}
use alkeva.Payouts.Transfer.{TransferEnv, execute_transfer, manual_reason}
use alkeva.Payouts.Transfers.{must_get-Keeps, execute_transfer-Sound}
use alkeva.Payouts.Intents.{
  answer_of, find_by_key, route_to_finance, paid_or_routed, pay_at_once, by_route,
  winner_or_conflict, after_hold, request, raise_code, intent_gates, create_intent, ConfirmPayout,
  spec_of, again_or, confirm, issued_for, requested_by, attempt_of, confirmed_by, is_rejected,
  is_user_refusal, reason_of,
}

pub find_by_key-Keeps :
    (P : Db → Type 0) (key : ℕ × String) (user_id : ℕ) → Keeps P (find_by_key key user_id)
unfolding find_by_key
find_by_key-Keeps P key user_id db h =
    answered (find_where (λ (p : Payout). key_eq p.idempotency_key key) db.payouts) db h
  where
    answered : (o : Option Payout) → Keeps P (answer_of user_id o)
    answered none d p = p
    answered (some row) d p =
        Keeps-raise_if P (not (row.user_id == user_id)) conflict
          (raise_if (is_rejected row.status && is_user_refusal row.failure_reason)
              (reason_of row.failure_reason)
            >> pure (some row))
          (Keeps-raise_if P (is_rejected row.status && is_user_refusal row.failure_reason)
            (reason_of row.failure_reason) (pure (some row)) (λ d' p'. p'))
          d p

route_to_finance-Sound : (row : Payout) → Keeps IsSound (route_to_finance row)
route_to_finance-Sound row db s = s

pay_at_once-Sound :
    (env : TransferEnv) (now txn : ℕ) (row : Payout) → Keeps IsSound (pay_at_once env now txn row)
unfolding pay_at_once
pay_at_once-Sound env now txn row db s =
    ended (execute_transfer env now txn none "payout_auto_approved" row db).0 _
      (execute_transfer-Sound env now txn none "payout_auto_approved" row db s)
  where
    ended : (r : Result Payout) → Keeps IsSound (paid_or_routed row r)
    ended (ok paid) d h = h
    ended (err e) d h = must_get-Keeps IsSound row.id _ h

after_hold-Sound :
    (env : TransferEnv) (now txn : ℕ) (key : ℕ × String) (user_id : ℕ) (o : PayoutOutcome)
    → Keeps IsSound (after_hold env now txn key user_id o)
unfolding after_hold
after_hold-Sound env now txn key user_id replay db s =
    Keeps-bind IsSound (find_by_key key user_id) winner_or_conflict
      (find_by_key-Keeps IsSound key user_id) (λ row. Keeps-or_raise IsSound row conflict) db s
after_hold-Sound env now txn key user_id (refused row code) db s = s
after_hold-Sound env now txn key user_id (held row) db s =
    routed (manual_reason env now row db) db s
  where
    routed : (o : Option String) → Keeps IsSound (by_route env now (txn + 1) row o)
    routed none d h = pay_at_once-Sound env now (txn + 1) row d h
    routed (some reason) d h = h

pub request-Sound :
    (limits : PayoutsEnv) (env : TransferEnv) (now id txn user_id : ℕ) (spec : PayoutSpec)
    (key : ℕ × String)
    → Keeps IsSound (request limits env now id txn user_id spec key)
unfolding request new_payout
request-Sound limits env now id txn user_id spec key =
    Keeps-bind IsSound (assert_can_move_money user_id) (λ _. priced)
      (assert_can_move_money-Keeps IsSound user_id)
      (λ _.
        Keeps-raise_if IsSound (ltb spec.amount_cents env.payout_min_cents) amount_too_small opened
          (Keeps-bind IsSound (ensure_user_account user_id etb) (λ _. escrowed)
            (ensure_user_account-Keeps IsSound (λ _ _ r. r) user_id etb)
            (λ _.
              Keeps-bind IsSound (system_account_id payout_hold) (λ _. decided)
                (system_account_id-Sound payout_hold)
                (λ _.
                  Keeps-bind IsSound (transaction (request_tx limits now txn row))
                    (after_hold env now txn key user_id) hold-Sound
                    (after_hold-Sound env now txn key user_id)))))
  where
    row : Payout
    row = new_payout now id user_id spec key

    decided : Action Payout
    decided = transaction (request_tx limits now txn row) >>= after_hold env now txn key user_id

    escrowed : Action Payout
    escrowed = system_account_id payout_hold >>= λ _. decided

    opened : Action Payout
    opened = ensure_user_account user_id etb >>= λ _. escrowed

    priced : Action Payout
    priced = raise_if (ltb spec.amount_cents env.payout_min_cents) amount_too_small >> opened

    hold-Sound : Keeps IsSound (transaction (request_tx limits now txn row))
    hold-Sound db s =
        transaction-AllOk IsSound (request_tx limits now txn row) db s
          (request_tx-AllOk limits now txn row db s refl)

intent_gates-Keeps :
    (P : Db → Type 0) (limits : PayoutsEnv) (env : TransferEnv) (now user_id : ℕ)
    (spec : PayoutSpec)
    → Keeps P (intent_gates limits env now user_id spec)
unfolding intent_gates
intent_gates-Keeps P limits env now user_id spec =
    Keeps-bind P (assert_can_move_money user_id) (λ _. priced)
      (assert_can_move_money-Keeps P user_id)
      (λ _.
        Keeps-raise_if P (ltb spec.amount_cents env.payout_min_cents) amount_too_small (funded)
          (λ db h.
            Keeps-raise_if P (ltb_ℤ (balance_for_user user_id etb db) (pos spec.amount_cents))
              insufficient_balance limited
              (λ d h'. within (daily_limit_code limits now user_id spec.amount_cents none d) d h')
              db h))
  where
    limited : Action (Unit {0})
    limited = gets (daily_limit_code limits now user_id spec.amount_cents none) >>= raise_code

    funded : Action (Unit {0})
    funded = gets (balance_for_user user_id etb) >>= λ cents.
        (raise_if (ltb_ℤ cents (pos spec.amount_cents)) insufficient_balance >> limited)

    priced : Action (Unit {0})
    priced = raise_if (ltb spec.amount_cents env.payout_min_cents) amount_too_small >> funded

    within : (o : Option Code) → Keeps P (raise_code o)
    within none d h = h
    within (some code) d h = h

module _ (hash : ℕ → String → String) (limits : PayoutsEnv) (env : TransferEnv) where
  -- An intent moves nothing, whether or not a code is sent.
  pub create_intent-Sound :
      (now id user_id : ℕ) (code : String) (spec : PayoutSpec) (codes : List EmailCode) (db : Db)
      → IsSound db
      → IsSound (create_intent hash limits env now id user_id code spec codes db).0.1
  unfolding create_intent
  create_intent-Sound now id user_id code spec codes db s =
      go (intent_gates limits env now user_id spec db)
        (intent_gates-Keeps IsSound limits env now user_id spec db s)
    where
      go :
          (r : Result (Unit {0}) × Db)
          → IsSound r.1
          → IsSound (issued_for hash limits env now id user_id code spec codes r).0.1
      go (err e, d) h = h
      go (ok u, d) h = h

  requested_by-Sound :
      (now id txn user_id : ℕ) (key : ℕ × String) (r : Result (Option PayoutSpec))
      → Keeps IsSound (requested_by hash limits env now id txn user_id key r)
  requested_by-Sound now id txn user_id key (ok payload) db s =
      request-Sound limits env now id txn user_id (spec_of payload) key db s
  requested_by-Sound now id txn user_id key (err e) db s =
      Keeps-bind IsSound (find_by_key key user_id) (again_or hash limits env e)
        (find_by_key-Keeps IsSound key user_id) again db s
    where
      again : (o : Option Payout) → Keeps IsSound (again_or hash limits env e o)
      again none d h = h
      again (some row) d h = h

  -- If the books are sound, they are sound after a confirmation, whether the code is right or not.
  pub confirm-Sound :
      (now id txn user_id : ℕ) (dto : ConfirmPayout) (codes : List EmailCode) (db : Db)
      → IsSound db
      → IsSound (confirm hash limits env now id txn user_id dto codes db).0.1
  unfolding confirm
  confirm-Sound now id txn user_id dto codes db s =
      go (find_by_key (user_id, dto.idempotency_key) user_id db)
        (find_by_key-Keeps IsSound (user_id, dto.idempotency_key) user_id db s)
    where
      go :
          (r : Result (Option Payout) × Db)
          → IsSound r.1
          → IsSound (confirmed_by hash limits env now id txn user_id dto codes r).0.1
      go (err e, d) h = h
      go (ok (some row), d) h = h
      go (ok none, d) h =
          requested_by-Sound now id txn user_id (user_id, dto.idempotency_key)
            (consume hash (attempt_of hash limits env now user_id dto) codes).0 d h
