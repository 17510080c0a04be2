-- ===== src/Payments/Handlers.antt =====
-- Every call of apps/api/src/payments/payments.service.ts keeps the books sound.
use alkeva.Common.{
  ℕ, ◌+◌, ◌*◌, String, Bool, true, false, not, ◌||◌, Option, none, some, List, [], ◌∷◌, ltb, ◌==◌,
  ◌&&◌, filter, if◌then◌else◌,
}
use text.Mathlib.Text.{starts_with, ◌==◌ as str_eq}
use alkeva.Common.Table.{find_where}
use alkeva.Assets.{etb, external}
use alkeva.Codes.{payment_not_found, user_not_found, amount_too_small, payments_unconfigured}
use alkeva.Schema.{Db, User, Payment, PaymentStatus}
use alkeva.Request.{
  Result, ok, err, Action, gets, or_raise, raise_if, modify, transaction, ◌>>=◌, ◌>>◌,
}
use alkeva.Request.Keeps.{
  Keeps, Keeps-bind, Keeps-bind_at, Keeps-or_raise, Keeps-raise_if, transaction-AllOk,
}
use alkeva.Ledger.{ensure_user_account, system_account_id, assert_can_move_money, find_user}
use alkeva.Ledger.Accounts.{
  ensure_user_account-Keeps, system_account_id-Keeps, assert_can_move_money-Keeps,
}
use alkeva.Books.{IsSound}
use alkeva.Chapa.{
  ChapaEnv, configured, CallResult, unconfigured, threw, api_error, answered, verify,
}
use alkeva.Payments.{
  PaymentsEnv, VerifyData, find_payment, set_payments, move_status, is_creditable, is_credited,
  is_awaited, is_initiated, credit_tx, announce_credit, credit, agrees, apply_verified,
  apply_answer, settle_row, settle_by_tx_ref,
}
use alkeva.Payments.Reverse.{
  is_taken_back, status_text, reverse_tx, announce_reversal, reverse, reverse_row, handle_reversal,
}
use alkeva.Payments.Requests.{
  new_payment, initialized, create, get_own, reconcile_own, dispatch_charge, charge_row,
  handle_charge_event, older_than, close_old, sweep_row, sweep_rows, limit, sweep,
}
use alkeva.Payments.Sound.{credit_tx-AllOk, reverse_tx-AllOk}

-- A transaction on a customer's ETB account, and what is told of it.
posting-Keeps :
    (user : ℕ) (tx : Action Bool) (announce : Bool → Action (Unit {0}))
    → ((db : Db) → IsSound db → IsSound (transaction tx db).1)
    → ((b : Bool) → Keeps IsSound (announce b))
    → Keeps IsSound (
        ensure_user_account user etb
        >> (system_account_id external >> (transaction tx >>= announce)))
posting-Keeps user tx announce kept told =
    Keeps-bind IsSound (ensure_user_account user etb)
      (λ _. system_account_id external >> (transaction tx >>= announce))
      (ensure_user_account-Keeps IsSound (λ _ _ s. s) user etb)
      (λ _.
        Keeps-bind IsSound (system_account_id external) (λ _. transaction tx >>= announce)
          (system_account_id-Keeps IsSound (λ _ _ s. s) external)
          (λ _ db s. Keeps-bind_at IsSound (transaction tx) announce db (kept db s) told))

credit-Sound : (now txn : ℕ) (payment : Payment) → Keeps IsSound (credit now txn payment)
unfolding credit
credit-Sound now txn payment =
    posting-Keeps payment.user_id (credit_tx now txn payment) (announce_credit payment)
      (λ db s.
        transaction-AllOk IsSound (credit_tx now txn payment) db s
          (credit_tx-AllOk payment now txn db s))
      told
  where
    told : (b : Bool) → Keeps IsSound (announce_credit payment b)
    told true db s = s
    told false db s = s

reverse-Sound : (txn : ℕ) (payment : Payment) → Keeps IsSound (reverse txn payment)
unfolding reverse
reverse-Sound txn payment =
    posting-Keeps payment.user_id (reverse_tx txn payment) (announce_reversal payment)
      (λ db s.
        transaction-AllOk IsSound (reverse_tx txn payment) db s (reverse_tx-AllOk payment txn db s))
      told
  where
    told : (b : Bool) → Keeps IsSound (announce_reversal payment b)
    told true db s = s
    told false db s = s

-- A handler chosen by a test.
if-Keeps :
    {A : Type 0} (P : Db → Type 0) (c : Bool) (m n : Action A)
    → Keeps P m
    → Keeps P n
    → Keeps P (if c then m else n)
if-Keeps P true m n k l = k
if-Keeps P false m n k l = l

apply_answer-Sound :
    (chapa : ChapaEnv) (now txn : ℕ) (payment : Payment) (answer : CallResult (Option VerifyData))
    → Keeps IsSound (apply_answer chapa now txn payment answer)
unfolding apply_verified
apply_answer-Sound chapa now txn payment unconfigured db s = s
apply_answer-Sound chapa now txn payment threw db s = s
apply_answer-Sound chapa now txn payment (api_error status definitive) db s = s
apply_answer-Sound chapa now txn payment (answered none) db s = s
apply_answer-Sound chapa now txn payment (answered (some v)) db s =
    if-Keeps IsSound (str_eq v.status "failed") _ _ (λ db s. s)
      (if-Keeps IsSound (not (str_eq v.status "success")) _ _ (λ db s. s)
        (if-Keeps IsSound (agrees chapa payment v) _ _ (credit-Sound now txn payment) (λ db s. s)))
      db s

-- Whatever the provider answers, the books stay sound when a deposit is settled.
pub settle_by_tx_ref-Sound :
    (env : PaymentsEnv) (now txn tx_ref : ℕ) → Keeps IsSound (settle_by_tx_ref env now txn tx_ref)
unfolding settle_by_tx_ref
settle_by_tx_ref-Sound env now txn tx_ref db s = go (find_payment tx_ref db) db s
  where
    go : (rows : Option Payment) → Keeps IsSound (settle_row env now txn tx_ref rows)
    go none db s = s
    go (some payment) db s =
        if-Keeps IsSound (is_creditable payment.status) _ _
          (apply_answer-Sound env.chapa now txn payment
            (verify env.chapa (env.verify_reply tx_ref)))
          (λ db s. s) db s

handle_reversal-Sound :
    (env : PaymentsEnv) (txn tx_ref : ℕ) → Keeps IsSound (handle_reversal env txn tx_ref)
unfolding handle_reversal reverse_row
handle_reversal-Sound env txn tx_ref db s = go (find_payment tx_ref db) db s
  where
    go : (rows : Option Payment) → Keeps IsSound (reverse_row env txn tx_ref rows)
    go none db s = s
    go (some payment) db s =
        if-Keeps IsSound
          (not (
            is_taken_back
              (status_text env.to_lower_case (verify env.chapa (env.verify_reply tx_ref)))))
          _ _ (λ db s. s)
          (if-Keeps IsSound (is_credited payment.status) _ _ (reverse-Sound txn payment)
            (λ db s. s))
          db s

-- If the books are sound, they are sound after a webhook of the provider, whatever its event is and
-- whatever the provider answers when it is asked: a reversal takes no more than is in the account.
pub handle_charge_event-Sound :
    (env : PaymentsEnv) (now txn tx_ref : ℕ) (event : String) (db : Db)
    → IsSound db
    → IsSound (handle_charge_event env now txn tx_ref event db).1
unfolding handle_charge_event charge_row
handle_charge_event-Sound env now txn tx_ref event db s = go (find_payment tx_ref db) db s
  where
    go : (rows : Option Payment) → Keeps IsSound (charge_row env now txn tx_ref event rows)
    go none db s = s
    go (some payment) db s =
        Keeps-bind IsSound
          (move_status payment.id (λ _. is_initiated payment.status) PaymentStatus.webhook_received)
          (λ _. dispatch_charge env now txn tx_ref event) (λ db s. s)
          (λ _.
            if-Keeps IsSound (str_eq event "charge.refunded" || str_eq event "charge.reversed") _ _
              (handle_reversal-Sound env txn tx_ref)
              (if-Keeps IsSound (starts_with event "charge.") _ _
                (settle_by_tx_ref-Sound env now txn tx_ref) (λ db s. s)))
          db s

pub reconcile_own-Sound :
    (env : PaymentsEnv) (now txn user id : ℕ) → Keeps IsSound (reconcile_own env now txn user id)
unfolding reconcile_own get_own
reconcile_own-Sound env now txn user id =
    Keeps-bind IsSound (get_own user id)
      (λ p. settle_by_tx_ref env now txn p.chapa_tx_ref >> get_own user id)
      (λ db s.
        Keeps-or_raise IsSound (find_where (λ p. (p.id == id) && (p.user_id == user)) db.payments)
          payment_not_found db s)
      (λ p.
        Keeps-bind IsSound (settle_by_tx_ref env now txn p.chapa_tx_ref) (λ _. get_own user id)
          (settle_by_tx_ref-Sound env now txn p.chapa_tx_ref)
          (λ _ db s.
            Keeps-or_raise IsSound
              (find_where (λ p. (p.id == id) && (p.user_id == user)) db.payments) payment_not_found
              db s))

pub create-Sound :
    (env : PaymentsEnv) (now id tx_ref user amount : ℕ)
    → Keeps IsSound (create env now id tx_ref user amount)
unfolding create
create-Sound env now id tx_ref user amount =
    Keeps-raise_if IsSound (not (configured env.chapa)) payments_unconfigured
      (assert_can_move_money user >> checked)
      (Keeps-bind IsSound (assert_can_move_money user) (λ _. checked)
        (assert_can_move_money-Keeps IsSound user)
        (λ _.
          Keeps-raise_if IsSound (ltb amount env.deposit_min_cents) amount_too_small
            (gets (find_user user) >>= found)
            (λ db.
              Keeps-bind IsSound (or_raise (find_user user db) user_not_found) (λ _. stored)
                (Keeps-or_raise IsSound (find_user user db) user_not_found)
                (λ _ d s.
                  asked (env.initialize tx_ref amount) (set_payments (payment ∷ d.payments) d) s)
                db)))
  where
    payment : Payment
    payment = new_payment now id tx_ref user amount

    stored : Action Payment
    stored =
        modify (λ db. set_payments (payment ∷ db.payments) db)
        >> initialized payment (env.initialize tx_ref amount)

    found : Option User → Action Payment
    found users = or_raise users user_not_found >> stored

    checked : Action Payment
    checked =
        raise_if (ltb amount env.deposit_min_cents) amount_too_small
        >> (gets (find_user user) >>= found)

    asked : (b : Bool) → Keeps IsSound (initialized payment b)
    asked true db s = s
    asked false db s = s

sweep_rows-Sound :
    (env : PaymentsEnv) (now txn : ℕ) (ps : List Payment)
    → Keeps IsSound (sweep_rows env now txn ps)
unfolding sweep_rows
sweep_rows-Sound env now txn [] db s = s
sweep_rows-Sound env now txn (p ∷ ps) db s =
    Keeps-bind IsSound (sweep_row env now txn p) (λ _. sweep_rows env now (txn + 1) ps) swept
      (λ _. sweep_rows-Sound env now (txn + 1) ps) db s
  where
    closed : (result : Result (Unit {0})) → Keeps IsSound (close_old now p result)
    closed (err e) db s = s
    closed (ok a) db s =
        if-Keeps IsSound (older_than now (3 * 86400000) p) _ _ (λ db s. s) (λ db s. s) db s

    swept : Keeps IsSound (sweep_row env now txn p)
    swept db s =
        closed (settle_by_tx_ref env now txn p.chapa_tx_ref db).0 _
          (settle_by_tx_ref-Sound env now txn p.chapa_tx_ref db s)

pub sweep-Sound : (env : PaymentsEnv) (now txn : ℕ) → Keeps IsSound (sweep env now txn)
unfolding sweep
sweep-Sound env now txn =
    if-Keeps IsSound (configured env.chapa) _ _
      (λ db s.
        sweep_rows-Sound env now txn
          (limit 100 (filter (λ p. is_awaited p.status && older_than now 600000 p) db.payments)) db
          s)
      (λ db s. s)
