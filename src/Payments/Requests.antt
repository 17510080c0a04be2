-- ===== src/Payments/Requests.antt =====
-- The calls of apps/api/src/payments/payments.service.ts: a new checkout, a customer's look at a
-- deposit, the webhook, and the timer that looks for lost webhooks.
use alkeva.Common.{
  ℕ, zero, suc, ◌+◌, ◌*◌, String, Bool, true, false, not, ◌&&◌, ◌||◌, Option, none, some, List, [],
  ◌∷◌, ltb, ◌==◌, filter, if◌then◌else◌,
}
use text.Mathlib.Text.{starts_with, ◌==◌ as str_eq}
use alkeva.Common.Table.{find_where}
use alkeva.Codes.{
  payment_not_found, user_not_found, amount_too_small, chapa_error, payments_unconfigured,
}
use alkeva.Schema.{Payment, PaymentStatus}
use alkeva.Request.{
  Result, ok, err, Action, pure, raise, gets, or_raise, raise_if, modify, ◌>>=◌, ◌>>◌,
}
use alkeva.Ledger.{assert_can_move_money, find_user}
use alkeva.Chapa.{configured}
use alkeva.Payments.{
  PaymentsEnv, find_payment, set_payments, move_status, is_initiated, is_credited, is_unpaid,
  is_awaited, settle_by_tx_ref,
}
use alkeva.Payments.Reverse.{handle_reversal}

abbrev pub new_payment : ℕ → ℕ → ℕ → ℕ → ℕ → Payment
new_payment now id tx_ref user_id amount_cents = record {
  id = id;
  user_id = user_id;
  chapa_tx_ref = tx_ref;
  amount_cents = amount_cents;
  status = PaymentStatus.initiated;
  created_at = now;
  credited_at = none;
}

-- A checkout that the provider did not make is closed.
abbrev pub initialized : Payment → Bool → Action Payment
initialized payment true = pure payment
initialized payment false =
    move_status payment.id (λ st. not (is_credited st)) PaymentStatus.failed >> raise chapa_error

-- `create`
unfoldable pub create : PaymentsEnv → ℕ → ℕ → ℕ → ℕ → ℕ → Action Payment
create env now id tx_ref user_id amount_cents = do
  let payment = new_payment now id tx_ref user_id amount_cents
  raise_if (not (configured env.chapa)) payments_unconfigured
  assert_can_move_money user_id
  raise_if (ltb amount_cents env.deposit_min_cents) amount_too_small
  users ← gets (find_user user_id)
  user ← or_raise users user_not_found
  modify (λ db. set_payments (payment ∷ db.payments) db)
  initialized payment (env.initialize tx_ref amount_cents)

-- `getOwn`
unfoldable pub get_own : ℕ → ℕ → Action Payment
get_own user_id id = do
  rows ← gets (λ db. find_where (λ p. (p.id == id) && (p.user_id == user_id)) db.payments)
  or_raise rows payment_not_found

-- `reconcileOwn`
unfoldable pub reconcile_own : PaymentsEnv → ℕ → ℕ → ℕ → ℕ → Action Payment
reconcile_own env now txn_id user_id id = do
  payment ← get_own user_id id
  settle_by_tx_ref env now txn_id payment.chapa_tx_ref
  get_own user_id id

abbrev pub dispatch_charge : PaymentsEnv → ℕ → ℕ → ℕ → String → Action (Unit {0})
dispatch_charge env now txn_id tx_ref event =
    if str_eq event "charge.refunded" || str_eq event "charge.reversed"
    then handle_reversal env txn_id tx_ref
    else if starts_with event "charge."
    then settle_by_tx_ref env now txn_id tx_ref
    else pure tt

-- The status that was read decides whether the row moves forward.
unfoldable pub charge_row : PaymentsEnv → ℕ → ℕ → ℕ → String → Option Payment → Action (Unit {0})
charge_row env now txn_id tx_ref event none = pure tt
charge_row env now txn_id tx_ref event (some payment) = do
  move_status payment.id (λ _. is_initiated payment.status) PaymentStatus.webhook_received
  dispatch_charge env now txn_id tx_ref event

-- `handleChargeEvent`
unfoldable pub handle_charge_event : PaymentsEnv → ℕ → ℕ → ℕ → String → Action (Unit {0})
handle_charge_event env now txn_id tx_ref event = do
  rows ← gets (find_payment tx_ref)
  charge_row env now txn_id tx_ref event rows

-- `Date.now()` is past a number of milliseconds after the row was made.
abbrev pub older_than : ℕ → ℕ → Payment → Bool
older_than now age payment = ltb (payment.created_at + age) now

-- After a row's check: an exception is logged, and the row is left as it is.
abbrev pub close_old : ℕ → Payment → Result (Unit {0}) → Action (Unit {0})
close_old now p (err e) = pure tt
close_old now p (ok _) =
    if older_than now (3 * 86400000) p
    then move_status p.id is_unpaid PaymentStatus.failed
    else pure tt

-- One row of the sweep.
abbrev pub sweep_row : PaymentsEnv → ℕ → ℕ → Payment → Action (Unit {0})
sweep_row env now txn_id p db =
    let (result, db') = settle_by_tx_ref env now txn_id p.chapa_tx_ref db in
    close_old now p result db'

unfoldable pub sweep_rows : PaymentsEnv → ℕ → ℕ → List Payment → Action (Unit {0})
sweep_rows env now txn_id [] = pure tt
sweep_rows env now txn_id (p ∷ ps) =
    sweep_row env now txn_id p >> sweep_rows env now (txn_id + 1) ps

-- The first hundred rows.
abbrev pub limit : ℕ → List Payment → List Payment
limit zero ps = []
limit (suc n) [] = []
limit (suc n) (p ∷ ps) = p ∷ limit n ps

-- `sweep`; the transactions it posts get numbers from `txn_id` on.
unfoldable pub sweep : PaymentsEnv → ℕ → ℕ → Action (Unit {0})
unfolding sweep_rows
sweep env now txn_id =
    if configured env.chapa
    then (do
      rows ← gets (λ db.
          limit 100 (filter (λ p. is_awaited p.status && older_than now 600000 p) db.payments))
      sweep_rows env now txn_id rows)
    else pure tt
