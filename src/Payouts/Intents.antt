-- ===== src/Payouts/Intents.antt =====
-- The customer's path of a withdrawal in apps/api/src/payouts/payouts.service.ts: an intent, whose
-- code is sent by email, its confirmation, and the request that follows, which is paid at once or
-- waits for finance.
use alkeva.Common.{
  ℕ, String, Bool, true, false, not, ◌&&◌, Option, none, some, List, ◌+◌, ◌==◌, ltb,
}
use alkeva.Common.Int.{pos, ltb_ℤ}
use alkeva.Common.Table.{find_where}
use alkeva.Assets.{etb, payout_hold}
use alkeva.Codes.{
  Code, conflict, insufficient_balance, payout_daily_limit, payout_daily_count, amount_too_small,
}
use alkeva.Schema.{Db, Payout, PayoutStatus, User}
use alkeva.Request.{
  Action, Result, ok, err, pure, raise, gets, or_raise, raise_if, modify, transaction, ◌>>=◌, ◌>>◌,
}
use alkeva.Ledger.{
  assert_can_move_money, ensure_user_account, system_account_id, balance_for_user, find_user,
}
use alkeva.Orders.Settle.{notify}
use alkeva.Orders.Queries.{key_eq}
use alkeva.Treasury.{audit}
use alkeva.Auth.Codes.{EmailCode, Attempt, withdrawal, issue, consume}
use alkeva.Payouts.{
  PayoutsEnv, PayoutSpec, PayoutOutcome, held, refused, replay, new_payout, request_tx,
  daily_limit_code,
}
use alkeva.Payouts.Transfer.{TransferEnv, must_get, execute_transfer, manual_reason}

-- `USER_REFUSALS`
abbrev pub is_user_refusal : Option Code → Bool
is_user_refusal (some insufficient_balance) = true
is_user_refusal (some payout_daily_limit) = true
is_user_refusal (some payout_daily_count) = true
is_user_refusal _ = false

abbrev pub is_rejected : PayoutStatus → Bool
is_rejected PayoutStatus.rejected = true
is_rejected _ = false

abbrev pub reason_of : Option Code → Code
reason_of none = conflict
reason_of (some code) = code

abbrev pub answer_of : ℕ → Option Payout → Action (Option Payout)
answer_of user_id none = pure none
answer_of user_id (some row) =
    raise_if (not (row.user_id == user_id)) conflict
    >> (raise_if (is_rejected row.status && is_user_refusal row.failure_reason)
          (reason_of row.failure_reason)
        >> pure (some row))

-- `findByKey`
unfoldable pub find_by_key : ℕ × String → ℕ → Action (Option Payout)
find_by_key key user_id = do
  row ← gets (λ db. find_where (λ (p : Payout). key_eq p.idempotency_key key) db.payouts)
  answer_of user_id row

-- `routeToFinance`
abbrev pub route_to_finance : Payout → Action (Unit {0})
route_to_finance row =
    modify (audit none "payout_routed_to_finance" (some row.id))
    >> (modify (notify (some row.user_id) "payout_requested") >> modify (notify none "staff_alert"))

-- The instant path: an exception leaves the payout to finance.
abbrev pub paid_or_routed : Payout → Result Payout → Action Payout
paid_or_routed row (ok paid) = pure paid
paid_or_routed row (err e) = route_to_finance row >> must_get row.id

unfoldable pub pay_at_once : TransferEnv → ℕ → ℕ → Payout → Action Payout
pay_at_once env now txn_id row db =
    let (result, db') = execute_transfer env now txn_id none "payout_auto_approved" row db in
    paid_or_routed row result db'

abbrev pub by_route : TransferEnv → ℕ → ℕ → Payout → Option String → Action Payout
by_route env now txn_id row none = pay_at_once env now txn_id row
by_route env now txn_id row (some reason) = route_to_finance row >> pure row

abbrev pub winner_or_conflict : Option Payout → Action Payout
winner_or_conflict row = or_raise row conflict

-- What follows the transaction of a request.
unfoldable pub after_hold : TransferEnv → ℕ → ℕ → ℕ × String → ℕ → PayoutOutcome → Action Payout
after_hold env now txn_id key user_id replay = find_by_key key user_id >>= winner_or_conflict
after_hold env now txn_id key user_id (refused row code) = raise code
after_hold env now txn_id key user_id (held row) =
    gets (manual_reason env now row) >>= by_route env now (txn_id + 1) row

-- `request`; the hold is transaction `txn_id`, and what the transfer posts is the next.
unfoldable pub request :
    PayoutsEnv → TransferEnv → ℕ → ℕ → ℕ → ℕ → PayoutSpec → ℕ × String → Action Payout
request limits env now id txn_id user_id spec key = do
  assert_can_move_money user_id
  raise_if (ltb spec.amount_cents env.payout_min_cents) amount_too_small
  ensure_user_account user_id etb
  system_account_id payout_hold
  outcome ← transaction (request_tx limits now txn_id (new_payout now id user_id spec key))
  after_hold env now txn_id key user_id outcome

abbrev pub raise_code : Option Code → Action (Unit {0})
raise_code none = pure tt
raise_code (some code) = raise code

-- The checks of `createIntent`, which are asked again under the lock.
unfoldable pub intent_gates : PayoutsEnv → TransferEnv → ℕ → ℕ → PayoutSpec → Action (Unit {0})
intent_gates limits env now user_id spec = do
  assert_can_move_money user_id
  raise_if (ltb spec.amount_cents env.payout_min_cents) amount_too_small
  etb_cents ← gets (balance_for_user user_id etb)
  raise_if (ltb_ℤ etb_cents (pos spec.amount_cents)) insufficient_balance
  limit ← gets (daily_limit_code limits now user_id spec.amount_cents none)
  raise_code limit

-- What the customer sends to confirm an intent.
pub record ConfirmPayout : Type 0 where
  pub intent_id : ℕ
  pub code : String
  pub idempotency_key : String

-- An intent that carries no request asks for nothing.
abbrev pub spec_of : Option PayoutSpec → PayoutSpec
spec_of none = record { amount_cents = 0; bank_code = 0; account_number = ""; account_name = "" }
spec_of (some spec) = spec

abbrev pub is_there : Option User → Bool
is_there none = false
is_there (some u) = true

module _ (hash : ℕ → String → String) (limits : PayoutsEnv) (env : TransferEnv) where
  abbrev pub issued_for :
      ℕ
      → ℕ
      → ℕ
      → String
      → PayoutSpec
      → List EmailCode
      → Result (Unit {0}) × Db
      → (Result ℕ × Db) × List EmailCode
  issued_for now id user_id code spec codes (err e, db) = ((err e, db), codes)
  issued_for now id user_id code spec codes (ok _, db) =
      let (issued, codes') =
        issue hash (is_there (find_user user_id db))
          (record {
            now = now;
            id = id;
            user_id = user_id;
            purpose = withdrawal;
            code = code;
            payload = some spec;
          })
          codes in
      ((issued, db), codes')

  -- `createIntent`: a code for exactly this request.
  unfoldable pub create_intent :
      ℕ → ℕ → ℕ → String → PayoutSpec → List EmailCode → Db → (Result ℕ × Db) × List EmailCode
  create_intent now id user_id code spec codes db =
      issued_for now id user_id code spec codes (intent_gates limits env now user_id spec db)

  -- A double submit: the code is gone, but the payout may be there.
  abbrev pub again_or : Code → Option Payout → Action Payout
  again_or e none = raise e
  again_or e (some row) = pure row

  -- What the code was issued for is requested.
  abbrev pub requested_by : ℕ → ℕ → ℕ → ℕ → ℕ × String → Result (Option PayoutSpec) → Action Payout
  requested_by now id txn_id user_id key (err e) = find_by_key key user_id >>= again_or e
  requested_by now id txn_id user_id key (ok payload) =
      request limits env now id txn_id user_id (spec_of payload) key

  abbrev pub attempt_of : ℕ → ℕ → ConfirmPayout → Attempt
  attempt_of now user_id dto = record {
    now = now;
    user_id = user_id;
    purpose = withdrawal;
    code = dto.code;
    id = some dto.intent_id;
  }

  abbrev pub confirmed_by :
      ℕ
      → ℕ
      → ℕ
      → ℕ
      → ConfirmPayout
      → List EmailCode
      → Result (Option Payout) × Db
      → (Result Payout × Db) × List EmailCode
  confirmed_by now id txn_id user_id dto codes (err e, db) = ((err e, db), codes)
  confirmed_by now id txn_id user_id dto codes (ok (some row), db) = ((ok row, db), codes)
  confirmed_by now id txn_id user_id dto codes (ok none, db) =
      let (consumed, codes') = consume hash (attempt_of now user_id dto) codes in
      (requested_by now id txn_id user_id (user_id, dto.idempotency_key) consumed db, codes')

  -- `confirm`
  unfoldable pub confirm :
      ℕ → ℕ → ℕ → ℕ → ConfirmPayout → List EmailCode → Db → (Result Payout × Db) × List EmailCode
  confirm now id txn_id user_id dto codes db =
      confirmed_by now id txn_id user_id dto codes
        (find_by_key (user_id, dto.idempotency_key) user_id db)
