-- ===== src/Tests/Withdrawals.antt =====
-- The theorems on withdrawals and on the request of a delivery, at work on rows.
use alkeva.Common.{◌≡◌, refl, none, some, List, [], ◌∷◌}
use alkeva.Common.Table.{claim_row, find_row, update_row}
use alkeva.Common.Int.{pos, ◌+ℤ◌}
use alkeva.Ledger.{
  balance, assert_can_move_money, is_frozen, has_freeze, account_gate, ensure_user_account,
  system_account_id, lock_and_read_balances, has_account, post_transaction, posted, per_asset,
  add_to, unbalanced, entry_rows, balances_of,
}
use alkeva.Assets.{etb, xau, eat_day_start_utc}
use alkeva.Schema.{Db, user_account}
use alkeva.Request.{ok}
use alkeva.Books.{IsSound}
use alkeva.Auth.Codes.{
  EmailCode, withdrawal, consume, candidate, newest, gate, compare_code, is_six_digits,
}
use alkeva.Payouts.{
  PayoutSpec, request_tx, claim_payout, new_payout, run_request, judge_request, finish_request,
  day_totals, daily_limit_code,
}
use alkeva.Payouts.Transfer.{manual_reason}
use alkeva.Payouts.Intents.{ConfirmPayout, confirm, request, find_by_key, after_hold}
use alkeva.Payouts.Consent.{IsConsented, confirm-IsConsented}
use alkeva.Payouts.Sweep.{StuckMark}
use alkeva.Payouts.Sweep
use alkeva.Payouts.Swept.{sweep-Sound}
use alkeva.Delivery.Asked
use alkeva.Delivery.Asked.{CreateDelivery}
use alkeva.Delivery.Opened.{Ends, create-IsOpened}
use alkeva.Tests.Figures.{ruby}
use alkeva.Tests.Data.{payouts_env, busy}
use alkeva.Tests.State.{busy-Sound}
use alkeva.Tests.Services.{transfer_env}

abbrev to_abebe : PayoutSpec
to_abebe = record {
  amount_cents = 5000;
  bank_code = 1;
  account_number = "1000";
  account_name = "Abebe Kebede";
}

abbrev sent_code : EmailCode
sent_code = record {
  id = 3;
  user_id = 7;
  purpose = withdrawal;
  code_hash = "271828";
  payload = some to_abebe;
  attempts = 1;
  expires_at = 1601000;
  consumed_at = none;
  created_at = 1001000;
}

abbrev confirmed : ConfirmPayout
confirmed = record { intent_id = 3; code = "271828"; idempotency_key = "p1" }

confirm-IsConsented_example :
    IsConsented
      (λ _ code. code)
      payouts_env
      transfer_env
      1002000
      8
      110
      7
      confirmed
      (sent_code ∷ [])
      busy
      (confirm
        (λ _ code. code)
        payouts_env
        transfer_env
        1002000
        8
        110
        7
        confirmed
        (sent_code ∷ [])
        busy).0
confirm-IsConsented_example =
    confirm-IsConsented (λ _ code. code) payouts_env transfer_env 1002000 8 110 7 confirmed
      (sent_code ∷ []) busy

-- The confirmation above goes through: the code is used, and the cents are held.
code_used :
    (consume
      (λ _ code. code)
      (record { now = 1002000; user_id = 7; purpose = withdrawal; code = "271828"; id = some 3 })
      (sent_code ∷ []))
    ≡ (ok (some to_abebe), record sent_code { consumed_at = some 1002000 } ∷ [])
unfolding consume candidate newest gate compare_code is_six_digits claim_row find_row update_row
code_used = refl

code_held :
    balance
      (user_account 7 etb)
      (confirm
        (λ _ code. code)
        payouts_env
        transfer_env
        1002000
        8
        110
        7
        confirmed
        (sent_code ∷ [])
        busy).0.1.entries
    ≡ pos 75000
unfolding consume candidate newest gate compare_code is_six_digits claim_row find_row update_row
    confirm request find_by_key balance assert_can_move_money is_frozen has_freeze account_gate
    ensure_user_account system_account_id request_tx claim_payout new_payout run_request
    lock_and_read_balances has_account judge_request finish_request day_totals daily_limit_code
    post_transaction posted per_asset add_to unbalanced entry_rows ◌+ℤ◌ after_hold manual_reason
    balances_of eat_day_start_utc
code_held = refl

abbrev told_before : List StuckMark
told_before = record { payout_id = 6; expires_at = 9000000 } ∷ []

sweep-Sound_example : IsSound (Sweep.sweep transfer_env 8000000 111 told_before busy).0.1
sweep-Sound_example = sweep-Sound transfer_env 8000000 111 told_before busy busy-Sound (refl, tt)

abbrev rewarding : Db
rewarding = record busy { holding_tiers = ruby ∷ [] }

abbrev half_a_gram : CreateDelivery
half_a_gram = record { asset = xau; grams_mg = 500 }

create-IsOpened_example :
    Ends 12 7 half_a_gram rewarding (Asked.create none 12 7 half_a_gram rewarding).1
create-IsOpened_example = create-IsOpened none 12 7 half_a_gram rewarding
