-- ===== src/Tests/Services.antt =====
-- The theorems on deposits, withdrawals and deliveries, at work on rows.
use alkeva.Common.{
  ◌<◌, ◌⊎◌, Option, In, ◌+◌, ◌≡◌, ◌≢◌, refl, ap, true, false, none, some, List, [], ◌∷◌, length,
  arith, String,
}
use alkeva.Common.Int.{pos, ◌+ℤ◌}
use alkeva.Common.Table.{find_row, claim_row, sum_by}
use alkeva.Assets.{MetalAsset, xau, xpt, delivery_hold}
use alkeva.Schema.{
  Db, DeliveryRequest, DeliveryStatus, Payment, PaymentStatus, Payout, PayoutStatus, system_account,
  LedgerEntry,
}
use alkeva.Request.{ok}
use alkeva.Ledger.{
  entry_rows, balance, per_asset, add_to, unbalanced, posted, post_transaction, has_account,
  lock_and_read_balances, ensure_user_account, system_account_id,
}
use alkeva.Books.{IsSound, held_mg}
use alkeva.Tests.Data.{busy, sent}
use alkeva.Tests.State.{busy-Sound}
use alkeva.Delivery.{decide, approve}
use alkeva.Delivery.Decisions.{decide-Sound}
use alkeva.Chapa.{
  is_failed, is_ok, ChapaEnv, Reply, replied, unreachable, Envelope, EnvelopeStatus, api_error,
  request_raw, verify, etb_to_cents, times_100, excess_bits, half_even, math_round,
  cents_to_etb_string, verify_webhook_signature,
}
use alkeva.Chapa.Amounts.{decimal_of, cents_to_etb_string-decimal}
use alkeva.Chapa.Answers.{request_raw-definitive, verify_webhook_signature-signed}
use alkeva.Payments.{
  PaymentsEnv, VerifyData, find_payment, settle_by_tx_ref, agrees, apply_verified, credit,
  credit_tx, finish_credit, post_credit,
}
use alkeva.Payments.Requests.{handle_charge_event}
use alkeva.Payments.Handlers.{handle_charge_event-Sound}
use alkeva.Payments.Verified.{Credited, settle_by_tx_ref-confirmed}
use alkeva.Payments.Once.{settle_by_tx_ref-once}
use alkeva.Payouts.Transfer.{TransferEnv, execute_transfer}
use alkeva.Payouts.Transfer
use alkeva.Payouts.Transfers.{approve-Sound}
use alkeva.Payouts.Webhooks.{IsAmbiguous, Waiting, execute_transfer-ambiguous}

abbrev chapa : ChapaEnv
chapa = record { chapa_secret_key = "CHASECK_TEST-1"; chapa_webhook_hash = "" }

abbrev bar : DeliveryRequest
bar = record {
  id = 11;
  user_id = 7;
  asset = xau;
  grams_mg = 500;
  status = DeliveryStatus.requested;
  reviewer_id = none;
}

abbrev asking : Db
asking = record busy {
  accounts = system_account (delivery_hold xau) ∷ busy.accounts;
  deliveries = bar ∷ [];
}

asking_escrow :
    (m : MetalAsset)
    → balance (system_account (delivery_hold m)) asking.entries
      ≡ pos (sum_by (held_mg m) asking.deliveries)
unfolding balance ◌+ℤ◌
asking_escrow xau = refl
asking_escrow xpt = refl

asking-Sound : IsSound asking
asking-Sound = record {
  solvent = busy-Sound.solvent;
  reserved = busy-Sound.reserved;
  zero_sum = busy-Sound.zero_sum;
  payout_escrow = busy-Sound.payout_escrow;
  delivery_escrow = asking_escrow;
}

decide-Sound_example : IsSound (decide approve 105 11 9 asking).1
decide-Sound_example = decide-Sound approve 105 11 9 asking asking-Sound

cents_to_etb_string-decimal_example :
    decimal_of (cents_to_etb_string 123405) ≡ record { digits = 123405; scale = 2 }
cents_to_etb_string-decimal_example = cents_to_etb_string-decimal 123405

-- The double next to 4.35, whose hundredfold is below 435 in doubles, becomes 435 cents.
noise : etb_to_cents (record { mantissa = 2448832297382707; up = 0; down = 49 }) ≡ 435
unfolding etb_to_cents times_100 excess_bits half_even math_round
noise = refl

abbrev refusal : Reply String
refusal = replied 400 (record { status = EnvelopeStatus.failed; payload = none })

refused_as : request_raw chapa refusal ≡ api_error 400 true
unfolding request_raw
refused_as = refl

request_raw-definitive_example :
    (400 < 500)
    × (envelope : Envelope String) × (refusal ≡ replied 400 envelope)
    × ((is_failed envelope.status ≡ true) ⊎ (is_ok 400 ≡ false))
request_raw-definitive_example = request_raw-definitive chapa refusal 400 refused_as

abbrev deposit : Payment
deposit = record {
  id = 12;
  user_id = 7;
  chapa_tx_ref = 77;
  amount_cents = 50000;
  status = PaymentStatus.initiated;
  created_at = 1000;
  credited_at = none;
}

abbrev paying : Db
paying = record busy { payments = deposit ∷ [] }

abbrev paid_data : VerifyData
paid_data = record {
  status = "success";
  currency = "ETB";
  mode = "test";
  amount = record { mantissa = 500; up = 0; down = 0 };
}

abbrev payments_env : PaymentsEnv
payments_env = record {
  chapa = chapa;
  deposit_min_cents = 1000;
  verify_reply =
      λ _. replied 200 (record { status = EnvelopeStatus.success; payload = some paid_data });
  initialize = λ _ _. true;
  to_lower_case = λ s. s;
}

handle_charge_event-Sound_example :
    IsSound (handle_charge_event payments_env 2000 106 77 "charge.success" paying).1
handle_charge_event-Sound_example =
    handle_charge_event-Sound payments_env 2000 106 77 "charge.success" paying busy-Sound

signed :
    verify_webhook_signature
      (λ secret _. secret)
      (λ text. text)
      chapa
      ("CHASECK_TEST-1" ∷ [])
      (some "{}")
    ≡ true
unfolding verify_webhook_signature
signed = refl

verify_webhook_signature-signed_example :
    (raw_body : String) × (Path (Option String) (some "{}") (some raw_body))
    × (secret : String) × (secret ≢ "")
    × ((secret ≡ chapa.chapa_webhook_hash) ⊎ (secret ≡ chapa.chapa_secret_key))
    × (In secret ("CHASECK_TEST-1" ∷ []) ⊎ In secret ("CHASECK_TEST-1" ∷ []))
verify_webhook_signature-signed_example =
    verify_webhook_signature-signed (λ secret _. secret) (λ text. text) chapa
      ("CHASECK_TEST-1" ∷ []) (some "{}") signed

settle_by_tx_ref-confirmed_example :
    ((settle_by_tx_ref payments_env 2000 106 77 paying).1.entries ≡ paying.entries)
    ⊎ Credited payments_env 2000 77 paying (settle_by_tx_ref payments_env 2000 106 77 paying).1
settle_by_tx_ref-confirmed_example = settle_by_tx_ref-confirmed payments_env 2000 106 77 paying

deposit_once :
    (p : Payment)
    → find_payment 77 paying ≡ some p
    → find_row (λ (p : Payment). p.id) p.id paying.payments ≡ some p
unfolding find_row
deposit_once p e = rw (← same e) refl
  where
    same : {q : Payment} → some deposit ≡ some q → deposit ≡ q
    same e = cc

two_more :
    length (settle_by_tx_ref payments_env 2000 106 77 paying).1.entries ≡ 2 + length paying.entries
unfolding settle_by_tx_ref apply_verified agrees credit credit_tx finish_credit post_credit
    ensure_user_account system_account_id lock_and_read_balances has_account post_transaction posted
    per_asset add_to unbalanced verify request_raw etb_to_cents times_100 excess_bits half_even
    math_round ◌+ℤ◌ claim_row find_row entry_rows
two_more = refl

changed : (settle_by_tx_ref payments_env 2000 106 77 paying).1.entries ≢ paying.entries
changed e =
    let f = ap (λ (es : List LedgerEntry). length es) e in let g = two_more in absurd (omega arith)

-- The database some time later, with other rows.
abbrev settled_before : Db
settled_before = record (settle_by_tx_ref payments_env 2000 106 77 paying).1 {
  deliveries = bar ∷ [];
}

settle_by_tx_ref-once_example :
    settle_by_tx_ref payments_env 3000 107 77 settled_before ≡ (ok tt, settled_before)
settle_by_tx_ref-once_example =
    settle_by_tx_ref-once payments_env payments_env 2000 3000 106 107 77 paying settled_before
      deposit_once changed refl

abbrev pub transfer_env : TransferEnv
transfer_env = record {
  chapa = chapa;
  payout_min_cents = 1000;
  payout_auto_approve_max_cents = 0;
  compliance_review_threshold_cents = 50000000;
  transfer_reply = λ _. unreachable;
  verify_reply =
      λ _. replied 200 (record { status = EnvelopeStatus.success; payload = some "success" });
  to_lower_case = λ s. s;
  name_tokens = λ s. s ∷ [];
}

approve-Sound_example : IsSound (Transfer.approve transfer_env 2000 108 6 9 busy).1
approve-Sound_example = approve-Sound transfer_env 2000 108 6 9 busy busy-Sound

abbrev asked_for : Payout
asked_for = record sent {
  status = PayoutStatus.requested;
  chapa_transfer_ref = none;
  approved_by = none;
}

abbrev requesting : Db
requesting = record busy { payouts = asked_for ∷ [] }

no_answer : IsAmbiguous (request_raw chapa (transfer_env.transfer_reply 6))
unfolding request_raw
no_answer = tt

execute_transfer-ambiguous_example :
    Waiting transfer_env 2000 108
      (some 9)
      asked_for
      requesting
      (execute_transfer transfer_env 2000 108 (some 9) "payout_approved" asked_for requesting)
execute_transfer-ambiguous_example =
    execute_transfer-ambiguous transfer_env 2000 108 (some 9) "payout_approved" asked_for requesting
      no_answer
