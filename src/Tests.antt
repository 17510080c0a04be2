-- ===== src/Tests.antt =====
-- The theorems at work on the rows of Tests/Data.
pub mod Data
pub mod State
pub mod Services
pub mod Figures
pub mod Messages
pub mod Withdrawals
use alkeva.Assets.Day.{eat_day_start_utc_midnight}
use alkeva.Quotes
use alkeva.Quotes.{latest_tick, newer, unit_price, normalize_amount, total_of}
use alkeva.Fees.{get_config, compute_fees}
use alkeva.Quotes.Figures.{
  IsTradeable, IsNewest, IsPriced, IsCharged, IsBalanced, create-IsPriced, create_within_budget,
}
use alkeva.Codes.{cannot_approve_own, chapa_refused}
use alkeva.Request.{ok, err}
use alkeva.Request.Keeps.{AllOk}
use alkeva.Ledger.{
  is_frozen, has_freeze, account_gate, Balances, balances_of, posted, PostTxnSpec,
  lock_and_read_balances, has_account, post_transaction, per_asset, add_to, unbalanced,
}
use alkeva.Ledger.Post.{MovedOrSame, post_transaction-MovedOrSame}
use alkeva.Orders.Execute.{judge, execute}
use alkeva.Orders.Review.{approve, resolve_review}
use alkeva.Orders.Refusals.{execute_replayed, resolve_review_own}
use alkeva.Orders.Gates.{
  accounts_of, lock_ids, execution_gates, compliance_gates, final_gates, verdict_of, buy_gates,
  push_if,
}
use alkeva.Orders.Settle.{settled}
use alkeva.Orders.Posts.{judge_settles, IsSettled}
use alkeva.Ledger.Accepts.{post_transaction_accepts}
use alkeva.Orders.Handlers.{execute-Sound}
use alkeva.Orders.Decisions.{resolve_review-Sound}
use alkeva.Treasury.{
  CapitalEntry, VaultEntry, inward, capital_entries, record_capital, record_vault, reserve_for,
}
use alkeva.Treasury.Sound.{record_vault-Sound, record_capital-Sound}
use alkeva.Treasury.Ratio.{reserve_for-Sound}
use alkeva.Payouts.{
  is_in_flight, settle_tx, refund_tx, finish_settlement, post_settlement, request_tx, settle_ledger,
  refund_if_status,
}
use alkeva.Payouts.Sound.{request_tx-AllOk}
use alkeva.Payouts.Release.{in_flight_held}
use alkeva.Payouts.Requests.{IsAmountOf, settle_ledger-Sound, refund_if_status-Sound}
use alkeva.Payouts.Once.{settle_tx-once}
use alkeva.Tests.State.{busy-Sound}
use alkeva.System.{Step, Reach, Reach-Sound}
use alkeva.Common.{
  ℕ, ◌==◌, refl, arith, true, false, inl, inr, Bool-cases, ◌≡◌, ◌↔◌, ◌+◌, ◌*◌, ◌/◌, ◌≤◌, ◌<◌, some,
  none, ◌∷◌,
}
use alkeva.Common.Int.{ℤ, pos, pos_part, neg_part, ◌+ℤ◌, ◌≤ℤ◌}
use alkeva.Common.Table.{sum_by, claim_row, find_row}
use alkeva.Assets.{
  Asset, MetalAsset, etb, metal, xau, xpt, vault, delivery_hold, eat_day_start_utc, eat_offset_ms,
  day_ms,
}
use alkeva.Schema.{
  Db, PriceTick, FeeConfig, Quote, Order, OrderStatus, user_account, system_account, PayoutStatus,
  outtake, TxnKind,
}
use alkeva.Books.{IsSound, held_mg, is_held_payout}
use alkeva.Ledger.{balance}
use alkeva.Ledger.Balance.{spec_total, asset_total}
use alkeva.Orders.Queries.{
  turnover_today, check_tier_caps, tier_of, lowest_tier, serialize, physical_mg,
}
use alkeva.Tests.Data.{
  parked, used_row, busy, fresh, quotes_env, orders_env, payouts_env, ask, open_row, tick, sent,
  ids, place,
}

abbrev capital : CapitalEntry
capital = record { direction = inward; amount_cents = 500000 }

-- Capital in, and a quote after it.
Reach-Sound_example :
    IsSound (Quotes.create quotes_env 1010000 3 7 ask (record_capital 101 9 capital fresh).1).1
Reach-Sound_example =
    Reach-Sound {quotes_env = quotes_env} {orders_env = orders_env} {payouts_env = payouts_env}
      {start = fresh}
      (record { no_entries = refl; no_vault_rows = refl; no_payouts = refl; no_deliveries = refl })
      (Reach.next (Reach.next Reach.here (Step.capital_entry 101 9 capital fresh))
        (Step.quote 1010000 3 7 ask (record_capital 101 9 capital fresh).1))

execute-Sound_example : IsSound (execute orders_env 1010000 ids 7 place busy).1
execute-Sound_example = execute-Sound orders_env 1010000 ids 7 place busy busy-Sound

resolve_review-Sound_example : IsSound (resolve_review orders_env 1010000 104 5 9 approve busy).1
resolve_review-Sound_example =
    resolve_review-Sound orders_env 1010000 104 9 5 approve busy busy-Sound

request_tx-AllOk_example :
    AllOk
      (λ _. IsSound)
      (request_tx payouts_env 1010000 104
        (record sent { id = 7; status = PayoutStatus.requested })
        busy)
request_tx-AllOk_example =
    request_tx-AllOk payouts_env 1010000 104
      (record sent { id = 7; status = PayoutStatus.requested }) busy busy-Sound refl

sent_amount : IsAmountOf sent busy
unfolding find_row
sent_amount r e = cc

settle_ledger-Sound_example : IsSound (settle_ledger 1010000 104 (some 9) sent busy).1
settle_ledger-Sound_example =
    settle_ledger-Sound 1010000 104 (some 9) sent busy busy-Sound sent_amount

refund_if_status-Sound_example :
    IsSound (refund_if_status 104 6 is_in_flight chapa_refused (some 9) busy).1
refund_if_status-Sound_example =
    refund_if_status-Sound 104 6 is_in_flight chapa_refused (some 9) busy in_flight_held busy-Sound

settle_tx-once_example :
    let db' = (settle_tx 1010000 104 (some 9) sent busy).1 in
    (settle_tx 1010001 105 none sent db' ≡ (ok false, db'))
    × (refund_tx 105 none is_held_payout chapa_refused sent db' ≡ (ok none, db'))
unfolding settle_tx finish_settlement post_settlement claim_row find_row lock_and_read_balances
    has_account post_transaction per_asset add_to unbalanced ◌+ℤ◌
settle_tx-once_example =
    settle_tx-once 1010000 1010001 104 105 (some 9) none chapa_refused sent busy refl

abbrev asked_quote : Quote
asked_quote = record open_row { expires_at = 1040000 }

create-IsPriced_example :
    (t : PriceTick) × (cfg : FeeConfig) × IsNewest ask.asset busy.price_ticks t
    × IsTradeable quotes_env 1010000 t
    × IsPriced quotes_env 1010000 ask t asked_quote
    × (busy.fee_config ≡ some cfg)
    × IsCharged cfg asked_quote
    × IsBalanced asked_quote
    × ((Quotes.create quotes_env 1010000 3 7 ask busy).1.quotes ≡ asked_quote ∷ busy.quotes)
unfolding Quotes.create latest_tick newer unit_price normalize_amount total_of get_config
    compute_fees
create-IsPriced_example =
    create-IsPriced quotes_env 1010000 3 7 ask busy asked_quote (omega arith) refl

create_within_budget_example :
    (1515000 * 10 ≤ 15150 * 1000) × (15150 * 1000 < 1515000 * 11) × (15150 ≤ 15150)
unfolding Quotes.create latest_tick newer unit_price normalize_amount total_of get_config
    compute_fees
create_within_budget_example =
    create_within_budget quotes_env 1010000 3 7 ask busy (record open_row { expires_at = 1040000 })
      15150 refl refl refl

abbrev transfer : PostTxnSpec
transfer = record {
  kind = TxnKind.treasury;
  subject = none;
  initiated_by = some 9;
  entries = capital_entries inward 500;
}

post_transaction-MovedOrSame_example :
    MovedOrSame 104 transfer busy (post_transaction 104 transfer busy)
post_transaction-MovedOrSame_example = post_transaction-MovedOrSame 104 transfer busy

abbrev vault_out : VaultEntry
vault_out = record { asset = xau; kind = outtake; grams_mg = 1000 }

record_vault-Sound_example : IsSound (record_vault 9 vault_out busy).1
record_vault-Sound_example = record_vault-Sound 9 vault_out busy busy-Sound

reserve_for-Sound_example :
    (pos 0 ≤ℤ (reserve_for xau busy).available_mg) × (pos 100000 ≤ℤ pos 500000)
unfolding reserve_for balance physical_mg ◌+ℤ◌
reserve_for-Sound_example = reserve_for-Sound xau busy (pos 500000) busy-Sound refl

eat_day_start_utc_midnight_example :
    (day : ℕ) × (eat_day_start_utc 1010000 +ℤ pos 10800000 ≡ pos (day * 86400000))
    × (eat_day_start_utc 1010000 ≤ℤ pos 1010000)
    × (pos_part (pos 1010000) + neg_part (eat_day_start_utc 1010000) + 1
        ≤ pos_part (eat_day_start_utc 1010000) + 86400000)
eat_day_start_utc_midnight_example = eat_day_start_utc_midnight 1010000

abbrev claimed : Order
claimed = record parked {
  id = 8;
  quote_id = 3;
  status = OrderStatus.created;
  idempotency_key = (7, "k1");
}

abbrev read : Balances
read = balances_of (lock_ids (accounts_of 7 xau) open_row) busy.entries

abbrev ordered : Db
ordered = record busy { orders = claimed ∷ busy.orders }

judge_settles_example :
    (o' : Order) × (after : Db) × (judge orders_env 1010000 104 7 claimed open_row read
        (some open_row)
        ordered
      ≡ (ok (settled o' open_row), after))
    × IsSettled 104 7 claimed o' open_row ordered after
unfolding execution_gates compliance_gates final_gates verdict_of buy_gates physical_mg balance
    balances_of lock_ids push_if is_frozen has_freeze account_gate find_row turnover_today
    check_tier_caps tier_of lowest_tier ◌+ℤ◌ eat_day_start_utc has_account
judge_settles_example =
    judge_settles orders_env 1010000 104 7 claimed open_row open_row read ordered refl refl refl
      refl (omega arith) refl refl refl
