-- ===== src/Orders/Gates.antt =====
-- The checks of an order of apps/api/src/orders/orders.service.ts, in the order of the code. They
-- only read, so each run of checks is a function of the database that answers with a verdict.
use alkeva.Common.{
  ℕ, ◌+◌, Bool, ◌||◌, Option, none, some, List, [], ◌∷◌, ◌++◌, ltb, leb, if◌then◌else◌,
}
use alkeva.Common.Int.{pos, neg, ◌+ℤ◌, ◌-ℤ◌, ltb_ℤ}
use alkeva.Assets.{MetalAsset, SystemAccountName, OrderSide, buy, sell, etb, metal}
use alkeva.Codes.{
  Code, quote_consumed, account_frozen, insufficient_balance, insufficient_metal, reserve_halt,
  float_halt, sellback_ceiling, treasury_config_missing,
}
use alkeva.Schema.{Db, Quote, AccountId, user_account, system_account, is_consumed, is_expired}
use alkeva.Request.{Result, ok, err}
use alkeva.Ledger.{EntrySpec, Balances, is_frozen, account_gate}
use alkeva.Orders.Queries.{turnover_today, daily_sellback_used, physical_mg, check_tier_caps}

pub record OrdersEnv : Type 0 where
  pub compliance_review_threshold_cents : ℕ
  pub review_max_age_min : ℕ

-- The accounts of one trade.
pub record TradeAccounts : Type 0 where
  pub user_etb : AccountId
  pub user_metal : AccountId
  pub cash : AccountId
  pub vault : AccountId
  pub fees : AccountId
  pub tax : AccountId
  pub reforest : AccountId

abbrev pub accounts_of : ℕ → MetalAsset → TradeAccounts
accounts_of user_id asset = record {
  user_etb = user_account user_id etb;
  user_metal = user_account user_id (metal asset);
  cash = system_account SystemAccountName.cash;
  vault = system_account (SystemAccountName.vault asset);
  fees = system_account SystemAccountName.fees;
  tax = system_account SystemAccountName.tax;
  reforest = system_account SystemAccountName.reforestation;
}

unfoldable pub push_if : Bool → AccountId → List AccountId → List AccountId
push_if b a ids = if b then ids ++ a ∷ [] else ids

-- `lockIds`: the fee accounts are locked only where a fee goes to them.
unfoldable pub lock_ids : TradeAccounts → Quote → List AccountId
lock_ids a peeked = push_if (ltb 0 peeked.reforest_cents) a.reforest (
    push_if (ltb 0 peeked.tax_cents) a.tax
      (push_if (ltb 0 peeked.fee_cents) a.fees (a.user_etb ∷ a.user_metal ∷ a.cash ∷ a.vault ∷ [])))

-- A purchase: the customer's funds, then the reserve. The vault's ledger balance is the grams owed
-- to customers, negated.
unfoldable pub buy_gates : TradeAccounts → Quote → Balances → Db → Option Code
buy_gates a quote balance db =
    if ltb_ℤ (balance a.user_etb) (pos quote.total_cents)
    then some insufficient_balance
    else if ltb_ℤ (physical_mg quote.asset db.vault_holdings +ℤ balance a.vault)
        (pos quote.grams_mg)
    then some reserve_halt
    else none

-- A sale: the customer's metal, the cash float, and the day's ceiling. A missing treasury row is
-- an error, not a refusal.
unfoldable pub sell_gates : ℕ → TradeAccounts → Quote → Balances → Db → Result (Option Code)
sell_gates now a quote balance db =
    if ltb_ℤ (balance a.user_metal) (pos quote.grams_mg)
    then ok (some insufficient_metal)
    else elim db.treasury_config [
      | none ↦ err treasury_config_missing
      | some treasury ↦
          if ltb_ℤ (balance a.cash -ℤ pos quote.subtotal_cents) (pos treasury.halt_threshold_cents)
          then ok (some float_halt)
          else if ltb treasury.daily_sellback_ceiling_cents
              (daily_sellback_used now db + quote.total_cents)
          then ok (some sellback_ceiling)
          else ok none
    ]

abbrev pub trade_gates :
    OrderSide → ℕ → TradeAccounts → Quote → Balances → Db → Result (Option Code)
trade_gates buy now a quote balance db = ok (buy_gates a quote balance db)
trade_gates sell now a quote balance db = sell_gates now a quote balance db

-- What the checks decide; `park` says whether the order alone is over the line.
pub data Verdict : Type 0 where
  abort refuse : Code → Verdict
  expire : Verdict
  park : Bool → Verdict
  pass : Verdict

unfoldable pub verdict_of : Result (Option Code) → Verdict
verdict_of (ok none) = pass
verdict_of (ok (some code)) = refuse code
verdict_of (err code) = abort code

-- Tier caps, then the money gates: what a live order and an approval have in common.
unfoldable pub final_gates : ℕ → ℕ → TradeAccounts → Quote → Balances → Db → Verdict
unfolding verdict_of
final_gates now user_id a quote balance db =
    elim (check_tier_caps now user_id quote.total_cents db) [
      | some code ↦ refuse code
      | none ↦ verdict_of (trade_gates quote.side now a quote balance db)
    ]

-- The customer must hold what is traded before anything is parked for review.
abbrev pub unfunded : OrderSide → TradeAccounts → Quote → Balances → Option Code
unfunded buy a quote balance =
    if ltb_ℤ (balance a.user_etb) (pos quote.total_cents) then some insufficient_balance else none
unfunded sell a quote balance =
    if ltb_ℤ (balance a.user_metal) (pos quote.grams_mg) then some insufficient_metal else none

-- Compliance: an order over the line, or one that takes the day's turnover over it, is parked.
unfoldable pub compliance_gates :
    OrdersEnv → ℕ → ℕ → TradeAccounts → Quote → Balances → Db → Verdict
compliance_gates env now user_id a quote balance db =
    let line = env.compliance_review_threshold_cents in
    let over_line = leb line quote.total_cents in
    let over_daily = leb line (turnover_today now user_id db + quote.total_cents) in
    if over_line || over_daily then park over_line else final_gates now user_id a quote balance db

-- The checks of a live order from the locked quote on.
unfoldable pub execution_gates : OrdersEnv → ℕ → ℕ → TradeAccounts → Quote → Balances → Db → Verdict
execution_gates env now user_id a quote balance db =
    if is_consumed quote.status
    then refuse quote_consumed
    else if is_expired quote.status || leb quote.expires_at now
    then expire
    else if is_frozen user_id db
    then refuse account_frozen
    else elim (account_gate user_id db) [
      | some code ↦ refuse code
      | none ↦ elim (unfunded quote.side a quote balance) [
        | some code ↦ refuse code
        | none ↦ compliance_gates env now user_id a quote balance db
      ]
    ]

-- The double entries of a trade: the only movement of money in the flow.
abbrev pub trade_entries : OrderSide → TradeAccounts → Quote → List EntrySpec
trade_entries buy a quote =
    record { account_id = a.user_etb; asset = etb; amount = neg quote.total_cents }
    ∷ record { account_id = a.cash; asset = etb; amount = pos quote.subtotal_cents }
    ∷ record { account_id = a.fees; asset = etb; amount = pos quote.fee_cents }
    ∷ record { account_id = a.tax; asset = etb; amount = pos quote.tax_cents }
    ∷ record { account_id = a.reforest; asset = etb; amount = pos quote.reforest_cents }
    ∷ record { account_id = a.user_metal; asset = metal quote.asset; amount = pos quote.grams_mg }
    ∷ record { account_id = a.vault; asset = metal quote.asset; amount = neg quote.grams_mg }
    ∷ []
trade_entries sell a quote =
    record { account_id = a.cash; asset = etb; amount = neg quote.subtotal_cents }
    ∷ record { account_id = a.user_etb; asset = etb; amount = pos quote.total_cents }
    ∷ record { account_id = a.fees; asset = etb; amount = pos quote.fee_cents }
    ∷ record { account_id = a.tax; asset = etb; amount = pos quote.tax_cents }
    ∷ record { account_id = a.reforest; asset = etb; amount = pos quote.reforest_cents }
    ∷ record { account_id = a.user_metal; asset = metal quote.asset; amount = neg quote.grams_mg }
    ∷ record { account_id = a.vault; asset = metal quote.asset; amount = pos quote.grams_mg }
    ∷ []
