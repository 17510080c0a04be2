-- ===== src/Tests/Data.antt =====
-- Rows for the examples: a customer (7) with 800.00 ETB and a gram of gold, an officer (9), a gram at 15,000 ETB, five grams in the vault, an open quote (3), an order in review (5) and a payout on its way
-- (6).
use alkeva.Common.{ℕ, false, none, some, [], ◌∷◌}
use alkeva.Common.Int.{ℤ, pos, negsuc}
use alkeva.Assets.{
  xau, buy, etb, metal, cash, fees, tax, reforestation, external, payout_hold, vault,
}
use alkeva.Schema.{
  Db, AccountId, user_account, system_account, LedgerEntry, User, Role, UserStatus, PriceTick,
  Quote, open_quote, consumed, Order, OrderStatus, Payout, PayoutStatus, intake,
}
use alkeva.Quotes.{QuoteEnv, CreateQuote}
use alkeva.Orders.Gates.{OrdersEnv}
use alkeva.Orders.Execute.{CreateOrder, OrderIds}
use alkeva.Payouts.{PayoutsEnv}

abbrev pub quotes_env : QuoteEnv
quotes_env = record { quote_spread_bps = 100; quote_max_tick_age_sec = 90 }

abbrev pub orders_env : OrdersEnv
orders_env = record { compliance_review_threshold_cents = 50000000; review_max_age_min = 60 }

abbrev pub payouts_env : PayoutsEnv
payouts_env = record { payout_daily_max_count = 3; payout_daily_max_cents = 1000000 }

abbrev pub customer : User
customer = record {
  id = 7;
  role = Role.user;
  status = UserStatus.active;
  email_verified_at = some 1;
  kyc_tier = 1;
  holding_tier = none;
  created_at = 500000;
}

abbrev pub tick : PriceTick
tick = record {
  id = 1;
  asset = xau;
  usd_per_oz_micro = 3000000000;
  etb_rate_micro = 155520000;
  etb_cents_per_gram = 1500000;
  suspect = false;
  at = 1000000;
}

abbrev pub ask : CreateQuote
ask = record { side = buy; asset = xau; grams_mg = none; etb_cents = some 15150 }

abbrev pub open_row : Quote
open_row = record {
  id = 3;
  user_id = 7;
  side = buy;
  asset = xau;
  grams_mg = 10;
  price_tick_id = 1;
  unit_etb_cents_per_gram = 1515000;
  subtotal_cents = 15150;
  fee_cents = 151;
  tax_cents = 0;
  reforest_cents = 0;
  total_cents = 15301;
  status = open_quote;
  expires_at = 1030000;
}

abbrev pub used_row : Quote
used_row = record open_row { id = 4; status = consumed }

abbrev pub parked : Order
parked = record {
  id = 5;
  quote_id = 4;
  user_id = 7;
  side = buy;
  asset = xau;
  status = OrderStatus.review;
  idempotency_key = (7, "k0");
  ledger_transaction_id = none;
  failure_reason = none;
  receipt_serial = none;
  created_at = 1005000;
  settled_at = none;
}

abbrev pub sent : Payout
sent = record {
  id = 6;
  user_id = 7;
  amount_cents = 20000;
  status = PayoutStatus.processing;
  bank_code = 1;
  account_number = "1000";
  account_name = "Abebe Kebede";
  idempotency_key = (7, "p0");
  approved_by = some 9;
  chapa_transfer_ref = some 6;
  failure_reason = none;
  created_at = 1001000;
  settled_at = none;
}

abbrev pub place : CreateOrder
place = record { quote_id = 3; idempotency_key = "k1" }

abbrev pub ids : OrderIds
ids = record { order_id = 8; txn_id = 104 }

abbrev entry : ℕ → AccountId → ℤ → LedgerEntry
entry txn account amount = record {
  transaction_id = txn;
  account_id = account;
  asset = etb;
  amount = amount;
}

abbrev gold_entry : ℕ → AccountId → ℤ → LedgerEntry
gold_entry txn account amount = record {
  transaction_id = txn;
  account_id = account;
  asset = metal xau;
  amount = amount;
}

abbrev pub fresh : Db
fresh = record {
  accounts =
      user_account 7 etb
      ∷ user_account 7 (metal xau)
      ∷ system_account cash
      ∷ system_account (vault xau)
      ∷ system_account fees
      ∷ system_account tax
      ∷ system_account reforestation
      ∷ system_account external
      ∷ system_account payout_hold
      ∷ [];
  transactions = [];
  entries = [];
  users = customer ∷ [];
  freezes = [];
  price_ticks = tick ∷ [];
  quotes = [];
  orders = [];
  fee_config = some (record {
    commission_pct_milli = 1000;
    service_fee_cents = 0;
    tax_pct_milli = 0;
    reforest_pct_milli = 0;
  });
  treasury_config =
      some (record { halt_threshold_cents = 100000; daily_sellback_ceiling_cents = 1000000 });
  holding_tiers = [];
  payments = [];
  payouts = [];
  vault_holdings = [];
  deliveries = [];
  legal_names = [];
  compliance_events = [];
  audit_logs = [];
  notices = [];
  receipt_serial_seq = 1;
}

abbrev pub busy : Db
busy = record fresh {
  entries =
      entry 103 (user_account 7 etb) (negsuc 19999)
      ∷ entry 103 (system_account payout_hold) (pos 20000)
      ∷ entry 102 (user_account 7 etb) (pos 100000)
      ∷ entry 102 (system_account external) (negsuc 99999)
      ∷ gold_entry 100 (user_account 7 (metal xau)) (pos 1000)
      ∷ gold_entry 100 (system_account (vault xau)) (negsuc 999)
      ∷ entry 101 (system_account cash) (pos 500000)
      ∷ entry 101 (system_account external) (negsuc 499999)
      ∷ [];
  quotes = open_row ∷ used_row ∷ [];
  orders = parked ∷ [];
  payouts = sent ∷ [];
  vault_holdings = record { asset = xau; kind = intake; grams_mg = 5000; recorded_by = 9 } ∷ [];
}
