-- ===== src/Orders/Posts.antt =====
-- The posting of a trade (apps/api/src/orders/orders.service.ts) is never refused.
use alkeva.Common.{
  ℕ, ◌+◌, ◌<◌, ◌≡◌, refl, any, all, filter, true, Bool, List, [], ◌∷◌, ◌==◌, ◌∙◌, some, Bool-cases,
  inl, inr, arith,
}
use alkeva.Common.Int.{pos, int_neg, ◌+ℤ◌}
use alkeva.Common.Table.{find_row, find_row-update_row_self}
use alkeva.Assets.{
  Asset, MetalAsset, xau, xpt, asset_eq, etb, metal, metal_eq, OrderSide, buy, sell,
}
use alkeva.Schema.{Db, Quote, Order, OrderStatus, AccountId, consumed}
use alkeva.Request.{ok}
use alkeva.Request.Keeps.{bind-eq_ok}
use alkeva.Ledger.{
  Balances, EntrySpec, PostTxnSpec, is_nonzero, posted, balance, has_account, fits, asset_of,
}
use alkeva.Ledger.Post.{balance-posted}
use alkeva.Ledger.Balance.{spec_total, delta}
use alkeva.Ledger.Accepts.{post_transaction_accepts}
use alkeva.Quotes.Figures.{Splits, IsBalanced}
use alkeva.Orders.Gates.{
  OrdersEnv, execution_gates, TradeAccounts, accounts_of, Verdict, trade_entries,
}
use alkeva.Orders.Settle.{settled, post_trade, settle_order, kind_of}
use alkeva.Orders.Execute.{judge, carry_out, consume_and_settle}

trade_zero :
    (side : OrderSide) (user : ℕ) (q : Quote) (a : Asset)
    → Splits side q.subtotal_cents (q.fee_cents + q.tax_cents + q.reforest_cents) q.total_cents
    → spec_total a (trade_entries side (accounts_of user q.asset) q) ≡ pos 0
trade_zero buy user q etb h = omega int_neg
trade_zero buy user q (metal m) h = elim (Bool-cases (metal_eq q.asset m)) [
  | inl same ↦ rw same (omega int_neg)
  | inr other ↦ rw other refl
]
trade_zero sell user q etb h = omega int_neg
trade_zero sell user q (metal m) h = elim (Bool-cases (metal_eq q.asset m)) [
  | inl same ↦ rw same (omega int_neg)
  | inr other ↦ rw other refl
]

trade_nonzero :
    (side : OrderSide) (user : ℕ) (q : Quote)
    → 0 < q.grams_mg
    → any is_nonzero (trade_entries side (accounts_of user q.asset) q) ≡ true
trade_nonzero buy user q g = ground arith
trade_nonzero sell user q g = ground arith

-- The accounts of the trade exist.
abbrev pub HasAccounts : ℕ → Quote → Db → Type 0
HasAccounts user q db =
    all (λ (e : EntrySpec). has_account e.account_id db.accounts)
      (trade_entries q.side (accounts_of user q.asset) q)
    ≡ true

in_asset : EntrySpec → Bool
in_asset e = asset_eq (asset_of e.account_id) e.asset

all-in_asset :
    (side : OrderSide) (user : ℕ) (q : Quote)
    → all in_asset (trade_entries side (accounts_of user q.asset) q) ≡ true
unfolding in_asset
all-in_asset side user q = go side q.asset
  where
    go :
        (s : OrderSide) (m : MetalAsset)
        → all in_asset (trade_entries s (accounts_of user m) (record q { asset = m })) ≡ true
    go buy xau = refl
    go buy xpt = refl
    go sell xau = refl
    go sell xpt = refl

-- What is in the asset of its account fits, if the account is there.
all-fits :
    (accounts : List AccountId) (es : List EntrySpec)
    → all (λ (e : EntrySpec). has_account e.account_id accounts) es ≡ true
    → all in_asset es ≡ true
    → all (fits accounts) (filter is_nonzero es) ≡ true
unfolding in_asset
all-fits accounts [] h k = refl
all-fits accounts (e ∷ es) h k = ground (arith, all-fits accounts es)

-- What a settlement has left in the database.
pub record IsSettled (txn user : ℕ) (o o' : Order) (q : Quote) (before after : Db) : Type 0 where
  pub status : o'.status ≡ OrderStatus.settled
  pub transaction_id : o'.ledger_transaction_id ≡ some txn
  pub serial : o'.receipt_serial ≡ some before.receipt_serial_seq
  pub drawn : after.receipt_serial_seq ≡ before.receipt_serial_seq + 1
  pub stored : find_row (λ (r : Order). r.id) o.id after.orders ≡ some o'
  pub used :
      find_row (λ (r : Quote). r.id) q.id after.quotes ≡ some (record q { status = consumed })
  pub moved :
      (a : AccountId)
      → balance a after.entries
        ≡ delta a (trade_entries q.side (accounts_of user q.asset) q) +ℤ balance a before.entries

settles :
    (now txn user : ℕ) (o : Order) (q : Quote) (db : Db)
    → IsBalanced q
    → 0 < q.grams_mg
    → HasAccounts user q db
    → find_row (λ (r : Order). r.id) o.id db.orders ≡ some o
    → find_row (λ (r : Quote). r.id) q.id db.quotes ≡ some q
    → (o' : Order) × (after : Db) × (carry_out now txn user
          (accounts_of user q.asset)
          o
          q
          Verdict.pass
          db
        ≡ (ok (settled o' q), after))
      × IsSettled txn user o o' q db after
unfolding carry_out consume_and_settle settle_order post_trade posted
settles now txn user o q db balanced grams there order_row quote_row = (
  _,
  _,
  bind-eq_ok (post_trade txn user a o q) (consume_and_settle now o q) db accepted,
  record {
    status = refl;
    transaction_id = refl;
    serial = refl;
    drawn = refl;
    stored = find_row-update_row_self (λ (r : Order). r.id) o.id _ db.orders o order_row refl;
    used = find_row-update_row_self (λ (r : Quote). r.id) q.id _ db.quotes q quote_row refl;
    moved = λ x. balance-posted x txn spec db;
  },
)
  where
    a : TradeAccounts
    a = accounts_of user q.asset

    spec : PostTxnSpec
    spec = record {
      kind = kind_of q.side;
      subject = some o.id;
      initiated_by = some user;
      entries = trade_entries q.side a q;
    }

    accepted : post_trade txn user a o q db ≡ (ok txn, posted txn spec db)
    accepted =
        post_transaction_accepts txn spec db (λ x. trade_zero q.side user q x balanced)
          (trade_nonzero q.side user q grams)
          (all-fits db.accounts (trade_entries q.side a q) there (all-in_asset q.side user q))

judge-eq_pass :
    (env : OrdersEnv) (now txn user : ℕ) (o : Order) (q peeked : Quote) (balances : Balances)
    (db : Db)
    → (q.user_id == user) ≡ true
    → peeked.asset ≡ q.asset
    → execution_gates env now user (accounts_of user peeked.asset) q balances db ≡ Verdict.pass
    → judge env now txn user o peeked balances (some q) db
      ≡ carry_out now txn user (accounts_of user q.asset) o q Verdict.pass db
unfolding judge
judge-eq_pass env now txn user o q peeked balances db own same gates = rw (own, gates, same) refl

-- An order of the owner of the quote that passes every check is settled: the order's row has its
-- ledger transaction and the next receipt number, which is used up, the row of the quote is
-- consumed, and each balance has moved by the entries of the trade. The figures of a quote with metal
-- in it whose total is its subtotal with the fees are never refused by the ledger, if the accounts of
-- the trade exist.
pub judge_settles :
    (env : OrdersEnv) (now txn user : ℕ) (o : Order) (q peeked : Quote) (balances : Balances)
    (db : Db)
    → (q.user_id == user) ≡ true
    → peeked.asset ≡ q.asset
    → execution_gates env now user (accounts_of user peeked.asset) q balances db ≡ Verdict.pass
    → IsBalanced q
    → 0 < q.grams_mg
    → HasAccounts user q db
    → find_row (λ (r : Order). r.id) o.id db.orders ≡ some o
    → find_row (λ (r : Quote). r.id) q.id db.quotes ≡ some q
    → (o' : Order) × (after : Db) × (judge env now txn user o peeked balances (some q) db
        ≡ (ok (settled o' q), after))
      × IsSettled txn user o o' q db after
judge_settles env now txn user o q peeked balances db own same gates balanced grams there row row' =
    let (o', after, done, effect) = settles now txn user o q db balanced grams there row row' in
    (o', after, judge-eq_pass env now txn user o q peeked balances db own same gates ∙ done, effect)
