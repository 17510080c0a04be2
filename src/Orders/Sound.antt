-- ===== src/Orders/Sound.antt =====
-- Trades keep the books sound.
use alkeva.Common.{
  ℕ, ◌≡◌, inl, inr, true, false, none, ◌==◌, if◌then◌else◌, arith, Bool-cases, ◌⊎◌, ==_iff,
}
use alkeva.Common.Int.{ℤ, pos, ◌+ℤ◌, ◌≤ℤ◌, int_laws, int_neg, zero-+ℤ, +ℤ-zero, neg}
use alkeva.Assets.{
  Asset, MetalAsset, OrderSide, buy, sell, etb, metal, vault, payout_hold, delivery_hold, metal_eq,
  xau, xpt,
}
use alkeva.Schema.{Db, Quote, AccountId, user_account, system_account}
use alkeva.Request.{ok}
use alkeva.Ledger.{balance, PostTxnSpec}
use alkeva.Ledger.Balance.{delta}
use alkeva.Ledger.Post.{Moved}
use alkeva.Books.{Sound, IsSound}
use alkeva.Books.Postings.{posting-Sound}
use alkeva.Orders.Queries.{physical_mg}
use alkeva.Orders.Gates.{
  TradeAccounts, accounts_of, buy_gates, sell_gates, trade_gates, trade_entries,
}

-- What the gates of a trade have checked of the balances that they read.
abbrev pub Covers : OrderSide → (AccountId → ℤ) → ℤ → TradeAccounts → Quote → Type 0
Covers buy balance physical a q =
    (pos q.total_cents ≤ℤ balance a.user_etb) × (pos q.grams_mg ≤ℤ physical +ℤ balance a.vault)
Covers sell balance physical a q = (pos q.grams_mg ≤ℤ balance a.user_metal) × Unit

pub trade_gates-Covers :
    (side : OrderSide) (now : ℕ) (a : TradeAccounts) (q : Quote) (balance : AccountId → ℤ) (db : Db)
    → trade_gates side now a q balance db ≡ ok none
    → Covers side balance (physical_mg q.asset db.vault_holdings) a q
unfolding buy_gates sell_gates
trade_gates-Covers buy now a q balance db h = ground arith
trade_gates-Covers sell now a q balance db h = ground arith

-- What a trade moves on an account of its customer.
abbrev own_delta : OrderSide → Quote → Asset → ℤ
own_delta buy q etb = neg q.total_cents
own_delta buy q (metal m) = if metal_eq q.asset m then pos q.grams_mg else pos 0
own_delta sell q etb = pos q.total_cents
own_delta sell q (metal m) = if metal_eq q.asset m then neg q.grams_mg else pos 0

delta-user :
    (side : OrderSide) (user u : ℕ) (q : Quote) (a : Asset)
    → delta (user_account u a) (trade_entries side (accounts_of user q.asset) q)
      ≡ (if user == u then own_delta side q a else pos 0)
delta-user buy user u q etb = ground (arith, +ℤ-zero (neg q.total_cents))
delta-user buy user u q (metal m) = ground (arith, +ℤ-zero (pos q.grams_mg))
delta-user sell user u q etb = ground (arith, +ℤ-zero (pos q.total_cents))
delta-user sell user u q (metal m) = ground (arith, +ℤ-zero (neg q.grams_mg))

-- What a trade moves on a vault account.
abbrev vault_delta : OrderSide → Quote → MetalAsset → ℤ
vault_delta buy q m = if metal_eq q.asset m then neg q.grams_mg else pos 0
vault_delta sell q m = if metal_eq q.asset m then pos q.grams_mg else pos 0

delta-vault :
    (side : OrderSide) (user : ℕ) (q : Quote) (m : MetalAsset)
    → delta (system_account (vault m)) (trade_entries side (accounts_of user q.asset) q)
      ≡ vault_delta side q m
delta-vault buy user q xau = ground (arith, +ℤ-zero (neg q.grams_mg))
delta-vault buy user q xpt = ground (arith, +ℤ-zero (neg q.grams_mg))
delta-vault sell user q xau = ground (arith, +ℤ-zero (pos q.grams_mg))
delta-vault sell user q xpt = ground (arith, +ℤ-zero (pos q.grams_mg))

delta-payout_hold :
    (side : OrderSide) (user : ℕ) (q : Quote)
    → delta (system_account payout_hold) (trade_entries side (accounts_of user q.asset) q) ≡ pos 0
delta-payout_hold buy user q = ground arith
delta-payout_hold sell user q = ground arith

delta-delivery_hold :
    (side : OrderSide) (user : ℕ) (q : Quote) (m : MetalAsset)
    → delta (system_account (delivery_hold m)) (trade_entries side (accounts_of user q.asset) q)
      ≡ pos 0
delta-delivery_hold buy user q xau = ground arith
delta-delivery_hold buy user q xpt = ground arith
delta-delivery_hold sell user q xau = ground arith
delta-delivery_hold sell user q xpt = ground arith

pub metal_eq→eq : (m n : MetalAsset) → metal_eq m n ≡ true → m ≡ n
metal_eq→eq m n h = ground arith

-- The customer of a trade keeps a balance of zero or more in every asset.
own_covered :
    (side : OrderSide) (q : Quote) (real : AccountId → ℤ) (physical : ℤ) (user : ℕ) (a : Asset)
    → Covers side real physical (accounts_of user q.asset) q
    → pos 0 ≤ℤ real (user_account user a)
    → pos 0 ≤ℤ own_delta side q a +ℤ real (user_account user a)
own_covered buy q real physical user etb c h = omega int_neg
own_covered buy q real physical user (metal m) c h = elim (Bool-cases (metal_eq q.asset m)) [
  | inl e ↦ rw e (omega int_laws)
  | inr e ↦ rw e (omega int_laws)
]
own_covered sell q real physical user etb c h = omega int_laws
own_covered sell q real physical user (metal m) c h = elim (Bool-cases (metal_eq q.asset m)) [
  | inl e ↦ rw (e, ← metal_eq→eq q.asset m e) (omega int_neg)
  | inr e ↦ rw e (omega int_laws)
]

-- The vault still covers what is owed in every metal.
vault_covered :
    (side : OrderSide) (q : Quote) (real : AccountId → ℤ) (user : ℕ) (m : MetalAsset) (db : Db)
    → Covers side real (physical_mg q.asset db.vault_holdings) (accounts_of user q.asset) q
    → pos 0 ≤ℤ physical_mg m db.vault_holdings +ℤ real (system_account (vault m))
    → pos 0
      ≤ℤ physical_mg m db.vault_holdings
        +ℤ (vault_delta side q m +ℤ real (system_account (vault m)))
vault_covered buy q real user m db c h = elim (Bool-cases (metal_eq q.asset m)) [
  | inl e ↦ rw (e, ← metal_eq→eq q.asset m e) (omega int_neg)
  | inr e ↦ rw e (omega int_laws)
]
vault_covered sell q real user m db c h = elim (Bool-cases (metal_eq q.asset m)) [
  | inl e ↦ rw e (omega int_laws)
  | inr e ↦ rw e (omega int_laws)
]

-- A trade that the gates let through keeps the books sound.
pub trade-Sound :
    (side : OrderSide) (user txn : ℕ) (q : Quote) (spec : PostTxnSpec) (before after : Db)
    → spec.entries ≡ trade_entries side (accounts_of user q.asset) q
    → Covers side
        (λ a. balance a before.entries)
        (physical_mg q.asset before.vault_holdings)
        (accounts_of user q.asset)
        q
    → Moved txn spec before after
    → IsSound before
    → Sound after.entries before.vault_holdings before.payouts before.deliveries
trade-Sound side user txn q spec before after e c m s =
    posting-Sound s m before.vault_holdings before.payouts before.deliveries
      (λ u a. rw (e, delta-user side user u q a) (users u a (Bool-cases (user == u))))
      (λ n.
        rw (e, delta-vault side user q n)
          (vault_covered side q (λ a. balance a before.entries) user n before c (s.reserved n)))
      (rw (e, delta-payout_hold side user q) (zero-+ℤ _))
      (λ n. rw (e, delta-delivery_hold side user q n) (zero-+ℤ _))
  where
    users :
        (u : ℕ) (a : Asset)
        → ((user == u) ≡ true) ⊎ ((user == u) ≡ false)
        → pos 0
          ≤ℤ (if user == u then own_delta side q a else pos 0)
            +ℤ balance (user_account u a) before.entries
    users u a (inl own) =
        rw (own, ← (==_iff user u).0 own)
          (own_covered side q (λ b. balance b before.entries)
            (physical_mg q.asset before.vault_holdings) user a c (s.solvent user a))
    users u a (inr other) = rw (other, zero-+ℤ _) (s.solvent u a)
