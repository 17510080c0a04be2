-- ===== src/Ledger.antt =====
-- apps/api/src/ledger/ledger.service.ts: the only code that writes ledger entries, the balances
-- that are read from them, and the gates that every money path asks.
pub mod Balance
pub mod Post
pub mod Reads
pub mod Accounts
pub mod Move
pub mod Accepts
pub mod Refines
use alkeva.Common.{
  ℕ, ◌+◌, Bool, true, false, not, ◌&&◌, ◌||◌, Option, none, some, List, [], ◌∷◌, ◌++◌, map, ◌==◌,
  ltb, if◌then◌else◌, any, all, filter, is_some,
}
use alkeva.Common.Int.{ℤ, pos, ◌+ℤ◌, eqb_ℤ}
use alkeva.Common.Table.{find_row, find_where}
use alkeva.Assets.{Asset, asset_eq, SystemAccountName, system_account_asset}
use alkeva.Codes.{
  Code, account_create_failed, system_account_missing, account_missing, ledger_unbalanced,
  ledger_empty_transaction, ledger_entry_refused, account_frozen, staff_account, email_unverified,
  kyc_required,
}
use alkeva.Schema.{
  Db, AccountId, user_account, system_account, account_eq, LedgerEntry, TxnKind, User, Freeze,
  is_role_user, is_frozen_status,
}
use alkeva.Request.{Action, pure, raise, gets, or_raise, raise_if, modify, ◌>>=◌, ◌>>◌}

pub record EntrySpec : Type 0 where
  pub account_id : AccountId
  pub asset : Asset
  pub amount : ℤ

pub record PostTxnSpec : Type 0 where
  pub kind : TxnKind
  pub subject : Option ℕ
  pub initiated_by : Option ℕ
  pub entries : List EntrySpec

unfoldable pub has_account : AccountId → List AccountId → Bool
has_account a [] = false
has_account a (b ∷ bs) = account_eq b a || has_account a bs

-- `insert … on conflict do nothing`
abbrev pub insert_account : AccountId → Db → Db
insert_account a db =
    if has_account a db.accounts then db else record db { accounts = a ∷ db.accounts }

-- `ensureUserAccount`
unfoldable pub ensure_user_account : ℕ → Asset → Action AccountId
unfolding has_account
ensure_user_account user_id asset = do
  let id = user_account user_id asset
  modify (insert_account id)
  found ← gets (λ db. has_account id db.accounts)
  raise_if (not found) account_create_failed
  pure id

-- `systemAccountId`; its cache holds ids that never change, so the read stands for it.
unfoldable pub system_account_id : SystemAccountName → Action AccountId
unfolding has_account
system_account_id name = do
  found ← gets (λ db. has_account (system_account name) db.accounts)
  raise_if (not found) system_account_missing
  pure (system_account name)

-- The sum of an account's entries.
unfoldable pub balance : AccountId → List LedgerEntry → ℤ
balance a [] = pos 0
balance a (e ∷ es) = if account_eq e.account_id a then e.amount +ℤ balance a es else balance a es

-- What `lockAndReadBalances` returns: the balances of the locked accounts, by id; an id outside
-- the lock set reads as 0 (`balances.get(id) ?? 0n`).
abbrev pub Balances : Type 0
Balances = AccountId → ℤ

unfoldable pub balances_of : List AccountId → List LedgerEntry → Balances
balances_of ids entries a = if any (λ b. account_eq b a) ids then balance a entries else pos 0

-- `lockAndReadBalances`.
unfoldable pub lock_and_read_balances : List AccountId → Action Balances
unfolding has_account
lock_and_read_balances ids = do
  locked ← gets (λ db. all (λ a. has_account a db.accounts) ids)
  raise_if (not locked) account_missing
  gets (λ db. balances_of ids db.entries)

-- `perAsset`: a map in the order in which its keys were set.
unfoldable pub add_to : Asset → ℤ → List (Asset × ℤ) → List (Asset × ℤ)
add_to a x [] = (a, x) ∷ []
add_to a x ((b, y) ∷ m) = if asset_eq b a then (b, y +ℤ x) ∷ m else (b, y) ∷ add_to a x m

unfoldable pub per_asset : List (Asset × ℤ) → List EntrySpec → List (Asset × ℤ)
per_asset m [] = m
per_asset m (e ∷ es) = per_asset (add_to e.asset e.amount m) es

-- The first asset whose total is not zero.
unfoldable pub unbalanced : List (Asset × ℤ) → Option Asset
unbalanced [] = none
unbalanced ((a, total) ∷ m) = if eqb_ℤ total (pos 0) then unbalanced m else some a

abbrev pub is_nonzero : EntrySpec → Bool
is_nonzero e = not (eqb_ℤ e.amount (pos 0))

unfoldable pub entry_rows : ℕ → List EntrySpec → List LedgerEntry
entry_rows txn_id [] = []
entry_rows txn_id (e ∷ es) =
    record {
      transaction_id = txn_id;
      account_id = e.account_id;
      asset = e.asset;
      amount = e.amount;
    }
    ∷ entry_rows txn_id es

abbrev raise_unbalanced : Option Asset → Action (Unit {0})
raise_unbalanced none = pure tt
raise_unbalanced (some a) = raise (ledger_unbalanced a)

abbrev pub is_empty : List EntrySpec → Bool
is_empty [] = true
is_empty (e ∷ es) = false

-- The two inserts of `postTransaction`; entries of zero are omitted.
unfoldable pub posted : ℕ → PostTxnSpec → Db → Db
posted txn_id spec db = record db {
  transactions =
      record {
        id = txn_id;
        kind = spec.kind;
        subject = spec.subject;
        initiated_by = spec.initiated_by;
      }
      ∷ db.transactions;
  entries = entry_rows txn_id (filter is_nonzero spec.entries) ++ db.entries;
}

abbrev pub asset_of : AccountId → Asset
asset_of (user_account user_id asset) = asset
asset_of (system_account name) = system_account_asset name

-- The trigger `ledger_entry_asset_match` of packages/db/migrations/0001: the account must be there, and
-- the entry in its asset.
abbrev pub fits : List AccountId → EntrySpec → Bool
fits accounts e = has_account e.account_id accounts && asset_eq (asset_of e.account_id) e.asset

-- `postTransaction`, with the id of the new transaction.
unfoldable pub post_transaction : ℕ → PostTxnSpec → Action ℕ
unfolding per_asset add_to unbalanced has_account
post_transaction txn_id spec = do
  let entries = filter is_nonzero spec.entries
  raise_unbalanced (unbalanced (per_asset [] entries))
  raise_if (is_empty entries) ledger_empty_transaction
  fitting ← gets (λ db. all (fits db.accounts) entries)
  raise_if (not fitting) ledger_entry_refused
  modify (posted txn_id spec)
  pure txn_id

-- An unlifted freeze row of the user.
unfoldable pub has_freeze : ℕ → List Freeze → Bool
has_freeze user_id [] = false
has_freeze user_id (f ∷ fs) =
    f.user_id == user_id && not (is_some f.lifted_at) || has_freeze user_id fs

abbrev pub find_user : ℕ → Db → Option User
find_user user_id db = find_row (λ (u : User). u.id) user_id db.users

-- `isFrozen`: a user that is not there counts as frozen.
unfoldable pub is_frozen : ℕ → Db → Bool
is_frozen user_id db = elim (find_user user_id db) [
  | none ↦ true
  | some u ↦ is_frozen_status u.status || has_freeze user_id db.freezes
]

abbrev gate_of : User → Option Code
gate_of u =
    if not (is_role_user u.role)
    then some staff_account
    else if not (is_some u.email_verified_at)
    then some email_unverified
    else if ltb u.kyc_tier 1
    then some kyc_required
    else none

-- `accountGate`
unfoldable pub account_gate : ℕ → Db → Option Code
account_gate user_id db = elim (find_user user_id db) [
  | none ↦ some kyc_required
  | some u ↦ gate_of u
]

-- `assertCanMoveMoney`
unfoldable pub assert_can_move_money : ℕ → Action (Unit {0})
assert_can_move_money user_id = do
  frozen ← gets (is_frozen user_id)
  raise_if frozen account_frozen
  gate ← gets (account_gate user_id)
  elim gate [ none ↦ pure tt | some code ↦ raise code ]

-- `balancesForUser`: one asset of the answer.
pub balance_for_user : ℕ → Asset → Db → ℤ
unfolding has_account
balance_for_user user_id asset db =
    if has_account (user_account user_id asset) db.accounts
    then balance (user_account user_id asset) db.entries
    else pos 0
