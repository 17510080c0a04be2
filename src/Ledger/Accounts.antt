-- ===== src/Ledger/Accounts.antt =====
-- Making account rows (apps/api/src/ledger/ledger.service.ts) changes nothing but account rows.
use alkeva.Common.{ℕ, Option, none, some, List, ◌∷◌, not, inl, inr, Bool-cases}
use alkeva.Assets.{Asset, SystemAccountName}
use alkeva.Codes.{Code, account_frozen, account_create_failed, system_account_missing}
use alkeva.Schema.{Db, AccountId, user_account, system_account}
use alkeva.Request.{Action, pure, raise, ok}
use alkeva.Request.Keeps.{Keeps, Keeps-raise_if}
use alkeva.Ledger.{
  has_account, insert_account, ensure_user_account, system_account_id, is_frozen, account_gate,
  assert_can_move_money,
}

module _ (P : Db → Type 0)
    (blind : (db : Db) (rows : List AccountId) → P db → P (record db { accounts = rows })) where
  inserted : (id : AccountId) → Keeps P (λ db. (ok tt, insert_account id db))
  inserted id db h = elim (Bool-cases (has_account id db.accounts)) [
    | inl there ↦ rw there h
    | inr missing ↦ rw missing (blind db (id ∷ db.accounts) h)
  ]

  pub ensure_user_account-Keeps : (u : ℕ) (a : Asset) → Keeps P (ensure_user_account u a)
  unfolding ensure_user_account
  ensure_user_account-Keeps u a db h =
      let id = user_account u a in
      let db' = insert_account id db in
      Keeps-raise_if P (not (has_account id db'.accounts)) account_create_failed (pure id)
        (λ _ p. p) db' (inserted id db h)

  pub system_account_id-Keeps : (n : SystemAccountName) → Keeps P (system_account_id n)
  unfolding system_account_id
  system_account_id-Keeps n db h =
      Keeps-raise_if P (not (has_account (system_account n) db.accounts)) system_account_missing
        (pure (system_account n)) (λ _ p. p) db h

-- The gate of the money paths only reads.
pub assert_can_move_money-Keeps : (P : Db → Type 0) (u : ℕ) → Keeps P (assert_can_move_money u)
unfolding assert_can_move_money
assert_can_move_money-Keeps P u db h =
    Keeps-raise_if P (is_frozen u db) account_frozen (λ d. gate (account_gate u d) d)
      (λ d p. passed (account_gate u d) d p) db h
  where
    gate : Option Code → Action (Unit {0})
    gate none = pure tt
    gate (some code) = raise code

    passed : (o : Option Code) → Keeps P (gate o)
    passed none d p = p
    passed (some code) d p = p
