-- ===== src/Ledger/Reads.antt =====
-- What the reads of apps/api/src/ledger/ledger.service.ts return.
use alkeva.Common.{
  ◌≡◌, refl, inl, inr, Bool, true, List, [], ◌∷◌, ◌++◌, any, all, arith, Bool-cases,
}
use alkeva.Assets.{etb, metal, xau, xpt}
use alkeva.Schema.{Db, AccountId, user_account, system_account, account_eq, LedgerEntry}
use alkeva.Request.Keeps.{AllOk}
use alkeva.Ledger.{Balances, balance, balances_of, has_account, lock_and_read_balances}

pub account_eq_refl : (a : AccountId) → account_eq a a ≡ true
account_eq_refl (user_account u etb) = ground arith
account_eq_refl (user_account u (metal xau)) = ground arith
account_eq_refl (user_account u (metal xpt)) = ground arith
account_eq_refl (system_account n) = ground arith

-- The balance of a locked account is the sum of its entries.
pub balances_of_locked :
    (ids : List AccountId) (entries : List LedgerEntry) (a : AccountId)
    → any (λ b. account_eq b a) ids ≡ true
    → balances_of ids entries a ≡ balance a entries
unfolding balances_of
balances_of_locked ids entries a h = rw h refl

pub any-append {ℓ} :
    {A : Type ℓ} (p : A → Bool) (xs ys : List A) → any p xs ≡ true → any p (xs ++ ys) ≡ true
any-append p [] ys h = cc
any-append p (x ∷ xs) ys h = ground (arith, any-append p xs ys)

-- Locking reads the balances and changes nothing.
pub lock_and_read_balances-AllOk :
    (Q : Balances → Db → Type 0) (ids : List AccountId) (db : Db)
    → Q (balances_of ids db.entries) db
    → AllOk Q (lock_and_read_balances ids db)
unfolding lock_and_read_balances
lock_and_read_balances-AllOk Q ids db h =
    elim (Bool-cases (all (λ a. has_account a db.accounts) ids)) [
      | inl e ↦ rw e h
      | inr e ↦ rw e tt
    ]
