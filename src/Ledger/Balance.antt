-- ===== src/Ledger/Balance.antt =====
-- Balances as sums over the ledger's entries.
use alkeva.Common.{
  ℕ, ◌≡◌, refl, Bool, true, false, List, [], ◌∷◌, ◌++◌, filter, if◌then◌else◌, arith, Bool-cases,
  inl, inr,
}
use alkeva.Common.Int.{ℤ, pos, ◌+ℤ◌, eqb_ℤ, eqb_ℤ→eq, int_laws}
use alkeva.Assets.{Asset, asset_eq}
use alkeva.Schema.{AccountId, account_eq, LedgerEntry}
use alkeva.Ledger.{EntrySpec, balance, entry_rows, is_nonzero}

-- What a list of entries moves on an account.
abbrev pub delta : AccountId → List EntrySpec → ℤ
delta a [] = pos 0
delta a (e ∷ es) = if account_eq e.account_id a then e.amount +ℤ delta a es else delta a es

-- The total of an asset over all accounts.
abbrev pub asset_total : Asset → List LedgerEntry → ℤ
asset_total a [] = pos 0
asset_total a (e ∷ es) =
    if asset_eq e.asset a then e.amount +ℤ asset_total a es else asset_total a es

abbrev pub spec_total : Asset → List EntrySpec → ℤ
spec_total a [] = pos 0
spec_total a (e ∷ es) = if asset_eq e.asset a then e.amount +ℤ spec_total a es else spec_total a es

-- A conditional term moves out of a sum on its right.
if-add :
    (b : Bool) (x s t r : ℤ)
    → s ≡ t +ℤ r
    → (if b then x +ℤ s else s) ≡ (if b then x +ℤ t else t) +ℤ r
if-add true x s t r h = rw h (omega int_laws)
if-add false x s t r h = h

if_same : (b : Bool) (x s t : ℤ) → s ≡ t → (if b then x +ℤ s else s) ≡ (if b then x +ℤ t else t)
if_same b x s t h = rw h

if_zero : (b : Bool) (x s t : ℤ) → x ≡ pos 0 → s ≡ t → s ≡ (if b then x +ℤ t else t)
if_zero true x s t z h = rw (h, z) (omega int_laws)
if_zero false x s t z h = h

pub balance-append :
    (a : AccountId) (xs ys : List LedgerEntry) → balance a (xs ++ ys) ≡ balance a xs +ℤ balance a ys
unfolding balance
balance-append a [] ys = omega int_laws
balance-append a (e ∷ xs) ys =
    if-add (account_eq e.account_id a) e.amount _ _ _ (balance-append a xs ys)

pub asset_total-append :
    (a : Asset) (xs ys : List LedgerEntry)
    → asset_total a (xs ++ ys) ≡ asset_total a xs +ℤ asset_total a ys
asset_total-append a [] ys = omega int_laws
asset_total-append a (e ∷ xs) ys =
    if-add (asset_eq e.asset a) e.amount _ _ _ (asset_total-append a xs ys)

pub balance-entry_rows :
    (txn : ℕ) (a : AccountId) (es : List EntrySpec) → balance a (entry_rows txn es) ≡ delta a es
unfolding balance entry_rows
balance-entry_rows txn a [] = refl
balance-entry_rows txn a (e ∷ es) = ground (arith, balance-entry_rows txn a es)

pub asset_total-entry_rows :
    (txn : ℕ) (a : Asset) (es : List EntrySpec)
    → asset_total a (entry_rows txn es) ≡ spec_total a es
unfolding entry_rows
asset_total-entry_rows txn a [] = refl
asset_total-entry_rows txn a (e ∷ es) = ground (arith, asset_total-entry_rows txn a es)

pub delta-filter :
    (a : AccountId) (es : List EntrySpec) → delta a (filter is_nonzero es) ≡ delta a es
delta-filter a [] = refl
delta-filter a (e ∷ es) = elim (Bool-cases (eqb_ℤ e.amount (pos 0))) [
  | inl z ↦ rw z (
      if_zero (account_eq e.account_id a) e.amount _ _ (eqb_ℤ→eq e.amount (pos 0) z)
        (delta-filter a es))
  | inr n ↦ rw n (if_same (account_eq e.account_id a) e.amount _ _ (delta-filter a es))
]

pub spec_total-filter :
    (a : Asset) (es : List EntrySpec) → spec_total a (filter is_nonzero es) ≡ spec_total a es
spec_total-filter a [] = refl
spec_total-filter a (e ∷ es) = elim (Bool-cases (eqb_ℤ e.amount (pos 0))) [
  | inl z ↦ rw z (
      if_zero (asset_eq e.asset a) e.amount _ _ (eqb_ℤ→eq e.amount (pos 0) z)
        (spec_total-filter a es))
  | inr n ↦ rw n (if_same (asset_eq e.asset a) e.amount _ _ (spec_total-filter a es))
]
