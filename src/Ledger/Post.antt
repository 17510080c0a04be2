-- ===== src/Ledger/Post.antt =====
-- `postTransaction` of apps/api/src/ledger/ledger.service.ts: zero sums, and what a posting does.
use alkeva.Common.{
  ℕ, ◌≡◌, refl, sym, ◌⊎◌, inl, inr, Bool, true, false, none, List, [], ◌∷◌, ◌++◌, ◌∙◌, filter, all,
  if◌then◌else◌, arith, Bool-cases, Option-cases,
}
use alkeva.Common.Int.{ℤ, pos, ◌+ℤ◌, eqb_ℤ, eqb_ℤ→eq, int_laws, zero-+ℤ}
use alkeva.Assets.{Asset, asset_eq}
use alkeva.Codes.{Code, ledger_unbalanced, ledger_empty_transaction, ledger_entry_refused}
use alkeva.Schema.{Db, AccountId}
use alkeva.Request.{Result, ok, err}
use alkeva.Request.Keeps.{AllOk}
use alkeva.Ledger.{
  EntrySpec, PostTxnSpec, balance, add_to, per_asset, unbalanced, entry_rows, is_nonzero, is_empty,
  fits, posted, post_transaction,
}
use alkeva.Ledger.Balance.{
  delta, asset_total, spec_total, balance-append, asset_total-append, balance-entry_rows,
  asset_total-entry_rows, delta-filter, spec_total-filter,
}

pub asset_eq→eq : (a b : Asset) → asset_eq a b ≡ true → a ≡ b
asset_eq→eq a b h = ground arith

abbrev pub map_total : Asset → List (Asset × ℤ) → ℤ
map_total a [] = pos 0
map_total a ((b, x) ∷ m) = if asset_eq b a then x +ℤ map_total a m else map_total a m

-- One term more, of which `b` says whether it counts.
abbrev plus_if : Bool → ℤ → ℤ → ℤ
plus_if b x s = if b then x +ℤ s else s

merge : (b : Bool) (x y s : ℤ) → plus_if b (y +ℤ x) s ≡ plus_if b x (plus_if b y s)
merge true x y s = omega int_laws
merge false x y s = refl

swap : (b c : Bool) (x y s t : ℤ) → s ≡ plus_if b x t → plus_if c y s ≡ plus_if b x (plus_if c y t)
swap true true x y s t h = rw h (omega int_laws)
swap true false x y s t h = h
swap false true x y s t h = rw h refl
swap false false x y s t h = h

map_total-add_to :
    (a b : Asset) (x : ℤ) (m : List (Asset × ℤ))
    → map_total a (add_to b x m) ≡ plus_if (asset_eq b a) x (map_total a m)
unfolding add_to
map_total-add_to a b x [] = refl
map_total-add_to a b x ((c, y) ∷ m) = elim (Bool-cases (asset_eq c b)) [
  | inl same ↦ rw (same, asset_eq→eq c b same) (merge (asset_eq b a) x y (map_total a m))
  | inr other ↦ rw other (swap (asset_eq b a) (asset_eq c a) x y _ _ (map_total-add_to a b x m))
]

regroup : (b : Bool) (x s t : ℤ) → plus_if b x s +ℤ t ≡ s +ℤ plus_if b x t
regroup true x s t = omega int_laws
regroup false x s t = refl

pub map_total-per_asset :
    (a : Asset) (m : List (Asset × ℤ)) (es : List EntrySpec)
    → map_total a (per_asset m es) ≡ map_total a m +ℤ spec_total a es
unfolding per_asset
map_total-per_asset a m [] = omega int_laws
map_total-per_asset a m (e ∷ es) =
    map_total-per_asset a (add_to e.asset e.amount m) es
    ∙ (rw (map_total-add_to a e.asset e.amount m) (regroup (asset_eq e.asset a) e.amount _ _))

plus_if_zero : (b : Bool) (x s : ℤ) → x ≡ pos 0 → s ≡ pos 0 → plus_if b x s ≡ pos 0
plus_if_zero true x s hx hs = rw (hx, hs) (omega int_laws)
plus_if_zero false x s hx hs = hs

unbalanced-none : (a : Asset) (m : List (Asset × ℤ)) → unbalanced m ≡ none → map_total a m ≡ pos 0
unfolding unbalanced
unbalanced-none a [] h = refl
unbalanced-none a ((b, x) ∷ m) h = elim (Bool-cases (eqb_ℤ x (pos 0))) [
  | inl z ↦ plus_if_zero (asset_eq b a) x _ (eqb_ℤ→eq x (pos 0) z) (unbalanced-none a m (rw z at h))
  | inr n ↦ cc (rw n at h)
]

-- The check of `postTransaction` passes only what sums to zero in every asset.
unbalanced-spec_total :
    (a : Asset) (es : List EntrySpec)
    → unbalanced (per_asset [] es) ≡ none
    → spec_total a es ≡ pos 0
unbalanced-spec_total a es h =
    sym (zero-+ℤ _) ∙ (sym (map_total-per_asset a [] es) ∙ unbalanced-none a (per_asset [] es) h)

pub balance-posted :
    (a : AccountId) (txn : ℕ) (spec : PostTxnSpec) (db : Db)
    → balance a (posted txn spec db).entries ≡ delta a spec.entries +ℤ balance a db.entries
unfolding posted
balance-posted a txn spec db =
    balance-append a (entry_rows txn (filter is_nonzero spec.entries)) db.entries
    ∙ rw (balance-entry_rows txn a (filter is_nonzero spec.entries), delta-filter a spec.entries)

-- A posting is refused and changes nothing, or it is balanced in every asset and is written.
pub post_transaction-cases :
    (txn : ℕ) (spec : PostTxnSpec) (db : Db)
    → ((e : Code) × (post_transaction txn spec db ≡ (err e, db)))
      ⊎ ((post_transaction txn spec db ≡ (ok txn, posted txn spec db))
          × ((a : Asset) → spec_total a spec.entries ≡ pos 0))
unfolding post_transaction
post_transaction-cases txn spec db =
    elim (Option-cases (unbalanced (per_asset [] (filter is_nonzero spec.entries)))) [
      | inr (a, bad) ↦ inl (ledger_unbalanced a, rw bad)
      | inl fine ↦ elim (Bool-cases (is_empty (filter is_nonzero spec.entries))) [
        | inl none_left ↦ inl (ledger_empty_transaction, rw (fine, none_left))
        | inr some_left ↦
            elim (Bool-cases (all (fits db.accounts) (filter is_nonzero spec.entries))) [
              | inr misfit ↦ inl (ledger_entry_refused, rw (fine, some_left, misfit))
              | inl fitting ↦ inr (
                rw (fine, some_left, fitting),
                λ a. sym (spec_total-filter a spec.entries) ∙ unbalanced-spec_total a _ fine,
              )
            ]
      ]
    ]

-- What a posting that has gone through did to the books.
pub record Moved (txn : ℕ) (spec : PostTxnSpec) (before after : Db) : Type 0 where
  pub each_balance :
      (a : AccountId) → balance a after.entries ≡ delta a spec.entries +ℤ balance a before.entries
  pub each_asset : (a : Asset) → asset_total a after.entries ≡ asset_total a before.entries
  pub zero_sum :
      (a : Asset) → asset_total a (entry_rows txn (filter is_nonzero spec.entries)) ≡ pos 0
  pub appended : after.entries ≡ entry_rows txn (filter is_nonzero spec.entries) ++ before.entries

abbrev pub MovedOrSame : ℕ → PostTxnSpec → Db → Result ℕ × Db → Type 0
MovedOrSame txn spec db (ok id, db') = Moved txn spec db db'
MovedOrSame txn spec db (err e, db') = db' ≡ db

-- Posting a transaction either is refused and leaves the database as it was, or appends entries
-- that sum to zero in every asset: each balance moves by what the request says of its account,
-- and no asset's total over all accounts changes.
pub post_transaction-MovedOrSame :
    (txn : ℕ) (spec : PostTxnSpec) (db : Db)
    → MovedOrSame txn spec db (post_transaction txn spec db)
unfolding posted
post_transaction-MovedOrSame txn spec db = elim (post_transaction-cases txn spec db) [
  | inl (e, refused) ↦ rw refused refl
  | inr (done, zero) ↦ rw done (record {
    each_balance = λ a. balance-posted a txn spec db;
    each_asset = λ a.
        asset_total-append a _ db.entries
        ∙ rw
            (
              asset_total-entry_rows txn a (filter is_nonzero spec.entries),
              spec_total-filter a spec.entries,
              zero a,
            )
            (zero-+ℤ _);
    zero_sum = λ a. asset_total-entry_rows txn a _ ∙ (spec_total-filter a spec.entries ∙ zero a);
    appended = refl;
  })
]

-- A posting that goes through leaves the database `posted`, and has moved the balances.
pub post_transaction-AllOk :
    (Q : ℕ → Db → Type 0) (txn : ℕ) (spec : PostTxnSpec) (db : Db)
    → (Moved txn spec db (posted txn spec db) → Q txn (posted txn spec db))
    → AllOk Q (post_transaction txn spec db)
post_transaction-AllOk Q txn spec db h = elim (post_transaction-cases txn spec db) [
  | inl (e, refused) ↦ rw refused tt
  | inr (done, zero) ↦ rw done (h (rw done at (post_transaction-MovedOrSame txn spec db)))
]
