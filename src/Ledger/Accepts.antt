-- ===== src/Ledger/Accepts.antt =====
-- `postTransaction` of apps/api/src/ledger/ledger.service.ts accepts what sums to zero.
use alkeva.Common.{
  ℕ, ◌≡◌, refl, sym, ◌⊎◌, inl, inr, Bool, true, false, not, ◌&&◌, none, List, [], ◌∷◌, ◌∙◌, any,
  all, filter, arith, Bool-cases,
}
use alkeva.Common.Int.{ℤ, pos, zero-+ℤ, +ℤ-zero}
use alkeva.Assets.{Asset, etb, metal, xau, xpt, asset_eq}
use alkeva.Schema.{Db}
use alkeva.Request.{ok}
use alkeva.Ledger.{
  EntrySpec, PostTxnSpec, add_to, per_asset, unbalanced, is_nonzero, is_empty, fits, posted,
  post_transaction,
}
use alkeva.Ledger.Balance.{spec_total, spec_total-filter}
use alkeva.Ledger.Post.{map_total, map_total-per_asset, asset_eq→eq}

abbrev absent : Asset → List (Asset × ℤ) → Bool
absent a [] = true
absent a ((b, x) ∷ m) = not (asset_eq b a) && absent a m

-- No asset stands twice in the sums.
abbrev IsDistinct : List (Asset × ℤ) → Type 0
IsDistinct [] = Unit
IsDistinct ((a, x) ∷ m) = (absent a m ≡ true) × IsDistinct m

absent-add_to :
    (a b : Asset) (x : ℤ) (m : List (Asset × ℤ))
    → asset_eq b a ≡ false
    → absent a m ≡ true
    → absent a (add_to b x m) ≡ true
unfolding add_to
absent-add_to a b x [] e h = rw e refl
absent-add_to a b x ((c, y) ∷ m) e h = ground (arith, absent-add_to a b x m)

asset_eq_comm : (a b : Asset) → asset_eq a b ≡ asset_eq b a
asset_eq_comm etb etb = refl
asset_eq_comm etb (metal m) = refl
asset_eq_comm (metal m) etb = refl
asset_eq_comm (metal m) (metal n) = ground arith

IsDistinct-add_to :
    (b : Asset) (x : ℤ) (m : List (Asset × ℤ)) → IsDistinct m → IsDistinct (add_to b x m)
unfolding add_to
IsDistinct-add_to b x [] d = (refl, tt)
IsDistinct-add_to b x ((c, y) ∷ m) (h, d) = elim (Bool-cases (asset_eq c b)) [
  | inl same ↦ rw same (h, d)
  | inr other ↦
      rw other (absent-add_to c b x m (asset_eq_comm b c ∙ other) h, IsDistinct-add_to b x m d)
]

IsDistinct-per_asset :
    (m : List (Asset × ℤ)) (es : List EntrySpec) → IsDistinct m → IsDistinct (per_asset m es)
unfolding per_asset
IsDistinct-per_asset m [] d = d
IsDistinct-per_asset m (e ∷ es) d =
    IsDistinct-per_asset (add_to e.asset e.amount m) es (IsDistinct-add_to e.asset e.amount m d)

map_total-absent : (a : Asset) (m : List (Asset × ℤ)) → absent a m ≡ true → map_total a m ≡ pos 0
map_total-absent a [] h = refl
map_total-absent a ((b, x) ∷ m) h = ground (arith, map_total-absent a m)

asset_eq_self : (a : Asset) → asset_eq a a ≡ true
asset_eq_self etb = refl
asset_eq_self (metal xau) = refl
asset_eq_self (metal xpt) = refl

unbalanced_zero :
    (m : List (Asset × ℤ))
    → IsDistinct m
    → ((a : Asset) → map_total a m ≡ pos 0)
    → unbalanced m ≡ none
unfolding unbalanced
unbalanced_zero [] d z = refl
unbalanced_zero ((b, x) ∷ m) (h, d) z =
    rw first (unbalanced_zero m d (λ a. rest a (Bool-cases (asset_eq b a))))
  where
    first : x ≡ pos 0
    first = sym (+ℤ-zero x) ∙ (rw (asset_eq_self b, map_total-absent b m h) at (z b))

    rest : (a : Asset) → (asset_eq b a ≡ true) ⊎ (asset_eq b a ≡ false) → map_total a m ≡ pos 0
    rest a (inl same) = rw (← asset_eq→eq b a same) (map_total-absent b m h)
    rest a (inr other) = rw other at (z a)

not_empty :
    (es : List EntrySpec) → any is_nonzero es ≡ true → is_empty (filter is_nonzero es) ≡ false
not_empty [] h = cc
not_empty (e ∷ es) h = elim (Bool-cases (is_nonzero e)) [
  | inl keep ↦ rw keep refl
  | inr drop ↦ rw drop (not_empty es (rw drop at h))
]

-- A request whose entries sum to zero in every asset, and of which one is not zero, is
-- posted, if each that is not zero fits an account.
pub post_transaction_accepts :
    (txn : ℕ) (spec : PostTxnSpec) (db : Db)
    → ((a : Asset) → spec_total a spec.entries ≡ pos 0)
    → any is_nonzero spec.entries ≡ true
    → all (fits db.accounts) (filter is_nonzero spec.entries) ≡ true
    → post_transaction txn spec db ≡ (ok txn, posted txn spec db)
unfolding post_transaction
post_transaction_accepts txn spec db zero some_entry fitting =
    rw
      (
        unbalanced_zero (per_asset [] kept) (IsDistinct-per_asset [] kept tt) totals,
        not_empty spec.entries some_entry,
        fitting,
      )
      refl
  where
    kept : List EntrySpec
    kept = filter is_nonzero spec.entries

    totals : (a : Asset) → map_total a (per_asset [] kept) ≡ pos 0
    totals a =
        map_total-per_asset a [] kept ∙ (zero-+ℤ _ ∙ (spec_total-filter a spec.entries ∙ zero a))
