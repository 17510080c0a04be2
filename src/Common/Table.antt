-- ===== src/Common/Table.antt =====
-- Database tables: a list of rows with a numeric primary key. A statement that names a primary key
-- touches at most one row, the first that has it.
use Prim.Native.Nat.{ℕ, ◌+◌}
use mathlib.Core.Path.{◌≡◌, refl}
use mathlib.Core.Logic.{◌≢◌}
use mathlib.Core.Bool.{Bool, true, false}
use mathlib.Core.Option.{Option, none, some}
use mathlib.Core.List.{List, [], ◌∷◌}
use native.Mathlib.Omega.{arith}
use mathlib.Core.Logic.{inl, inr}
use alkeva.Common.Tests.{Bool-cases, ◌==◌, if◌then◌else◌}

-- `coalesce(sum(measure), 0)`
abbrev pub sum_by {ℓ} : {R : Type ℓ} → (R → ℕ) → List R → ℕ
sum_by w [] = 0
sum_by w (r ∷ rs) = w r + sum_by w rs

-- `where p limit 1`
abbrev pub find_where {ℓ} : {R : Type ℓ} → (R → Bool) → List R → Option R
find_where p [] = none
find_where p (r ∷ rs) = if p r then some r else find_where p rs

module _ {ℓ} {R : Type ℓ} (key : R → ℕ) where
  -- `select … where id = k limit 1`
  unfoldable pub find_row : ℕ → List R → Option R
  find_row k [] = none
  find_row k (r ∷ rs) = if key r == k then some r else find_row k rs

  -- `update … set … where id = k`
  unfoldable pub update_row : ℕ → (R → R) → List R → List R
  update_row k f [] = []
  update_row k f (r ∷ rs) = if key r == k then f r ∷ rs else r ∷ update_row k f rs

  -- `update … set … where id = k and p returning *`: the changed row and the new table.
  unfoldable pub claim_row : ℕ → (R → Bool) → (R → R) → List R → Option (R × List R)
  claim_row k p f rs = elim (find_row k rs) [
    | none ↦ none
    | some r ↦ if p r then some (f r, update_row k f rs) else none
  ]

  pub find_row-key : (k : ℕ) (rs : List R) (r : R) → find_row k rs ≡ some r → key r ≡ k
  unfolding find_row
  find_row-key k [] r h = cc
  find_row-key k (x ∷ rs) r h = ground (arith, find_row-key k rs r)

  pub update_row-head : (f : R → R) (r : R) (rs : List R) → update_row (key r) f (r ∷ rs) ≡ f r ∷ rs
  unfolding update_row
  update_row-head f r rs = ground arith

  -- An update of one row moves a sum by what it changes of that row.
  pub sum_by-update_row :
      (w : R → ℕ) (k : ℕ) (f : R → R) (rs : List R) (r : R)
      → find_row k rs ≡ some r
      → sum_by w (update_row k f rs) + w r ≡ sum_by w rs + w (f r)
  unfolding find_row update_row
  sum_by-update_row w k f [] r h = cc
  sum_by-update_row w k f (x ∷ rs) r h = ground (arith, sum_by-update_row w k f rs r)

  pub find_row-update_row_self :
      (k : ℕ) (f : R → R) (rs : List R) (r : R)
      → find_row k rs ≡ some r
      → key (f r) ≡ key r
      → find_row k (update_row k f rs) ≡ some (f r)
  unfolding find_row update_row
  find_row-update_row_self k f [] r h e = cc
  find_row-update_row_self k f (x ∷ rs) r h e = ground (arith, find_row-update_row_self k f rs r)

  pub find_row-update_row_ne :
      (j k : ℕ) (f : R → R) (rs : List R)
      → ((r : R) → key (f r) ≡ key r)
      → j ≢ k
      → find_row j (update_row k f rs) ≡ find_row j rs
  unfolding find_row update_row
  find_row-update_row_ne j k f [] e n = refl
  find_row-update_row_ne j k f (x ∷ rs) e n = ground (arith, e x, find_row-update_row_ne j k f rs)

  -- What a claim that returned a row has done.
  pub claim_row-eq-some :
      (k : ℕ) (p : R → Bool) (f : R → R) (rs : List R) {u : R} {rs' : List R}
      → claim_row k p f rs ≡ some (u, rs')
      → (r : R) × (find_row k rs ≡ some r) × (p r ≡ true) × (u ≡ f r) × (rs' ≡ update_row k f rs)
  unfolding claim_row
  claim_row-eq-some k p f rs h = ground arith

  -- A claim of a row that does not pass returns none.
  pub claim_row-eq-none :
      (k : ℕ) (p : R → Bool) (f : R → R) (rs : List R) (r : R)
      → find_row k rs ≡ some r
      → p r ≡ false
      → claim_row k p f rs ≡ none
  unfolding claim_row
  claim_row-eq-none k p f rs r found closed = ground arith

  pub find_where-passes :
      (p : R → Bool) (rs : List R) (r : R) → find_where p rs ≡ some r → p r ≡ true
  find_where-passes p [] r h = cc
  find_where-passes p (x ∷ xs) r h = elim (Bool-cases (p x)) [
    | inl here ↦ passed (rw here at h) here
    | inr other ↦ find_where-passes p xs r (rw other at h)
  ]
    where
      passed : some x ≡ some r → p x ≡ true → p r ≡ true
      passed e here = cc

  -- A row that is found by a test and by its key is found by the test after its update.
  pub find_where-update_row :
      (p : R → Bool) (f : R → R) (rs : List R) (r : R)
      → ((x : R) → p (f x) ≡ p x)
      → find_where p rs ≡ some r
      → find_row (key r) rs ≡ some r
      → find_where p (update_row (key r) f rs) ≡ some (f r)
  unfolding find_row update_row
  find_where-update_row p f [] r same h k = cc
  find_where-update_row p f (x ∷ xs) r same h k =
      ground (arith, same x, find_where-passes p xs r, passes, find_where-update_row p f xs r same)
    where
      passes : some x ≡ some r → p x ≡ p r
      passes e = cc
