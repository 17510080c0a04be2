-- ===== src/Common/Keyed.antt =====
-- Tables whose rows have different primary keys.
use Prim.Native.Nat.{ℕ}
use mathlib.Core.Path.{◌≡◌, refl, sym, ◌∙◌}
use mathlib.Core.Logic.{inl, inr}
use mathlib.Core.Bool.{Bool, true, false, ◌||◌}
use mathlib.Core.Option
use mathlib.Core.Option.{none, some}
use mathlib.Core.List.{List, [], ◌∷◌, map}
use native.Mathlib.Omega.{arith}
use alkeva.Common.Tests.{Bool-cases, ◌==◌, if◌then◌else◌, ==_iff}
use alkeva.Common.Lists.{any, filter, length, In}
use alkeva.Common.Table.{find_where, find_row, update_row, sum_by}

abbrev pub one_if : Bool → ℕ
one_if b = if b then 1 else 0

-- `count(*) where p`
abbrev pub count_by {ℓ} : {R : Type ℓ} → (R → Bool) → List R → ℕ
count_by p = sum_by (λ r. one_if (p r))

pub length-filter {ℓ} :
    {R : Type ℓ} (p : R → Bool) (rs : List R) → length (filter p rs) ≡ count_by p rs
length-filter p [] = refl
length-filter p (r ∷ rs) = ground (arith, length-filter p rs)

module _ {ℓ} {R : Type ℓ} (key : R → ℕ) where
  abbrev pub has_key : ℕ → List R → Bool
  has_key k rs = any (λ r. key r == k) rs

  abbrev pub IsKeyed : List R → Type 0
  IsKeyed [] = Unit
  IsKeyed (r ∷ rs) = (has_key (key r) rs ≡ false) × IsKeyed rs

  pub has_key-update_row :
      (j k : ℕ) (f : R → R) (rs : List R)
      → ((r : R) → key (f r) ≡ key r)
      → has_key j (update_row key k f rs) ≡ has_key j rs
  unfolding update_row
  has_key-update_row j k f [] same = refl
  has_key-update_row j k f (r ∷ rs) same = ground (arith, same r, has_key-update_row j k f rs same)

  pub IsKeyed-update_row :
      (k : ℕ) (f : R → R) (rs : List R)
      → ((r : R) → key (f r) ≡ key r)
      → IsKeyed rs
      → IsKeyed (update_row key k f rs)
  unfolding update_row
  IsKeyed-update_row k f [] same h = tt
  IsKeyed-update_row k f (r ∷ rs) same (new, h) = elim (Bool-cases (key r == k)) [
    | inl here ↦ rw here (rw (same r) new, h)
    | inr other ↦
        rw other (rw (has_key-update_row (key r) k f rs same) new, IsKeyed-update_row k f rs same h)
  ]

  self_key : (r : R) → (key r == key r) ≡ true
  self_key r = (==_iff (key r) (key r)).1 refl

  some_key : (x r : R) → some x ≡ some r → key x ≡ key r
  some_key x r h = cc

  find_where-has_key :
      (p : R → Bool) (rs : List R) (r : R) → find_where p rs ≡ some r → has_key (key r) rs ≡ true
  find_where-has_key p [] r h = cc
  find_where-has_key p (x ∷ rs) r h = elim (Bool-cases (p x)) [
    | inl here ↦ rw (some_key x r (rw here at h), self_key r) refl
    | inr other ↦ rw (find_where-has_key p rs r (rw other at h)) (or_true (key x == key r))
  ]
    where
      or_true : (b : Bool) → b || true ≡ true
      or_true true = refl
      or_true false = refl

  In-has_key : (rs : List R) (r : R) → In r rs → has_key (key r) rs ≡ true
  In-has_key [] r h = absurd h.lower
  In-has_key (x ∷ rs) r (inl e) = rw (← e) (rw (self_key r) refl)
  In-has_key (x ∷ rs) r (inr later) = rw (In-has_key rs r later) (or_true (key x == key r))
    where
      or_true : (b : Bool) → b || true ≡ true
      or_true true = refl
      or_true false = refl

  -- A row of the table is the one that its key finds.
  pub find_row-In : (rs : List R) (r : R) → IsKeyed rs → In r rs → find_row key (key r) rs ≡ some r
  unfolding find_row
  find_row-In [] r keyed h = absurd h.lower
  find_row-In (x ∷ rs) r (new, keyed) (inl e) = rw (← e) (rw (self_key r) refl)
  find_row-In (x ∷ rs) r (new, keyed) (inr later) = elim (Bool-cases (key x == key r)) [
    | inl same ↦ cc (In-has_key rs r later, rw ((==_iff (key x) (key r)).0 same) at new)
    | inr differ ↦ rw differ (find_row-In rs r keyed later)
  ]

  pub find_row-absent : (k : ℕ) (rs : List R) → has_key k rs ≡ false → find_row key k rs ≡ none
  unfolding find_row
  find_row-absent k [] h = refl
  find_row-absent k (x ∷ rs) h = ground (arith, find_row-absent k rs)

  module _ (f : R → R) (same : (r : R) → key (f r) ≡ key r) where
    pub has_key-map : (k : ℕ) (rs : List R) → has_key k (map f rs) ≡ has_key k rs
    has_key-map k [] = refl
    has_key-map k (r ∷ rs) = ground (arith, same r, has_key-map k rs)

    pub IsKeyed-map : (rs : List R) → IsKeyed rs → IsKeyed (map f rs)
    IsKeyed-map [] h = tt
    IsKeyed-map (r ∷ rs) (new, h) = (rw (same r, has_key-map (key r) rs) new, IsKeyed-map rs h)

    pub find_row-map :
        (k : ℕ) (rs : List R) → find_row key k (map f rs) ≡ Option.map f (find_row key k rs)
    unfolding find_row
    find_row-map k [] = refl
    find_row-map k (r ∷ rs) = ground (arith, same r, find_row-map k rs)

  -- The row that a test finds is the one with its key.
  pub find_where-find_row :
      (p : R → Bool) (rs : List R) (r : R)
      → IsKeyed rs
      → find_where p rs ≡ some r
      → find_row key (key r) rs ≡ some r
  unfolding find_row
  find_where-find_row p [] r keyed h = cc
  find_where-find_row p (x ∷ rs) r (new, keyed) h = elim (Bool-cases (p x)) [
    | inl here ↦ let e : some x ≡ some r = rw here at h in rw (some_key x r e, self_key r) e
    | inr other ↦
        let later : find_where p rs ≡ some r = rw other at h in
        elim (Bool-cases (key x == key r)) [
          | inl same ↦
              cc (find_where-has_key p rs r later, rw ((==_iff (key x) (key r)).0 same) at new)
          | inr differ ↦ rw differ (find_where-find_row p rs r keyed later)
        ]
  ]

pub find_where-none_count {ℓ} :
    {R : Type ℓ} (p : R → Bool) (rs : List R) → find_where p rs ≡ none → count_by p rs ≡ 0
find_where-none_count p [] h = refl
find_where-none_count p (x ∷ rs) h = ground (arith, find_where-none_count p rs)

-- A write that leaves the keys and a value alone leaves the value that a key finds.
pub find_row-update_row_back {ℓ} :
    {R : Type ℓ} (key w : R → ℕ) (j k : ℕ) (f : R → R)
    → ((r : R) → (key (f r) ≡ key r) × (w (f r) ≡ w r))
    → (rs : List R) (r : R) → find_row key j (update_row key k f rs) ≡ some r
    → (old : R) × (find_row key j rs ≡ some old) × (w old ≡ w r)
unfolding find_row update_row
find_row-update_row_back key w j k f same [] r h = cc
find_row-update_row_back {R} key w j k f same (x ∷ rs) r h = elim (Bool-cases (key x == k)) [
  | inl hit ↦ elim (Bool-cases (key x == j)) [
    | inl here ↦
        let e : some (f x) ≡ some r = rw (hit, (same x).0, here) at h in
        rw here (x, refl, sym (same x).1 ∙ value e)
    | inr other ↦ let e = rw (hit, (same x).0, other) at h in rw other (r, e, refl)
  ]
  | inr miss ↦ elim (Bool-cases (key x == j)) [
    | inl here ↦ let e : some x ≡ some r = rw (miss, here) at h in rw here (x, refl, value e)
    | inr other ↦ rw other (find_row-update_row_back key w j k f same rs r (rw (miss, other) at h))
  ]
]
  where
    value : {p q : R} → some p ≡ some q → w p ≡ w q
    value e = cc
