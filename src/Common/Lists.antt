-- ===== src/Common/Lists.antt =====
-- Lists: length, tests and predicates over the native numbers.
use Prim.Native.Nat.{ℕ, suc}
use mathlib.Core.Bool.{Bool, true, false, ◌&&◌, ◌||◌}
use mathlib.Core.List.{List, [], ◌∷◌}
use mathlib.Core.Path.{◌≡◌, refl}
use mathlib.Core.Logic.{◌⊎◌, inl, inr, Lift}
use alkeva.Common.Tests.{if◌then◌else◌, Bool-cases}

module _ {ℓ} {A : Type ℓ} where
  abbrev pub length : List A → ℕ
  length [] = 0
  length (x ∷ xs) = suc (length xs)

  abbrev pub any : (A → Bool) → List A → Bool
  any p [] = false
  any p (x ∷ xs) = p x || any p xs

  abbrev pub all : (A → Bool) → List A → Bool
  all p [] = true
  all p (x ∷ xs) = p x && all p xs

  -- `filter` of the library by a Boolean test.
  abbrev pub filter : (A → Bool) → List A → List A
  filter p [] = []
  filter p (x ∷ xs) = let rest = filter p xs in if p x then x ∷ rest else rest

abbrev pub All {ℓ κ} : {A : Type ℓ} → (A → Type κ) → List A → Type κ
All P [] = Unit
All P (x ∷ xs) = P x × All P xs

module _ {ℓ} {A : Type ℓ} where
  -- A place of an element in a list.
  abbrev pub In : A → List A → Type ℓ
  In a [] = Lift ⊥
  In a (x ∷ xs) = (a ≡ x) ⊎ In a xs

  pub any-In : (p : A → Bool) (xs : List A) → any p xs ≡ true → (x : A) × In x xs × (p x ≡ true)
  any-In p [] h = cc
  any-In p (x ∷ xs) h = elim (Bool-cases (p x)) [
    | inl here ↦ (x, inl refl, here)
    | inr other ↦ let (y, place, passes) = any-In p xs (rw other at h) in (y, inr place, passes)
  ]

  pub In-filter : (p : A → Bool) (xs : List A) (x : A) → In x (filter p xs) → In x xs × (p x ≡ true)
  In-filter p [] x h = absurd h.lower
  In-filter p (y ∷ ys) x h = elim (Bool-cases (p y)) [
    | inl kept ↦ elim (rw kept at h) [
      | inl e ↦ (inl e, rw e kept)
      | inr later ↦ let (place, passes) = In-filter p ys x later in (inr place, passes)
    ]
    | inr gone ↦ let (place, passes) = In-filter p ys x (rw gone at h) in (inr place, passes)
  ]
