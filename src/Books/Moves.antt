-- ===== src/Books/Moves.antt =====
-- Moving an amount between two accounts, seen from a customer's balance.
use alkeva.Common.{ℕ, ◌≡◌, inl, inr, true, false, arith, Bool-cases, ==_iff}
use alkeva.Common.Int.{ℤ, pos, neg, ◌+ℤ◌, ◌≤ℤ◌, int_laws, int_neg, zero-+ℤ}
use alkeva.Assets.{Asset, etb, metal}
use alkeva.Schema.{AccountId, user_account, account_eq}
use alkeva.Ledger.Balance.{delta}
use alkeva.Ledger.Move.{move_entries, delta_elsewhere, delta_src, delta_dst}
use alkeva.Orders.Sound.{metal_eq→eq}

pub same_user :
    (u v : ℕ) (a b : Asset)
    → account_eq (user_account u a) (user_account v b) ≡ true
    → user_account u a ≡ user_account v b
same_user u v etb etb e = ground (arith, ==_iff u v)
same_user u v etb (metal n) e = ground arith
same_user u v (metal m) etb e = ground arith
same_user u v (metal m) (metal n) e = ground (arith, ==_iff u v, metal_eq→eq m n)

module _ (src dst : AccountId) (asset : Asset) (n : ℕ) (x : AccountId) (b : ℤ)
    (h : pos 0 ≤ℤ b) where
  -- An account that the amount is taken from must have it.
  pub take_covered :
      account_eq dst x ≡ false
      → (account_eq src x ≡ true → pos n ≤ℤ b)
      → pos 0 ≤ℤ delta x (move_entries src dst asset n) +ℤ b
  take_covered other enough = elim (Bool-cases (account_eq src x)) [
    | inl same ↦ rw (delta_src src dst asset n x same other) (covered (enough same))
    | inr differs ↦ rw (delta_elsewhere src dst asset n x differs other, zero-+ℤ b) h
  ]
    where
      covered : pos n ≤ℤ b → pos 0 ≤ℤ neg n +ℤ b
      covered e = omega int_neg

  pub give_covered : account_eq src x ≡ false → pos 0 ≤ℤ delta x (move_entries src dst asset n) +ℤ b
  give_covered other = elim (Bool-cases (account_eq dst x)) [
    | inl same ↦ rw (delta_dst src dst asset n x other same) (omega int_laws)
    | inr differs ↦ rw (delta_elsewhere src dst asset n x other differs, zero-+ℤ b) h
  ]
