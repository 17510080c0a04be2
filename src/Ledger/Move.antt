-- ===== src/Ledger/Move.antt =====
-- A posting of two entries that moves an amount from one account to another, as the payouts and
-- the deliveries do with their escrow accounts.
use alkeva.Common.{ℕ, ◌≡◌, refl, true, false, List, [], ◌∷◌}
use alkeva.Common.Int.{pos, neg, +ℤ-zero}
use alkeva.Assets.{Asset}
use alkeva.Schema.{AccountId, account_eq}
use alkeva.Ledger.{EntrySpec}
use alkeva.Ledger.Balance.{delta}

abbrev pub move_entries : AccountId → AccountId → Asset → ℕ → List EntrySpec
move_entries src dst asset amount =
    record { account_id = src; asset = asset; amount = neg amount }
    ∷ record { account_id = dst; asset = asset; amount = pos amount }
    ∷ []

module _ (src dst : AccountId) (asset : Asset) (n : ℕ) (x : AccountId) where
  pub delta_elsewhere :
      account_eq src x ≡ false
      → account_eq dst x ≡ false
      → delta x (move_entries src dst asset n) ≡ pos 0
  delta_elsewhere h k = rw (h, k) refl

  pub delta_src :
      account_eq src x ≡ true
      → account_eq dst x ≡ false
      → delta x (move_entries src dst asset n) ≡ neg n
  delta_src h k = rw (h, k) (+ℤ-zero (neg n))

  pub delta_dst :
      account_eq src x ≡ false
      → account_eq dst x ≡ true
      → delta x (move_entries src dst asset n) ≡ pos n
  delta_dst h k = rw (h, k) (+ℤ-zero (pos n))
