-- ===== src/Delivery/Escrow.antt =====
-- Moving metal into and out of the escrow accounts of apps/api/src/delivery/delivery.service.ts
-- keeps the books sound: each account holds the metal of the approved requests and nothing else.
use alkeva.Common.{ℕ, ◌+◌, ◌≡◌, refl, false, List, ◌∷◌, if◌then◌else◌}
use alkeva.Common.Int.{ℤ, pos, neg, ◌+ℤ◌, ◌-ℤ◌, ◌≤ℤ◌, int_laws, int_neg, zero-+ℤ}
use alkeva.Common.Table.{sum_by}
use alkeva.Assets.{MetalAsset, metal_eq, metal, xau, xpt, payout_hold, vault}
use alkeva.Schema.{
  Db, Payout, AccountId, user_account, system_account, account_eq, VaultHolding, DeliveryRequest,
}
use alkeva.Ledger.{balance, PostTxnSpec}
use alkeva.Ledger.Balance.{delta}
use alkeva.Ledger.Post.{Moved}
use alkeva.Ledger.Move.{move_entries, delta_elsewhere, delta_src, delta_dst}
use alkeva.Books.{Sound, held_mg}
use alkeva.Books.Postings.{posting-Sound}
use alkeva.Books.Moves.{same_user, take_covered, give_covered}
use alkeva.Orders.Queries.{physical_mg}
use alkeva.Schema.{outtake}
use alkeva.Delivery.{hold}

-- The grams of a request in one metal.
abbrev pub mg_in : MetalAsset → ℕ → MetalAsset → ℕ
mg_in a n m = if metal_eq a m then n else 0

hold_in :
    (a m : MetalAsset) (src : AccountId) (n : ℕ)
    → account_eq src (hold m) ≡ false
    → delta (hold m) (move_entries src (hold a) (metal a) n) ≡ pos (mg_in a n m)
hold_in xau xau src n h = delta_dst src (hold xau) (metal xau) n (hold xau) h refl
hold_in xau xpt src n h = delta_elsewhere src (hold xau) (metal xau) n (hold xpt) h refl
hold_in xpt xau src n h = delta_elsewhere src (hold xpt) (metal xpt) n (hold xau) h refl
hold_in xpt xpt src n h = delta_dst src (hold xpt) (metal xpt) n (hold xpt) h refl

hold_out :
    (a m : MetalAsset) (dst : AccountId) (n : ℕ)
    → account_eq dst (hold m) ≡ false
    → delta (hold m) (move_entries (hold a) dst (metal a) n) ≡ neg (mg_in a n m)
hold_out xau xau dst n h = delta_src (hold xau) dst (metal xau) n (hold xau) refl h
hold_out xau xpt dst n h = delta_elsewhere (hold xau) dst (metal xau) n (hold xpt) refl h
hold_out xpt xau dst n h = delta_elsewhere (hold xpt) dst (metal xpt) n (hold xau) refl h
hold_out xpt xpt dst n h = delta_src (hold xpt) dst (metal xpt) n (hold xpt) refl h

hold_other : (a m : MetalAsset) → account_eq (hold a) (system_account (vault m)) ≡ false
hold_other xau xau = refl
hold_other xau xpt = refl
hold_other xpt xau = refl
hold_other xpt xpt = refl

hold_payout : (a : MetalAsset) → account_eq (hold a) (system_account payout_hold) ≡ false
hold_payout xau = refl
hold_payout xpt = refl

vault_other : (a m : MetalAsset) → account_eq (system_account (vault a)) (hold m) ≡ false
vault_other xau xau = refl
vault_other xau xpt = refl
vault_other xpt xau = refl
vault_other xpt xpt = refl

vault_payout :
    (a : MetalAsset) → account_eq (system_account (vault a)) (system_account payout_hold) ≡ false
vault_payout xau = refl
vault_payout xpt = refl

vault_in :
    (a m : MetalAsset) (n : ℕ)
    → delta
        (system_account (vault m))
        (move_entries (hold a) (system_account (vault a)) (metal a) n)
      ≡ pos (mg_in a n m)
vault_in xau xau n =
    delta_dst (hold xau) (system_account (vault xau)) (metal xau) n (system_account (vault xau))
      refl refl
vault_in xau xpt n =
    delta_elsewhere (hold xau) (system_account (vault xau)) (metal xau) n
      (system_account (vault xpt)) refl refl
vault_in xpt xau n =
    delta_elsewhere (hold xpt) (system_account (vault xpt)) (metal xpt) n
      (system_account (vault xau)) refl refl
vault_in xpt xpt n =
    delta_dst (hold xpt) (system_account (vault xpt)) (metal xpt) n (system_account (vault xpt))
      refl refl

vault_covered :
    (a m : MetalAsset) (n : ℕ) (p b : ℤ)
    → pos 0 ≤ℤ p +ℤ b
    → pos 0 ≤ℤ (if metal_eq a m then p -ℤ pos n else p) +ℤ (pos (mg_in a n m) +ℤ b)
vault_covered xau xau n p b h = omega int_laws
vault_covered xau xpt n p b h = omega int_laws
vault_covered xpt xau n p b h = omega int_laws
vault_covered xpt xpt n p b h = omega int_laws

sum_in : (n s t : ℕ) → t ≡ s + n → pos n +ℤ pos s ≡ pos t
sum_in n s t h = omega int_laws

sum_out : (n s t : ℕ) → s ≡ t + n → neg n +ℤ pos s ≡ pos t
sum_out n s t h = omega int_neg

module _ {vs : List VaultHolding} {ps : List Payout} {ds : List DeliveryRequest} {txn : ℕ}
    {spec : PostTxnSpec} {before after : Db} (s : Sound before.entries vs ps ds)
    (m : Moved txn spec before after) (a : MetalAsset) (n : ℕ) (ds' : List DeliveryRequest) where
  -- Into the escrow.
  pub held-Sound :
      (user : ℕ)
      → spec.entries ≡ move_entries (user_account user (metal a)) (hold a) (metal a) n
      → pos n ≤ℤ balance (user_account user (metal a)) before.entries
      → ((k : MetalAsset) → sum_by (held_mg k) ds' ≡ sum_by (held_mg k) ds + mg_in a n k)
      → Sound after.entries vs ps ds'
  held-Sound user e enough total =
      posting-Sound s m vs ps ds'
        (λ u c. rw e (
          take_covered (user_account user (metal a)) (hold a) (metal a) n (user_account u c) _
            (s.solvent u c) refl (λ same. rw (← same_user user u (metal a) c same) enough)))
        (λ k.
          rw
            (
              e,
              delta_elsewhere (user_account user (metal a)) (hold a) (metal a) n
                  (system_account (vault k)) refl (hold_other a k),
              zero-+ℤ _,
            )
            (s.reserved k))
        (rw
          (
            e,
            delta_elsewhere (user_account user (metal a)) (hold a) (metal a) n
                (system_account payout_hold) refl (hold_payout a),
          )
          (zero-+ℤ _))
        (λ k. rw (e, hold_in a k (user_account user (metal a)) n refl) (sum_in _ _ _ (total k)))

  -- Out of the escrow, back to the customer.
  pub refunded-Sound :
      (user : ℕ)
      → spec.entries ≡ move_entries (hold a) (user_account user (metal a)) (metal a) n
      → ((k : MetalAsset) → sum_by (held_mg k) ds ≡ sum_by (held_mg k) ds' + mg_in a n k)
      → Sound after.entries vs ps ds'
  refunded-Sound user e total =
      posting-Sound s m vs ps ds'
        (λ u c. rw e (
          give_covered (hold a) (user_account user (metal a)) (metal a) n (user_account u c) _
            (s.solvent u c) refl))
        (λ k.
          rw
            (
              e,
              delta_elsewhere (hold a) (user_account user (metal a)) (metal a) n
                  (system_account (vault k)) (hold_other a k) refl,
              zero-+ℤ _,
            )
            (s.reserved k))
        (rw
          (
            e,
            delta_elsewhere (hold a) (user_account user (metal a)) (metal a) n
                (system_account payout_hold) (hold_payout a) refl,
          )
          (zero-+ℤ _))
        (λ k. rw (e, hold_out a k (user_account user (metal a)) n refl) (sum_out _ _ _ (total k)))

  -- Out of the escrow and out of the vault: the stock and what is owed fall by the same amount.
  pub delivered-Sound :
      (reviewer : ℕ)
      → spec.entries ≡ move_entries (hold a) (system_account (vault a)) (metal a) n
      → ((k : MetalAsset) → sum_by (held_mg k) ds ≡ sum_by (held_mg k) ds' + mg_in a n k)
      → Sound after.entries
          (record { asset = a; kind = outtake; grams_mg = n; recorded_by = reviewer } ∷ vs)
          ps
          ds'
  unfolding physical_mg
  delivered-Sound reviewer e total =
      posting-Sound s m
        (record { asset = a; kind = outtake; grams_mg = n; recorded_by = reviewer } ∷ vs) ps ds'
        (λ u c.
          rw
            (
              e,
              delta_elsewhere (hold a) (system_account (vault a)) (metal a) n (user_account u c)
                  refl refl,
              zero-+ℤ _,
            )
            (s.solvent u c))
        (λ k. rw (e, vault_in a k n) (vault_covered a k n (physical_mg k vs) _ (s.reserved k)))
        (rw
          (
            e,
            delta_elsewhere (hold a) (system_account (vault a)) (metal a) n
                (system_account payout_hold) (hold_payout a) (vault_payout a),
          )
          (zero-+ℤ _))
        (λ k.
          rw (e, hold_out a k (system_account (vault a)) n (vault_other a k))
            (sum_out _ _ _ (total k)))
