-- ===== src/Payouts/Escrow.antt =====
-- Moving cents into and out of the escrow account of apps/api/src/payouts/payouts.service.ts keeps
-- the books sound: the account holds the cents of the open payouts and nothing else.
use alkeva.Common.{ℕ, ◌+◌, ◌≡◌, refl, ◌⊎◌, inl, inr, true, false, List, arith, Bool-cases, ==_iff}
use alkeva.Common.Int.{ℤ, pos, neg, ◌+ℤ◌, ◌≤ℤ◌, int_laws, int_neg, zero-+ℤ}
use alkeva.Common.Table.{sum_by}
use alkeva.Assets.{Asset, MetalAsset, etb, metal, xau, xpt, payout_hold, vault, delivery_hold}
use alkeva.Schema.{
  Db, Payout, AccountId, user_account, system_account, account_eq, VaultHolding, DeliveryRequest,
}
use alkeva.Ledger.{balance, PostTxnSpec}
use alkeva.Ledger.Balance.{delta}
use alkeva.Ledger.Post.{Moved}
use alkeva.Ledger.Move.{move_entries, delta_elsewhere, delta_src, delta_dst}
use alkeva.Books.{Sound, held_cents}
use alkeva.Books.Postings.{posting-Sound}

no_vault :
    (n : MetalAsset) → account_eq (system_account payout_hold) (system_account (vault n)) ≡ false
no_vault xau = refl
no_vault xpt = refl

no_delivery :
    (n : MetalAsset)
    → account_eq (system_account payout_hold) (system_account (delivery_hold n)) ≡ false
no_delivery xau = refl
no_delivery xpt = refl

take_covered :
    (user u : ℕ) (a : Asset) (n : ℕ) (b : ℤ)
    → (user_account user etb ≡ user_account u a → pos n ≤ℤ b)
    → pos 0 ≤ℤ b
    → pos 0
      ≤ℤ delta
          (user_account u a)
          (move_entries (user_account user etb) (system_account payout_hold) etb n)
        +ℤ b
take_covered user u a n b enough h =
    elim (Bool-cases (account_eq (user_account user etb) (user_account u a))) [
      | inl own ↦
          rw
            (delta_src (user_account user etb) (system_account payout_hold) etb n (user_account u a)
              own refl)
            (covered (enough (same u a own)))
      | inr other ↦
          rw
            (
              delta_elsewhere (user_account user etb) (system_account payout_hold) etb n
                  (user_account u a) other refl,
              zero-+ℤ b,
            )
            h
    ]
  where
    covered : pos n ≤ℤ b → pos 0 ≤ℤ neg n +ℤ b
    covered e = omega int_neg

    same :
        (v : ℕ) (c : Asset)
        → account_eq (user_account user etb) (user_account v c) ≡ true
        → user_account user etb ≡ user_account v c
    same v etb e = ground (arith, ==_iff user v)
    same v (metal m) e = ground arith

module _ {vs : List VaultHolding} {ps : List Payout} {ds : List DeliveryRequest} {txn : ℕ}
    {spec : PostTxnSpec} {before after : Db} (s : Sound before.entries vs ps ds)
    (m : Moved txn spec before after) where
  -- Holding a customer's cents: the escrow grows by what the new payout takes.
  pub held-Sound :
      (user n : ℕ) (ps' : List Payout)
      → spec.entries ≡ move_entries (user_account user etb) (system_account payout_hold) etb n
      → pos n ≤ℤ balance (user_account user etb) before.entries
      → n + sum_by held_cents ps ≡ sum_by held_cents ps'
      → Sound after.entries vs ps' ds
  held-Sound user n ps' e enough total =
      posting-Sound s m vs ps' ds
        (λ u a. rw e (take_covered user u a n _ (λ same. rw (← same) enough) (s.solvent u a)))
        (λ k.
          rw
            (
              e,
              delta_elsewhere (user_account user etb) (system_account payout_hold) etb n
                  (system_account (vault k)) refl (no_vault k),
              zero-+ℤ _,
            )
            (s.reserved k))
        (rw
          (
            e,
            delta_dst (user_account user etb) (system_account payout_hold) etb n
                (system_account payout_hold) refl refl,
            ← total,
          )
          sum_pos)
        (λ k.
          rw
            (
              e,
              delta_elsewhere (user_account user etb) (system_account payout_hold) etb n
                  (system_account (delivery_hold k)) refl (no_delivery k),
            )
            (zero-+ℤ _))
    where
      sum_pos : pos n +ℤ pos (sum_by held_cents ps) ≡ pos (n + sum_by held_cents ps)
      sum_pos = omega int_laws

  -- Releasing held cents to an account that is not an escrow or a vault account.
  pub released-Sound :
      (dst : AccountId) (n : ℕ) (ps' : List Payout)
      → spec.entries ≡ move_entries (system_account payout_hold) dst etb n
      → account_eq dst (system_account payout_hold) ≡ false
      → ((k : MetalAsset) → account_eq dst (system_account (vault k)) ≡ false)
      → ((k : MetalAsset) → account_eq dst (system_account (delivery_hold k)) ≡ false)
      → sum_by held_cents ps' + n ≡ sum_by held_cents ps
      → Sound after.entries vs ps' ds
  released-Sound dst n ps' e not_hold not_vault not_delivery total =
      posting-Sound s m vs ps' ds
        (λ u a. rw e (users u a (Bool-cases (account_eq dst (user_account u a)))))
        (λ k.
          rw
            (
              e,
              delta_elsewhere (system_account payout_hold) dst etb n (system_account (vault k))
                  (no_vault k) (not_vault k),
              zero-+ℤ _,
            )
            (s.reserved k))
        (rw
          (
            e,
            delta_src (system_account payout_hold) dst etb n (system_account payout_hold) refl
                not_hold,
            ← total,
          )
          less)
        (λ k.
          rw
            (
              e,
              delta_elsewhere (system_account payout_hold) dst etb n
                  (system_account (delivery_hold k)) (no_delivery k) (not_delivery k),
            )
            (zero-+ℤ _))
    where
      less : neg n +ℤ pos (sum_by held_cents ps' + n) ≡ pos (sum_by held_cents ps')
      less = omega int_neg

      given : (b : ℤ) → pos 0 ≤ℤ b → pos 0 ≤ℤ pos n +ℤ b
      given b h = omega int_laws

      users :
          (u : ℕ) (a : Asset)
          → (account_eq dst (user_account u a) ≡ true) ⊎ (account_eq dst (user_account u a) ≡ false)
          → pos 0
            ≤ℤ delta (user_account u a) (move_entries (system_account payout_hold) dst etb n)
              +ℤ balance (user_account u a) before.entries
      users u a (inl to) =
          rw (delta_dst (system_account payout_hold) dst etb n (user_account u a) refl to)
            (given _ (s.solvent u a))
      users u a (inr not_to) =
          rw
            (
              delta_elsewhere (system_account payout_hold) dst etb n (user_account u a) refl not_to,
              zero-+ℤ _,
            )
            (s.solvent u a)
