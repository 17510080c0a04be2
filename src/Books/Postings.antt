-- ===== src/Books/Postings.antt =====
-- What a posting must satisfy to keep the books sound.
use alkeva.Common.{ℕ, ◌≡◌, List}
use alkeva.Common.Int.{pos, ◌+ℤ◌, ◌≤ℤ◌}
use alkeva.Common.Table.{sum_by}
use alkeva.Assets.{Asset, MetalAsset, payout_hold, vault, delivery_hold}
use alkeva.Schema.{Db, user_account, system_account, VaultHolding, Payout, DeliveryRequest}
use alkeva.Ledger.{PostTxnSpec, balance}
use alkeva.Ledger.Balance.{delta}
use alkeva.Ledger.Post.{Moved}
use alkeva.Orders.Queries.{physical_mg}
use alkeva.Books.{Sound, held_cents, held_mg}

module _ {vs : List VaultHolding} {ps : List Payout} {ds : List DeliveryRequest} {txn : ℕ}
    {spec : PostTxnSpec} {before after : Db} (s : Sound before.entries vs ps ds)
    (m : Moved txn spec before after) (vs' : List VaultHolding) (ps' : List Payout)
    (ds' : List DeliveryRequest) where
  pub posting-Sound :
      ((u : ℕ) (a : Asset)
        → pos 0
          ≤ℤ delta (user_account u a) spec.entries +ℤ balance (user_account u a) before.entries)
      → ((m : MetalAsset)
          → pos 0
            ≤ℤ physical_mg m vs'
              +ℤ (delta (system_account (vault m)) spec.entries
                  +ℤ balance (system_account (vault m)) before.entries))
      → delta (system_account payout_hold) spec.entries +ℤ pos (sum_by held_cents ps)
        ≡ pos (sum_by held_cents ps')
      → ((m : MetalAsset)
          → delta (system_account (delivery_hold m)) spec.entries +ℤ pos (sum_by (held_mg m) ds)
            ≡ pos (sum_by (held_mg m) ds'))
      → Sound after.entries vs' ps' ds'
  posting-Sound users vaults payouts deliveries = record {
    solvent = λ u a. rw (m.each_balance (user_account u a)) (users u a);
    reserved = λ n. rw (m.each_balance (system_account (vault n))) (vaults n);
    zero_sum = λ a. rw (m.each_asset a) (s.zero_sum a);
    payout_escrow = rw (m.each_balance (system_account payout_hold), s.payout_escrow) payouts;
    delivery_escrow = λ n.
        rw (m.each_balance (system_account (delivery_hold n)), s.delivery_escrow n) (deliveries n);
  }
