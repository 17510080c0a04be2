-- ===== src/Delivery/Sound.antt =====
-- The transactions of apps/api/src/delivery/delivery.service.ts keep the books sound.
use alkeva.Common.{ℕ, ◌+◌, ◌≡◌, refl, sym, ◌∙◌, Bool, true, false, not, some, List, [], ◌∷◌, arith}
use alkeva.Common.Int.{ℤ, pos, ltb_ℤ, ltb_ℤ→ge}
use alkeva.Common.Table.{update_row, sum_by}
use alkeva.Assets.{MetalAsset, metal, vault}
use alkeva.Codes.{insufficient_metal, delivery_not_open}
use alkeva.Schema.{Db, DeliveryRequest, DeliveryStatus, AccountId, user_account, system_account}
use alkeva.Request.{or_raise, raise_if, ◌>>=◌, ◌>>◌}
use alkeva.Request.Keeps.{AllOk, bind-AllOk, raise_if-AllOk, or_raise-AllOk}
use alkeva.Ledger.{balance, balances_of, lock_and_read_balances, posted}
use alkeva.Ledger.Post.{post_transaction-AllOk}
use alkeva.Ledger.Reads.{account_eq_refl, balances_of_locked, lock_and_read_balances-AllOk}
use alkeva.Books.{IsSound, held_mg, is_held_delivery}
use alkeva.Delivery.{
  find_delivery, set_deliveries, claim, mark, is_undecided, is_open, status_eq, post_move,
  audit_decision, hold, post_hold, hold_claimed, approve_tx, schedule_tx, record_handover,
  post_handover, hand_over_claimed, deliver_tx, post_refund, refund_claimed, reject_locked,
  reject_tx,
}
use alkeva.Delivery.Escrow.{mg_in, held-Sound, refunded-Sound, delivered-Sound}
use alkeva.Delivery.Claims.{claim-AllOk, total_in, total_out, total_same}

-- The table after a status move.
abbrev moved : ℕ → DeliveryStatus → ℕ → Db → List DeliveryRequest
moved id to reviewer db =
    update_row (λ (d : DeliveryRequest). d.id) id (mark to reviewer) db.deliveries

undecided_free : (st : DeliveryStatus) → is_undecided st ≡ true → is_held_delivery st ≡ false
undecided_free st h = ground arith

same_sum :
    (a b : MetalAsset) (n : ℕ) (k : MetalAsset) (s t : ℕ)
    → a ≡ b
    → s ≡ t + mg_in a n k
    → s ≡ t + mg_in b n k
same_sum a b n k s t e h = rw (← e) h

same_row :
    (r b : DeliveryRequest)
    → some r ≡ some b
    → is_held_delivery r.status ≡ is_held_delivery b.status
same_row r b e = cc

same_total-Sound :
    (db : Db)
    → IsSound db
    → (ds : List DeliveryRequest)
    → ((k : MetalAsset) → sum_by (held_mg k) ds ≡ sum_by (held_mg k) db.deliveries)
    → IsSound (set_deliveries ds db)
same_total-Sound db s ds total = record {
  solvent = s.solvent;
  reserved = s.reserved;
  zero_sum = s.zero_sum;
  payout_escrow = s.payout_escrow;
  delivery_escrow = λ k. rw (total k) (s.delivery_escrow k);
}

module _ (txn reviewer : ℕ) (peek : DeliveryRequest) (db : Db) (s : IsSound db)
    (agree : (r : DeliveryRequest) → find_delivery peek.id db ≡ some r → r.asset ≡ peek.asset) where
  hold_claimed-AllOk :
      (r : DeliveryRequest)
      → find_delivery peek.id db ≡ some r
      → is_held_delivery r.status ≡ false
      → AllOk
          (λ _. IsSound)
          (hold_claimed txn reviewer peek
            (mark DeliveryStatus.approved reviewer r)
            (set_deliveries (moved peek.id DeliveryStatus.approved reviewer db) db))
  unfolding hold_claimed post_hold posted
  hold_claimed-AllOk r found free =
      bind-AllOk (λ _. IsSound) (lock_and_read_balances ids) (post_hold txn reviewer peek row) after
        (lock_and_read_balances-AllOk _ ids after (
          bind-AllOk (λ _. IsSound) (raise_if (ltb_ℤ read (pos row.grams_mg)) insufficient_metal)
            (λ _.
              post_move txn reviewer own (hold peek.asset) peek.asset row.grams_mg
              >> audit_decision reviewer "delivery_approved" row.id)
            after
            (raise_if-AllOk _ (ltb_ℤ read (pos row.grams_mg)) insufficient_metal after (λ fine.
              bind-AllOk (λ _. IsSound)
                (post_move txn reviewer own (hold peek.asset) peek.asset row.grams_mg)
                (λ _. audit_decision reviewer "delivery_approved" row.id) after
                (post_transaction-AllOk _ txn _ after (λ m.
                  held-Sound {ds = db.deliveries} s m peek.asset r.grams_mg after.deliveries
                    peek.user_id refl (rw (← here) (ltb_ℤ→ge read (pos row.grams_mg) fine))
                    (λ k. same_sum r.asset peek.asset r.grams_mg k _ _ (agree r found) (
                      total_in peek.id reviewer db r found k DeliveryStatus.approved free
                        refl))))))))
    where
      own : AccountId
      own = user_account peek.user_id (metal peek.asset)

      ids : List AccountId
      ids = own ∷ hold peek.asset ∷ []

      row : DeliveryRequest
      row = mark DeliveryStatus.approved reviewer r

      after : Db
      after = set_deliveries (moved peek.id DeliveryStatus.approved reviewer db) db

      read : ℤ
      read = balances_of ids after.entries own

      here : balances_of ids after.entries own ≡ balance own after.entries
      here = balances_of_locked ids after.entries own (rw (account_eq_refl own) refl)

  pub approve_tx-AllOk : AllOk (λ _. IsSound) (approve_tx txn reviewer peek db)
  unfolding approve_tx
  approve_tx-AllOk =
      bind-AllOk (λ _. IsSound) (claim peek.id is_undecided (mark DeliveryStatus.approved reviewer))
        (hold_claimed txn reviewer peek) db
        (claim-AllOk _ peek.id is_undecided (mark DeliveryStatus.approved reviewer) db
          (λ r found open_row. hold_claimed-AllOk r found (undecided_free r.status open_row)))

  pub schedule_tx-AllOk : AllOk (λ _. IsSound) (schedule_tx reviewer peek db)
  unfolding schedule_tx
  schedule_tx-AllOk =
      bind-AllOk (λ _. IsSound)
        (claim peek.id is_held_delivery (mark DeliveryStatus.scheduled reviewer))
        (λ row. audit_decision reviewer "delivery_scheduled" row.id) db
        (claim-AllOk _ peek.id is_held_delivery (mark DeliveryStatus.scheduled reviewer) db
          (λ r found kept.
            same_total-Sound db s _
              (λ k. total_same peek.id reviewer db r found k DeliveryStatus.scheduled kept)))

  hand_over_claimed-AllOk :
      (r : DeliveryRequest)
      → find_delivery peek.id db ≡ some r
      → is_held_delivery r.status ≡ true
      → AllOk
          (λ _. IsSound)
          (hand_over_claimed txn reviewer peek
            (mark DeliveryStatus.delivered reviewer r)
            (set_deliveries (moved peek.id DeliveryStatus.delivered reviewer db) db))
  unfolding hand_over_claimed post_handover record_handover posted
  hand_over_claimed-AllOk r found kept =
      bind-AllOk (λ _. IsSound) (lock_and_read_balances ids) (post_handover txn reviewer peek row)
        after
        (lock_and_read_balances-AllOk _ ids after (
          bind-AllOk (λ _. IsSound)
            (post_move txn reviewer (hold peek.asset) (system_account (vault peek.asset)) peek.asset
              row.grams_mg)
            (record_handover reviewer peek row) after
            (post_transaction-AllOk _ txn _ after (λ m.
              delivered-Sound {ds = db.deliveries} s m peek.asset r.grams_mg after.deliveries
                reviewer refl
                (λ k.
                  same_sum r.asset peek.asset r.grams_mg k _ _ (agree r found) (
                    total_out peek.id reviewer db r found k DeliveryStatus.delivered kept refl))))))
    where
      ids : List AccountId
      ids = hold peek.asset ∷ system_account (vault peek.asset) ∷ []

      row : DeliveryRequest
      row = mark DeliveryStatus.delivered reviewer r

      after : Db
      after = set_deliveries (moved peek.id DeliveryStatus.delivered reviewer db) db

  pub deliver_tx-AllOk : AllOk (λ _. IsSound) (deliver_tx txn reviewer peek db)
  unfolding deliver_tx
  deliver_tx-AllOk =
      bind-AllOk (λ _. IsSound)
        (claim peek.id is_held_delivery (mark DeliveryStatus.delivered reviewer))
        (hand_over_claimed txn reviewer peek) db
        (claim-AllOk _ peek.id is_held_delivery (mark DeliveryStatus.delivered reviewer) db
          hand_over_claimed-AllOk)

  refund_claimed-AllOk :
      (r : DeliveryRequest) (was_held : Bool)
      → find_delivery peek.id db ≡ some r
      → is_held_delivery r.status ≡ was_held
      → AllOk
          (λ _. IsSound)
          (refund_claimed txn reviewer peek was_held
            (mark DeliveryStatus.rejected reviewer r)
            (set_deliveries (moved peek.id DeliveryStatus.rejected reviewer db) db))
  unfolding refund_claimed post_refund posted
  refund_claimed-AllOk r false found free =
      same_total-Sound db s _
        (λ k. total_same peek.id reviewer db r found k DeliveryStatus.rejected free)
  refund_claimed-AllOk r true found kept =
      bind-AllOk (λ _. IsSound) (lock_and_read_balances ids) (post_refund txn reviewer peek row)
        after
        (lock_and_read_balances-AllOk _ ids after (
          bind-AllOk (λ _. IsSound)
            (post_move txn reviewer (hold peek.asset) own peek.asset row.grams_mg)
            (λ _. audit_decision reviewer "delivery_rejected" row.id) after
            (post_transaction-AllOk _ txn _ after (λ m.
              refunded-Sound {ds = db.deliveries} s m peek.asset r.grams_mg after.deliveries
                peek.user_id refl
                (λ k.
                  same_sum r.asset peek.asset r.grams_mg k _ _ (agree r found)
                    (total_out peek.id reviewer db r found k DeliveryStatus.rejected kept refl))))))
    where
      own : AccountId
      own = user_account peek.user_id (metal peek.asset)

      ids : List AccountId
      ids = own ∷ hold peek.asset ∷ []

      row : DeliveryRequest
      row = mark DeliveryStatus.rejected reviewer r

      after : Db
      after = set_deliveries (moved peek.id DeliveryStatus.rejected reviewer db) db

  pub reject_tx-AllOk : AllOk (λ _. IsSound) (reject_tx txn reviewer peek db)
  unfolding reject_tx reject_locked
  reject_tx-AllOk =
      bind-AllOk (λ _. IsSound) (or_raise (find_delivery peek.id db) delivery_not_open)
        (reject_locked txn reviewer peek) db
        (or_raise-AllOk _ (find_delivery peek.id db) delivery_not_open db (λ before here.
          bind-AllOk (λ _. IsSound) (raise_if (not (is_open before.status)) delivery_not_open)
            (λ _.
              claim peek.id (status_eq before.status) (mark DeliveryStatus.rejected reviewer)
              >>= refund_claimed txn reviewer peek (is_held_delivery before.status))
            db
            (raise_if-AllOk _ (not (is_open before.status)) delivery_not_open db (λ open_row.
              bind-AllOk (λ _. IsSound)
                (claim peek.id (status_eq before.status) (mark DeliveryStatus.rejected reviewer))
                (refund_claimed txn reviewer peek (is_held_delivery before.status)) db
                (claim-AllOk _ peek.id (status_eq before.status)
                  (mark DeliveryStatus.rejected reviewer) db
                  (λ r found same.
                    refund_claimed-AllOk r (is_held_delivery before.status) found
                      (same_row r before (sym found ∙ here))))))))
