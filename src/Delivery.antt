-- ===== src/Delivery.antt =====
-- apps/api/src/delivery/delivery.service.ts: physical delivery. An approval takes the metal into an
-- escrow account; the handover takes it out of the escrow and out of the vault; a refusal gives it
-- back. Delivery/Asked has the request itself.
pub mod Escrow
pub mod Claims
pub mod Sound
pub mod Decisions
pub mod Asked
pub mod Opened
use alkeva.Common.{
  ℕ, String, Bool, true, false, not, Option, none, some, List, [], ◌∷◌, ◌==◌, if◌then◌else◌,
}
use alkeva.Common.Int.{ℤ, pos, ltb_ℤ}
use alkeva.Common.Table.{find_row, claim_row}
use alkeva.Assets.{MetalAsset, metal, delivery_hold, vault}
use alkeva.Codes.{
  Code, not_found, cannot_decide_own, insufficient_metal, delivery_not_open, delivery_status,
}
use alkeva.Schema.{
  Db, DeliveryRequest, DeliveryStatus, VaultHolding, outtake, AccountId, user_account,
  system_account, TxnKind,
}
use alkeva.Request.{Action, pure, raise, gets, or_raise, raise_if, modify, transaction, ◌>>=◌, ◌>>◌}
use alkeva.Ledger.{
  Balances, ensure_user_account, system_account_id, lock_and_read_balances, post_transaction,
  assert_can_move_money,
}
use alkeva.Ledger.Move.{move_entries}
use alkeva.Orders.Settle.{notify}
use alkeva.Books.{is_held_delivery}
use alkeva.Treasury.{audit}

abbrev pub find_delivery : ℕ → Db → Option DeliveryRequest
find_delivery id db = find_row (λ (d : DeliveryRequest). d.id) id db.deliveries

abbrev pub set_deliveries : List DeliveryRequest → Db → Db
set_deliveries rows db = record db { deliveries = rows }

-- The conditional status move: whoever loses it gets the code of a wrong status.
unfoldable pub take_claim : Option (DeliveryRequest × List DeliveryRequest) → Action DeliveryRequest
take_claim none = raise delivery_status
take_claim (some (row, rows)) = do modify (set_deliveries rows); pure row

-- `claim`
unfoldable pub claim :
    ℕ → (DeliveryStatus → Bool) → (DeliveryRequest → DeliveryRequest) → Action DeliveryRequest
claim id from mark = do
  claimed ←
      gets
        (λ db. claim_row (λ (d : DeliveryRequest). d.id) id (λ d. from d.status) mark db.deliveries)
  take_claim claimed

abbrev pub mark : DeliveryStatus → ℕ → DeliveryRequest → DeliveryRequest
mark status reviewer_id d = record d { status = status; reviewer_id = some reviewer_id }

-- `requested` and `reviewing`
abbrev pub is_undecided : DeliveryStatus → Bool
is_undecided DeliveryStatus.requested = true
is_undecided DeliveryStatus.reviewing = true
is_undecided _ = false

-- `OPEN_STATUSES`
abbrev pub is_open : DeliveryStatus → Bool
is_open DeliveryStatus.rejected = false
is_open DeliveryStatus.delivered = false
is_open _ = true

abbrev pub status_eq : DeliveryStatus → DeliveryStatus → Bool
status_eq DeliveryStatus.requested DeliveryStatus.requested = true
status_eq DeliveryStatus.reviewing DeliveryStatus.reviewing = true
status_eq DeliveryStatus.approved DeliveryStatus.approved = true
status_eq DeliveryStatus.scheduled DeliveryStatus.scheduled = true
status_eq DeliveryStatus.rejected DeliveryStatus.rejected = true
status_eq DeliveryStatus.delivered DeliveryStatus.delivered = true
status_eq _ _ = false

abbrev pub post_move : ℕ → ℕ → AccountId → AccountId → MetalAsset → ℕ → Action ℕ
post_move txn_id reviewer_id src dst asset grams_mg = post_transaction txn_id (record {
  kind = TxnKind.delivery;
  subject = none;
  initiated_by = some reviewer_id;
  entries = move_entries src dst (metal asset) grams_mg;
})

abbrev pub audit_decision : ℕ → String → ℕ → Action (Unit {0})
audit_decision reviewer_id action id = modify (audit (some reviewer_id) action (some id))

abbrev pub hold : MetalAsset → AccountId
hold asset = system_account (delivery_hold asset)

-- The customer must have the metal under the lock; otherwise the status change rolls back too.
unfoldable pub post_hold : ℕ → ℕ → DeliveryRequest → DeliveryRequest → Balances → Action (Unit {0})
post_hold txn_id reviewer_id peek row balances = do
  let own = user_account peek.user_id (metal peek.asset)
  raise_if (ltb_ℤ (balances own) (pos row.grams_mg)) insufficient_metal
  post_move txn_id reviewer_id own (hold peek.asset) peek.asset row.grams_mg
  audit_decision reviewer_id "delivery_approved" row.id

unfoldable pub hold_claimed : ℕ → ℕ → DeliveryRequest → DeliveryRequest → Action (Unit {0})
hold_claimed txn_id reviewer_id peek row = do
  balances ←
      lock_and_read_balances (user_account peek.user_id (metal peek.asset) ∷ hold peek.asset ∷ [])
  post_hold txn_id reviewer_id peek row balances

-- The transaction of `approve`.
unfoldable pub approve_tx : ℕ → ℕ → DeliveryRequest → Action (Unit {0})
approve_tx txn_id reviewer_id peek = do
  row ← claim peek.id is_undecided (mark DeliveryStatus.approved reviewer_id)
  hold_claimed txn_id reviewer_id peek row

-- The transaction of `schedule`.
unfoldable pub schedule_tx : ℕ → DeliveryRequest → Action (Unit {0})
schedule_tx reviewer_id peek = do
  row ← claim peek.id is_held_delivery (mark DeliveryStatus.scheduled reviewer_id)
  audit_decision reviewer_id "delivery_scheduled" row.id

-- The bar leaves the building: a row of the vault's records, for the asset that was peeked at.
unfoldable pub record_handover : ℕ → DeliveryRequest → DeliveryRequest → ℕ → Action (Unit {0})
record_handover reviewer_id peek row id = do
  modify (λ db. record db {
    vault_holdings =
        record {
          asset = peek.asset;
          kind = outtake;
          grams_mg = row.grams_mg;
          recorded_by = reviewer_id;
        }
        ∷ db.vault_holdings;
  })
  audit_decision reviewer_id "delivery_delivered" row.id

unfoldable pub post_handover :
    ℕ → ℕ → DeliveryRequest → DeliveryRequest → Balances → Action (Unit {0})
post_handover txn_id reviewer_id peek row balances = do
  id ←
      post_move txn_id reviewer_id (hold peek.asset) (system_account (vault peek.asset)) peek.asset
        row.grams_mg
  record_handover reviewer_id peek row id

unfoldable pub hand_over_claimed : ℕ → ℕ → DeliveryRequest → DeliveryRequest → Action (Unit {0})
hand_over_claimed txn_id reviewer_id peek row = do
  balances ← lock_and_read_balances (hold peek.asset ∷ system_account (vault peek.asset) ∷ [])
  post_handover txn_id reviewer_id peek row balances

-- The transaction of `deliver`.
unfoldable pub deliver_tx : ℕ → ℕ → DeliveryRequest → Action (Unit {0})
deliver_tx txn_id reviewer_id peek = do
  row ← claim peek.id is_held_delivery (mark DeliveryStatus.delivered reviewer_id)
  hand_over_claimed txn_id reviewer_id peek row

unfoldable pub post_refund :
    ℕ → ℕ → DeliveryRequest → DeliveryRequest → Balances → Action (Unit {0})
post_refund txn_id reviewer_id peek row balances = do
  post_move txn_id reviewer_id (hold peek.asset) (user_account peek.user_id (metal peek.asset))
      peek.asset row.grams_mg
  audit_decision reviewer_id "delivery_rejected" row.id

-- The metal goes back only if it was held.
unfoldable pub refund_claimed : ℕ → ℕ → DeliveryRequest → Bool → DeliveryRequest → Action (Unit {0})
refund_claimed txn_id reviewer_id peek false row =
    audit_decision reviewer_id "delivery_rejected" row.id
refund_claimed txn_id reviewer_id peek true row = do
  balances ←
      lock_and_read_balances (user_account peek.user_id (metal peek.asset) ∷ hold peek.asset ∷ [])
  post_refund txn_id reviewer_id peek row balances

-- From the locked row on.
unfoldable pub reject_locked : ℕ → ℕ → DeliveryRequest → DeliveryRequest → Action (Unit {0})
reject_locked txn_id reviewer_id peek before = do
  raise_if (not (is_open before.status)) delivery_not_open
  row ← claim peek.id (status_eq before.status) (mark DeliveryStatus.rejected reviewer_id)
  refund_claimed txn_id reviewer_id peek (is_held_delivery before.status) row

-- The transaction of `reject`.
unfoldable pub reject_tx : ℕ → ℕ → DeliveryRequest → Action (Unit {0})
reject_tx txn_id reviewer_id peek = do
  current ← gets (find_delivery peek.id)
  before ← or_raise current delivery_not_open
  reject_locked txn_id reviewer_id peek before

-- `mustGet`, then `assertNotOwn`.
unfoldable pub peek_other : ℕ → ℕ → Action DeliveryRequest
peek_other id reviewer_id = do
  rows ← gets (find_delivery id)
  peek ← or_raise rows not_found
  raise_if (peek.user_id == reviewer_id) cannot_decide_own
  pure peek

-- The transaction and the notice to the customer.
unfoldable pub commit : DeliveryRequest → Action (Unit {0}) → String → Action (Unit {0})
commit peek tx template = do transaction tx; modify (notify (some peek.user_id) template)

unfoldable pub approve_peeked : ℕ → ℕ → DeliveryRequest → Action (Unit {0})
approve_peeked txn_id reviewer_id peek = do
  assert_can_move_money peek.user_id
  ensure_user_account peek.user_id (metal peek.asset)
  system_account_id (delivery_hold peek.asset)
  commit peek (approve_tx txn_id reviewer_id peek) "delivery_approved"

unfoldable pub schedule_peeked : ℕ → DeliveryRequest → Action (Unit {0})
schedule_peeked reviewer_id peek = commit peek (schedule_tx reviewer_id peek) "delivery_scheduled"

unfoldable pub deliver_peeked : ℕ → ℕ → DeliveryRequest → Action (Unit {0})
deliver_peeked txn_id reviewer_id peek = do
  system_account_id (delivery_hold peek.asset)
  system_account_id (vault peek.asset)
  commit peek (deliver_tx txn_id reviewer_id peek) "delivery_delivered"

unfoldable pub reject_peeked : ℕ → ℕ → DeliveryRequest → Action (Unit {0})
reject_peeked txn_id reviewer_id peek = do
  ensure_user_account peek.user_id (metal peek.asset)
  system_account_id (delivery_hold peek.asset)
  commit peek (reject_tx txn_id reviewer_id peek) "delivery_rejected"

-- `approve`, `schedule`, `deliver` and `reject`.
pub data Decision : Type 0 where
  approve schedule deliver reject : Decision

abbrev pub carry_out : Decision → ℕ → ℕ → DeliveryRequest → Action (Unit {0})
carry_out approve txn_id reviewer_id peek = approve_peeked txn_id reviewer_id peek
carry_out schedule txn_id reviewer_id peek = schedule_peeked reviewer_id peek
carry_out deliver txn_id reviewer_id peek = deliver_peeked txn_id reviewer_id peek
carry_out reject txn_id reviewer_id peek = reject_peeked txn_id reviewer_id peek

unfoldable pub decide : Decision → ℕ → ℕ → ℕ → Action (Unit {0})
decide decision txn_id id reviewer_id = do
  peek ← peek_other id reviewer_id
  carry_out decision txn_id reviewer_id peek
