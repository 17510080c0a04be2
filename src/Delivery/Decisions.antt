-- ===== src/Delivery/Decisions.antt =====
-- `approve`, `schedule`, `deliver` and `reject` of apps/api/src/delivery/delivery.service.ts as
-- whole calls.
use alkeva.Common.{ℕ, String, ◌≡◌, refl, sym, ap, ◌∙◌, Bool, true, false, Option, none, some, ◌==◌}
use alkeva.Common.Table.{find_row-key}
use alkeva.Assets.{SystemAccountName, metal, delivery_hold, vault}
use alkeva.Codes.{not_found, cannot_decide_own}
use alkeva.Schema.{Db, DeliveryRequest}
use alkeva.Request.{Action, pure, or_raise, raise_if, modify, transaction, ◌>>=◌, ◌>>◌}
use alkeva.Request.Keeps.{bind-Keeps, AllOk, Keeps-bind_at, transaction-AllOk}
use alkeva.Ledger.{ensure_user_account, system_account_id, assert_can_move_money}
use alkeva.Ledger.Accounts.{
  assert_can_move_money-Keeps, system_account_id-Keeps, ensure_user_account-Keeps,
}
use alkeva.Books.{IsSound}
use alkeva.Orders.Settle.{notify}
use alkeva.Delivery.{
  find_delivery, approve_tx, schedule_tx, deliver_tx, reject_tx, peek_other, commit, approve_peeked,
  schedule_peeked, deliver_peeked, reject_peeked, Decision, approve, schedule, deliver, reject,
  carry_out, decide,
}
use alkeva.Delivery.Sound.{approve_tx-AllOk, schedule_tx-AllOk, deliver_tx-AllOk, reject_tx-AllOk}

module _ (peek : DeliveryRequest) where
  -- The row that was peeked at is still there when the transaction starts.
  abbrev Before : Db → Type 0
  Before d = IsSound d × (find_delivery peek.id d ≡ some peek)

  same_asset :
      (d : Db)
      → find_delivery peek.id d ≡ some peek
      → (r : DeliveryRequest) → find_delivery peek.id d ≡ some r
      → r.asset ≡ peek.asset
  same_asset d here r found = same (sym found ∙ here)
    where
      same : some r ≡ some peek → r.asset ≡ peek.asset
      same e = cc

  commit-Sound :
      (tx : Action (Unit {0})) (template : String)
      → ((d : Db) → Before d → AllOk (λ _. IsSound) (tx d))
      → (d : Db) → Before d
      → IsSound (commit peek tx template d).1
  unfolding commit
  commit-Sound tx template kept d b =
      Keeps-bind_at IsSound (transaction tx) (λ _. modify (notify (some peek.user_id) template)) d
        (transaction-AllOk IsSound tx d b.0 (kept d b)) (λ _ db s. s)

  ensure-Sound :
      {A : Type 0} (rest : Action A)
      → ((d : Db) → Before d → IsSound (rest d).1)
      → (d : Db) → Before d
      → IsSound ((ensure_user_account peek.user_id (metal peek.asset) >> rest) d).1
  ensure-Sound rest k =
      bind-Keeps Before IsSound (ensure_user_account peek.user_id (metal peek.asset)) (λ _. rest)
        (λ _ b. b.0) (ensure_user_account-Keeps Before (λ _ _ b. b) peek.user_id (metal peek.asset))
        (λ _. k)

  system-Sound :
      {A : Type 0} (name : SystemAccountName) (rest : Action A)
      → ((d : Db) → Before d → IsSound (rest d).1)
      → (d : Db) → Before d
      → IsSound ((system_account_id name >> rest) d).1
  system-Sound name rest k =
      bind-Keeps Before IsSound (system_account_id name) (λ _. rest) (λ _ b. b.0)
        (system_account_id-Keeps Before (λ _ _ b. b) name) (λ _. k)

  carry_out-Sound :
      (decision : Decision) (txn reviewer : ℕ) (d : Db)
      → Before d
      → IsSound (carry_out decision txn reviewer peek d).1
  unfolding approve_peeked schedule_peeked deliver_peeked reject_peeked
  carry_out-Sound approve txn reviewer =
      bind-Keeps Before IsSound (assert_can_move_money peek.user_id)
        (λ _.
          ensure_user_account peek.user_id (metal peek.asset)
          >> (system_account_id (delivery_hold peek.asset) >> held))
        (λ _ b. b.0) (assert_can_move_money-Keeps Before peek.user_id)
        (λ _. ensure-Sound (system_account_id (delivery_hold peek.asset) >> held) (
          system-Sound (delivery_hold peek.asset) held (
            commit-Sound (approve_tx txn reviewer peek) "delivery_approved"
              (λ d b. approve_tx-AllOk txn reviewer peek d b.0 (same_asset d b.1)))))
    where
      held : Action (Unit {0})
      held = commit peek (approve_tx txn reviewer peek) "delivery_approved"
  carry_out-Sound schedule txn reviewer =
      commit-Sound (schedule_tx reviewer peek) "delivery_scheduled"
        (λ d b. schedule_tx-AllOk txn reviewer peek d b.0 (same_asset d b.1))
  carry_out-Sound deliver txn reviewer =
      system-Sound (delivery_hold peek.asset) (system_account_id (vault peek.asset) >> handed) (
        system-Sound (vault peek.asset) handed (
          commit-Sound (deliver_tx txn reviewer peek) "delivery_delivered"
            (λ d b. deliver_tx-AllOk txn reviewer peek d b.0 (same_asset d b.1))))
    where
      handed : Action (Unit {0})
      handed = commit peek (deliver_tx txn reviewer peek) "delivery_delivered"
  carry_out-Sound reject txn reviewer =
      ensure-Sound (system_account_id (delivery_hold peek.asset) >> refused) (
        system-Sound (delivery_hold peek.asset) refused (
          commit-Sound (reject_tx txn reviewer peek) "delivery_rejected"
            (λ d b. reject_tx-AllOk txn reviewer peek d b.0 (same_asset d b.1))))
    where
      refused : Action (Unit {0})
      refused = commit peek (reject_tx txn reviewer peek) "delivery_rejected"

-- If the books are sound, they are sound after a reviewer approves, schedules, delivers or rejects a
-- delivery request, whether or not the decision goes through: the escrow accounts hold the grams of
-- the approved and scheduled requests, and what leaves the vault leaves the books.
pub decide-Sound :
    (decision : Decision) (txn id reviewer : ℕ) (db : Db)
    → IsSound db
    → IsSound (decide decision txn id reviewer db).1
unfolding decide peek_other
decide-Sound decision txn id reviewer db s = go (find_delivery id db) refl
  where
    judged : Bool → DeliveryRequest → Action (Unit {0})
    judged own peek =
        (raise_if own cannot_decide_own >> pure peek) >>= carry_out decision txn reviewer

    judged-Sound :
        (own : Bool) (peek : DeliveryRequest)
        → find_delivery id db ≡ some peek
        → IsSound (judged own peek db).1
    judged-Sound true peek e = s
    judged-Sound false peek e = carry_out-Sound peek decision txn reviewer db (
      s,
      ap (λ k. find_delivery k db)
            (find_row-key (λ (d : DeliveryRequest). d.id) id db.deliveries peek e)
          ∙ e,
    )

    go :
        (rows : Option DeliveryRequest)
        → find_delivery id db ≡ rows
        → IsSound
            (((or_raise rows not_found >>= λ peek.
                  raise_if (peek.user_id == reviewer) cannot_decide_own >> pure peek)
                >>= carry_out decision txn reviewer)
              db).1
    go none e = s
    go (some peek) e = judged-Sound (peek.user_id == reviewer) peek e
