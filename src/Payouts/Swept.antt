-- ===== src/Payouts/Swept.antt =====
-- What the timer of apps/api/src/payouts/payouts.service.ts does to the books. It works on rows that
-- it read before the first answer, so that what is kept of them is their amount.
use alkeva.Common.{
  ℕ, zero, suc, ◌+◌, ◌≡◌, Bool, inl, inr, not, ◌&&◌, Option, none, some, List, [], ◌∷◌, filter, ltb,
  Bool-cases, All, In, refl, sym, ◌∙◌,
}
use alkeva.Common.Keyed.{IsKeyed, find_row-In, find_row-update_row_back}
use alkeva.Schema.{Db, Payout}
use alkeva.Request.{Result, ok, err}
use alkeva.Orders.Settle.{notify}
use alkeva.Books.{IsSound}
use alkeva.Payouts.Requests.{IsAmountOf}
use alkeva.Payouts.Transfer.{TransferEnv, resolve_by_verify}
use alkeva.Payouts.Transfers.{resolve_by_verify-Sound}
use alkeva.Payouts.Amounts.{IsOfAmounts, resolve_by_verify-Keeps}
use alkeva.Payouts.Sweep
use alkeva.Payouts.Sweep.{
  StuckMark, Rest, is_overdue, is_stuck, is_marked, insert_payout, by_creation, first_payouts,
  overdue_payouts, alert_stuck, after_answer, sweep_payouts,
}

module _ (Q : Payout → Type 0) where
  All-insert_payout : (p : Payout) (ps : List Payout) → Q p → All Q ps → All Q (insert_payout p ps)
  unfolding insert_payout
  All-insert_payout p [] q h = (q, tt)
  All-insert_payout p (r ∷ ps) q (k, h) = elim (Bool-cases (ltb p.created_at r.created_at)) [
    | inl before ↦ rw before (q, (k, h))
    | inr after ↦ rw after (k, All-insert_payout p ps q h)
  ]

  All-by_creation : (ps : List Payout) → All Q ps → All Q (by_creation ps)
  unfolding by_creation
  All-by_creation [] h = tt
  All-by_creation (p ∷ ps) (q, h) = All-insert_payout p _ q (All-by_creation ps h)

  All-first_payouts : (n : ℕ) (ps : List Payout) → All Q ps → All Q (first_payouts n ps)
  All-first_payouts zero ps h = tt
  All-first_payouts (suc n) [] h = tt
  All-first_payouts (suc n) (p ∷ ps) (q, h) = (q, All-first_payouts n ps h)

  All-filter : (p : Payout → Bool) (ps : List Payout) → All Q ps → All Q (filter p ps)
  All-filter p [] h = tt
  All-filter p (r ∷ ps) (q, h) = elim (Bool-cases (p r)) [
    | inl kept ↦ rw kept (q, All-filter p ps h)
    | inr gone ↦ rw gone (All-filter p ps h)
  ]

-- The amounts of a table with distinct ids are those of its rows.
amounts_of :
    (db : Db) → IsKeyed (λ (p : Payout). p.id) db.payouts → All (λ p. IsAmountOf p db) db.payouts
amounts_of db keyed = every db.payouts (λ p place. place)
  where
    here : (p : Payout) → In p db.payouts → IsAmountOf p db
    here p place r found = same (find_row-In (λ (p : Payout). p.id) db.payouts p keyed place) found
      where
        same : {o : Option Payout} → o ≡ some p → o ≡ some r → r.amount_cents ≡ p.amount_cents
        same e e' = cc

    every :
        (ps : List Payout)
        → ((p : Payout) → In p ps → In p db.payouts)
        → All (λ p. IsAmountOf p db) ps
    every [] within = tt
    every (p ∷ ps) within =
        (here p (within p (inl refl)), every ps (λ q place. within q (inr place)))

module _ (q : Payout) where
  IsAmountOf-IsOfAmounts : IsOfAmounts (IsAmountOf q)
  IsAmountOf-IsOfAmounts = record {
    accounts_free = λ db rows h. h;
    books_free = λ db ts es h. h;
    notes_free = λ db ls ns h. h;
    marks_free = λ db id f same h r found.
        let (old, before, amount) =
          find_row-update_row_back (λ (p : Payout). p.id) (λ p. p.amount_cents) q.id id f same
            db.payouts r found in
        sym amount ∙ h old before;
  }

module _ (env : TransferEnv) (now : ℕ) where
  amounts-resolve :
      (txn : ℕ) (p : Payout) (db : Db) (ps : List Payout)
      → All (λ q. IsAmountOf q db) ps
      → All (λ q. IsAmountOf q (resolve_by_verify env now txn none p db).1) ps
  amounts-resolve txn p db [] h = tt
  amounts-resolve txn p db (q ∷ ps) (a, h) = (
    resolve_by_verify-Keeps (IsAmountOf q) (IsAmountOf-IsOfAmounts q) env now txn none p db a,
    amounts-resolve txn p db ps h,
  )

  after_answer-Sound :
      (p : Payout) (rest : Rest) (ps : List Payout) (marks : List StuckMark)
      (r : Result (Option Payout) × Db)
      → ((ms : List StuckMark) (d : Db)
          → IsSound d
          → All (λ q. IsAmountOf q d) ps
          → IsSound (rest ms d).0.1)
      → IsSound r.1
      → All (λ q. IsAmountOf q r.1) ps
      → IsSound (after_answer now p rest marks r).0.1
  unfolding alert_stuck
  after_answer-Sound p rest ps marks (err e, d) goes_on s h = s
  after_answer-Sound p rest ps marks (ok (some r), d) goes_on s h = goes_on marks d s h
  after_answer-Sound p rest ps marks (ok none, d) goes_on s h =
      elim (Bool-cases (is_stuck now p && not (is_marked now p.id marks))) [
        | inl alert ↦ rw alert (goes_on _ (notify none "staff_alert" d) s h)
        | inr quiet ↦ rw quiet (goes_on marks d s h)
      ]

  sweep_payouts-Sound :
      (txn : ℕ) (ps : List Payout) (marks : List StuckMark) (db : Db)
      → IsSound db
      → All (λ p. IsAmountOf p db) ps
      → IsSound (sweep_payouts env now txn ps marks db).0.1
  unfolding sweep_payouts
  sweep_payouts-Sound txn [] marks db s h = s
  sweep_payouts-Sound txn (p ∷ ps) marks db s (a, h) =
      after_answer-Sound p (sweep_payouts env now (txn + 1) ps) ps marks
        (resolve_by_verify env now txn none p db) (sweep_payouts-Sound (txn + 1) ps)
        (resolve_by_verify-Sound env now txn none p db s a) (amounts-resolve txn p db ps h)

  -- If the books are sound and the ids of the payouts are distinct, the books are sound after a pass
  -- of the timer, whatever the provider answers about each payout and wherever the pass ends.
  pub sweep-Sound :
      (txn : ℕ) (marks : List StuckMark) (db : Db)
      → IsSound db
      → IsKeyed (λ (p : Payout). p.id) db.payouts
      → IsSound (Sweep.sweep env now txn marks db).0.1
  unfolding Sweep.sweep
  sweep-Sound txn marks db s keyed = sweep_payouts-Sound txn (overdue_payouts now db) marks db s (
      All-first_payouts (λ p. IsAmountOf p db) 50 _
        (All-by_creation (λ p. IsAmountOf p db) _
          (All-filter (λ p. IsAmountOf p db) (is_overdue now) _ (amounts_of db keyed))))
