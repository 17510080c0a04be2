-- ===== src/Payouts/Sweep.antt =====
-- The timer of apps/api/src/payouts/payouts.service.ts that asks the provider about the withdrawals
-- in flight, and the marks in Redis of those that staff were told about.
use alkeva.Common.{
  ℕ, zero, suc, Bool, not, ◌+◌, ◌&&◌, Option, none, some, List, [], ◌∷◌, any, filter, ltb, leb,
  ◌==◌, if◌then◌else◌,
}
use alkeva.Schema.{Db, Payout}
use alkeva.Request.{Result, ok, err}
use alkeva.Orders.Settle.{notify}
use alkeva.Payouts.{is_in_flight}
use alkeva.Payouts.Transfer.{TransferEnv, resolve_by_verify}

-- `payout:stuck-alerted:<id>` with the instant at which it expires.
pub record StuckMark : Type 0 where
  pub payout_id : ℕ
  pub expires_at : ℕ

abbrev pub is_marked : ℕ → ℕ → List StuckMark → Bool
is_marked now id marks = any (λ m. m.payout_id == id && ltb now m.expires_at) marks

-- In flight, and older than five minutes.
abbrev pub is_overdue : ℕ → Payout → Bool
is_overdue now p = is_in_flight p.status && ltb (p.created_at + 300000) now

-- `STUCK_ALERT_MIN`, an hour.
abbrev pub is_stuck : ℕ → Payout → Bool
is_stuck now p = leb (p.created_at + 3600000) now

unfoldable pub insert_payout : Payout → List Payout → List Payout
insert_payout p [] = p ∷ []
insert_payout p (q ∷ rest) =
    if ltb p.created_at q.created_at then p ∷ q ∷ rest else q ∷ insert_payout p rest

-- `order by created_at`
unfoldable pub by_creation : List Payout → List Payout
by_creation [] = []
by_creation (p ∷ rest) = insert_payout p (by_creation rest)

abbrev pub first_payouts : ℕ → List Payout → List Payout
first_payouts zero ps = []
first_payouts (suc n) [] = []
first_payouts (suc n) (p ∷ ps) = p ∷ first_payouts n ps

-- The rows of a pass: fifty at most, the oldest first.
abbrev pub overdue_payouts : ℕ → Db → List Payout
overdue_payouts now db = first_payouts 50 (by_creation (filter (is_overdue now) db.payouts))

-- What a pass leaves: its result, the database and the marks.
abbrev pub Swept : Type 0
Swept = (Result (Unit {0}) × Db) × List StuckMark

-- The rest of a pass.
abbrev pub Rest : Type 0
Rest = List StuckMark → Db → Swept

-- A payout that stays unclear for an hour is shown to staff, once a day.
unfoldable pub alert_stuck : ℕ → Payout → Rest → Rest
alert_stuck now p rest marks db =
    if is_stuck now p && not (is_marked now p.id marks)
    then rest (record { payout_id = p.id; expires_at = now + 86400000 } ∷ marks)
        (notify none "staff_alert" db)
    else rest marks db

-- What follows the answer about one payout; an exception ends the pass.
abbrev pub after_answer : ℕ → Payout → Rest → List StuckMark → Result (Option Payout) × Db → Swept
after_answer now p rest marks (err e, db) = ((err e, db), marks)
after_answer now p rest marks (ok (some resolved), db) = rest marks db
after_answer now p rest marks (ok none, db) = alert_stuck now p rest marks db

unfoldable pub sweep_payouts : TransferEnv → ℕ → ℕ → List Payout → Rest
sweep_payouts env now txn_id [] marks db = ((ok tt, db), marks)
sweep_payouts env now txn_id (p ∷ ps) marks db =
    after_answer now p (sweep_payouts env now (txn_id + 1) ps) marks
      (resolve_by_verify env now txn_id none p db)

-- `sweep`; the transactions it posts get numbers from `txn_id` on.
unfoldable pub sweep : TransferEnv → ℕ → ℕ → Rest
sweep env now txn_id marks db = sweep_payouts env now txn_id (overdue_payouts now db) marks db
