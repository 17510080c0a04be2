-- ===== src/Payouts/Consent.antt =====
-- What a confirmation in apps/api/src/payouts/payouts.service.ts asks for before it moves money.
use alkeva.Common.{ℕ, String, ◌≡◌, refl, ◌⊎◌, inl, inr, Option, none, some, List}
use alkeva.Schema.{Db, Payout}
use alkeva.Request.{Result, ok, err}
use alkeva.Request.Keeps.{Keeps, Keeps-bind}
use alkeva.Auth.Codes.{EmailCode, consume}
use alkeva.Auth.Accepted.{IsAccepted, consume-ok}
use alkeva.Payouts.{PayoutsEnv, PayoutSpec}
use alkeva.Payouts.Transfer.{TransferEnv}
use alkeva.Payouts.Intents.{
  ConfirmPayout, find_by_key, request, spec_of, again_or, requested_by, attempt_of, confirmed_by,
  confirm,
}
use alkeva.Payouts.Confirmed.{find_by_key-Keeps}

module _ (hash : ℕ → String → String) (limits : PayoutsEnv) (env : TransferEnv)
    (now id txn user_id : ℕ) (dto : ConfirmPayout) (codes : List EmailCode) (db : Db) where
  -- Nothing was written, or the code was accepted and what it was issued for is requested.
  abbrev pub IsConsented : Result Payout × Db → Type 0
  IsConsented after =
      (after.1 ≡ db)
      ⊎ ((r : EmailCode) × IsAccepted hash (attempt_of hash limits env now user_id dto) codes r
          × (after
              ≡ request limits env now id txn user_id (spec_of r.payload)
                  (user_id, dto.idempotency_key) db))

  found-same : (find_by_key (user_id, dto.idempotency_key) user_id db).1 ≡ db
  found-same = find_by_key-Keeps (λ d. d ≡ db) (user_id, dto.idempotency_key) user_id db refl

  consumed :
      (r : Result (Option PayoutSpec))
      → (consume hash (attempt_of hash limits env now user_id dto) codes).0 ≡ r
      → IsConsented
          (requested_by hash limits env now id txn user_id (user_id, dto.idempotency_key) r db)
  consumed (ok payload) e =
      let (row, accepted, same) =
        consume-ok hash (attempt_of hash limits env now user_id dto) codes payload e in
      inr (row, accepted, rw same refl)
  consumed (err e) h = inl (
      Keeps-bind (λ d. d ≡ db) (find_by_key (user_id, dto.idempotency_key) user_id)
        (again_or hash limits env e)
        (find_by_key-Keeps (λ d. d ≡ db) (user_id, dto.idempotency_key) user_id) again db refl)
    where
      again : (o : Option Payout) → Keeps (λ d. d ≡ db) (again_or hash limits env e o)
      again none d k = k
      again (some row) d k = k

  -- A confirmation writes nothing, or the typed code is the unused, unexpired code of the named
  -- intent of this customer, with tries left; then it ends as the request of exactly what that code
  -- was issued for.
  pub confirm-IsConsented : IsConsented (confirm hash limits env now id txn user_id dto codes db).0
  unfolding confirm
  confirm-IsConsented = go (find_by_key (user_id, dto.idempotency_key) user_id db) found-same
    where
      go :
          (r : Result (Option Payout) × Db)
          → r.1 ≡ db
          → IsConsented (confirmed_by hash limits env now id txn user_id dto codes r).0
      go (err e, d) same = inl same
      go (ok (some row), d) same = inl same
      go (ok none, d) same = rw same (consumed _ refl)
