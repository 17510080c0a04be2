-- ===== src/Auth/Accepted.antt =====
-- Which codes apps/api/src/auth/email-codes.service.ts accepts.
use alkeva.Common.{
  ℕ, String, ◌≡◌, refl, Bool, true, false, ◌&&◌, ==_iff, ◌<◌, is_some, inl, inr, Option, List, In,
  In-filter, Bool-cases, Option-cases,
}
use alkeva.Common.Table.{claim_row}
use alkeva.Request.{Result, ok}
use alkeva.Payouts.{PayoutSpec}
use alkeva.Auth.Codes.{
  EmailCode, Attempt, code_id, purpose_eq, is_pinned, candidate, matches, compare_code, consume,
  is_unconsumed, mark_consumed,
}
use alkeva.Auth.Attempts.{newest-In, gate-ok, Result-cases}

-- The row is a live code of this user and purpose, the one that the attempt names, if it names one,
-- with tries left and the hash of the input.
pub record IsAccepted (hash : ℕ → String → String) (t : Attempt) (rows : List EmailCode)
    (r : EmailCode) : Type 0 where
  pub place : In r rows
  pub owner : r.user_id ≡ t.user_id
  pub purpose : purpose_eq r.purpose t.purpose ≡ true
  pub pinned : is_pinned t.id r ≡ true
  pub unused : is_some r.consumed_at ≡ false
  pub left : r.attempts < 5
  pub live : t.now < r.expires_at
  pub right : matches hash t r ≡ true

both : (a b : Bool) → (a && b) ≡ true → (a ≡ true) × (b ≡ true)
both true b h = (refl, h)
both false b h = cc

payload_of :
    (p q : Option PayoutSpec) → (◌≡◌ {A = Result (Option PayoutSpec)} (ok p) (ok q)) → q ≡ p
payload_of p q e = cc

module _ (hash : ℕ → String → String) (t : Attempt) (rows : List EmailCode) where
  compare_code-ok :
      (r : EmailCode) (payload : Option PayoutSpec)
      → (compare_code hash t r rows).0 ≡ ok payload
      → (matches hash t r ≡ true) × (payload ≡ r.payload)
  unfolding compare_code
  compare_code-ok r payload h = elim (Bool-cases (matches hash t r)) [
    | inl right ↦
        elim (Option-cases (claim_row code_id r.id is_unconsumed (mark_consumed t.now) rows)) [
          | inl lost ↦ cc (rw (compare_code, right, lost) at h)
          | inr (c, won) ↦
              (right, payload_of r.payload payload (rw (compare_code, right, won) at h))
        ]
    | inr wrong ↦ cc (rw (compare_code, wrong) at h)
  ]

  pub consume-ok :
      (payload : Option PayoutSpec)
      → (consume hash t rows).0 ≡ ok payload
      → (r : EmailCode) × IsAccepted hash t rows r × (payload ≡ r.payload)
  unfolding candidate consume
  consume-ok payload h = elim (Result-cases (candidate t rows)) [
    | inl (e, refused) ↦ cc (rw (consume, refused) at h)
    | inr (r, chosen) ↦
        let (first, unused, left, live) = gate-ok t.now _ r chosen in
        let (place, fits) = In-filter _ rows r (newest-In _ r first) in
        let (mine, pinned) = both _ _ fits in
        let (owner, purpose) = both _ _ mine in
        let (right, same) = compare_code-ok r payload (rw (consume, chosen) at h) in
        (
          r,
          record {
            place = place;
            owner = (==_iff r.user_id t.user_id).0 owner;
            purpose = purpose;
            pinned = pinned;
            unused = unused;
            left = left;
            live = live;
            right = right;
          },
          same,
        )
  ]
