-- ===== src/Auth/Attempts.antt =====
-- How often an emailed code can be tried (apps/api/src/auth/email-codes.service.ts).
use mathlib.Core.Path.{subst}
use mathlib.Core.Option
use alkeva.Common.{
  ℕ, String, ◌+◌, ◌≤◌, ◌<◌, ◌≡◌, ◌⊎◌, refl, ◌∙◌, sym, ap, inl, inr, Bool, true, false, ◌&&◌, ◌==◌,
  ==_iff, is_some, Option, none, some, List, [], ◌∷◌, leb, In, In-filter, if◌then◌else◌, arith,
  Bool-cases, Option-cases,
}
use alkeva.Common.Table.{
  find_row, update_row, claim_row, find_row-update_row_self, find_row-update_row_ne,
}
use alkeva.Common.Keyed.{one_if, has_key, IsKeyed, find_row-In, find_row-absent}
use alkeva.Codes.{Code}
use alkeva.Request.{Result, ok, err}
use alkeva.Auth.Codes.{
  EmailCode, Issue, Attempt, code_id, retire, newest, gate, candidate, is_unconsumed, issue,
  consume, Purpose,
}

pub data Event : Type 0 where
  issued : Bool → Issue → Event
  tried : Attempt → Event

abbrev pub is_ok : {A : Type 0} → Result A → Bool
is_ok (ok a) = true
is_ok (err e) = false

abbrev picks : ℕ → Result EmailCode → Bool
picks k (ok r) = r.id == k
picks k (err e) = false

-- Whether the event compares what was typed with the code of row `k`.
unfoldable pub compares : ℕ → Event → List EmailCode → Bool
compares k (issued there q) rows = false
compares k (tried t) rows = picks k (candidate t rows)

module _ (hash : ℕ → String → String) where
  -- Whether the event takes the code of row `k` for right.
  unfoldable pub accepts : ℕ → Event → List EmailCode → Bool
  accepts k (issued there q) rows = false
  accepts k (tried t) rows = picks k (candidate t rows) && is_ok (consume hash t rows).0

  unfoldable pub after_event : Event → List EmailCode → List EmailCode
  after_event (issued there q) rows = (issue hash there q rows).1
  after_event (tried t) rows = (consume hash t rows).1

  -- How often a sequence of events compares the code of row `k`, and takes it for right.
  unfoldable pub comparisons : ℕ → List Event → List EmailCode → ℕ
  comparisons k [] rows = 0
  comparisons k (e ∷ es) rows = one_if (compares k e rows) + comparisons k es (after_event e rows)

  unfoldable pub acceptances : ℕ → List Event → List EmailCode → ℕ
  acceptances k [] rows = 0
  acceptances k (e ∷ es) rows = one_if (accepts k e rows) + acceptances k es (after_event e rows)

-- How many of the five tries of a row are used up, and whether its code was taken for right.
abbrev pub spent : Option EmailCode → ℕ
spent none = 0
spent (some r) = if is_some r.consumed_at then 5 else r.attempts

abbrev pub used : Option EmailCode → ℕ
used none = 0
used (some r) = one_if (is_some r.consumed_at)

pub used-le : (o : Option EmailCode) → 0 + used o ≤ 1
used-le none = omega arith
used-le (some r) = ground arith

pub newest-In : (rows : List EmailCode) (r : EmailCode) → newest rows ≡ some r → In r rows
unfolding newest
newest-In [] r h = cc
newest-In (x ∷ rows) r h = elim (Option-cases (newest rows)) [
  | inl nothing ↦ inl (same x r (rw nothing at h))
  | inr (s, later) ↦ elim (Bool-cases (leb s.created_at x.created_at)) [
    | inl here ↦ inl (same x r (rw (later, here) at h))
    | inr older ↦ inr (newest-In rows r (later ∙ (rw (later, older) at h)))
  ]
]
  where
    same : (y z : EmailCode) → some y ≡ some z → z ≡ y
    same y z e = cc

pub gate-ok :
    (now : ℕ) (o : Option EmailCode) (r : EmailCode)
    → gate now o ≡ ok r
    → (o ≡ some r) × (is_some r.consumed_at ≡ false) × (r.attempts < 5) × (now < r.expires_at)
unfolding gate
gate-ok now none r h = cc
gate-ok now (some x) r h = ground arith

pub candidate-find_row :
    (t : Attempt) (rows : List EmailCode) (r : EmailCode)
    → IsKeyed code_id rows
    → candidate t rows ≡ ok r
    → (find_row code_id r.id rows ≡ some r) × (is_some r.consumed_at ≡ false) × (r.attempts < 5)
unfolding candidate
candidate-find_row t rows r keyed h =
    let (first, unused, left, _) = gate-ok t.now _ r h in
    let (place, _) = In-filter _ rows r (newest-In _ r first) in
    (find_row-In code_id rows r keyed place, unused, left)

pub Result-cases :
    (o : Result EmailCode) → ((e : Code) × (o ≡ err e)) ⊎ ((r : EmailCode) × (o ≡ ok r))
Result-cases (ok r) = inr (r, refl)
Result-cases (err e) = inl (e, refl)

pub claims :
    (f : EmailCode → EmailCode) (r : EmailCode) (rows : List EmailCode)
    → find_row code_id r.id rows ≡ some r
    → is_some r.consumed_at ≡ false
    → claim_row code_id r.id is_unconsumed f rows ≡ some (f r, update_row code_id r.id f rows)
unfolding claim_row
claims f r rows found unused = ground arith

-- What one event does to row `k`, against what was used up before.
pub record Charges (k : ℕ) (compared accepted : Bool) (before after : List EmailCode) : Type 0 where
  pub keyed : IsKeyed code_id after
  pub tries : one_if compared + spent (find_row code_id k before) ≤ spent (find_row code_id k after)
  pub within : spent (find_row code_id k after) ≤ 5
  pub uses : one_if accepted + used (find_row code_id k before) ≤ used (find_row code_id k after)

unused : (r : EmailCode) → spent (some r) ≡ 0 → used (some r) ≡ 0
unused r h = ground arith

module _ (k : ℕ) (rows rows' : List EmailCode) (keyed : IsKeyed code_id rows')
    (within : spent (find_row code_id k rows) ≤ 5) where
  -- Nothing is charged where the row keeps its attempts and its use.
  pub unchanged :
      spent (find_row code_id k rows') ≡ spent (find_row code_id k rows)
      → used (find_row code_id k rows') ≡ used (find_row code_id k rows)
      → Charges k false false rows rows'
  unchanged s u = record {
    keyed = keyed;
    tries = omega (arith, s);
    within = omega (arith, s);
    uses = omega (arith, u);
  }

  -- A new row has nothing used up.
  pub inserted :
      (r : EmailCode)
      → rows' ≡ r ∷ rows
      → has_key code_id r.id rows ≡ false
      → spent (some r) ≡ 0
      → Charges k false false rows rows'
  unfolding find_row
  inserted r e new fresh = elim (Bool-cases (r.id == k)) [
    | inl here ↦
        let absent : find_row code_id k rows ≡ none =
          find_row-absent code_id k rows (rw ((==_iff r.id k).0 here) at new) in
        unchanged (rw (e, absent) (rw here fresh)) (rw (e, absent) (rw here (unused r fresh)))
    | inr other ↦ unchanged (rw e (rw other refl)) (rw e (rw other refl))
  ]

  -- A change of one row that charges it.
  pub updated :
      (r : EmailCode) (f : EmailCode → EmailCode) (accepted : Bool)
      → rows' ≡ update_row code_id r.id f rows
      → ((x : EmailCode) → (f x).id ≡ x.id)
      → find_row code_id r.id rows ≡ some r
      → 1 + spent (some r) ≤ spent (some (f r))
      → spent (some (f r)) ≤ 5
      → one_if accepted + used (some r) ≤ used (some (f r))
      → Charges k (r.id == k) ((r.id == k) && accepted) rows rows'
  updated r f accepted e same found more most uses = elim (Bool-cases (r.id == k)) [
    | inl here ↦
        let place : r.id ≡ k = (==_iff r.id k).0 here in
        let before : find_row code_id k rows ≡ some r =
          subst (λ j. find_row code_id j rows ≡ some r) place found in
        let after : find_row code_id k rows' ≡ some (f r) = rw e (
          subst (λ j. find_row code_id j (update_row code_id r.id f rows) ≡ some (f r)) place
            (find_row-update_row_self code_id r.id f rows r found (same r))) in
        rw here (record {
          keyed = keyed;
          tries = rw (before, after) more;
          within = rw after most;
          uses = rw (before, after) uses;
        })
    | inr other ↦
        let elsewhere : find_row code_id k rows' ≡ find_row code_id k rows = rw e (
          find_row-update_row_ne code_id k r.id f rows same
            (λ p. cc (other, (==_iff r.id k).1 (sym p)))) in
        rw other (unchanged (ap spent elsewhere) (ap used elsewhere))
  ]

-- What is charged after a change that charges nothing is charged from before it.
pub from_before :
    (k : ℕ) (rows rows1 rows2 : List EmailCode)
    → spent (find_row code_id k rows1) ≡ spent (find_row code_id k rows)
    → used (find_row code_id k rows1) ≡ used (find_row code_id k rows)
    → Charges k false false rows1 rows2
    → Charges k false false rows rows2
from_before k rows rows1 rows2 s u c = record {
  keyed = c.keyed;
  tries = omega (arith, c.tries, s);
  within = c.within;
  uses = omega (arith, c.uses, u);
}

pub retire-spent :
    (now user_id : ℕ) (p : Purpose) (o : Option EmailCode)
    → (spent (Option.map (retire now user_id p) o) ≡ spent o)
      × (used (Option.map (retire now user_id p) o) ≡ used o)
retire-spent now user_id p none = (refl, refl)
retire-spent now user_id p (some r) = ground arith
