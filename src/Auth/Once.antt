-- ===== src/Auth/Once.antt =====
-- A code of apps/api/src/auth/email-codes.service.ts is taken for right once, however the calls of
-- `consume` run into one another: each compares a copy of a row, read at any time before.
use alkeva.Common.{
  ℕ, String, ◌+◌, ◌≤◌, ◌≡◌, refl, ◌∙◌, sym, ap, inl, inr, Bool, true, false, ◌&&◌, ◌==◌, ==_iff,
  is_some, some, List, [], ◌∷◌, map, filter, length, leb, arith, Bool-cases, Option-cases,
}
use mathlib.Core.Path.{subst}
use alkeva.Common.Table.{
  find_row, update_row, update_row-head, claim_row, claim_row-eq-some, find_row-update_row_self,
  find_row-update_row_ne,
}
use alkeva.Common.Keyed.{one_if, has_key, find_row-absent, find_row-map}
use alkeva.Auth.Codes.{
  EmailCode, Issue, Attempt, code_id, retire, is_recent, issue_limit, count_attempt, is_unconsumed,
  mark_consumed, insert_code, issue, compare_code, matches,
}
use alkeva.Auth.Attempts.{is_ok, used, used-le, retire-spent}

-- A step: a code is issued, or a call of `consume` that read row `r` some time before goes on.
pub data Turn : Type 0 where
  issued_code : Bool → Issue → Turn
  compared : Attempt → EmailCode → Turn

module _ (hash : ℕ → String → String) where
  unfoldable pub after_turn : Turn → List EmailCode → List EmailCode
  after_turn (issued_code there q) rows = (issue hash there q rows).1
  after_turn (compared t r) rows = (compare_code hash t r rows).1

  -- Whether the step takes the code of row `k` for right.
  unfoldable pub is_taken : ℕ → Turn → List EmailCode → Bool
  is_taken k (issued_code there q) rows = false
  is_taken k (compared t r) rows = (r.id == k) && is_ok (compare_code hash t r rows).0

  unfoldable pub times_taken : ℕ → List Turn → List EmailCode → ℕ
  times_taken k [] rows = 0
  times_taken k (e ∷ es) rows = one_if (is_taken k e rows) + times_taken k es (after_turn e rows)

-- A change that leaves the ids and the uses alone.
used-update_row :
    (k id : ℕ) (f : EmailCode → EmailCode)
    → ((r : EmailCode) → ((f r).id ≡ r.id) × (is_some (f r).consumed_at ≡ is_some r.consumed_at))
    → (rows : List EmailCode)
    → used (find_row code_id k (update_row code_id id f rows)) ≡ used (find_row code_id k rows)
unfolding find_row update_row
used-update_row k id f same [] = refl
used-update_row k id f same (r ∷ rows) =
    ground (arith, (same r).0, (same r).1, used-update_row k id f same rows)

module _ (hash : ℕ → String → String) (k : ℕ) where
  new-used :
      (r : EmailCode) (rows rows' : List EmailCode)
      → rows' ≡ r ∷ rows
      → has_key code_id r.id rows ≡ false
      → used (find_row code_id k rows) ≤ used (find_row code_id k rows')
  unfolding find_row
  new-used r rows rows' e new = rw e (elim (Bool-cases (r.id == k)) [
    | inl here ↦
        rw
          (
            here,
            find_row-absent code_id k rows
                (subst (λ j. has_key code_id j rows ≡ false) ((==_iff r.id k).0 here) new),
          )
          (omega arith)
    | inr other ↦ rw other (omega arith)
  ])

  insert_code-used :
      (q : Issue) (rows : List EmailCode)
      → used (find_row code_id k rows) ≤ used (find_row code_id k (insert_code hash q rows).1)
  unfolding insert_code
  insert_code-used q rows = elim (Bool-cases (has_key code_id q.id rows)) [
    | inl there ↦ rw there (omega arith)
    | inr new ↦ rw new (new-used _ rows _ (update_row-head code_id _ _ rows) new)
  ]

  issue-used :
      (there : Bool) (q : Issue) (rows : List EmailCode)
      → used (find_row code_id k rows) ≤ used (find_row code_id k (issue hash there q rows).1)
  unfolding issue
  issue-used there q rows = elim (Bool-cases there) [
    | inr nobody ↦ rw nobody (omega arith)
    | inl known ↦
        elim (Bool-cases
          (leb issue_limit (length (filter (is_recent q.now q.user_id q.purpose) rows)))) [
            | inl limited ↦ rw (known, limited) (omega arith)
            | inr free ↦ rw (known, free) retired
          ]
  ]
    where
      rows1 : List EmailCode
      rows1 = map (retire q.now q.user_id q.purpose) rows

      id_kept : (r : EmailCode) → (retire q.now q.user_id q.purpose r).id ≡ r.id
      id_kept r = ground arith

      retired :
          used (find_row code_id k rows) ≤ used (find_row code_id k (insert_code hash q rows1).1)
      retired =
          let (s, u) = retire-spent q.now q.user_id q.purpose (find_row code_id k rows) in
          let at = find_row-map code_id (retire q.now q.user_id q.purpose) id_kept k rows in
          let same = ap used at ∙ u in let more = insert_code-used q rows1 in omega arith

  compare_code-used :
      (t : Attempt) (r : EmailCode) (rows : List EmailCode)
      → one_if ((r.id == k) && is_ok (compare_code hash t r rows).0)
          + used (find_row code_id k rows)
        ≤ used (find_row code_id k (compare_code hash t r rows).1)
  unfolding compare_code
  compare_code-used t r rows = elim (Bool-cases (matches hash t r)) [
    | inr wrong ↦
        let same = used-update_row k r.id count_attempt (λ x. (refl, refl)) rows in
        elim (Bool-cases (r.id == k)) [
          | inl here ↦ rw (wrong, here) (omega arith)
          | inr other ↦ rw (wrong, other) (omega arith)
        ]
    | inl right ↦
        elim (Option-cases (claim_row code_id r.id is_unconsumed (mark_consumed t.now) rows)) [
          | inl lost ↦ elim (Bool-cases (r.id == k)) [
            | inl here ↦ rw (right, lost, here) (omega arith)
            | inr other ↦ rw (right, lost, other) (omega arith)
          ]
          | inr ((u, rows'), won) ↦
              let (x, found, open_row, eu, er) =
                claim_row-eq-some code_id r.id is_unconsumed (mark_consumed t.now) rows won in
              elim (Bool-cases (r.id == k)) [
                | inl here ↦
                    rw (right, won, here) (taken x rows' found open_row er ((==_iff r.id k).0 here))
                | inr other ↦ rw (right, won, other) (elsewhere rows' er other)
              ]
        ]
  ]
    where
      taken :
          (x : EmailCode) (rows' : List EmailCode)
          → find_row code_id r.id rows ≡ some x
          → is_unconsumed x ≡ true
          → rows' ≡ update_row code_id r.id (mark_consumed t.now) rows
          → r.id ≡ k
          → 1 + used (find_row code_id k rows) ≤ used (find_row code_id k rows')
      taken x rows' found open_row er here = rw (← here) (
          rw
            (
              found,
              er,
              find_row-update_row_self code_id r.id (mark_consumed t.now) rows x found refl,
            )
            (ground arith))

      elsewhere :
          (rows' : List EmailCode)
          → rows' ≡ update_row code_id r.id (mark_consumed t.now) rows
          → (r.id == k) ≡ false
          → 0 + used (find_row code_id k rows) ≤ used (find_row code_id k rows')
      elsewhere rows' er other =
          rw
            (
              er,
              find_row-update_row_ne code_id k r.id (mark_consumed t.now) rows (λ x. refl)
                  (λ p. cc (other, (==_iff r.id k).1 (sym p))),
            )
            (omega arith)

  turn-used :
      (e : Turn) (rows : List EmailCode)
      → one_if (is_taken hash k e rows) + used (find_row code_id k rows)
        ≤ used (find_row code_id k (after_turn hash e rows))
  unfolding is_taken after_turn
  turn-used (issued_code there q) rows = let u = issue-used there q rows in omega arith
  turn-used (compared t r) rows = compare_code-used t r rows

  -- Whatever is issued and typed, by anybody and at any time, and however the calls that compare run
  -- into one another: the code of a row is taken for right at most once, and not at all if it was used
  -- before.
  pub taken_once :
      (es : List Turn) (rows : List EmailCode)
      → times_taken hash k es rows + used (find_row code_id k rows) ≤ 1
  unfolding times_taken
  taken_once [] rows = used-le (find_row code_id k rows)
  taken_once (e ∷ es) rows =
      let step = turn-used e rows in
      let rest = taken_once es (after_turn hash e rows) in omega arith
