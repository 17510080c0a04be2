-- ===== src/Auth/Guarded.antt =====
-- How often a code is compared and taken for right, where the calls of
-- apps/api/src/auth/email-codes.service.ts come one after the other. The code takes no lock from
-- reading the attempts to writing them; Auth/Once lets the calls run into one another.
use alkeva.Common.{
  ℕ, String, ◌+◌, ◌≤◌, ◌<◌, ◌≡◌, refl, ◌∙◌, ap, inl, inr, Bool, true, false, ◌&&◌, ◌==◌, is_some,
  some, List, [], ◌∷◌, map, filter, length, leb, arith, Bool-cases,
}
use alkeva.Common.Table.{find_row, update_row-head}
use alkeva.Common.Keyed.{has_key, IsKeyed, IsKeyed-update_row, IsKeyed-map, find_row-map}
use alkeva.Auth.Codes.{
  EmailCode, Issue, Attempt, code_id, retire, candidate, is_recent, issue_limit, count_attempt,
  mark_consumed, insert_code, issue, compare_code, consume, matches,
}
use alkeva.Auth.Attempts.{
  Event, issued, tried, is_ok, compares, accepts, after_event, comparisons, acceptances, spent,
  used, used-le, candidate-find_row, Charges, unchanged, inserted, updated, from_before,
  retire-spent, claims, Result-cases,
}

module _ (hash : ℕ → String → String) (k : ℕ) where
  insert-Charges :
      (q : Issue) (rows : List EmailCode)
      → IsKeyed code_id rows
      → spent (find_row code_id k rows) ≤ 5
      → Charges k false false rows (insert_code hash q rows).1
  unfolding insert_code
  insert-Charges q rows keyed within = elim (Bool-cases (has_key code_id q.id rows)) [
    | inl there ↦ rw there (unchanged k rows rows keyed within refl refl)
    | inr new ↦ rw new (
        inserted k rows _ (IsKeyed-update_row code_id q.id _ (_ ∷ rows) (λ r. refl) (new, keyed))
          within _ (update_row-head code_id _ _ rows) new refl)
  ]

  issue-Charges :
      (there : Bool) (q : Issue) (rows : List EmailCode)
      → IsKeyed code_id rows
      → spent (find_row code_id k rows) ≤ 5
      → Charges k false false rows (issue hash there q rows).1
  unfolding issue
  issue-Charges there q rows keyed within = elim (Bool-cases there) [
    | inr nobody ↦ rw nobody same_rows
    | inl known ↦ elim (Bool-cases (leb issue_limit (length (filter recent rows)))) [
      | inl limited ↦ rw (known, limited) same_rows
      | inr free ↦ rw (known, free) retired
    ]
  ]
    where
      recent : EmailCode → Bool
      recent = is_recent q.now q.user_id q.purpose

      same_rows : Charges k false false rows rows
      same_rows = unchanged k rows rows keyed within refl refl

      rows1 : List EmailCode
      rows1 = map (retire q.now q.user_id q.purpose) rows

      id_kept : (r : EmailCode) → (retire q.now q.user_id q.purpose r).id ≡ r.id
      id_kept r = ground arith

      retired : Charges k false false rows (insert_code hash q rows1).1
      retired =
          let (s, u) = retire-spent q.now q.user_id q.purpose (find_row code_id k rows) in
          let at = find_row-map code_id (retire q.now q.user_id q.purpose) id_kept k rows in
          from_before k rows rows1 _ (ap spent at ∙ s) (ap used at ∙ u) (
            insert-Charges q rows1
              (IsKeyed-map code_id (retire q.now q.user_id q.purpose) id_kept rows keyed)
              (omega (arith, ap spent at, s)))

  compare-Charges :
      (t : Attempt) (r : EmailCode) (rows : List EmailCode)
      → IsKeyed code_id rows
      → spent (find_row code_id k rows) ≤ 5
      → find_row code_id r.id rows ≡ some r
      → is_some r.consumed_at ≡ false
      → r.attempts < 5
      → Charges k
          (r.id == k)
          ((r.id == k) && is_ok (compare_code hash t r rows).0)
          rows
          (compare_code hash t r rows).1
  unfolding compare_code
  compare-Charges t r rows keyed within found unused left = elim (Bool-cases (matches hash t r)) [
    | inr wrong ↦ rw wrong (
        updated k rows _ (IsKeyed-update_row code_id r.id count_attempt rows (λ x. refl) keyed)
          within r count_attempt false refl (λ x. refl) found (rw unused (omega arith))
          (rw unused (omega arith)) (rw unused (omega arith)))
    | inl right ↦
        rw (right, claims (mark_consumed t.now) r rows found unused)
          (updated k rows _
            (IsKeyed-update_row code_id r.id (mark_consumed t.now) rows (λ x. refl) keyed) within r
            (mark_consumed t.now) true refl (λ x. refl) found (rw unused (omega arith))
            (omega arith) (rw unused (omega arith)))
  ]

  consume-Charges :
      (t : Attempt) (rows : List EmailCode)
      → IsKeyed code_id rows
      → spent (find_row code_id k rows) ≤ 5
      → Charges k
          (compares k (tried t) rows)
          (accepts hash k (tried t) rows)
          rows
          (consume hash t rows).1
  unfolding compares accepts consume
  consume-Charges t rows keyed within = elim (Result-cases (candidate t rows)) [
    | inl (e, refused) ↦ rw (refused, consume) (unchanged k rows rows keyed within refl refl)
    | inr (r, chosen) ↦
        let (found, unused, left) = candidate-find_row t rows r keyed chosen in
        rw (chosen, consume) (compare-Charges t r rows keyed within found unused left)
  ]

  event-Charges :
      (e : Event) (rows : List EmailCode)
      → IsKeyed code_id rows
      → spent (find_row code_id k rows) ≤ 5
      → Charges k (compares k e rows) (accepts hash k e rows) rows (after_event hash e rows)
  unfolding compares accepts after_event
  event-Charges (issued there q) rows keyed within = issue-Charges there q rows keyed within
  event-Charges (tried t) rows keyed within = consume-Charges t rows keyed within

  charged :
      (es : List Event) (rows : List EmailCode)
      → IsKeyed code_id rows
      → spent (find_row code_id k rows) ≤ 5
      → (comparisons hash k es rows + spent (find_row code_id k rows) ≤ 5)
        × (acceptances hash k es rows + used (find_row code_id k rows) ≤ 1)
  unfolding comparisons acceptances
  charged [] rows keyed within = (omega arith, used-le (find_row code_id k rows))
  charged (e ∷ es) rows keyed within =
      let c = event-Charges e rows keyed within in
      let (tries, uses) = charged es (after_event hash e rows) c.keyed c.within in
      (omega (arith, c.tries), omega (arith, c.uses))

  -- From a table with no codes, whatever is issued and typed, by anybody and at any time, if each call
  -- of `consume` has ended when the next begins: a code is compared with what is typed at most five
  -- times, and is taken for right at most once.
  pub codes_guarded :
      (es : List Event) → (comparisons hash k es [] ≤ 5) × (acceptances hash k es [] ≤ 1)
  unfolding find_row
  codes_guarded es =
      let (tries, uses) = charged es [] tt (omega arith) in (omega arith, omega arith)
