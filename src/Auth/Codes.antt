-- ===== src/Auth/Codes.antt =====
-- apps/api/src/auth/email-codes.service.ts: six-digit codes sent by email. The keyed hash of a row's
-- id and a code is a parameter.
-- `consume` reads a row and then writes it, with no lock in between: `candidate` is the first part,
-- `compare_code` the second, which may be given a row that was read at any time before.
use text.Mathlib.Text.{◌==◌ as str_eq}
use Prim.Native.Char.{code}
use alkeva.Common.{
  ℕ, ◌+◌, ◌*◌, String, Bool, true, false, not, ◌&&◌, ◌==◌, ltb, leb, is_some, Option, none, some,
  List, [], ◌∷◌, map, if◌then◌else◌, length, filter, all,
}
use alkeva.Common.Table.{update_row, claim_row}
use alkeva.Common.Keyed.{has_key}
use alkeva.Codes.{
  user_not_found, code_rate_limited, code_invalid, code_expired, code_locked, unique_violation,
}
use alkeva.Request.{Result, ok, err}
use alkeva.Payouts.{PayoutSpec}

-- `EmailCodePurpose`
pub data Purpose : Type 0 where
  verify_email withdrawal : Purpose

abbrev pub purpose_eq : Purpose → Purpose → Bool
purpose_eq verify_email verify_email = true
purpose_eq withdrawal withdrawal = true
purpose_eq _ _ = false

-- The table email_code of packages/db/src/schema.ts. The payload of a withdrawal is the request that
-- the code confirms.
pub record EmailCode : Type 0 where
  pub id : ℕ
  pub user_id : ℕ
  pub purpose : Purpose
  pub code_hash : String
  pub payload : Option PayoutSpec
  pub attempts : ℕ
  pub expires_at : ℕ
  pub consumed_at : Option ℕ
  pub created_at : ℕ

abbrev pub code_id : EmailCode → ℕ
code_id r = r.id

abbrev minute_ms : ℕ
minute_ms = 60 * 1000

-- `CODE_TTL_MIN`, `MAX_ATTEMPTS`, `ISSUE_LIMIT` and `ISSUE_WINDOW_MIN`
abbrev pub code_ttl_ms : ℕ
code_ttl_ms = 10 * minute_ms

abbrev pub max_attempts : ℕ
max_attempts = 5

abbrev pub issue_limit : ℕ
issue_limit = 5

abbrev issue_window_ms : ℕ
issue_window_ms = 15 * minute_ms

abbrev pub is_for : ℕ → Purpose → EmailCode → Bool
is_for user_id purpose r = r.user_id == user_id && purpose_eq r.purpose purpose

-- `created_at > now() - 15 min`
abbrev pub is_recent : ℕ → ℕ → Purpose → EmailCode → Bool
is_recent now user_id purpose r =
    is_for user_id purpose r && ltb now (r.created_at + issue_window_ms)

-- A code that can still be used.
abbrev pub is_live : ℕ → ℕ → Purpose → EmailCode → Bool
is_live now user_id purpose r =
    is_for user_id purpose r && (not (is_some r.consumed_at) && ltb now r.expires_at)

-- A new code retires the live one.
abbrev pub retire : ℕ → ℕ → Purpose → EmailCode → EmailCode
retire now user_id purpose r =
    if is_live now user_id purpose r then record r { expires_at = now } else r

-- What a customer asks for, and what is sent.
pub record Issue : Type 0 where
  pub now : ℕ
  pub id : ℕ
  pub user_id : ℕ
  pub purpose : Purpose
  pub code : String
  pub payload : Option PayoutSpec

abbrev pending : Issue → EmailCode
pending q = record {
  id = q.id;
  user_id = q.user_id;
  purpose = q.purpose;
  code_hash = "pending";
  payload = q.payload;
  attempts = 0;
  expires_at = q.now + code_ttl_ms;
  consumed_at = none;
  created_at = q.now;
}

pub record Attempt : Type 0 where
  pub now : ℕ
  pub user_id : ℕ
  pub purpose : Purpose
  pub code : String
  pub id : Option ℕ

abbrev pub is_pinned : Option ℕ → EmailCode → Bool
is_pinned none r = true
is_pinned (some id) r = r.id == id

abbrev newer : EmailCode → Option EmailCode → EmailCode
newer r none = r
newer r (some s) = if leb s.created_at r.created_at then r else s

-- `order by created_at desc limit 1`
unfoldable pub newest : List EmailCode → Option EmailCode
newest [] = none
newest (r ∷ rs) = some (newer r (newest rs))

-- The refusals of `consume` before the code is looked at.
unfoldable pub gate : ℕ → Option EmailCode → Result EmailCode
gate now none = err code_invalid
gate now (some r) =
    if is_some r.consumed_at
    then err code_invalid
    else if leb r.expires_at now
    then err code_expired
    else if leb max_attempts r.attempts
    then err code_locked
    else ok r

-- The row whose code is compared.
unfoldable pub candidate : Attempt → List EmailCode → Result EmailCode
candidate t rows =
    gate t.now (newest (filter (λ r. is_for t.user_id t.purpose r && is_pinned t.id r) rows))

-- `/^[0-9]{6}$/`
codes : String → List ℕ
codes String.[] = []
codes (String.◌∷◌ c s) = code c ∷ codes s

unfoldable pub is_six_digits : String → Bool
unfolding codes
is_six_digits s = (length (codes s) == 6) && all (λ c. leb b'0' c && leb c b'9') (codes s)

abbrev pub count_attempt : EmailCode → EmailCode
count_attempt r = record r { attempts = r.attempts + 1 }

abbrev pub mark_consumed : ℕ → EmailCode → EmailCode
mark_consumed now r = record r { consumed_at = some now }

abbrev pub is_unconsumed : EmailCode → Bool
is_unconsumed r = not (is_some r.consumed_at)

module _ (hash : ℕ → String → String) where
  -- The insert of a pending row and the write of its hash; the primary key refuses a taken id.
  unfoldable pub insert_code : Issue → List EmailCode → Result ℕ × List EmailCode
  insert_code q rows = if has_key code_id q.id rows then (err unique_violation, rows) else (
    ok q.id,
    update_row code_id q.id (λ r. record r { code_hash = hash q.id q.code }) (pending q ∷ rows),
  )

  -- `issue`
  unfoldable pub issue : Bool → Issue → List EmailCode → Result ℕ × List EmailCode
  issue user_exists q rows =
      if not user_exists
      then (err user_not_found, rows)
      else if leb issue_limit (length (filter (is_recent q.now q.user_id q.purpose) rows))
      then (err code_rate_limited, rows)
      else insert_code q (map (retire q.now q.user_id q.purpose) rows)

  abbrev pub matches : Attempt → EmailCode → Bool
  matches t r = is_six_digits t.code && str_eq r.code_hash (hash r.id t.code)

  -- The comparison, and what it writes.
  unfoldable pub compare_code :
      Attempt → EmailCode → List EmailCode → Result (Option PayoutSpec) × List EmailCode
  compare_code t r rows =
      if not (matches t r)
      then (
        err (if leb max_attempts (r.attempts + 1) then code_locked else code_invalid),
        update_row code_id r.id count_attempt rows,
      )
      else elim (claim_row code_id r.id is_unconsumed (mark_consumed t.now) rows) [
        | none ↦ (err code_invalid, rows)
        | some (claimed, rows') ↦ (ok r.payload, rows')
      ]

  -- `consume`
  unfoldable pub consume : Attempt → List EmailCode → Result (Option PayoutSpec) × List EmailCode
  consume t rows = elim (candidate t rows) [ err e ↦ (err e, rows) | ok r ↦ compare_code t r rows ]
