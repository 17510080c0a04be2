-- ===== src/Chapa.antt =====
-- apps/api/src/chapa/chapa.service.ts: the client of the payment provider. What the provider
-- answers to a call is an argument; an amount in an answer is a double, finite and not below zero, and its
-- product with 100 is rounded to 53 binary digits as the hardware does.
pub mod Amounts
pub mod Answers
use alkeva.Common.{
  ℕ, zero, suc, ◌+◌, ◌*◌, ◌/◌, ◌%◌, ◌^◌, String, Bool, true, false, not, ◌&&◌, ◌||◌, Option, none,
  some, List, [], ◌∷◌, ◌++◌, ltb, leb, ◌==◌, any, filter, is_some, if◌then◌else◌,
}
use text.Mathlib.Text.{starts_with, ◌==◌ as str_eq}

-- The part of `Env` that the client reads.
pub record ChapaEnv : Type 0 where
  pub chapa_secret_key : String
  pub chapa_webhook_hash : String

-- `configured`
abbrev pub configured : ChapaEnv → Bool
configured env = not (str_eq env.chapa_secret_key "")

-- `testMode`
abbrev pub test_mode : ChapaEnv → Bool
test_mode env = starts_with env.chapa_secret_key "CHASECK_TEST"

-- `ChapaEnvelope`; `payload` is its `data`.
pub data EnvelopeStatus : Type 0 where
  success failed other : EnvelopeStatus

pub record Envelope (A : Type 0) : Type 0 where
  pub status : EnvelopeStatus
  pub payload : Option A

-- How `fetch` and `res.json()` end: an exception, a body that is not JSON, or an envelope.
pub data Reply (A : Type 0) : Type 0 where
  unreachable : Reply A
  garbled : ℕ → Reply A
  replied : ℕ → Envelope A → Reply A

-- How a call ends; `api_error` is `ChapaApiError` with its `httpStatus` and `definitive`.
pub data CallResult (A : Type 0) : Type 0 where
  unconfigured threw : CallResult A
  api_error : ℕ → Bool → CallResult A
  answered : A → CallResult A

-- `res.ok`
abbrev pub is_ok : ℕ → Bool
is_ok status = leb 200 status && ltb status 300

-- `DEFINITIVE_STATUSES`
abbrev pub is_definitive_status : ℕ → Bool
is_definitive_status status = any (λ s. s == status) (400 ∷ 401 ∷ 403 ∷ 404 ∷ 409 ∷ 422 ∷ [])

abbrev pub is_failed : EnvelopeStatus → Bool
is_failed EnvelopeStatus.failed = true
is_failed _ = false

module _ {A : Type 0} where
  abbrev pub judge : Reply A → CallResult (Envelope A)
  judge unreachable = threw
  judge (garbled status) = api_error status false
  judge (replied status envelope) =
      if not (is_ok status) || is_failed envelope.status
      then api_error status (is_ok status || is_definitive_status status)
      else answered envelope

  -- `requestRaw`
  unfoldable pub request_raw : ChapaEnv → Reply A → CallResult (Envelope A)
  request_raw env reply = if configured env then judge reply else unconfigured

  -- `request`, with the 404 that `verifyTransaction` and `verifyTransfer` read as unknown.
  abbrev pub known : CallResult (Envelope A) → CallResult (Option A)
  known unconfigured = unconfigured
  known threw = threw
  known (api_error status definitive) =
      if status == 404 then answered none else api_error status definitive
  known (answered envelope) = answered envelope.payload

  -- `verifyTransaction` and `verifyTransfer`
  unfoldable pub verify : ChapaEnv → Reply A → CallResult (Option A)
  verify env reply = known (request_raw env reply)

-- A number of JavaScript that is finite and not below zero: `mantissa * 2 ^ up / 2 ^ down`, with a
-- mantissa below `2 ^ 53`.
pub record Double : Type 0 where
  pub mantissa : ℕ
  pub up : ℕ
  pub down : ℕ

-- How many binary digits of a number are beyond the 53 that a double keeps.
unfoldable pub excess_bits : ℕ → ℕ → ℕ
excess_bits zero n = 0
excess_bits (suc fuel) n =
    let rest = excess_bits fuel (n / 2) in if ltb n (2 ^ 53) then 0 else rest + 1

-- The number without its last `k` binary digits, rounded to the nearest, halves to the even one.
unfoldable pub half_even : ℕ → ℕ → ℕ
half_even k n =
    let q = n / 2 ^ k in
    let rest = 2 * (n % 2 ^ k) in
    if ltb rest (2 ^ k) then q else if ltb (2 ^ k) rest then q + 1 else q + q % 2

-- `amount * 100` in doubles; the exact product has at most seven digits more.
unfoldable pub times_100 : Double → Double
unfolding excess_bits half_even
times_100 d =
    let n = 100 * d.mantissa in
    let k = excess_bits 7 n in record { mantissa = half_even k n; up = d.up + k; down = d.down }

-- `Math.round`: the nearest integer, halves up.
unfoldable pub math_round : Double → ℕ
math_round d = (2 * (d.mantissa * 2 ^ d.up) + 2 ^ d.down) / (2 * 2 ^ d.down)

-- `etbToCents`
unfoldable pub etb_to_cents : Double → ℕ
unfolding times_100 math_round
etb_to_cents amount = math_round (times_100 amount)

-- The decimal digits of a number, as character codes, before `out`.
unfoldable pub emit : ℕ → ℕ → List ℕ → List ℕ
emit zero n out = (48 + n % 10) ∷ out
emit (suc fuel) n out =
    let rest = emit fuel (n / 10) ((48 + n % 10) ∷ out) in if ltb n 10 then (48 + n) ∷ out else rest

-- `BigInt.prototype.toString`; a number has no more digits than its value.
abbrev pub to_string : ℕ → List ℕ
to_string n = emit n n []

-- `padStart(2, "0")`
abbrev pub pad_start : List ℕ → List ℕ
pad_start [] = 48 ∷ 48 ∷ []
pad_start (c ∷ []) = 48 ∷ c ∷ []
pad_start s = s

-- `centsToEtbString`
unfoldable pub cents_to_etb_string : ℕ → List ℕ
cents_to_etb_string cents = to_string (cents / 100) ++ (46 ∷ pad_start (to_string (cents % 100)))

-- The texts that are not empty.
abbrev pub nonempty : List String → List String
nonempty texts = filter (λ s. not (str_eq s "")) texts

abbrev pub secrets_of : ChapaEnv → List String
secrets_of env = nonempty (env.chapa_webhook_hash ∷ env.chapa_secret_key ∷ [])

abbrev pub matches : List String → List String → Bool
matches provided expected = any (λ sig. any (str_eq sig) expected) provided

-- `verifyWebhookSignature`: `hmac secret text` is the hexadecimal HMAC-SHA256 of the text.
module _ {Bytes : Type 0} (hmac : String → Bytes → String) (utf8 : String → Bytes) where
  abbrev pub expected_signatures : Bytes → List String → List String
  expected_signatures raw_body [] = []
  expected_signatures raw_body (secret ∷ secrets) =
      hmac secret (utf8 secret) ∷ hmac secret raw_body ∷ expected_signatures raw_body secrets

  -- The header values, both headers in one list, and the body if there is one.
  unfoldable pub verify_webhook_signature : ChapaEnv → List String → Option Bytes → Bool
  verify_webhook_signature env headers none = false
  verify_webhook_signature env headers (some raw_body) =
      matches (nonempty headers) (expected_signatures raw_body (secrets_of env))
