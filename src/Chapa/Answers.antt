-- ===== src/Chapa/Answers.antt =====
-- What the answers and the webhooks of the provider may be taken for
-- (apps/api/src/chapa/chapa.service.ts).
use alkeva.Common.{
  ℕ, ◌<◌, String, ◌≡◌, ◌≢◌, refl, ◌∙◌, ◌⊎◌, inl, inr, true, false, not, Option, none, some, List,
  [], ◌∷◌, any, In, any-In, In-filter, arith,
}
use text.Mathlib.Text.{◌==◌ as str_eq}
use text.Mathlib.TextEquality.{eq_iff}
use alkeva.Chapa.{
  ChapaEnv, Reply, unreachable, garbled, replied, Envelope, api_error, is_ok, is_failed,
  request_raw, expected_signatures, nonempty, secrets_of, verify_webhook_signature,
}

-- A refusal that is taken as definitive came in a JSON answer of the provider with a status below
-- 500: an exception, a body that is not JSON and a server error never count as a refusal.
pub request_raw-definitive :
    {A : Type 0} (env : ChapaEnv) (reply : Reply A) (status : ℕ)
    → request_raw env reply ≡ api_error status true
    → (status < 500)
      × (envelope : Envelope A) × (reply ≡ replied status envelope)
      × ((is_failed envelope.status ≡ true) ⊎ (is_ok status ≡ false))
unfolding request_raw
request_raw-definitive env unreachable status h = ground arith
request_raw-definitive env (garbled s) status h = ground arith
request_raw-definitive env (replied s envelope) status h =
    (ground arith, envelope, ground arith, ground arith)

nonempty-In : (texts : List String) (t : String) → In t (nonempty texts) → In t texts × (t ≢ "")
nonempty-In texts t h =
    let (place, kept) = In-filter (λ s. not (str_eq s "")) texts t h in
    (place, λ e. differs (rw e at kept))
  where
    differs : not (str_eq "" "") ≡ true → ⊥
    differs e = cc

module _ {Bytes : Type 0} (hmac : String → Bytes → String) (utf8 : String → Bytes) where
  expected-In :
      (raw_body : Bytes) (secrets : List String) (e : String)
      → In e (expected_signatures hmac utf8 raw_body secrets)
      → (secret : String) × In secret secrets
        × ((e ≡ hmac secret (utf8 secret)) ⊎ (e ≡ hmac secret raw_body))
  expected-In raw_body [] e h = absurd h.lower
  expected-In raw_body (secret ∷ secrets) e (inl own) = (secret, inl refl, inl own)
  expected-In raw_body (secret ∷ secrets) e (inr (inl body)) = (secret, inl refl, inr body)
  expected-In raw_body (secret ∷ secrets) e (inr (inr later)) =
      let (s, place, made) = expected-In raw_body secrets e later in (s, inr place, made)

  -- A webhook is accepted only if it has a body and one of its signature headers is the HMAC, under a
  -- secret of the configuration that is not empty, of the body or of the secret itself.
  pub verify_webhook_signature-signed :
      (env : ChapaEnv) (headers : List String) (body : Option Bytes)
      → verify_webhook_signature hmac utf8 env headers body ≡ true
      → (raw_body : Bytes) × (body ≡ some raw_body)
        × (secret : String) × (secret ≢ "")
        × ((secret ≡ env.chapa_webhook_hash) ⊎ (secret ≡ env.chapa_secret_key))
        × (In (hmac secret (utf8 secret)) headers ⊎ In (hmac secret raw_body) headers)
  unfolding verify_webhook_signature
  verify_webhook_signature-signed env headers none h = cc
  verify_webhook_signature-signed env headers (some raw_body) h =
      let (sig, given, equal) = any-In (λ sig. any (str_eq sig) expected) (nonempty headers) h in
      let (e, made, same) = any-In (str_eq sig) expected equal in
      let (secret, known_secret, how) = expected-In raw_body (secrets_of env) e made in
      let (kept, sig_present) = nonempty-In headers sig given in
      let (place, present) =
        nonempty-In (env.chapa_webhook_hash ∷ env.chapa_secret_key ∷ []) secret known_secret in
      (raw_body, refl, secret, present, which place, signed secret kept ((eq_iff sig e).0 same) how)
    where
      expected : List String
      expected = expected_signatures hmac utf8 raw_body (secrets_of env)

      which :
          {s : String}
          → In s (env.chapa_webhook_hash ∷ env.chapa_secret_key ∷ [])
          → (s ≡ env.chapa_webhook_hash) ⊎ (s ≡ env.chapa_secret_key)
      which (inl e) = inl e
      which (inr (inl e)) = inr e
      which (inr (inr e)) = absurd e.lower

      signed :
          (secret : String) {sig e : String}
          → In sig headers
          → sig ≡ e
          → (e ≡ hmac secret (utf8 secret)) ⊎ (e ≡ hmac secret raw_body)
          → In (hmac secret (utf8 secret)) headers ⊎ In (hmac secret raw_body) headers
      signed secret there equal (inl made) = inl (rw (equal ∙ made) at there)
      signed secret there equal (inr made) = inr (rw (equal ∙ made) at there)
