-- ===== src/Auth/Sessions.antt =====
-- apps/api/src/auth/sessions.service.ts: the sessions of the devices, the rotation of their refresh
-- tokens, and their end; and what AuthGuard (apps/api/src/auth/auth.guard.ts) asks of them. The hash
-- of a secret is a parameter, and a signed access token is what it says.
use text.Mathlib.Text.{◌==◌ as str_eq}
use alkeva.Common.{
  ℕ, ◌+◌, ◌*◌, String, Bool, true, false, not, ◌&&◌, ◌==◌, ltb, is_some, Option, none, some, List,
  ◌∷◌, ◌++◌, map, if◌then◌else◌, any, filter, length,
}
use alkeva.Common.Table.{find_row, update_row, claim_row}
use alkeva.Common.Keyed.{has_key}
use alkeva.Codes.{invalid_refresh, unique_violation}
use alkeva.Request.{Result, ok, err}

-- `AuthMethodRef`
pub data AuthMethodRef : Type 0 where
  pwd google fayda webauthn telegram : AuthMethodRef

pub data SessionChannel : Type 0 where
  cookie telegram : SessionChannel

abbrev is_telegram : AuthMethodRef → Bool
is_telegram AuthMethodRef.telegram = true
is_telegram _ = false

-- `isTelegramAmr`
abbrev pub is_telegram_amr : List AuthMethodRef → Bool
is_telegram_amr amr = any is_telegram amr

abbrev is_telegram_channel : SessionChannel → Bool
is_telegram_channel SessionChannel.telegram = true
is_telegram_channel cookie = false

abbrev same_bool : Bool → Bool → Bool
same_bool true b = b
same_bool false b = not b

-- The table auth_session of packages/db/src/schema.ts, without the address of the client.
pub record AuthSession : Type 0 where
  pub id : ℕ
  pub user_id : ℕ
  pub refresh_hash : String
  pub previous_hash : Option String
  pub rotated_at : Option ℕ
  pub amr : List AuthMethodRef
  pub auth_time : ℕ
  pub user_agent : Option String
  pub expires_at : ℕ
  pub revoked_at : Option ℕ
  pub revoked_reason : Option String

abbrev pub session_id : AuthSession → ℕ
session_id s = s.id

-- A key `sess:revoked:<id>` in Redis, with the time when it goes.
pub record RevokedMark : Type 0 where
  pub id : ℕ
  pub gone_at : ℕ

pub record AuthState : Type 0 where
  pub sessions : List AuthSession
  pub revoked_marks : List RevokedMark
  pub reuse_audits : List ℕ  -- the audit rows `refresh_token_reuse`, by their session

-- `ACCESS_TOKEN_TTL_SEC` and `REFRESH_TOKEN_TTL_SEC`, in milliseconds.
pub record AuthEnv : Type 0 where
  pub access_token_ttl_ms : ℕ
  pub refresh_token_ttl_ms : ℕ

abbrev rotation_grace_ms : ℕ
rotation_grace_ms = 60000

-- What an access token says that the guard reads.
pub record AccessToken : Type 0 where
  pub sid : ℕ
  pub issued_at : ℕ

pub record RefreshToken : Type 0 where
  pub session : ℕ
  pub secret : String

pub record TokenPair : Type 0 where
  pub access_token : AccessToken
  pub refresh_token : RefreshToken

-- `isRevoked`
unfoldable pub is_revoked : ℕ → ℕ → List RevokedMark → Bool
is_revoked now id marks = any (λ (m : RevokedMark). m.id == id && ltb now m.gone_at) marks

-- `canActivate` of AuthGuard, on a token that the API has signed.
unfoldable pub can_activate : AuthEnv → ℕ → AccessToken → AuthState → Bool
can_activate env now token st =
    ltb now (token.issued_at + env.access_token_ttl_ms)
    && not (is_revoked now token.sid st.revoked_marks)

-- `markRevoked`, for one id: the mark outlives every access token by a minute.
abbrev mark : AuthEnv → ℕ → ℕ → RevokedMark
mark env now id = record { id = id; gone_at = now + env.access_token_ttl_ms + 60 * 1000 }

abbrev pub is_unrevoked : AuthSession → Bool
is_unrevoked s = not (is_some s.revoked_at)

abbrev pub ended : ℕ → String → AuthSession → AuthSession
ended now reason s =
    if is_unrevoked s then record s { revoked_at = some now; revoked_reason = some reason } else s

-- `revoke`
unfoldable pub revoke : AuthEnv → ℕ → ℕ → String → AuthState → AuthState
revoke env now id reason st = record st {
  sessions = update_row session_id id (ended now reason) st.sessions;
  revoked_marks = mark env now id ∷ st.revoked_marks;
}

abbrev is_other : Option ℕ → AuthSession → Bool
is_other none s = true
is_other (some id) s = not (s.id == id)

abbrev pub ends_with : ℕ → Option ℕ → AuthSession → Bool
ends_with user_id kept s = s.user_id == user_id && (is_unrevoked s && is_other kept s)

abbrev pub ended_if : ℕ → ℕ → String → Option ℕ → AuthSession → AuthSession
ended_if now user_id reason kept s = if ends_with user_id kept s then ended now reason s else s

-- `revokeAllForUser`: everything but a session that is kept.
unfoldable pub revoke_all_for_user : AuthEnv → ℕ → ℕ → String → Option ℕ → AuthState → AuthState
revoke_all_for_user env now user_id reason kept st =
    let gone = filter (ends_with user_id kept) st.sessions in
    record st {
      sessions = map (ended_if now user_id reason kept) st.sessions;
      revoked_marks = map (λ (s : AuthSession). mark env now s.id) gone ++ st.revoked_marks;
    }

abbrev same_agent : Option String → Option String → Bool
same_agent none none = true
same_agent (some a) (some b) = str_eq a b
same_agent none (some b) = str_eq "" b
same_agent (some a) none = str_eq a ""

-- "New device": the user has had sessions, and none with this browser.
abbrev is_new_device : ℕ → Option String → List AuthSession → Bool
is_new_device user_id agent rows =
    let prior = filter (λ (s : AuthSession). s.user_id == user_id) rows in
    ltb 0 (length prior) && not (any (λ (s : AuthSession). same_agent s.user_agent agent) prior)

pub record NewSession : Type 0 where
  pub id : ℕ
  pub user_id : ℕ
  pub amr : List AuthMethodRef
  pub user_agent : Option String
  pub secret : String
  pub ttl_ms : Option ℕ

pub record Created : Type 0 where
  pub tokens : TokenPair
  pub new_device : Bool

abbrev pair : ℕ → ℕ → String → TokenPair
pair now id secret = record {
  access_token = record { sid = id; issued_at = now };
  refresh_token = record { session = id; secret = secret };
}

abbrev ttl_of : AuthEnv → Option ℕ → ℕ
ttl_of env none = env.refresh_token_ttl_ms
ttl_of env (some ttl) = ttl

-- What `rotate` answers: the user, and new tokens unless another tab has them.
pub record Rotated : Type 0 where
  pub user_id : ℕ
  pub tokens : Option TokenPair

module _ (sha256 : String → String) (env : AuthEnv) where
  -- `create`; the primary key refuses a taken id.
  unfoldable pub create : ℕ → NewSession → AuthState → Result Created × AuthState
  create now q st = if has_key session_id q.id st.sessions then (err unique_violation, st) else (
    ok (record {
      tokens = pair now q.id q.secret;
      new_device = is_new_device q.user_id q.user_agent st.sessions;
    }),
    record st {
      sessions =
          record {
            id = q.id;
            user_id = q.user_id;
            refresh_hash = sha256 q.secret;
            previous_hash = none;
            rotated_at = none;
            amr = q.amr;
            auth_time = now;
            user_agent = q.user_agent;
            expires_at = now + ttl_of env q.ttl_ms;
            revoked_at = none;
            revoked_reason = none;
          }
          ∷ st.sessions;
    },
  )

  abbrev is_hash : String → Option String → Bool
  is_hash h none = false
  is_hash h (some p) = str_eq h p

  abbrev is_within_grace : ℕ → Option ℕ → Bool
  is_within_grace now none = false
  is_within_grace now (some t) = ltb now (t + rotation_grace_ms)

  -- Another tab has just rotated this token away.
  abbrev pub in_grace : ℕ → String → AuthSession → Bool
  in_grace now presented s = is_hash presented s.previous_hash && is_within_grace now s.rotated_at

  -- A session that the token can still refresh, on its own transport.
  abbrev pub is_refreshable : ℕ → SessionChannel → AuthSession → Bool
  is_refreshable now channel s =
      is_unrevoked s
      && (ltb now s.expires_at && same_bool (is_telegram_amr s.amr) (is_telegram_channel channel))

  abbrev pub rotated_row : ℕ → String → Option String → AuthSession → AuthSession
  rotated_row now next agent s = record s {
    refresh_hash = sha256 next;
    previous_hash = some s.refresh_hash;
    rotated_at = some now;
    user_agent = if is_some agent then agent else s.user_agent;
  }

  -- An old secret for a live session: the token was copied.
  unfoldable pub kill : ℕ → AuthSession → AuthState → Result Rotated × AuthState
  kill now s st =
      let st' = revoke env now s.id "refresh_reuse" st in
      (err invalid_refresh, record st' { reuse_audits = s.id ∷ st'.reuse_audits })

  -- The secret is exchanged for the next one, unless another request was faster.
  unfoldable pub exchange :
      ℕ → String → Option String → AuthSession → AuthState → Result Rotated × AuthState
  exchange now next agent s st =
      elim (claim_row session_id s.id (λ r. str_eq r.refresh_hash s.refresh_hash)
        (rotated_row now next agent) st.sessions) [
          | none ↦ (ok (record { user_id = s.user_id; tokens = none }), st)
          | some (row, rows) ↦ (
            ok (record { user_id = s.user_id; tokens = some (pair now s.id next) }),
            record st { sessions = rows },
          )
        ]

  unfoldable pub rotate_live :
      ℕ → String → String → Option String → AuthSession → AuthState → Result Rotated × AuthState
  rotate_live now secret next agent s st =
      if str_eq (sha256 secret) s.refresh_hash
      then exchange now next agent s st
      else if in_grace now (sha256 secret) s
      then (ok (record { user_id = s.user_id; tokens = none }), st)
      else kill now s st

  -- `rotate`, on a token of the right form, with the secret that comes next.
  unfoldable pub rotate :
      ℕ
      → RefreshToken
      → SessionChannel
      → String
      → Option String
      → AuthState
      → Result Rotated × AuthState
  rotate now token channel next agent st = elim (find_row session_id token.session st.sessions) [
    | none ↦ (err invalid_refresh, st)
    | some s ↦
        if is_refreshable now channel s
        then rotate_live now token.secret next agent s st
        else (err invalid_refresh, st)
  ]
