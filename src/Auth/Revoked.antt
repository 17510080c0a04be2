-- ===== src/Auth/Revoked.antt =====
-- A session whose refresh token was copied is over (apps/api/src/auth/sessions.service.ts).
use text.Mathlib.Text.{◌==◌ as str_eq}
use mathlib.Core.Path.{subst}
use mathlib.Core.Option
use alkeva.Common.{
  ℕ, ◌+◌, ◌<◌, ◌≡◌, refl, inl, inr, String, Bool, true, false, ◌&&◌, ◌==◌, ==_iff, is_some, Option,
  none, some, List, [], ◌∷◌, ◌++◌, any, arith, Bool-cases, Option-cases,
}
use alkeva.Common.Table.{find_row, update_row, claim_row, claim_row-eq-some}
use alkeva.Common.Keyed.{one_if, has_key, find_row-map, find_row-absent}
use alkeva.Request.{Result, ok, err}
use alkeva.Auth.Sessions.{
  AuthSession, AuthState, AuthEnv, RefreshToken, SessionChannel, NewSession, Created, Rotated,
  session_id, is_revoked, revoke, revoke_all_for_user, ended_if, rotated_row, create, in_grace,
  is_refreshable, kill, exchange, rotate_live, rotate,
}

pub data Event : Type 0 where
  created : ℕ → NewSession → Event
  rotated : ℕ → RefreshToken → SessionChannel → String → Option String → Event
  revoked : ℕ → ℕ → String → Event
  revoked_all : ℕ → ℕ → String → Option ℕ → Event

abbrev pub made : Result Created → Bool
made (ok c) = true
made (err e) = false

abbrev pub renewed : Result Rotated → Bool
renewed (ok r) = is_some r.tokens
renewed (err e) = false

module _ (sha256 : String → String) (env : AuthEnv) where
  unfoldable pub after_event : Event → AuthState → AuthState
  after_event (created now q) st = (create sha256 env now q st).1
  after_event (rotated now token channel next agent) st =
      (rotate sha256 env now token channel next agent st).1
  after_event (revoked now id reason) st = revoke env now id reason st
  after_event (revoked_all now user reason kept) st =
      revoke_all_for_user env now user reason kept st

  -- Whether the event hands out tokens of session `k`.
  unfoldable pub hands_out : ℕ → Event → AuthState → Bool
  hands_out k (created now q) st = q.id == k && made (create sha256 env now q st).0
  hands_out k (rotated now token channel next agent) st =
      token.session == k && renewed (rotate sha256 env now token channel next agent st).0
  hands_out k (revoked now id reason) st = false
  hands_out k (revoked_all now user reason kept) st = false

  unfoldable pub after_events : List Event → AuthState → AuthState
  after_events [] st = st
  after_events (e ∷ es) st = after_events es (after_event e st)

  -- How often a sequence of events hands out tokens of session `k`.
  unfoldable pub hand_outs : ℕ → List Event → AuthState → ℕ
  hand_outs k [] st = 0
  hand_outs k (e ∷ es) st = one_if (hands_out k e st) + hand_outs k es (after_event e st)

abbrev pub is_over : Option AuthSession → Bool
is_over none = false
is_over (some s) = is_some s.revoked_at

-- Session `k` is there and is over, and it stays marked until `t`.
pub record IsDead (k t : ℕ) (st : AuthState) : Type 0 where
  pub over : is_over (find_row session_id k st.sessions) ≡ true
  pub marked : (now : ℕ) → now < t → is_revoked now k st.revoked_marks ≡ true

any_right {ℓ} :
    {A : Type ℓ} (p : A → Bool) (xs ys : List A) → any p ys ≡ true → any p (xs ++ ys) ≡ true
any_right p [] ys h = h
any_right p (x ∷ xs) ys h = ground (arith, any_right p xs ys h)

and_false : (b : Bool) → b && false ≡ false
and_false b = ground arith

is_over-there : (o : Option AuthSession) → o ≡ none → is_over o ≡ true → ⊥
is_over-there none e h = cc
is_over-there (some s) e h = cc

is_over-map :
    (g : AuthSession → AuthSession) (o : Option AuthSession)
    → ((s : AuthSession) → is_some s.revoked_at ≡ true → is_some (g s).revoked_at ≡ true)
    → is_over o ≡ true
    → is_over (Option.map g o) ≡ true
is_over-map g none keep h = cc
is_over-map g (some s) keep h = keep s h

-- A change of one row that keeps what is over.
over-update_row :
    (k id : ℕ) (f : AuthSession → AuthSession) (rows : List AuthSession)
    → ((s : AuthSession) → (f s).id ≡ s.id)
    → ((s : AuthSession) → is_some s.revoked_at ≡ true → is_some (f s).revoked_at ≡ true)
    → is_over (find_row session_id k rows) ≡ true
    → is_over (find_row session_id k (update_row session_id id f rows)) ≡ true
unfolding find_row update_row
over-update_row k id f [] same keep h = cc
over-update_row k id f (s ∷ rows) same keep h =
    ground (arith, same s, keep s, over-update_row k id f rows same keep)

module _ (sha256 : String → String) (env : AuthEnv) (k t : ℕ) (st : AuthState)
    (d : IsDead k t st) where
  created-IsDead :
      (now : ℕ) (q : NewSession)
      → IsDead k t (create sha256 env now q st).1
        × (q.id == k && made (create sha256 env now q st).0 ≡ false)
  unfolding create find_row
  created-IsDead now q = elim (Bool-cases (has_key session_id q.id st.sessions)) [
    | inl taken ↦ rw taken (d, and_false (q.id == k))
    | inr new ↦ elim (Bool-cases (q.id == k)) [
      | inl here ↦ absurd (is_over-there _ (absent here new) d.over)
      | inr other ↦ rw (new, other) (record { over = rw other d.over; marked = d.marked }, refl)
    ]
  ]
    where
      absent :
          q.id == k ≡ true
          → has_key session_id q.id st.sessions ≡ false
          → find_row session_id k st.sessions ≡ none
      absent here new =
          find_row-absent session_id k st.sessions
            (subst (λ j. has_key session_id j st.sessions ≡ false) ((==_iff q.id k).0 here) new)

  revoked-IsDead : (now id : ℕ) (reason : String) → IsDead k t (revoke env now id reason st)
  unfolding revoke is_revoked
  revoked-IsDead now id reason = record {
    over = over-update_row k id _ st.sessions (λ s. ground arith) (λ s h. ground arith) d.over;
    marked = λ at h. any_right _ (_ ∷ []) st.revoked_marks (d.marked at h);
  }

  revoked_all-IsDead :
      (now user : ℕ) (reason : String) (kept : Option ℕ)
      → IsDead k t (revoke_all_for_user env now user reason kept st)
  unfolding revoke_all_for_user is_revoked
  revoked_all-IsDead now user reason kept = record {
    over =
        rw
          (find_row-map session_id (ended_if now user reason kept) (λ s. ground arith) k
            st.sessions)
          (is_over-map (ended_if now user reason kept) (find_row session_id k st.sessions)
            (λ s h. ground arith) d.over);
    marked = λ at h. any_right _ _ st.revoked_marks (d.marked at h);
  }

  exchange-IsDead :
      (now : ℕ) (next : String) (agent : Option String) (s : AuthSession)
      → IsDead k t (exchange sha256 env now next agent s st).1
  unfolding exchange
  exchange-IsDead now next agent s =
      elim (Option-cases (claim_row session_id s.id same f st.sessions)) [
        | inl lost ↦ rw (lost, exchange) d
        | inr ((row, rows), won) ↦
            let (r, _, _, _, e) = claim_row-eq-some session_id s.id same f st.sessions won in
            rw (won, exchange)
              (record {
                over = rw e (over-update_row k s.id f st.sessions (λ x. refl) (λ x h. h) d.over);
                marked = d.marked;
              })
      ]
    where
      same : AuthSession → Bool
      same r = str_eq r.refresh_hash s.refresh_hash

      f : AuthSession → AuthSession
      f = rotated_row sha256 env now next agent

  rotate_live-IsDead :
      (now : ℕ) (secret next : String) (agent : Option String) (s : AuthSession)
      → IsDead k t (rotate_live sha256 env now secret next agent s st).1
  unfolding rotate_live kill
  rotate_live-IsDead now secret next agent s =
      elim (Bool-cases (str_eq (sha256 secret) s.refresh_hash)) [
        | inl right ↦ rw right (exchange-IsDead now next agent s)
        | inr old ↦ elim (Bool-cases (in_grace sha256 env now (sha256 secret) s)) [
          | inl racing ↦ rw (old, racing) d
          | inr copied ↦
              let r = revoked-IsDead now s.id "refresh_reuse" in
              rw (old, copied) (record { over = r.over; marked = r.marked })
        ]
      ]

  -- A session that is over cannot be refreshed.
  over-is_refreshable :
      (now : ℕ) (channel : SessionChannel) (s : AuthSession)
      → find_row session_id k st.sessions ≡ some s
      → is_refreshable sha256 env now channel s ≡ false
  over-is_refreshable now channel s found =
      let gone : is_some s.revoked_at ≡ true = rw found at d.over in rw gone refl

  rotated-IsDead :
      (now : ℕ) (token : RefreshToken) (channel : SessionChannel) (next : String)
      (agent : Option String)
      → IsDead k t (rotate sha256 env now token channel next agent st).1
        × (token.session == k && renewed (rotate sha256 env now token channel next agent st).0
            ≡ false)
  unfolding rotate
  rotated-IsDead now token channel next agent =
      elim (Option-cases (find_row session_id token.session st.sessions)) [
        | inl nothing ↦ rw (nothing, rotate) (d, and_false (token.session == k))
        | inr (s, found) ↦ elim (Bool-cases (is_refreshable sha256 env now channel s)) [
          | inr stale ↦ rw (found, rotate, stale) (d, and_false (token.session == k))
          | inl live ↦ elim (Bool-cases (token.session == k)) [
            | inl here ↦ cc (
              live,
              over-is_refreshable now channel s (
                  subst (λ j. find_row session_id j st.sessions ≡ some s)
                    ((==_iff token.session k).0 here) found),
            )
            | inr other ↦
                rw (other, found, rotate, live)
                  (rotate_live-IsDead now token.secret next agent s, refl)
          ]
        ]
      ]

module _ (sha256 : String → String) (env : AuthEnv) (k t : ℕ) where
  event-IsDead :
      (e : Event) (st : AuthState)
      → IsDead k t st
      → IsDead k t (after_event sha256 env e st) × (hands_out sha256 env k e st ≡ false)
  unfolding after_event hands_out
  event-IsDead (created now q) st d = created-IsDead sha256 env k t st d now q
  event-IsDead (rotated now token channel next agent) st d =
      rotated-IsDead sha256 env k t st d now token channel next agent
  event-IsDead (revoked now id reason) st d =
      (revoked-IsDead sha256 env k t st d now id reason, refl)
  event-IsDead (revoked_all now user reason kept) st d =
      (revoked_all-IsDead sha256 env k t st d now user reason kept, refl)

  pub after_events-IsDead :
      (es : List Event) (st : AuthState)
      → IsDead k t st
      → IsDead k t (after_events sha256 env es st) × (hand_outs sha256 env k es st ≡ 0)
  unfolding after_events hand_outs
  after_events-IsDead [] st d = (d, refl)
  after_events-IsDead (e ∷ es) st d =
      let (dead, none_now) = event-IsDead e st d in
      let (end, none_later) = after_events-IsDead es (after_event sha256 env e st) dead in
      (end, rw none_now (omega (arith, none_later)))
