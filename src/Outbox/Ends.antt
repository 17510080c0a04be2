-- ===== src/Outbox/Ends.antt =====
-- The delivery of a notice ends (apps/worker/src/dispatcher.ts): what any sequence of passes does to
-- one row of the outbox.
use alkeva.Common.{
  ℕ, ◌+◌, ◌≤◌, ◌<◌, ◌≡◌, refl, ◌⊎◌, inl, inr, Bool, true, false, ◌&&◌, ◌||◌, List, [], ◌∷◌, ◌∙◌,
  if◌then◌else◌, leb, arith, Bool-cases,
}
use alkeva.Outbox.Rows.{NotificationStatus, is_queued, Notification, MessageEnv}
use alkeva.Outbox.Dispatch.{
  Answers, MailAnswer, mailed, mail_error, PushResult, pushed, TelegramAnswer, delivered, deliver,
  try_mail, try_push, try_telegram, is_open, is_due, is_sent, max_attempts, Outcome, final_status,
}

-- A pass that comes at a time, with what is answered if it claims the row.
abbrev pub Pass : Type 0
Pass = ℕ × Answers

unfoldable pub after_pass : MessageEnv → Pass → Notification → Notification
after_pass env (now, answers) n = if is_due now n then deliver env now answers n else n

unfoldable pub after_passes : MessageEnv → List Pass → Notification → Notification
after_passes env [] n = n
after_passes env (p ∷ rest) n = after_passes env rest (after_pass env p n)

due_pass :
    (env : MessageEnv) (now : ℕ) (a : Answers) (n : Notification)
    → is_due now n ≡ true
    → after_pass env (now, a) n ≡ deliver env now a n
unfolding after_pass
due_pass env now a n h = rw h refl

later_pass :
    (env : MessageEnv) (now : ℕ) (a : Answers) (n : Notification)
    → is_due now n ≡ false
    → after_pass env (now, a) n ≡ n
unfolding after_pass
later_pass env now a n h = rw h refl

abbrev pub one_if : Bool → ℕ
one_if b = if b then 1 else 0

-- How many of the passes claim the row.
unfoldable pub claims : MessageEnv → List Pass → Notification → ℕ
claims env [] n = 0
claims env (p ∷ rest) n = one_if (is_due p.0 n) + claims env rest (after_pass env p n)

-- A channel waits on after a try exactly if the try had an error.
mail_waits :
    (env : MessageEnv) (a : MailAnswer) (s : NotificationStatus)
    → is_queued (try_mail env a s).status ≡ (try_mail env a s).error
unfolding try_mail
mail_waits env a s = ground arith

push_waits :
    (env : MessageEnv) (a : PushResult) (s : NotificationStatus)
    → is_queued (try_push env a s).status ≡ (try_push env a s).error
unfolding try_push
push_waits env a s = ground arith

telegram_waits :
    (reachable : Bool) (a : TelegramAnswer) (s : NotificationStatus)
    → is_queued (try_telegram reachable a s).status ≡ (try_telegram reachable a s).error
unfolding try_telegram
telegram_waits reachable a s = ground arith

-- The delivery itself, on what the three channels came to.
final_open :
    (attempts : ℕ) (mail push telegram : Outcome)
    → is_queued mail.status ≡ mail.error
    → is_queued push.status ≡ push.error
    → is_queued telegram.status ≡ telegram.error
    → let errors = mail.error || (push.error || telegram.error) in
      let attempts' = if errors then attempts + 1 else attempts in
      let give_up = errors && leb max_attempts attempts' in
      is_queued (final_status give_up mail.status)
          || (is_queued (final_status give_up push.status)
              || is_queued (final_status give_up telegram.status))
        ≡ true
      → (attempts' ≡ attempts + 1) × (attempts + 1 < 5)
final_open attempts mail push telegram m p t h = ground arith

deliver_open :
    (env : MessageEnv) (now : ℕ) (a : Answers) (n : Notification)
    → is_open (deliver env now a n) ≡ true
    → ((deliver env now a n).attempts ≡ n.attempts + 1) × (n.attempts + 1 < 5)
unfolding deliver
deliver_open env now a n h =
    final_open n.attempts (try_mail env a.mail n.status) (try_push env a.push n.push_status)
      (try_telegram a.reachable a.telegram n.tg_status) (mail_waits env a.mail n.status)
      (push_waits env a.push n.push_status) (telegram_waits a.reachable a.telegram n.tg_status) h

module _ (env : MessageEnv) (now : ℕ) (a : Answers) (rest : List Pass) (n : Notification) where
  claims_due :
      is_due now n ≡ true
      → (claims env ((now, a) ∷ rest) n ≡ 1 + claims env rest (deliver env now a n))
        × (after_passes env ((now, a) ∷ rest) n ≡ after_passes env rest (deliver env now a n))
  unfolding claims after_passes
  claims_due h = rw (h, due_pass env now a n h) (refl, refl)

  claims_later :
      is_due now n ≡ false
      → (claims env ((now, a) ∷ rest) n ≡ claims env rest n)
        × (after_passes env ((now, a) ∷ rest) n ≡ after_passes env rest n)
  unfolding claims after_passes
  claims_later h = rw (h, later_pass env now a n h) (omega arith, refl)

-- A row with no channel open is not claimed again.
closed_claims :
    (env : MessageEnv) (ps : List Pass) (n : Notification)
    → is_open n ≡ false
    → (claims env ps n ≡ 0) × (after_passes env ps n ≡ n)
unfolding claims after_passes after_pass
closed_claims env [] n h = (refl, refl)
closed_claims env ((now, a) ∷ rest) n h =
    let (idle, same) = closed_claims env rest n h in rw h (omega arith, same)

-- The claims leave no attempt unused, and while there is one left to make they may go on.
abbrev pub Ends : MessageEnv → List Pass → Notification → Type 0
Ends env ps n =
    (claims env ps n + n.attempts ≤ 5)
    × ((is_open (after_passes env ps n) ≡ false) ⊎ (claims env ps n + n.attempts < 5))

abbrev EndsAfter : ℕ → MessageEnv → List Pass → Notification → Notification → Type 0
EndsAfter k env ps n m =
    (k + n.attempts ≤ 5) × ((is_open (after_passes env ps m) ≡ false) ⊎ (k + n.attempts < 5))

-- The last delivery closes the row, or it counts as an attempt and the rest goes on from there.
went_on :
    (env : MessageEnv) (ps : List Pass) (n m : Notification)
    → n.attempts < 5
    → (is_open m ≡ false) ⊎ ((m.attempts ≡ n.attempts + 1) × Ends env ps m)
    → EndsAfter (1 + claims env ps m) env ps n m
went_on env ps n m h (inl closed) =
    let (idle, same) = closed_claims env ps m closed in rw (idle, same) (omega arith, inl closed)
went_on env ps n m h (inr (counted, (bound, inl closed))) = (omega arith, inl closed)
went_on env ps n m h (inr (counted, (bound, inr left))) = (omega arith, inr (omega arith))

-- Whatever the channels answer and whenever the passes come, a notice that has been tried less than
-- five times is claimed at most as often as attempts were left of the five, and once they are used
-- up no channel of it waits.
pub passes_end :
    (env : MessageEnv) (ps : List Pass) (n : Notification) → n.attempts < 5 → Ends env ps n
unfolding claims after_passes
passes_end env [] n h = (omega arith, inr (omega arith))
passes_end env ((now, a) ∷ rest) n h = elim (Bool-cases (is_due now n)) [
  | inr later ↦
      let (count, last) = claims_later env now a rest n later in
      rw (count, last) (passes_end env rest n h)
  | inl due ↦
      let (count, last) = claims_due env now a rest n due in
      rw (count, last)
        (went_on env rest n (deliver env now a n) h
          (elim (Bool-cases (is_open (deliver env now a n))) [
            | inr closed ↦ inl closed
            | inl waits ↦
                let (counted, left) = deliver_open env now a n waits in
                inr (counted, passes_end env rest (deliver env now a n) (omega arith))
          ]))
]

pub data Channel : Type 0 where
  by_mail by_push by_telegram : Channel

abbrev pub status_on : Channel → Notification → NotificationStatus
status_on by_mail n = n.status
status_on by_push n = n.push_status
status_on by_telegram n = n.tg_status

abbrev mail_taken : MailAnswer → Bool
mail_taken mailed = true
mail_taken mail_error = false

abbrev push_taken : PushResult → Bool
push_taken pushed = true
push_taken _ = false

abbrev telegram_taken : TelegramAnswer → Bool
telegram_taken delivered = true
telegram_taken _ = false

-- Whether a try of the channel succeeds: mail and Telegram are one message, push is one round over the
-- browsers of the user, of which at least one takes it.
abbrev pub took : MessageEnv → Channel → Answers → Bool
took env by_mail a = env.smtp_host && mail_taken a.mail
took env by_push a = env.push_ready && push_taken a.push
took env by_telegram a = a.reachable && telegram_taken a.telegram

-- How many tries of a channel succeed.
unfoldable pub successes : MessageEnv → Channel → List Pass → Notification → ℕ
successes env c [] n = 0
successes env c ((now, a) ∷ rest) n =
    one_if (is_due now n && (is_queued (status_on c n) && took env c a))
    + successes env c rest (after_pass env (now, a) n)

is_sent-final : (g : Bool) (s : NotificationStatus) → is_sent (final_status g s) ≡ is_sent s
is_sent-final g s = ground arith

deliver_sent :
    (env : MessageEnv) (c : Channel) (now : ℕ) (a : Answers) (n : Notification)
    → is_sent (status_on c (deliver env now a n))
      ≡ is_sent (status_on c n) || (is_queued (status_on c n) && took env c a)
unfolding deliver try_mail try_push try_telegram
deliver_sent env by_mail now a n =
    is_sent-final _ (try_mail env a.mail n.status).status ∙ ground arith
deliver_sent env by_push now a n =
    is_sent-final _ (try_push env a.push n.push_status).status ∙ ground arith
deliver_sent env by_telegram now a n =
    is_sent-final _ (try_telegram a.reachable a.telegram n.tg_status).status ∙ ground arith

sent_or_queued :
    (s : NotificationStatus) (t : Bool) (k after : ℕ)
    → k + one_if (is_sent s || (is_queued s && t)) ≡ after
    → one_if (is_queued s && t) + k + one_if (is_sent s) ≡ after
sent_or_queued s t k after h = ground arith

-- Over any passes, a channel is marked as sent exactly if one try of it succeeded, unless it was marked
-- so before; so no channel is tried again after a success. A try of push is a round over all the
-- browsers of the user.
pub successes_once :
    (env : MessageEnv) (c : Channel) (ps : List Pass) (n : Notification)
    → successes env c ps n + one_if (is_sent (status_on c n))
      ≡ one_if (is_sent (status_on c (after_passes env ps n)))
unfolding successes after_passes
successes_once env c [] n = omega arith
successes_once env c ((now, a) ∷ rest) n = elim (Bool-cases (is_due now n)) [
  | inr later ↦
      rw (later, later_pass env now a n later) (omega (arith, successes_once env c rest n))
  | inl due ↦
      let ih = successes_once env c rest (deliver env now a n) in
      rw (due, due_pass env now a n due)
        (sent_or_queued (status_on c n) (took env c a) _ _ (rw (deliver_sent env c now a n) at ih))
]
