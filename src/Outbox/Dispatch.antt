-- ===== src/Outbox/Dispatch.antt =====
-- apps/worker/src/dispatcher.ts: one pass of the dispatcher over the outbox.
use alkeva.Common.{
  ℕ, zero, suc, ◌+◌, ◌*◌, ◌/◌, ◌^◌, Bool, true, false, not, ◌&&◌, ◌||◌, ◌==◌, leb, ltb, some, List,
  [], ◌∷◌, map, if◌then◌else◌, any, filter,
}
use alkeva.Common.Table.{update_row}
use alkeva.Outbox.Rows.{
  NotificationStatus, queued, sent, failed, skipped, is_queued, Notification, TelegramChat,
  PushSubscription, Recipient, Outbox, MessageEnv, is_secret, may_message, chat_of,
}

-- `MAX_ATTEMPTS`, `BATCH` and `LEASE_SECONDS`
abbrev pub max_attempts : ℕ
max_attempts = 5

abbrev batch : ℕ
batch = 20

abbrev lease_ms : ℕ
lease_ms = 120 * 1000

pub data MailAnswer : Type 0 where
  mailed mail_error : MailAnswer

-- The answer for one browser: taken, or an error with its HTTP status.
pub data PushAnswer : Type 0 where
  taken : PushAnswer
  push_error : ℕ → PushAnswer

-- `TelegramSendOutcome`; a limit comes with the seconds to wait.
pub data TelegramAnswer : Type 0 where
  delivered blocked bad_request transient : TelegramAnswer
  rate_limited : ℕ → TelegramAnswer

-- What `push` returns: `sent`, `none`, or an error.
pub data PushResult : Type 0 where
  pushed no_browser push_failed : PushResult

pub record PushTally : Type 0 where
  pub delivered : Bool
  pub last_error : Bool
  pub kept : List PushSubscription

is_gone : ℕ → Bool
is_gone status = status == 404 || status == 410

-- The loop of `push` over the browsers of a user; the others keep their rows.
unfoldable pub push_all : ℕ → ℕ → (ℕ → PushAnswer) → List PushSubscription → PushTally
unfolding is_gone
push_all now user_id browser [] = record { delivered = false; last_error = false; kept = [] }
push_all now user_id browser (s ∷ rest) =
    let tally = push_all now user_id browser rest in
    if not (s.user_id == user_id)
    then record tally { kept = s ∷ tally.kept }
    else elim (browser s.id) [
      | taken ↦ record tally {
        delivered = true;
        kept = record s { last_success_at = some now } ∷ tally.kept;
      }
      | push_error status ↦
          if is_gone status
          then tally
          else record tally { last_error = true; kept = s ∷ tally.kept }
    ]

abbrev push_result : PushTally → PushResult
push_result t = if t.delivered then pushed else if t.last_error then push_failed else no_browser

-- What one channel of a notice comes to: its status, whether there was an error, and the seconds
-- that Telegram asks to wait.
pub record Outcome : Type 0 where
  pub status : NotificationStatus
  pub error : Bool
  pub retry_after : ℕ

abbrev settled_as : NotificationStatus → Outcome
settled_as s = record { status = s; error = false; retry_after = 0 }

abbrev still_queued : ℕ → Outcome
still_queued seconds = record { status = queued; error = true; retry_after = seconds }

abbrev after_mail : MailAnswer → Outcome
after_mail mailed = settled_as sent
after_mail mail_error = still_queued 0

unfoldable pub try_mail : MessageEnv → MailAnswer → NotificationStatus → Outcome
try_mail env answer status =
    if not (is_queued status)
    then settled_as status
    else if env.smtp_host
    then after_mail answer
    else settled_as skipped

abbrev after_push : PushResult → Outcome
after_push pushed = settled_as sent
after_push no_browser = settled_as skipped
after_push push_failed = still_queued 0

unfoldable pub try_push : MessageEnv → PushResult → NotificationStatus → Outcome
try_push env result status =
    if not (is_queued status)
    then settled_as status
    else if env.push_ready
    then after_push result
    else settled_as skipped

abbrev after_telegram : TelegramAnswer → Outcome
after_telegram delivered = settled_as sent
after_telegram blocked = settled_as skipped
after_telegram bad_request = settled_as failed
after_telegram transient = still_queued 0
after_telegram (rate_limited seconds) = still_queued seconds

-- `reachable`: the bot is configured, the chat may be messaged and the template has a text.
unfoldable pub try_telegram : Bool → TelegramAnswer → NotificationStatus → Outcome
try_telegram reachable answer status =
    if not (is_queued status)
    then settled_as status
    else if reachable
    then after_telegram answer
    else settled_as skipped

abbrev max : ℕ → ℕ → ℕ
max a b = if leb a b then b else a

-- 2, 4, 8 … minutes, or what Telegram asks for, whichever is longer.
unfoldable pub backoff_min : ℕ → ℕ → ℕ
backoff_min attempts retry_after =
    max (2 ^ (if leb attempts 6 then attempts else 6)) ((retry_after + 59) / 60)

-- What was answered for one notice.
pub record Answers : Type 0 where
  pub mail : MailAnswer
  pub push : PushResult
  pub reachable : Bool
  pub telegram : TelegramAnswer

abbrev pub final_status : Bool → NotificationStatus → NotificationStatus
final_status give_up status = if give_up && is_queued status then failed else status

abbrev pub is_sent : NotificationStatus → Bool
is_sent sent = true
is_sent _ = false

-- The body of the loop of `runOnce`: what the row of a claimed notice becomes.
unfoldable pub deliver : MessageEnv → ℕ → Answers → Notification → Notification
deliver env now answers n =
    let mail = try_mail env answers.mail n.status in
    let push = try_push env answers.push n.push_status in
    let telegram = try_telegram answers.reachable answers.telegram n.tg_status in
    let errors = mail.error || (push.error || telegram.error) in
    let attempts = if errors then n.attempts + 1 else n.attempts in
    let give_up = errors && leb max_attempts attempts in
    record n {
      status = final_status give_up mail.status;
      push_status = final_status give_up push.status;
      tg_status = final_status give_up telegram.status;
      attempts = attempts;
      sent_at = if is_sent mail.status && not (is_sent n.status) then some now else n.sent_at;
      next_attempt_at =
          if errors && not give_up
          then now + backoff_min attempts telegram.retry_after * 60 * 1000
          else now;
    }

-- Some channel waits.
abbrev pub is_open : Notification → Bool
is_open n = is_queued n.status || (is_queued n.push_status || is_queued n.tg_status)

-- The condition of the claim.
abbrev pub is_due : ℕ → Notification → Bool
is_due now n = is_open n && leb n.next_attempt_at now

unfoldable pub insert_oldest : Notification → List Notification → List Notification
insert_oldest n [] = n ∷ []
insert_oldest n (m ∷ rest) =
    if ltb n.created_at m.created_at then n ∷ m ∷ rest else m ∷ insert_oldest n rest

-- `order by created_at`
unfoldable pub oldest_first : List Notification → List Notification
oldest_first [] = []
oldest_first (n ∷ rest) = insert_oldest n (oldest_first rest)

unfoldable pub take : ℕ → List ℕ → List ℕ
take zero xs = []
take (suc n) [] = []
take (suc n) (x ∷ xs) = x ∷ take n xs

-- The ids that a pass claims.
unfoldable pub claimed_ids : ℕ → List Notification → List ℕ
claimed_ids now rows =
    take batch (map (λ (n : Notification). n.id) (oldest_first (filter (is_due now) rows)))

abbrev leased : ℕ → List ℕ → Notification → Notification
leased now ids n =
    if any (λ id. id == n.id) ids then record n { next_attempt_at = now + lease_ms } else n

-- What the channels answer, by notice.
pub record Network : Type 0 where
  pub mail : ℕ → MailAnswer
  pub browser : ℕ → ℕ → PushAnswer
  pub telegram : ℕ → TelegramAnswer

-- The chat that has blocked the bot is not messaged again.
unfoldable pub block_chat : ℕ → ℕ → List TelegramChat → List TelegramChat
block_chat now user_id =
    update_row (λ (c : TelegramChat). c.user_id) user_id
      (λ c. record c { can_message = false; blocked_at = some now })

abbrev has_blocked : TelegramAnswer → Bool
has_blocked blocked = true
has_blocked _ = false

-- One claimed notice, with the chats as they were read at the start of the pass: the browsers and
-- the chat are touched only if their channel waits.
unfoldable pub deliver_row :
    MessageEnv → ℕ → Network → List TelegramChat → Notification → Outbox → Outbox
deliver_row env now net chats n box =
    let pushing = is_queued n.push_status && env.push_ready in
    let tally = push_all now n.user_id (net.browser n.id) box.push_subscriptions in
    let reachable =
      env.telegram_ready && (may_message (chat_of n.user_id chats) && not (is_secret n.template)) in
    let answers : Answers = record {
      mail = net.mail n.id;
      push = push_result tally;
      reachable = reachable;
      telegram = net.telegram n.id;
    } in
    record box {
      notifications =
          update_row (λ (m : Notification). m.id) n.id (deliver env now answers) box.notifications;
      push_subscriptions = if pushing then tally.kept else box.push_subscriptions;
      telegram_chats =
          if is_queued n.tg_status && (reachable && has_blocked (net.telegram n.id))
          then block_chat now n.user_id box.telegram_chats
          else box.telegram_chats;
    }

unfoldable pub deliver_rows :
    MessageEnv → ℕ → Network → List TelegramChat → List Notification → Outbox → Outbox
deliver_rows env now net chats [] box = box
deliver_rows env now net chats (n ∷ rest) box =
    deliver_rows env now net chats rest (deliver_row env now net chats n box)

abbrev has_recipient : List Recipient → Notification → Bool
has_recipient users n = any (λ (u : Recipient). u.id == n.user_id) users

-- `runOnce`: the due notices are claimed, oldest first, and those of users that are there are
-- delivered.
unfoldable pub run_once : MessageEnv → ℕ → Network → Outbox → Outbox
run_once env now net box =
    let ids = claimed_ids now box.notifications in
    let rows = map (leased now ids) box.notifications in
    let claimed = filter (λ n. any (λ id. id == n.id) ids && has_recipient box.recipients n) rows in
    deliver_rows env now net box.telegram_chats claimed (record box { notifications = rows })
