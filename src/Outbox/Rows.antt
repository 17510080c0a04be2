-- ===== src/Outbox/Rows.antt =====
-- The notices of the platform and their delivery: the tables notification, telegram_chat,
-- push_subscription and price_alert of packages/db/src/schema.ts, as the worker sees them, and
-- NotificationsService.emit of apps/api/src/notifications/notifications.service.ts.
use text.Mathlib.Text.{◌==◌ as str_eq}
use alkeva.Common.{
  ℕ, String, Bool, true, false, ◌&&◌, ◌==◌, Option, none, some, List, [], ◌∷◌, if◌then◌else◌, any,
}
use alkeva.Common.Table.{find_row}
use alkeva.Assets.{MetalAsset}

pub data NotificationStatus : Type 0 where
  queued sent failed skipped : NotificationStatus

abbrev pub is_queued : NotificationStatus → Bool
is_queued queued = true
is_queued _ = false

pub record Notification : Type 0 where
  pub id : ℕ
  pub user_id : ℕ
  pub template : String
  pub status : NotificationStatus
  pub push_status : NotificationStatus
  pub tg_status : NotificationStatus
  pub attempts : ℕ
  pub next_attempt_at : ℕ
  pub sent_at : Option ℕ
  pub created_at : ℕ

pub record TelegramChat : Type 0 where
  pub user_id : ℕ
  pub can_message : Bool
  pub blocked_at : Option ℕ

pub record PushSubscription : Type 0 where
  pub id : ℕ
  pub user_id : ℕ
  pub last_success_at : Option ℕ

-- `alertDirectionEnum`
pub data Direction : Type 0 where
  above below : Direction

pub record PriceAlert : Type 0 where
  pub id : ℕ
  pub user_id : ℕ
  pub asset : MetalAsset
  pub direction : Direction
  pub threshold_cents_per_gram : ℕ
  pub active : Bool
  pub triggered_at : Option ℕ

-- What a user has chosen for one kind of notice, a missing choice read as yes (`resolvePrefs`).
pub record ChannelPrefs : Type 0 where
  pub email : Bool
  pub push : Bool
  pub telegram : Bool

pub record NotifyPrefs : Type 0 where
  pub alerts : ChannelPrefs
  pub money : ChannelPrefs
  pub security : ChannelPrefs

-- The columns of a user that the notices need.
pub record Recipient : Type 0 where
  pub id : ℕ
  pub notify_prefs : NotifyPrefs

pub record Outbox : Type 0 where
  pub recipients : List Recipient
  pub notifications : List Notification
  pub telegram_chats : List TelegramChat
  pub push_subscriptions : List PushSubscription
  pub price_alerts : List PriceAlert

-- Which channels are configured.
pub record MessageEnv : Type 0 where
  pub smtp_host : Bool
  pub push_ready : Bool
  pub telegram_ready : Bool

pub data NotificationCategory : Type 0 where
  alerts money security : NotificationCategory

abbrev among : List String → String → Bool
among names name = any (λ n. str_eq n name) names

-- `notificationCategory`
unfoldable pub notification_category : String → NotificationCategory
notification_category template =
    if str_eq template "price_alert"
    then alerts
    else if among
        ("new_sign_in" ∷ "passkey_added" ∷ "telegram_linked" ∷ "telegram_unlinked"
          ∷ "account_frozen" ∷ "account_unfrozen" ∷ "fayda_verified" ∷ "deposit_reversed" ∷ [])
        template
    then security
    else money

-- `SECRET_TEMPLATES`
unfoldable pub is_secret : String → Bool
is_secret = among ("password_reset" ∷ "email_code" ∷ "withdrawal_code" ∷ [])

abbrev pub queued_if : Bool → NotificationStatus
queued_if b = if b then queued else skipped

abbrev pub has_push : ℕ → List PushSubscription → Bool
has_push user_id = any (λ (s : PushSubscription). s.user_id == user_id)

-- A linked chat that allows the bot and has not blocked it.
unfoldable pub may_message : Option TelegramChat → Bool
may_message none = false
may_message (some chat) = chat.can_message && is_none chat.blocked_at
  where
    is_none : Option ℕ → Bool
    is_none none = true
    is_none (some t) = false

abbrev pub chat_of : ℕ → List TelegramChat → Option TelegramChat
chat_of = find_row (λ (c : TelegramChat). c.user_id)

abbrev prefs_for : NotificationCategory → NotifyPrefs → ChannelPrefs
prefs_for alerts p = p.alerts
prefs_for money p = p.money
prefs_for security p = record {
  email = true;
  push = p.security.push;
  telegram = p.security.telegram;
}

-- The row that `emit` writes.
unfoldable pub new_notice : MessageEnv → ℕ → ℕ → Recipient → String → Outbox → Notification
unfolding notification_category may_message
new_notice env now id user template box =
    let prefs = prefs_for (notification_category template) user.notify_prefs in
    record {
      id = id;
      user_id = user.id;
      template = template;
      status = queued_if prefs.email;
      push_status =
          queued_if (prefs.push && (env.push_ready && has_push user.id box.push_subscriptions));
      tg_status = queued_if (
          prefs.telegram
          && (env.telegram_ready && may_message (chat_of user.id box.telegram_chats)));
      attempts = 0;
      next_attempt_at = now;
      sent_at = none;
      created_at = now;
    }

-- `emit`: a template that carries a secret is not stored, and a user that is not there gets nothing.
unfoldable pub emit : MessageEnv → ℕ → ℕ → ℕ → String → Outbox → Outbox
unfolding new_notice is_secret
emit env now id user_id template box =
    if is_secret template
    then box
    else elim (find_row (λ (u : Recipient). u.id) user_id box.recipients) [
      | none ↦ box
      | some user ↦ record box {
        notifications = new_notice env now id user template box ∷ box.notifications;
      }
    ]
