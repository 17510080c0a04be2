-- ===== src/Outbox/Alerts.antt =====
-- Price alerts: AlertsService of apps/api/src/alerts/alerts.service.ts, and checkAlerts of
-- apps/worker/src/alerts.ts, which the worker calls on every tick.
-- `create` counts, stops and inserts in separate statements with no lock; here the three are one piece,
-- as they are where the calls for a user come one after the other.
use alkeva.Common.{
  ℕ, Bool, true, false, not, ◌&&◌, ◌==◌, leb, is_some, Option, none, some, List, [], ◌∷◌,
  if◌then◌else◌, filter, length,
}
use alkeva.Common.Table.{find_row, claim_row, update_row, find_where}
use alkeva.Assets.{MetalAsset, metal_eq}
use alkeva.Outbox.Rows.{
  Direction, above, below, PriceAlert, Notification, queued_if, has_push, may_message, chat_of,
  Recipient, NotifyPrefs, Outbox, MessageEnv,
}

-- `MAX_ACTIVE_ALERTS`
abbrev pub max_active_alerts : ℕ
max_active_alerts = 10

abbrev pub alert_id : PriceAlert → ℕ
alert_id a = a.id

abbrev pub is_active_of : ℕ → PriceAlert → Bool
is_active_of user_id a = a.user_id == user_id && a.active

-- `createAlertDto`
pub record CreateAlert : Type 0 where
  pub asset : MetalAsset
  pub direction : Direction
  pub threshold_cents_per_gram : ℕ

abbrev pub is_owned : ℕ → PriceAlert → Bool
is_owned user_id a = a.user_id == user_id

abbrev pub deactivated : PriceAlert → PriceAlert
deactivated a = record a { active = false }

-- The first of the active alerts makes room for the new one; the query names no order.
unfoldable pub make_room : ℕ → List PriceAlert → List PriceAlert
make_room user_id rows =
    if leb max_active_alerts (length (filter (is_active_of user_id) rows))
    then elim (find_where (is_active_of user_id) rows) [
      | none ↦ rows
      | some oldest ↦ update_row alert_id oldest.id deactivated rows
    ]
    else rows

-- The row that `create` inserts.
abbrev pub new_alert : ℕ → ℕ → CreateAlert → PriceAlert
new_alert id user_id dto = record {
  id = id;
  user_id = user_id;
  asset = dto.asset;
  direction = dto.direction;
  threshold_cents_per_gram = dto.threshold_cents_per_gram;
  active = true;
  triggered_at = none;
}

-- `create`
unfoldable pub create : ℕ → ℕ → CreateAlert → List PriceAlert → List PriceAlert
create id user_id dto rows = new_alert id user_id dto ∷ make_room user_id rows

-- `remove`; none is `alert_not_found`.
unfoldable pub remove : ℕ → ℕ → List PriceAlert → Option (List PriceAlert)
remove user_id alert_id' rows =
    elim (claim_row alert_id alert_id' (is_owned user_id) deactivated rows) [
      | none ↦ none
      | some (gone, rows') ↦ some rows'
    ]

abbrev pub crosses : Direction → ℕ → ℕ → Bool
crosses above threshold price = leb threshold price
crosses below threshold price = leb price threshold

abbrev pub is_waiting : PriceAlert → Bool
is_waiting a = not (is_some a.triggered_at)

-- The condition of the query of `checkAlerts`.
abbrev pub is_armed : MetalAsset → ℕ → PriceAlert → Bool
is_armed asset price a =
    metal_eq a.asset asset
    && (a.active
        && (not (is_some a.triggered_at) && crosses a.direction a.threshold_cents_per_gram price))

abbrev pub recipient : ℕ → List Recipient → Option Recipient
recipient = find_row (λ (u : Recipient). u.id)

-- The inner join with the users.
abbrev pub has_owner : List Recipient → PriceAlert → Bool
has_owner users a = is_some (recipient a.user_id users)

abbrev pub triggered : ℕ → PriceAlert → PriceAlert
triggered now a = record a { triggered_at = some now }

-- The row that a fired alert writes.
unfoldable pub alert_notice : MessageEnv → ℕ → ℕ → ℕ → NotifyPrefs → Outbox → Notification
alert_notice env now id user_id prefs box = record {
  id = id;
  user_id = user_id;
  template = "price_alert";
  status = queued_if prefs.alerts.email;
  push_status =
      queued_if (env.push_ready && (prefs.alerts.push && has_push user_id box.push_subscriptions));
  tg_status = queued_if (
      env.telegram_ready
      && (prefs.alerts.telegram && may_message (chat_of user_id box.telegram_chats)));
  attempts = 0;
  next_attempt_at = now;
  sent_at = none;
  created_at = now;
}

-- One turn of the loop: the claim and the notice are one transaction, and only the call that stamps
-- `triggered_at` writes the notice.
unfoldable pub fire : MessageEnv → ℕ → (ℕ → ℕ) → PriceAlert → Recipient → Outbox → Outbox
fire env now new_id alert user box =
    elim (claim_row alert_id alert.id is_waiting (triggered now) box.price_alerts) [
      | none ↦ box
      | some (fired, rows) ↦ record box {
        price_alerts = rows;
        notifications =
            alert_notice env now (new_id alert.id) alert.user_id user.notify_prefs box
            ∷ box.notifications;
      }
    ]

unfoldable pub fire_all : MessageEnv → ℕ → (ℕ → ℕ) → List PriceAlert → Outbox → Outbox
fire_all env now new_id [] box = box
fire_all env now new_id (alert ∷ rest) box =
    fire_all env now new_id rest (elim (recipient alert.user_id box.recipients) [
      | none ↦ box
      | some user ↦ fire env now new_id alert user box
    ])

-- `checkAlerts`
unfoldable pub check_alerts : MessageEnv → ℕ → (ℕ → ℕ) → MetalAsset → ℕ → Outbox → Outbox
check_alerts env now new_id asset price box =
    fire_all env now new_id
      (filter (λ a. is_armed asset price a && has_owner box.recipients a) box.price_alerts) box
