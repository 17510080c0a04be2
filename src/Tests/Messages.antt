-- ===== src/Tests/Messages.antt =====
-- The theorems on notices, alerts, emailed codes, sessions and the abstract ledger, at work.
use alkeva.Common.{ℕ, String, ◌+◌, ◌≤◌, ◌≡◌, refl, true, false, some, none, List, [], ◌∷◌, arith}
use alkeva.Common.Keyed.{one_if}
use alkeva.Common.Table.{find_row, claim_row, update_row}
use alkeva.Assets.{etb, xau, payout_hold}
use alkeva.Schema.{user_account, system_account, TxnKind}
use alkeva.Ledger.{PostTxnSpec}
use alkeva.Ledger.Move.{move_entries}
use alkeva.Ledger.Refines.{post_all, move_all, movements, holdings, post_all_refines}
use alkeva.Outbox.Rows.{
  Notification, NotificationStatus, MessageEnv, Outbox, Recipient, ChannelPrefs, PriceAlert, above,
}
use alkeva.Outbox.Dispatch.{
  Answers, mailed, mail_error, pushed, transient, delivered, is_sent, deliver, run_once, Network,
  taken, claimed_ids, oldest_first, insert_oldest, take, deliver_rows, deliver_row, push_all,
  try_mail, try_push, try_telegram, backoff_min,
}
use alkeva.Outbox.Ends.{
  Pass, Ends, passes_end, successes_once, successes, after_passes, by_mail, status_on,
}
use alkeva.Outbox.Alerts.{
  CreateAlert, create, check_alerts, make_room, fire_all, fire, alert_notice, new_alert,
}
use alkeva.Outbox.Fired.{IsOrderly, Reach, Step, Reach-IsOrderly}
use alkeva.Outbox.Noticed
use alkeva.Outbox.Noticed.{IsNoticed, Turns, Turns-IsNoticed}
use alkeva.Auth.Codes.{EmailCode, Issue, Attempt, code_id, withdrawal}
use alkeva.Auth.Attempts.{Event, issued, tried, comparisons, acceptances}
use alkeva.Auth.Guarded.{codes_guarded}
use alkeva.Auth.Once.{Turn, issued_code, compared, times_taken, taken_once}
use alkeva.Auth.Attempts.{used}
use alkeva.Common.Table.{find_row}
use alkeva.Auth.Sessions.{
  AuthSession, AuthState, AuthEnv, RefreshToken, AccessToken, SessionChannel, pwd,
}
use alkeva.Auth.Revoked
use alkeva.Tests.Data.{busy}

abbrev hold_spec : ℕ → PostTxnSpec
hold_spec amount = record {
  kind = TxnKind.withdrawal;
  subject = some 6;
  initiated_by = some 7;
  entries = move_entries (user_account 7 etb) (system_account payout_hold) etb amount;
}

abbrev postings : List (ℕ × PostTxnSpec)
postings = (110, hold_spec 2500) ∷ (111, hold_spec 0) ∷ []

post_all_refines_example :
    ((post_all postings busy).0 ≡ (move_all busy.accounts (movements postings) (holdings busy)).0)
    × (holdings (post_all postings busy).1
        ≡ (move_all busy.accounts (movements postings) (holdings busy)).1)
post_all_refines_example = post_all_refines postings busy

abbrev channels : MessageEnv
channels = record { smtp_host = true; push_ready = true; telegram_ready = false }

abbrev notice : Notification
notice = record {
  id = 1;
  user_id = 7;
  template = "price_alert";
  status = NotificationStatus.queued;
  push_status = NotificationStatus.queued;
  tg_status = NotificationStatus.skipped;
  attempts = 0;
  next_attempt_at = 1000;
  sent_at = none;
  created_at = 1000;
}

abbrev mail_down : Answers
mail_down = record { mail = mail_error; push = pushed; reachable = false; telegram = transient }

abbrev mail_up : Answers
mail_up = record mail_down { mail = mailed }

-- The second pass comes too early.
abbrev three_passes : List Pass
three_passes = (2000, mail_down) ∷ (3000, mail_up) ∷ (200000, mail_up) ∷ []

passes_end_example : Ends channels three_passes notice
passes_end_example = passes_end channels three_passes notice (omega arith)

successes_once_example :
    successes channels by_mail three_passes notice + one_if (is_sent (status_on by_mail notice))
    ≡ one_if (is_sent (status_on by_mail (after_passes channels three_passes notice)))
successes_once_example = successes_once channels by_mail three_passes notice

abbrev all_channels : ChannelPrefs
all_channels = record { email = true; push = true; telegram = true }

abbrev customer : Recipient
customer = record {
  id = 7;
  notify_prefs = record { alerts = all_channels; money = all_channels; security = all_channels };
}

abbrev quiet : Outbox
quiet = record {
  recipients = customer ∷ [];
  notifications = [];
  telegram_chats = [];
  push_subscriptions = [];
  price_alerts = [];
}

abbrev above_fifteen : CreateAlert
above_fifteen = record { asset = xau; direction = above; threshold_cents_per_gram = 1500000 }

abbrev watching : Outbox
watching = record quiet { price_alerts = create 5 7 above_fifteen [] }

abbrev network : Network
network = record { mail = λ _. mailed; browser = λ _ _. taken; telegram = λ _. delivered }

-- A price above the threshold fires the alert, and a pass of the dispatcher mails its notice.
told :
    (run_once channels 4000 network
      (check_alerts channels 3000 (λ id. id) xau 1600000 watching)).notifications
    ≡ record notice {
      id = 5;
      status = NotificationStatus.sent;
      push_status = NotificationStatus.skipped;
      next_attempt_at = 4000;
      sent_at = some 4000;
      created_at = 3000;
    }
      ∷ []
unfolding run_once check_alerts create make_room fire_all fire alert_notice find_row claim_row
    update_row claimed_ids oldest_first insert_oldest take deliver_rows deliver_row deliver push_all
    try_mail try_push try_telegram backoff_min
told = refl

quiet-IsOrderly : IsOrderly 0 quiet
quiet-IsOrderly = record { keyed = tt; few = λ u. omega arith; noticed = refl }

fired : Reach quiet (check_alerts channels 3000 (λ id. id) xau 1600000 watching)
fired =
    Reach.next (Reach.next Reach.here (Step.created quiet 5 7 above_fifteen refl))
      (Step.ticked watching channels 3000 (λ id. id) xau 1600000)

Reach-IsOrderly_example : IsOrderly 0 (check_alerts channels 3000 (λ id. id) xau 1600000 watching)
Reach-IsOrderly_example = Reach-IsOrderly 0 quiet-IsOrderly fired

abbrev gold_alert : PriceAlert
gold_alert = new_alert 5 7 above_fifteen

-- Two passes that both read the alert before either fired it.
racing_passes : Turns quiet (
    fire channels 3001
      (λ id. id + 10)
      gold_alert
      customer
      (fire channels 3000 (λ id. id) gold_alert customer watching))
unfolding create make_room
racing_passes =
    Turns.next
      (Turns.next (Turns.next Turns.here (Noticed.Turn.inserted quiet 5 7 above_fifteen refl))
        (Noticed.Turn.fired watching channels 3000 (λ id. id) gold_alert customer))
      (Noticed.Turn.fired _ channels 3001 (λ id. id + 10) gold_alert customer)

Turns-IsNoticed_example : IsNoticed 0 (
    fire channels 3001
      (λ id. id + 10)
      gold_alert
      customer
      (fire channels 3000 (λ id. id) gold_alert customer watching))
Turns-IsNoticed_example = Turns-IsNoticed 0 (record { keyed = tt; noticed = refl }) racing_passes

abbrev asked : Issue
asked = record {
  now = 1000;
  id = 3;
  user_id = 7;
  purpose = withdrawal;
  code = "271828";
  payload = none;
}

abbrev typed : String → Attempt
typed code = record { now = 2000; user_id = 7; purpose = withdrawal; code = code; id = some 3 }

abbrev typed_events : List Event
typed_events = issued true asked ∷ tried (typed "314159") ∷ tried (typed "271828") ∷ []

abbrev unread : EmailCode
unread = record {
  id = 3;
  user_id = 7;
  purpose = withdrawal;
  code_hash = "271828";
  payload = none;
  attempts = 0;
  expires_at = 601000;
  consumed_at = none;
  created_at = 1000;
}

-- Two calls that both read the code before either took it.
abbrev racing : List Turn
racing =
    issued_code true asked
    ∷ compared (typed "271828") unread
    ∷ compared (typed "271828") unread
    ∷ []

taken_once_example : times_taken (λ _ code. code) 3 racing [] + used (find_row code_id 3 []) ≤ 1
taken_once_example = taken_once (λ _ code. code) 3 racing []

codes_guarded_example :
    (comparisons (λ _ code. code) 3 typed_events [] ≤ 5)
    × (acceptances (λ _ code. code) 3 typed_events [] ≤ 1)
codes_guarded_example = codes_guarded (λ _ code. code) 3 typed_events

abbrev auth_env : AuthEnv
auth_env = record { access_token_ttl_ms = 900000; refresh_token_ttl_ms = 2592000000 }

abbrev phone : AuthSession
phone = record {
  id = 4;
  user_id = 7;
  refresh_hash = "new";
  previous_hash = some "old";
  rotated_at = some 100000;
  amr = pwd ∷ [];
  auth_time = 1000;
  user_agent = none;
  expires_at = 2592001000;
  revoked_at = none;
  revoked_reason = none;
}

abbrev signed_in : AuthState
signed_in = record { sessions = phone ∷ []; revoked_marks = []; reuse_audits = [] }

abbrev copied : RefreshToken
copied = record { session = 4; secret = "old" }

abbrev access : AccessToken
access = record { sid = 4; issued_at = 100000 }

abbrev again : List Revoked.Event
again =
    Revoked.rotated 210000 (record copied { secret = "new" }) SessionChannel.cookie "third" none
    ∷ []
