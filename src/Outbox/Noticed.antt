-- ===== src/Outbox/Noticed.antt =====
-- Alerts and their notices where the calls of apps/worker/src/alerts.ts and
-- apps/api/src/alerts/alerts.service.ts run into one another: a turn is one of their statements, and
-- what it goes by may have been read at any time before.
use alkeva.Common.{ℕ, ◌+◌, ◌≡◌, refl, inl, inr, false, List, [], ◌∷◌, length, arith, Option-cases}
use alkeva.Common.Table.{claim_row, claim_row-eq-some, update_row, sum_by-update_row}
use alkeva.Common.Keyed.{one_if, count_by, has_key, IsKeyed, IsKeyed-update_row}
use alkeva.Outbox.Rows.{PriceAlert, Recipient, Outbox, MessageEnv}
use alkeva.Outbox.Alerts.{
  CreateAlert, alert_id, new_alert, deactivated, is_waiting, triggered, fire,
}
use alkeva.Outbox.Fired.{is_fired, not_fired}

-- The insert of `create`, the stop of an alert by `create` or `remove`, and one alert of a pass of
-- `checkAlerts`, with the recipient. The primary key refuses an id that is taken.
pub data Turn : Outbox → Outbox → Type 0 where
  inserted :
      (box : Outbox) (id user_id : ℕ) (dto : CreateAlert)
      → has_key alert_id id box.price_alerts ≡ false
      → Turn box (record box { price_alerts = new_alert id user_id dto ∷ box.price_alerts })
  stopped :
      (box : Outbox) (id : ℕ)
      → Turn box (record box { price_alerts = update_row alert_id id deactivated box.price_alerts })
  fired :
      (box : Outbox) (env : MessageEnv) (now : ℕ) (new_id : ℕ → ℕ) (alert : PriceAlert)
      (user : Recipient)
      → Turn box (fire env now new_id alert user box)

pub data Turns (box : Outbox) : Outbox → Type 0 where
  here : Turns box box
  next : {b c : Outbox} → Turns box b → Turn b c → Turns box c

-- The alerts have different ids, and besides `others` there is one notice for each that has fired.
pub record IsNoticed (others : ℕ) (box : Outbox) : Type 0 where
  pub keyed : IsKeyed alert_id box.price_alerts
  pub noticed : length box.notifications ≡ others + count_by is_fired box.price_alerts

stopped_fired :
    (id : ℕ) (rows : List PriceAlert)
    → count_by is_fired (update_row alert_id id deactivated rows) ≡ count_by is_fired rows
unfolding update_row
stopped_fired id [] = refl
stopped_fired id (a ∷ rows) = ground (arith, stopped_fired id rows)

fire-IsNoticed :
    (others : ℕ) (env : MessageEnv) (now : ℕ) (new_id : ℕ → ℕ) (alert : PriceAlert)
    (user : Recipient) (box : Outbox)
    → IsNoticed others box
    → IsNoticed others (fire env now new_id alert user box)
unfolding fire
fire-IsNoticed others env now new_id alert user box o =
    elim (Option-cases (claim_row alert_id alert.id is_waiting (triggered now) box.price_alerts)) [
      | inl taken ↦ rw (taken, fire) o
      | inr ((claimed, rows), done) ↦
          let (a, found, unfired, _, updated) =
            claim_row-eq-some alert_id alert.id is_waiting (triggered now) box.price_alerts done in
          let moved =
            sum_by-update_row alert_id (λ r. one_if (is_fired r)) alert.id (triggered now)
              box.price_alerts a found in
          rw (done, fire)
            (rw updated (record {
              keyed =
                  IsKeyed-update_row alert_id alert.id (triggered now) box.price_alerts (λ r. refl)
                    o.keyed;
              noticed = omega (arith, moved, not_fired a unfired, o.noticed);
            }))
    ]

Turn-IsNoticed : (others : ℕ) {b c : Outbox} → Turn b c → IsNoticed others b → IsNoticed others c
Turn-IsNoticed others (inserted box id user_id dto new) o = record {
  keyed = (new, o.keyed);
  noticed = omega (arith, o.noticed);
}
Turn-IsNoticed others (stopped box id) o = record {
  keyed = IsKeyed-update_row alert_id id deactivated box.price_alerts (λ r. refl) o.keyed;
  noticed = omega (arith, o.noticed, stopped_fired id box.price_alerts);
}
Turn-IsNoticed others (fired box env now new_id alert user) o =
    fire-IsNoticed others env now new_id alert user box o

-- From alerts whose ids differ and of which, besides `others`, each that has fired has one notice:
-- however the statements that insert, stop and fire alerts follow one another, whatever alert they go
-- by was read before, that stays so.
pub Turns-IsNoticed :
    (others : ℕ) {b c : Outbox} → IsNoticed others b → Turns b c → IsNoticed others c
Turns-IsNoticed others o here = o
Turns-IsNoticed others o (next r t) = Turn-IsNoticed others t (Turns-IsNoticed others o r)
