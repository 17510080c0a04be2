-- ===== src/Outbox/Fired.antt =====
-- Price alerts over time (apps/worker/src/alerts.ts, apps/api/src/alerts/alerts.service.ts): each
-- fires once, with its notice, and a user has few active ones.
use mathlib.Core.Path.{subst}
use alkeva.Common.{
  ℕ, ◌+◌, ◌≤◌, ◌≡◌, refl, ◌∙◌, inl, inr, Bool, true, false, not, some, is_some, List, [], ◌∷◌,
  length, filter, ◌==◌, ◌&&◌, leb, leb→gt, leb→le, ==_iff, arith, Bool-cases, Option-cases,
}
use alkeva.Common.Table.{
  find_row, find_where, find_where-passes, claim_row, claim_row-eq-some, update_row, sum_by,
  sum_by-update_row,
}
use alkeva.Common.Keyed.{
  one_if, count_by, length-filter, has_key, IsKeyed, has_key-update_row, IsKeyed-update_row,
  find_where-find_row, find_where-none_count,
}
use alkeva.Assets.{MetalAsset}
use alkeva.Outbox.Rows.{Notification, PriceAlert, Recipient, Outbox, MessageEnv}
use alkeva.Outbox.Alerts.{
  CreateAlert, alert_id, is_active_of, is_owned, is_waiting, deactivated, make_room, create, remove,
  triggered, recipient, fire, fire_all, check_alerts, max_active_alerts,
}

abbrev pub is_fired : PriceAlert → Bool
is_fired a = is_some a.triggered_at

-- The alerts have different ids, no user has more than ten active ones, and besides `others` there
-- is one notice for each alert that has fired.
pub record IsOrderly (others : ℕ) (box : Outbox) : Type 0 where
  pub keyed : IsKeyed alert_id box.price_alerts
  pub few : (u : ℕ) → count_by (is_active_of u) box.price_alerts ≤ 10
  pub noticed : length box.notifications ≡ others + count_by is_fired box.price_alerts

-- What happens to the alerts. The primary key refuses an id that is taken.
pub data Step : Outbox → Outbox → Type 0 where
  created :
      (box : Outbox) (id user_id : ℕ) (dto : CreateAlert)
      → has_key alert_id id box.price_alerts ≡ false
      → Step box (record box { price_alerts = create id user_id dto box.price_alerts })
  removed :
      (box : Outbox) (user_id id : ℕ) (rows : List PriceAlert)
      → remove user_id id box.price_alerts ≡ some rows
      → Step box (record box { price_alerts = rows })
  ticked :
      (box : Outbox) (env : MessageEnv) (now : ℕ) (new_id : ℕ → ℕ) (asset : MetalAsset) (price : ℕ)
      → Step box (check_alerts env now new_id asset price box)

pub data Reach (box : Outbox) : Outbox → Type 0 where
  here : Reach box box
  next : {b c : Outbox} → Reach box b → Step b c → Reach box c

one_if-false : (b : Bool) → one_if (b && false) ≡ 0
one_if-false b = ground arith

pub not_fired : (a : PriceAlert) → not (is_some a.triggered_at) ≡ true → one_if (is_fired a) ≡ 0
not_fired a h = ground arith

-- Stopping an alert.
module _ (id : ℕ) (rows : List PriceAlert) (a : PriceAlert)
    (found : find_row alert_id id rows ≡ some a) where
  abbrev stopped : List PriceAlert
  stopped = update_row alert_id id deactivated rows

  stopped_fired : count_by is_fired stopped ≡ count_by is_fired rows
  stopped_fired =
      omega
        (arith, sum_by-update_row alert_id (λ r. one_if (is_fired r)) id deactivated rows a found)

  stopped_active :
      (u : ℕ)
      → count_by (is_active_of u) stopped + one_if (is_active_of u a)
        ≡ count_by (is_active_of u) rows
  stopped_active u = omega (
    arith,
    sum_by-update_row alert_id (λ r. one_if (is_active_of u r)) id deactivated rows a found,
    one_if-false (a.user_id == u),
  )

-- What making room leaves of the invariant, by whether there were ten active alerts.
abbrev HasRoom : ℕ → List PriceAlert → List PriceAlert → Type 0
HasRoom user_id rows rows' =
    IsKeyed alert_id rows'
    × ((k : ℕ) → has_key alert_id k rows' ≡ has_key alert_id k rows)
    × (count_by is_fired rows' ≡ count_by is_fired rows)
    × ((u : ℕ) → count_by (is_active_of u) rows' ≤ count_by (is_active_of u) rows)
    × (count_by (is_active_of user_id) rows' + 1 ≤ 10)

make_room-HasRoom :
    (user_id : ℕ) (rows : List PriceAlert)
    → IsKeyed alert_id rows
    → count_by (is_active_of user_id) rows ≤ 10
    → HasRoom user_id rows (make_room user_id rows)
unfolding make_room
make_room-HasRoom user_id rows keyed few =
    elim (Bool-cases (leb max_active_alerts (length (filter (is_active_of user_id) rows)))) [
      | inr less ↦
          rw less (keyed, λ k. refl, refl, λ u. omega arith, omega (arith, size, leb→gt _ _ less))
      | inl full ↦ elim (Option-cases (find_where (is_active_of user_id) rows)) [
        | inl nobody ↦
            absurd (omega (arith, size, leb→le _ _ full, find_where-none_count active rows nobody))
        | inr (oldest, first) ↦
            let found =
              find_where-find_row alert_id (is_active_of user_id) rows oldest keyed first in
            rw (full, first)
              (
                IsKeyed-update_row alert_id oldest.id deactivated rows (λ r. refl) keyed,
                λ k. has_key-update_row alert_id k oldest.id deactivated rows (λ r. refl),
                stopped_fired oldest.id rows oldest found,
                λ u. omega (arith, stopped_active oldest.id rows oldest found u),
                omega (
                  arith,
                  stopped_active oldest.id rows oldest found user_id,
                  counts oldest first,
                ),
              )
      ]
    ]
  where
    active : PriceAlert → Bool
    active = is_active_of user_id

    size : length (filter (is_active_of user_id) rows) ≡ count_by (is_active_of user_id) rows
    size = length-filter active rows

    counts :
        (a : PriceAlert)
        → find_where (is_active_of user_id) rows ≡ some a
        → one_if (is_active_of user_id a) ≡ 1
    counts a first = rw (find_where-passes alert_id active rows a first) refl

create-IsOrderly :
    (others : ℕ) (box : Outbox) (id user_id : ℕ) (dto : CreateAlert)
    → has_key alert_id id box.price_alerts ≡ false
    → IsOrderly others box
    → IsOrderly others (record box { price_alerts = create id user_id dto box.price_alerts })
unfolding create
create-IsOrderly others box id user_id dto new o =
    let rows = box.price_alerts in
    let (keyed, keys, same, less, room) = make_room-HasRoom user_id rows o.keyed (o.few user_id) in
    record {
      keyed = (keys id ∙ new, keyed);
      few = λ u. elim (Bool-cases (user_id == u)) [
        | inl own ↦ rw own (
            omega (
              arith,
              subst (λ v. count_by (is_active_of v) (make_room user_id rows) + 1 ≤ 10)
                  ((==_iff user_id u).0 own) room,
            ))
        | inr other ↦ rw other (omega (arith, less u, o.few u))
      ];
      noticed = omega (arith, o.noticed, same);
    }

stopped-IsOrderly :
    (others : ℕ) (box : Outbox) (id : ℕ) (a : PriceAlert) (rows : List PriceAlert)
    → find_row alert_id id box.price_alerts ≡ some a
    → rows ≡ update_row alert_id id deactivated box.price_alerts
    → IsOrderly others box
    → IsOrderly others (record box { price_alerts = rows })
stopped-IsOrderly others box id a rows found e o = rw e (record {
  keyed = IsKeyed-update_row alert_id id deactivated box.price_alerts (λ r. refl) o.keyed;
  few = λ u. omega (arith, stopped_active id box.price_alerts a found u, o.few u);
  noticed = omega (arith, o.noticed, stopped_fired id box.price_alerts a found);
})

remove-IsOrderly :
    (others : ℕ) (box : Outbox) (user_id id : ℕ) (rows : List PriceAlert)
    → remove user_id id box.price_alerts ≡ some rows
    → IsOrderly others box
    → IsOrderly others (record box { price_alerts = rows })
unfolding remove
remove-IsOrderly others box user_id id rows h o =
    elim (Option-cases (claim_row alert_id id (is_owned user_id) deactivated box.price_alerts)) [
      | inl refused ↦ cc (rw (refused, remove) at h)
      | inr ((gone, rows'), done) ↦
          let (a, found, _, _, updated) =
            claim_row-eq-some alert_id id (is_owned user_id) deactivated box.price_alerts done in
          stopped-IsOrderly others box id a rows found
            (given rows' (rw (done, remove) at h) ∙ updated) o
    ]
  where
    given : (rows' : List PriceAlert) → some rows' ≡ some rows → rows ≡ rows'
    given rows' e = cc

-- A claim of an alert that has not fired, with its notice.
claimed-IsOrderly :
    (others : ℕ) (box : Outbox) (now id : ℕ) (a : PriceAlert) (notice : Notification)
    (rows : List PriceAlert)
    → find_row alert_id id box.price_alerts ≡ some a
    → not (is_some a.triggered_at) ≡ true
    → rows ≡ update_row alert_id id (triggered now) box.price_alerts
    → IsOrderly others box
    → IsOrderly others
        (record box { price_alerts = rows; notifications = notice ∷ box.notifications })
claimed-IsOrderly others box now id a notice rows found unfired e o = rw e (record {
  keyed = IsKeyed-update_row alert_id id (triggered now) box.price_alerts (λ r. refl) o.keyed;
  few = λ u. omega (arith, moved (λ r. one_if (is_active_of u r)), o.few u);
  noticed = omega (arith, moved (λ r. one_if (is_fired r)), not_fired a unfired, o.noticed);
})
  where
    moved :
        (w : PriceAlert → ℕ)
        → sum_by w (update_row alert_id id (triggered now) box.price_alerts) + w a
          ≡ sum_by w box.price_alerts + w (triggered now a)
    moved w = sum_by-update_row alert_id w id (triggered now) box.price_alerts a found

fire-IsOrderly :
    (others : ℕ) (env : MessageEnv) (now : ℕ) (new_id : ℕ → ℕ) (alert : PriceAlert)
    (user : Recipient) (box : Outbox)
    → IsOrderly others box
    → IsOrderly others (fire env now new_id alert user box)
unfolding fire
fire-IsOrderly others env now new_id alert user box o =
    elim (Option-cases (claim_row alert_id alert.id is_waiting (triggered now) box.price_alerts)) [
      | inl taken ↦ rw (taken, fire) o
      | inr ((fired, rows), done) ↦
          let (a, found, unfired, _, updated) =
            claim_row-eq-some alert_id alert.id is_waiting (triggered now) box.price_alerts done in
          rw (done, fire)
            (claimed-IsOrderly others box now alert.id a _ rows found unfired updated o)
    ]

fire_all-IsOrderly :
    (others : ℕ) (env : MessageEnv) (now : ℕ) (new_id : ℕ → ℕ) (alerts : List PriceAlert)
    (box : Outbox)
    → IsOrderly others box
    → IsOrderly others (fire_all env now new_id alerts box)
unfolding fire_all
fire_all-IsOrderly others env now new_id [] box o = o
fire_all-IsOrderly others env now new_id (alert ∷ rest) box o =
    elim (Option-cases (recipient alert.user_id box.recipients)) [
      | inl nobody ↦ rw nobody (fire_all-IsOrderly others env now new_id rest box o)
      | inr (user, there) ↦ rw there (
          fire_all-IsOrderly others env now new_id rest (fire env now new_id alert user box)
            (fire-IsOrderly others env now new_id alert user box o))
    ]

Step-IsOrderly : (others : ℕ) {b c : Outbox} → Step b c → IsOrderly others b → IsOrderly others c
unfolding check_alerts
Step-IsOrderly others (created box id user_id dto new) o =
    create-IsOrderly others box id user_id dto new o
Step-IsOrderly others (removed box user_id id rows h) o =
    remove-IsOrderly others box user_id id rows h o
Step-IsOrderly others (ticked box env now new_id asset price) o =
    fire_all-IsOrderly others env now new_id _ box o

-- From alerts on whose ids differ, of which no user has more than ten active ones, and of which each
-- that has fired has one notice: however alerts are made, stopped and checked against prices, one
-- call of these after the other, that stays so, so that none fires twice and none without its notice.
pub Reach-IsOrderly :
    (others : ℕ) {b c : Outbox} → IsOrderly others b → Reach b c → IsOrderly others c
Reach-IsOrderly others o here = o
Reach-IsOrderly others o (next r st) = Step-IsOrderly others st (Reach-IsOrderly others o r)
