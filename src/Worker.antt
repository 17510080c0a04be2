-- ===== src/Worker.antt =====
-- apps/worker/src/main.ts: the price worker, which turns the readings of the feeds into price ticks.
-- What a feed answers is an argument, `none` where the call throws; the Redis keys are the fields of
-- a state, with the instants at which they expire.
pub mod Rate
pub mod Ticks
use alkeva.Common.{
  ℕ, ◌+◌, ◌-◌, ◌*◌, ◌/◌, String, Bool, true, false, not, ◌&&◌, ◌||◌, Option, none, some, List, [],
  ◌∷◌, ◌++◌, map, ltb, leb, ◌==◌, filter, any, if◌then◌else◌,
}
use text.Mathlib.Text.{◌==◌ as str_eq}
use alkeva.Assets.{MetalAsset, metal_eq, xau, xpt, micro, troy_oz_mg}
use alkeva.Schema.{Db, PriceTick, User, Role, UserStatus, Notice, is_frozen_status}
use alkeva.Quotes.{latest_tick}

pub record WorkerEnv : Type 0 where
  pub fx_max_move_bps : ℕ
  pub fx_cache_seconds : ℕ
  pub price_max_tick_move_bps : ℕ

abbrev pub fx_confirmations : ℕ
fx_confirmations = 6

abbrev pub fx_retry_seconds : ℕ
fx_retry_seconds = 600

abbrev pub agree_bps : ℕ
agree_bps = 50

-- `computeEtbCentsPerGram`
unfoldable pub compute_etb_cents_per_gram : ℕ → ℕ → ℕ
compute_etb_cents_per_gram usd_per_oz_micro fx_micro =
    usd_per_oz_micro * fx_micro * 100000 / (micro * micro * troy_oz_mg)

-- `movedBps`
unfoldable pub moved_bps : ℕ → ℕ → ℕ
moved_bps from to =
    if from == 0 then 0 else ((if ltb from to then to - from else from - to) * 10000) / from

-- FX_CACHE_KEY with its expiry, FX_GOOD_KEY, and FX_PENDING_KEY (`micro` and `count`).
pub record FxState : Type 0 where
  pub cache : Option (ℕ × ℕ)
  pub good : Option ℕ
  pub pending : Option (ℕ × ℕ)

-- The rate, where the call does not throw; the state; and the kind of the notice to the staff.
pub record FxOutcome : Type 0 where
  pub rate : Option ℕ
  pub state : FxState
  pub notice : Option String

-- A key that has not expired.
abbrev pub unexpired : ℕ → Option (ℕ × ℕ) → Option ℕ
unexpired now none = none
unexpired now (some (value, expires_at)) = if ltb now expires_at then some value else none

unfoldable pub live_cache : ℕ → FxState → Option ℕ
live_cache now s = unexpired now s.cache

abbrev pub accept : WorkerEnv → ℕ → ℕ → Option String → FxOutcome
accept env now fresh notice = record {
  rate = some fresh;
  state = record {
    cache = some (fresh, now + env.fx_cache_seconds * 1000);
    good = some fresh;
    pending = none;
  };
  notice = notice;
}

abbrev pub hold_back : ℕ → ℕ → ℕ → ℕ → FxOutcome
hold_back now good fresh count = record {
  rate = some good;
  state = record {
    cache = some (good, now + fx_retry_seconds * 1000);
    good = some good;
    pending = some (fresh, count);
  };
  notice = some "fx_jump_held";
}

abbrev pub next_count : Option (ℕ × ℕ) → ℕ → ℕ
next_count none fresh = 1
next_count (some (micro_, count)) fresh =
    if leb (moved_bps micro_ fresh) agree_bps then count + 1 else 1

abbrev pub judge_jump : WorkerEnv → ℕ → ℕ → ℕ → ℕ → FxOutcome
judge_jump env now good fresh count =
    if leb fx_confirmations count
    then accept env now fresh (some "fx_level_accepted")
    else hold_back now good fresh count

abbrev pub judge_fresh : WorkerEnv → ℕ → Option ℕ → Option (ℕ × ℕ) → ℕ → FxOutcome
judge_fresh env now none pending fresh = accept env now fresh none
judge_fresh env now (some good) pending fresh =
    if leb (moved_bps good fresh) env.fx_max_move_bps
    then accept env now fresh none
    else judge_jump env now good fresh (next_count pending fresh)

-- From the cached rate on: the feed is asked only without one.
abbrev pub fetch_rate : WorkerEnv → ℕ → FxState → Option ℕ → Option ℕ → FxOutcome
fetch_rate env now s (some cached) feed = record { rate = some cached; state = s; notice = none }
fetch_rate env now s none none = record { rate = none; state = s; notice = none }
fetch_rate env now s none (some fresh) = judge_fresh env now s.good s.pending fresh

-- `getFxMicro`
unfoldable pub get_fx_micro : WorkerEnv → ℕ → Option ℕ → FxState → FxOutcome
get_fx_micro env now feed s = fetch_rate env now s (live_cache now s) feed

-- `FeedResult`
pub record FeedResult : Type 0 where
  pub usd_per_oz_micro : ℕ
  pub source : String

-- The answers of the two feeds to one call each.
pub record Feeds : Type 0 where
  pub primary : MetalAsset → Option FeedResult
  pub fallback : MetalAsset → Option FeedResult

abbrev pub or_else : {A : Type 0} → Option A → Option A → Option A
or_else none b = b
or_else (some a) b = some a

-- `fetchMetal`
abbrev pub fetch_metal : Feeds → MetalAsset → Option FeedResult
fetch_metal feeds asset = or_else (feeds.fallback asset) (feeds.primary asset)

-- `fetchSecondary`
abbrev pub fetch_secondary : Feeds → MetalAsset → String → Option FeedResult
fetch_secondary feeds asset primary_source =
    if str_eq primary_source "swissquote" then feeds.primary asset else feeds.fallback asset

-- The worker's memory and the database it writes to. A staff alert is silent for an hour per kind.
pub record WorkerState : Type 0 where
  pub db : Db
  pub fx : FxState
  pub last_good : MetalAsset → Option ℕ
  pub staff_alerts : List (String × ℕ)

abbrev is_alerted_role : Role → Bool
is_alerted_role Role.administrator = true
is_alerted_role Role.finance = true
is_alerted_role _ = false

-- Active administrators and finance users.
abbrev is_alerted : User → Bool
is_alerted u = is_alerted_role u.role && not (is_frozen_status u.status)

-- `notifyStaff`
unfoldable pub notify_staff : ℕ → String → WorkerState → WorkerState
notify_staff now kind w =
    let silent = any (λ (a : String × ℕ). str_eq a.0 kind && ltb now a.1) w.staff_alerts in
    let notices =
      map (λ (u : User). record { user_id = some u.id; template = "staff_alert" })
        (filter is_alerted w.db.users) in
    if silent then w else record w {
      staff_alerts = (kind, now + 3600 * 1000) ∷ w.staff_alerts;
      db = record w.db { notices = notices ++ w.db.notices };
    }

-- A move that the other feed has to confirm, and does.
abbrev pub confirms : FeedResult → Option FeedResult → Bool
confirms feed none = false
confirms feed (some second) =
    leb (moved_bps feed.usd_per_oz_micro second.usd_per_oz_micro) agree_bps

-- `isSuspect`, with the answers that the feeds give when they are asked again.
abbrev pub suspect_move : WorkerEnv → FeedResult → Option FeedResult → Option ℕ → Bool
suspect_move env feed second none = false
suspect_move env feed second (some anchor) =
    if leb (moved_bps anchor feed.usd_per_oz_micro) env.price_max_tick_move_bps
    then false
    else not (confirms feed second)

unfoldable pub is_suspect : WorkerEnv → Feeds → MetalAsset → FeedResult → WorkerState → Bool
is_suspect env again asset feed w =
    suspect_move env feed (fetch_secondary again asset feed.source) (w.last_good asset)

abbrev pub tick_row : ℕ → ℕ → MetalAsset → FeedResult → ℕ → Bool → PriceTick
tick_row now id asset feed fx_micro suspect = record {
  id = id;
  asset = asset;
  usd_per_oz_micro = feed.usd_per_oz_micro;
  etb_rate_micro = fx_micro;
  etb_cents_per_gram = compute_etb_cents_per_gram feed.usd_per_oz_micro fx_micro;
  suspect = suspect;
  at = now;
}

abbrev pub set_anchor : MetalAsset → ℕ → (MetalAsset → Option ℕ) → MetalAsset → Option ℕ
set_anchor asset value anchors other = if metal_eq asset other then some value else anchors other

abbrev pub suspect_kind : MetalAsset → String
suspect_kind xau = "price_suspect_XAU"
suspect_kind xpt = "price_suspect_XPT"

unfoldable pub record_tick : ℕ → ℕ → MetalAsset → FeedResult → ℕ → Bool → WorkerState → WorkerState
record_tick now id asset feed fx_micro suspect w =
    let stored = record w {
      db = record w.db {
        price_ticks = tick_row now id asset feed fx_micro suspect ∷ w.db.price_ticks;
      };
    } in
    if suspect
    then notify_staff now (suspect_kind asset) stored
    else record stored { last_good = set_anchor asset feed.usd_per_oz_micro stored.last_good }

abbrev pub tick_answer :
    WorkerEnv → ℕ → ℕ → Feeds → ℕ → MetalAsset → Option FeedResult → WorkerState → WorkerState
tick_answer env now id again fx_micro asset none w = w
tick_answer env now id again fx_micro asset (some feed) w =
    record_tick now id asset feed fx_micro (is_suspect env again asset feed w) w

-- One metal of `tick`; the price alerts that a tick sets off are not here.
unfoldable pub tick_metal :
    WorkerEnv → ℕ → ℕ → Feeds → Feeds → ℕ → MetalAsset → WorkerState → WorkerState
tick_metal env now id feeds again fx_micro asset w =
    tick_answer env now id again fx_micro asset (fetch_metal feeds asset) w

abbrev pub notify_of : ℕ → Option String → WorkerState → WorkerState
notify_of now none w = w
notify_of now (some kind) w = notify_staff now kind w

-- Both metals, if there is a rate.
abbrev pub tick_metals : WorkerEnv → ℕ → ℕ → Feeds → Feeds → Option ℕ → WorkerState → WorkerState
tick_metals env now id feeds again none w = w
tick_metals env now id feeds again (some fx_micro) w =
    tick_metal env now (id + 1) feeds again fx_micro xpt
      (tick_metal env now id feeds again fx_micro xau w)

-- `tick`: the rate, then both metals; a rate that cannot be had ends it.
unfoldable pub tick : WorkerEnv → ℕ → ℕ → Option ℕ → Feeds → Feeds → WorkerState → WorkerState
unfolding get_fx_micro notify_staff live_cache
tick env now id fx_feed feeds again w =
    let outcome = get_fx_micro env now fx_feed w.fx in
    let ready = notify_of now outcome.notice (record w { fx = outcome.state }) in
    tick_metals env now id feeds again outcome.rate ready

-- `seedLastGood`
abbrev pub trusted : List PriceTick → List PriceTick
trusted ticks = filter (λ t. not t.suspect) ticks

unfoldable pub seed_last_good : WorkerState → WorkerState
unfolding latest_tick
seed_last_good w = record w {
  last_good = λ asset. elim (latest_tick asset (trusted w.db.price_ticks)) [
    | none ↦ w.last_good asset
    | some t ↦ some t.usd_per_oz_micro
  ];
}
