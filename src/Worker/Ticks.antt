-- ===== src/Worker/Ticks.antt =====
-- The prices and the circuit breaker of apps/worker/src/main.ts.
use alkeva.Common.{
  ℕ, ◌+◌, ◌*◌, ◌/◌, ◌≤◌, ◌<◌, String, ◌≡◌, refl, ◌∙◌, sym, ap, ◌⊎◌, inl, inr, Bool, true, false,
  not, ◌&&◌, Option, none, some, List, ◌∷◌, leb, ltb, any, if◌then◌else◌, arith, Bool-cases, leb→le,
}
use text.Mathlib.Text.{◌==◌ as str_eq}
use alkeva.Common.Table.{find_where}
use alkeva.Assets.{MetalAsset, metal_eq, xau, xpt}
use alkeva.Schema.{PriceTick}
use alkeva.Worker.{
  WorkerEnv, Feeds, FeedResult, WorkerState, compute_etb_cents_per_gram, moved_bps, agree_bps,
  notify_staff, fetch_metal, fetch_secondary, confirms, is_suspect, tick_row, record_tick,
  tick_answer, tick_metal, suspect_kind,
}

floor_bounds :
    (x : ℕ)
    → (x / 31103000000000000 * 31103000000000000 ≤ x)
      × (x < (x / 31103000000000000 + 1) * 31103000000000000)
floor_bounds x = (omega arith, omega arith)

-- The price in cents per gram, times the milligrams of a troy ounce and the two scales of a million,
-- is at most the product of the two readings in cents per kilogram, and less than a cent below it.
pub compute_etb_cents_per_gram-bounds :
    (usd fx : ℕ)
    → let price = compute_etb_cents_per_gram usd fx in
      (price * (1000000 * 1000000 * 31103) ≤ usd * fx * 100000)
      × (usd * fx * 100000 < (price + 1) * (1000000 * 1000000 * 31103))
unfolding compute_etb_cents_per_gram
compute_etb_cents_per_gram-bounds usd fx = floor_bounds (usd * fx * 100000)

-- The newest tick of a metal that is not suspect.
abbrev pub newest_trusted : MetalAsset → List PriceTick → Option PriceTick
newest_trusted asset ticks = find_where (λ t. metal_eq t.asset asset && not t.suspect) ticks

-- The worker measures a move from the newest tick that is not suspect.
abbrev pub IsAnchored : WorkerState → Type 0
IsAnchored w =
    (asset : MetalAsset) (t : PriceTick)
    → newest_trusted asset w.db.price_ticks ≡ some t
    → w.last_good asset ≡ some t.usd_per_oz_micro

notify_staff-ticks :
    (now : ℕ) (kind : String) (w : WorkerState)
    → (notify_staff now kind w).db.price_ticks ≡ w.db.price_ticks
unfolding notify_staff
notify_staff-ticks now kind w =
    elim (Bool-cases (any (λ (a : String × ℕ). str_eq a.0 kind && ltb now a.1) w.staff_alerts)) [
      | inl silent ↦ rw silent refl
      | inr first ↦ rw first refl
    ]

notify_staff-anchors :
    (now : ℕ) (kind : String) (w : WorkerState) → (notify_staff now kind w).last_good ≡ w.last_good
unfolding notify_staff
notify_staff-anchors now kind w =
    elim (Bool-cases (any (λ (a : String × ℕ). str_eq a.0 kind && ltb now a.1) w.staff_alerts)) [
      | inl silent ↦ rw silent refl
      | inr first ↦ rw first refl
    ]

module _ (env : WorkerEnv) (now id : ℕ) (feeds again : Feeds) (fx : ℕ) (asset : MetalAsset)
    (w : WorkerState) where
  record_tick-IsAnchored :
      (feed : FeedResult) (suspect : Bool)
      → IsAnchored w
      → IsAnchored (record_tick now id asset feed fx suspect w)
  unfolding record_tick
  record_tick-IsAnchored feed true anchored other t h =
      ap (λ (f : MetalAsset → Option ℕ). f other)
        (notify_staff-anchors now (suspect_kind asset) stored)
      ∙ anchored other t (
          passed (metal_eq asset other) (
            ap (newest_trusted other) (sym (notify_staff-ticks now (suspect_kind asset) stored))
            ∙ h))
    where
      stored : WorkerState
      stored = record w {
        db = record w.db { price_ticks = tick_row now id asset feed fx true ∷ w.db.price_ticks };
      }

      passed :
          (same : Bool)
          → (if same && false
              then some (tick_row now id asset feed fx true)
              else newest_trusted other w.db.price_ticks)
            ≡ some t
          → newest_trusted other w.db.price_ticks ≡ some t
      passed true e = e
      passed false e = e
  record_tick-IsAnchored feed false anchored other t h = elim (Bool-cases (metal_eq asset other)) [
    | inl same ↦ rw same (price (rw same at h))
    | inr differs ↦ rw differs (anchored other t (rw differs at h))
  ]
    where
      price :
          some (tick_row now id asset feed fx false) ≡ some t
          → some feed.usd_per_oz_micro ≡ some t.usd_per_oz_micro
      price e = ap (elim_price) e
        where
          elim_price : Option PriceTick → Option ℕ
          elim_price none = none
          elim_price (some u) = some u.usd_per_oz_micro

  -- A tick of a metal leaves the worker anchored at the newest tick that is not suspect.
  pub tick_metal-IsAnchored :
      IsAnchored w → IsAnchored (tick_metal env now id feeds again fx asset w)
  unfolding tick_metal
  tick_metal-IsAnchored anchored = go (fetch_metal feeds asset)
    where
      go :
          (answer : Option FeedResult) → IsAnchored (tick_answer env now id again fx asset answer w)
      go none = anchored
      go (some feed) = record_tick-IsAnchored feed (is_suspect env again asset feed w) anchored

  -- A reading that is not suspect is close to the newest tick that is not suspect, or the other feed
  -- confirms it.
  abbrev pub IsTrusted : FeedResult → PriceTick → Type 0
  IsTrusted feed t =
      (moved_bps t.usd_per_oz_micro feed.usd_per_oz_micro ≤ env.price_max_tick_move_bps)
      ⊎ ((second : FeedResult) × (fetch_secondary again asset feed.source ≡ some second)
          × (moved_bps feed.usd_per_oz_micro second.usd_per_oz_micro ≤ agree_bps))

  fine-IsTrusted :
      (feed : FeedResult) (t : PriceTick)
      → IsAnchored w
      → newest_trusted asset w.db.price_ticks ≡ some t
      → is_suspect env again asset feed w ≡ false
      → IsTrusted feed t
  unfolding is_suspect
  fine-IsTrusted feed t anchored newest fine =
      judged (leb (moved_bps t.usd_per_oz_micro feed.usd_per_oz_micro) env.price_max_tick_move_bps)
        refl (rw (anchored asset t newest) at fine)
    where
      confirmed :
          (second : Option FeedResult)
          → fetch_secondary again asset feed.source ≡ second
          → not (confirms feed second) ≡ false
          → IsTrusted feed t
      confirmed none e h = cc
      confirmed (some second) e h = inr (second, e, leb→le _ _ (agreed _ h))
        where
          agreed : (b : Bool) → not b ≡ false → b ≡ true
          agreed b h = ground arith

      judged :
          (near : Bool)
          → leb (moved_bps t.usd_per_oz_micro feed.usd_per_oz_micro) env.price_max_tick_move_bps
            ≡ near
          → (if near then false else not (confirms feed (fetch_secondary again asset feed.source)))
            ≡ false
          → IsTrusted feed t
      judged true e h = inl (leb→le _ _ e)
      judged false e h = confirmed (fetch_secondary again asset feed.source) refl h

  same_metal : metal_eq asset asset ≡ true
  same_metal = go asset
    where
      go : (m : MetalAsset) → metal_eq m m ≡ true
      go xau = refl
      go xpt = refl

  after_record :
      (feed : FeedResult) (t t' : PriceTick) (suspect : Bool)
      → newest_trusted asset w.db.price_ticks ≡ some t
      → (suspect ≡ false → IsTrusted feed t)
      → newest_trusted asset (record_tick now id asset feed fx suspect w).db.price_ticks ≡ some t'
      → (t' ≡ t) ⊎ ((t' ≡ tick_row now id asset feed fx false) × IsTrusted feed t)
  unfolding record_tick
  after_record feed t t' true newest fine h = inl (
      same
        (sym newest ∙ (rw (notify_staff-ticks now (suspect_kind asset) stored, same_metal) at h)))
    where
      stored : WorkerState
      stored = record w {
        db = record w.db { price_ticks = tick_row now id asset feed fx true ∷ w.db.price_ticks };
      }

      same : {a b : PriceTick} → some a ≡ some b → b ≡ a
      same e = cc
  after_record feed t t' false newest fine h = inr (same (rw same_metal at h), fine refl)
    where
      same : {a b : PriceTick} → some a ≡ some b → b ≡ a
      same e = cc

  -- If the worker is anchored, then the newest tick that is not suspect is the same after a tick of
  -- the metal, or it is the row of the reading that the feeds gave, at the price that the reading and
  -- the rate make, and that reading is close to the tick before it or confirmed by the other feed.
  pub tick_metal-guarded :
      (t t' : PriceTick)
      → IsAnchored w
      → newest_trusted asset w.db.price_ticks ≡ some t
      → newest_trusted asset (tick_metal env now id feeds again fx asset w).db.price_ticks ≡ some t'
      → (t' ≡ t)
        ⊎ ((feed : FeedResult) × (fetch_metal feeds asset ≡ some feed)
            × (t' ≡ tick_row now id asset feed fx false)
            × IsTrusted feed t)
  unfolding tick_metal
  tick_metal-guarded t t' anchored newest = go (fetch_metal feeds asset) refl
    where
      go :
          (answer : Option FeedResult)
          → fetch_metal feeds asset ≡ answer
          → newest_trusted asset (tick_answer env now id again fx asset answer w).db.price_ticks
            ≡ some t'
          → (t' ≡ t)
            ⊎ ((feed : FeedResult) × (fetch_metal feeds asset ≡ some feed)
                × (t' ≡ tick_row now id asset feed fx false)
                × IsTrusted feed t)
      go none e h = inl (same (sym newest ∙ h))
        where
          same : {a b : PriceTick} → some a ≡ some b → b ≡ a
          same e = cc
      go (some feed) e h =
          elim (after_record feed t t' (is_suspect env again asset feed w) newest
            (fine-IsTrusted feed t anchored newest) h) [
              | inl kept ↦ inl kept
              | inr (new, trusted) ↦ inr (feed, e, new, trusted)
            ]
