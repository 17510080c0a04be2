-- ===== src/Worker/Rate.antt =====
-- The guard of the exchange rate in apps/worker/src/main.ts (`getFxMicro`), over every sequence of
-- readings of the feed.
use alkeva.Common.{
  ℕ, String, ◌+◌, ◌-◌, ◌*◌, ◌/◌, ◌≤◌, ◌<◌, ◌≡◌, refl, ap, sym, ◌∙◌, inl, inr, Bool, true, false,
  Option, none, some, List, [], ◌∷◌, leb, ltb, if◌then◌else◌, arith, Bool-cases, leb→le, leb→gt,
}
use mathlib.Core.Path.{subst}
use alkeva.Worker.{
  WorkerEnv, FxState, FxOutcome, live_cache, unexpired, fetch_rate, accept, hold_back, next_count,
  judge_jump, judge_fresh, get_fx_micro, moved_bps, agree_bps, fx_confirmations,
}

module _ (env : WorkerEnv) where
  -- The last readings, the latest first: so many of them in a row are too far from the accepted rate,
  -- and each is close to the one before it.
  pub data Repeated (good : ℕ) : ℕ → List ℕ → Type 0 where
    once :
        {m : ℕ} {older : List ℕ}
        → env.fx_max_move_bps < moved_bps good m
        → Repeated good 1 (m ∷ older)
    again :
        {n m p : ℕ} {older : List ℕ}
        → Repeated good n (p ∷ older)
        → env.fx_max_move_bps < moved_bps good m
        → moved_bps p m ≤ agree_bps
        → Repeated good (n + 1) (m ∷ p ∷ older)

  -- The readings so far, with one more if the feed is asked and answers.
  abbrev pub heard : Option ℕ → Option ℕ → List ℕ → List ℕ
  heard none (some fresh) hist = fresh ∷ hist
  heard _ _ hist = hist

  abbrev pub readings : ℕ → Option ℕ → FxState → List ℕ → List ℕ
  readings now feed s hist = heard (live_cache now s) feed hist

  -- The states that the guard gets into, with the readings it has seen.
  pub data Reached : List ℕ → FxState → Type 0 where
    start : (good : Option ℕ) → Reached [] (record { cache = none; good = good; pending = none })
    call :
        {hist : List ℕ} {s : FxState} (now : ℕ) (feed : Option ℕ)
        → Reached hist s
        → Reached (readings now feed s hist) (get_fx_micro env now feed s).state

  record IsPlausible (hist : List ℕ) (s : FxState) : Type 0 where
    pub cached : (v e : ℕ) → s.cache ≡ some (v, e) → s.good ≡ some v
    pub waiting :
        (g m c : ℕ)
        → s.good ≡ some g
        → s.pending ≡ some (m, c)
        → (c < fx_confirmations) × (older : List ℕ) × (hist ≡ m ∷ older) × Repeated g c (m ∷ older)

  -- The count that a reading too far off gets is the number of such readings in a row.
  next-Repeated :
      (good fresh : ℕ) (pending : Option (ℕ × ℕ)) (hist : List ℕ)
      → env.fx_max_move_bps < moved_bps good fresh
      → ((m c : ℕ)
          → pending ≡ some (m, c)
          → (older : List ℕ) × (hist ≡ m ∷ older) × Repeated good c (m ∷ older))
      → Repeated good (next_count pending fresh) (fresh ∷ hist)
  next-Repeated good fresh none hist far w = once far
  next-Repeated good fresh (some (m, c)) hist far w =
      elim (Bool-cases (leb (moved_bps m fresh) agree_bps)) [
        | inl close ↦
            let (older, e, run) = w m c refl in
            rw (close, e) (again run far (leb→le (moved_bps m fresh) agree_bps close))
        | inr other ↦ rw other (once far)
      ]

  -- What a fresh reading may do.
  abbrev Judged : ℕ → List ℕ → FxOutcome → Type 0
  Judged fresh hist o =
      IsPlausible (fresh ∷ hist) o.state × ((r : ℕ) → o.rate ≡ some r → o.state.good ≡ some r)

  accept-Judged :
      (now fresh : ℕ) (hist : List ℕ) (notice : Option String)
      → Judged fresh hist (accept env now fresh notice)
  accept-Judged now fresh hist notice =
      (record { cached = λ v e h. value h; waiting = λ g m c h k. cc }, λ r h. h)
    where
      value :
          {v e e' : ℕ}
          → Path (Option (ℕ × ℕ)) (some (fresh, e')) (some (v, e))
          → some fresh ≡ some v
      value h = cc

  jump-Judged :
      (now good fresh count : ℕ) (hist : List ℕ)
      → Repeated good count (fresh ∷ hist)
      → Judged fresh hist (judge_jump env now good fresh count)
  jump-Judged now good fresh count hist run = elim (Bool-cases (leb fx_confirmations count)) [
    | inl enough ↦ rw enough (accept-Judged now fresh hist (some "fx_level_accepted"))
    | inr few ↦ rw few (
      record {
        cached = λ v e h. value h;
        waiting = λ g m c h k. kept (leb→gt fx_confirmations count few) h k;
      },
      λ r h. h,
    )
  ]
    where
      value :
          {v e e' : ℕ} → Path (Option (ℕ × ℕ)) (some (good, e')) (some (v, e)) → some good ≡ some v
      value h = cc

      good_is : {g : ℕ} → some good ≡ some g → good ≡ g
      good_is h = cc

      fresh_is : {m c : ℕ} → Path (Option (ℕ × ℕ)) (some (fresh, count)) (some (m, c)) → fresh ≡ m
      fresh_is h = cc

      count_is : {m c : ℕ} → Path (Option (ℕ × ℕ)) (some (fresh, count)) (some (m, c)) → count ≡ c
      count_is h = cc

      kept :
          {g m c : ℕ}
          → count < fx_confirmations
          → some good ≡ some g
          → Path (Option (ℕ × ℕ)) (some (fresh, count)) (some (m, c))
          → (c < fx_confirmations)
            × (older : List ℕ) × (fresh ∷ hist ≡ m ∷ older)
            × Repeated g c (m ∷ older)
      kept few h k = rw (← good_is h, ← fresh_is k, ← count_is k) (few, hist, refl, run)

  fresh-Judged :
      (now fresh : ℕ) (hist : List ℕ) (s : FxState)
      → IsPlausible hist s
      → Judged fresh hist (judge_fresh env now s.good s.pending fresh)
  fresh-Judged now fresh hist s p = go s.good refl
    where
      go :
          (good : Option ℕ)
          → s.good ≡ good
          → Judged fresh hist (judge_fresh env now good s.pending fresh)
      go none e = accept-Judged now fresh hist none
      go (some good) e = elim (Bool-cases (leb (moved_bps good fresh) env.fx_max_move_bps)) [
        | inl near ↦ rw near (accept-Judged now fresh hist none)
        | inr far ↦ rw far (
            jump-Judged now good fresh (next_count s.pending fresh) hist (
              next-Repeated good fresh s.pending hist (leb→gt _ _ far) (λ m c k.
                let (few, older, same, run) = p.waiting good m c e k in (older, same, run))))
      ]

  -- A call keeps the state plausible, and what it returns is the accepted rate.
  call-IsPlausible :
      (now : ℕ) (feed : Option ℕ) (hist : List ℕ) (s : FxState)
      → IsPlausible hist s
      → let o = get_fx_micro env now feed s in
        IsPlausible (readings now feed s hist) o.state
        × ((r : ℕ) → o.rate ≡ some r → o.state.good ≡ some r)
  unfolding get_fx_micro live_cache
  call-IsPlausible now feed hist s p = go (live_cache now s) feed (live-good s.cache p.cached)
    where
      live-good :
          (cache : Option (ℕ × ℕ))
          → ((v e : ℕ) → cache ≡ some (v, e) → s.good ≡ some v)
          → (v : ℕ) → unexpired now cache ≡ some v
          → s.good ≡ some v
      live-good none h v e = cc
      live-good (some (value, expires_at)) h v e = elim (Bool-cases (ltb now expires_at)) [
        | inl valid ↦ h value expires_at refl ∙ rw valid at e
        | inr stale ↦ cc (rw stale at e)
      ]

      go :
          (live answer : Option ℕ)
          → ((v : ℕ) → live ≡ some v → s.good ≡ some v)
          → let o = fetch_rate env now s live answer in
            IsPlausible (heard live answer hist) o.state
            × ((r : ℕ) → o.rate ≡ some r → o.state.good ≡ some r)
      go (some cached) none h = (p, λ r e. h r e)
      go (some cached) (some fresh) h = (p, λ r e. h r e)
      go none none h = (p, λ r e. cc)
      go none (some fresh) h = fresh-Judged now fresh hist s p

  Reached-IsPlausible : {hist : List ℕ} {s : FxState} → Reached hist s → IsPlausible hist s
  Reached-IsPlausible (start good) = record { cached = λ v e h. cc; waiting = λ g m c h k. cc }
  Reached-IsPlausible (call {hist} {s} now feed r) =
      (call-IsPlausible now feed hist s (Reached-IsPlausible r)).0

  -- In every state that the guard gets into, a rate that a call returns is the rate that is accepted
  -- after the call: neither the cache nor a reading that is held back is ever served in its place.
  pub get_fx_micro-accepted :
      {hist : List ℕ} {s : FxState} (now : ℕ) (feed : Option ℕ) (r : ℕ)
      → Reached hist s
      → (get_fx_micro env now feed s).rate ≡ some r
      → (get_fx_micro env now feed s).state.good ≡ some r
  get_fx_micro-accepted {hist} {s} now feed r reached =
      (call-IsPlausible now feed hist s (Reached-IsPlausible reached)).1 r

  moved_self : (g : ℕ) → moved_bps g g ≡ 0
  unfolding moved_bps
  moved_self g = ground (arith, nothing g)
    where
      nothing : (n : ℕ) → (n - n) * 10000 / n ≡ 0
      nothing n = ground arith

  -- In every state that the guard gets into, if a call replaces the accepted rate by one that is
  -- further from it than the configuration allows, then the new rate is the reading of the feed, and
  -- it is the sixth reading in a row that is too far from the old rate, each close to the one before.
  pub get_fx_micro-confirmed :
      {hist : List ℕ} {s : FxState} (now fresh g g' : ℕ)
      → Reached hist s
      → live_cache now s ≡ none
      → s.good ≡ some g
      → (get_fx_micro env now (some fresh) s).state.good ≡ some g'
      → env.fx_max_move_bps < moved_bps g g'
      → (g' ≡ fresh) × Repeated g fx_confirmations (fresh ∷ hist)
  unfolding get_fx_micro
  get_fx_micro-confirmed {hist} {s} now fresh g g' reached expired good after far =
      near_or_far (leb (moved_bps g fresh) env.fx_max_move_bps) refl
        (ap (λ (o : FxOutcome). o.state.good) (sym judged) ∙ after)
    where
      p : IsPlausible hist s
      p = Reached-IsPlausible reached

      judged : get_fx_micro env now (some fresh) s ≡ (
          if leb (moved_bps g fresh) env.fx_max_move_bps
          then accept env now fresh none
          else judge_jump env now g fresh (next_count s.pending fresh))
      judged = rw (expired, good) refl

      count : ℕ
      count = next_count s.pending fresh

      same : {h : ℕ} → some h ≡ some g' → g' ≡ h
      same e = cc

      moved : (h : ℕ) → some h ≡ some g' → env.fx_max_move_bps < moved_bps g h
      moved h e = subst (λ n. env.fx_max_move_bps < moved_bps g n) (same e) far

      at_most :
          (pending : Option (ℕ × ℕ))
          → s.pending ≡ pending
          → next_count pending fresh ≤ fx_confirmations
      at_most none e = omega arith
      at_most (some (m, c)) e =
          let (few, older, seen, run) = p.waiting g m c good e in
          elim (Bool-cases (leb (moved_bps m fresh) agree_bps)) [
            | inl close ↦ rw close (omega arith)
            | inr other ↦ rw other (omega arith)
          ]

      repeated :
          Repeated g count (fresh ∷ hist)
          → fx_confirmations ≤ count
          → Repeated g fx_confirmations (fresh ∷ hist)
      repeated run enough =
          let few = at_most s.pending refl in
          let e : count ≡ fx_confirmations = omega arith in
          subst (λ n. Repeated g n (fresh ∷ hist)) e run

      jumped :
          (enough : Bool)
          → leb fx_confirmations count ≡ enough
          → env.fx_max_move_bps < moved_bps g fresh
          → (if enough
              then accept env now fresh (some "fx_level_accepted")
              else hold_back now g fresh count).state.good
            ≡ some g'
          → (g' ≡ fresh) × Repeated g fx_confirmations (fresh ∷ hist)
      jumped true e off h = (
        same h,
        repeated
            (next-Repeated g fresh s.pending hist off
              (λ m c k. let (few, older, seen, run) = p.waiting g m c good k in (older, seen, run)))
            (leb→le fx_confirmations count e),
      )
      jumped false e off h = let f = moved g h in let z = moved_self g in absurd (omega arith)

      near_or_far :
          (near : Bool)
          → leb (moved_bps g fresh) env.fx_max_move_bps ≡ near
          → (if near
              then accept env now fresh none
              else judge_jump env now g fresh count).state.good
            ≡ some g'
          → (g' ≡ fresh) × Repeated g fx_confirmations (fresh ∷ hist)
      near_or_far true e h =
          let f = moved fresh h in
          let n = leb→le (moved_bps g fresh) env.fx_max_move_bps e in absurd (omega arith)
      near_or_far false e h =
          jumped (leb fx_confirmations count) refl
            (leb→gt (moved_bps g fresh) env.fx_max_move_bps e) h
