-- ===== src/Portfolio/Bands.antt =====
-- The holding tiers of apps/api/src/portfolio/portfolio.service.ts: which band is reached, and that
-- the order limits go by the same one.
use alkeva.Common.{
  ℕ, ◌-◌, ◌*◌, ◌/◌, ◌≤◌, ◌<◌, String, ◌≡◌, refl, ap, ◌⊎◌, inl, inr, true, false, Option, none, some,
  List, [], ◌∷◌, ◌++◌, ltb, All, if◌then◌else◌, arith, Bool-cases, Option-cases, ltb→lt, ltb→ge,
}
use mathlib.Core.Path.{subst}
use native.Mathlib.Nat.{div-le_of_le-mul}
use text.Mathlib.TextEquality.{eq_iff}
use alkeva.Common.Table.{find_row-update_row_self}
use alkeva.Schema.{Db, HoldingTier, User}
use alkeva.Ledger.{find_user}
use alkeva.Portfolio.Tier.{
  ceiling_cents, under, Place, place_in, last_band, or_top, place, progress_pct_milli, has_tier,
  cache_tier,
}

-- The holding, in US cents, is below the ceiling of the band, in dollars, or the band has none.
abbrev pub IsUnder : ℕ → HoldingTier → Type 0
IsUnder holding b =
    (b.max_usd ≡ none) ⊎ ((usd : ℕ) × (b.max_usd ≡ some usd) × (holding < usd * 100))

-- The holding has reached the ceiling of the band.
abbrev pub IsPast : ℕ → HoldingTier → Type 0
IsPast holding b = (usd : ℕ) × (b.max_usd ≡ some usd) × (usd * 100 ≤ holding)

under-IsUnder :
    (holding : ℕ) (b : HoldingTier) → under holding (ceiling_cents b) ≡ true → IsUnder holding b
under-IsUnder holding b h = elim (Option-cases b.max_usd) [
  | inl free ↦ inl free
  | inr (usd, bounded) ↦ inr (usd, bounded, ltb→lt holding (usd * 100) (rw bounded at h))
]

under-IsPast :
    (holding : ℕ) (b : HoldingTier) → under holding (ceiling_cents b) ≡ false → IsPast holding b
under-IsPast holding b h = elim (Option-cases b.max_usd) [
  | inl free ↦ cc (rw free at h)
  | inr (usd, bounded) ↦ (usd, bounded, ltb→ge holding (usd * 100) (rw bounded at h))
]

-- Where a holding belongs: the bands before are passed, and the holding is below the ceiling of the
-- band or the band is the last.
pub record Belongs (holding : ℕ) (bands : List HoldingTier) (current : HoldingTier) : Type 0 where
  pub passed : List HoldingTier
  pub rest : List HoldingTier
  pub split : bands ≡ passed ++ (current ∷ rest)
  pub all_passed : All (IsPast holding) passed
  pub fits : IsUnder holding current ⊎ (IsPast holding current × (rest ≡ []))

cons-Belongs :
    {holding : ℕ} {b c : HoldingTier} {bs : List HoldingTier}
    → IsPast holding b
    → Belongs holding bs c
    → Belongs holding (b ∷ bs) c
cons-Belongs {b} past w = record {
  passed = b ∷ w.passed;
  rest = w.rest;
  split = ap (λ l. b ∷ l) w.split;
  all_passed = (past, w.all_passed);
  fits = w.fits;
}

current_of : HoldingTier → Option Place → HoldingTier
current_of b none = b
current_of b (some q) = q.current

same_current : {p q : Place} → some p ≡ some q → p.current ≡ q.current
unfolding current_of
same_current {p} e = ap (current_of p.current) e

place_in-Belongs :
    (holding : ℕ) (below : Option HoldingTier) (bands : List HoldingTier) (p : Place)
    → or_top (place_in holding below bands) (last_band bands) ≡ some p
    → Belongs holding bands p.current
unfolding place_in last_band
place_in-Belongs holding below [] p h = cc
place_in-Belongs holding below (b ∷ []) p h = elim (Bool-cases (under holding (ceiling_cents b))) [
  | inl fits ↦
      let e = same_current (rw fits at h) in
      record {
        passed = [];
        rest = [];
        split = ap (λ c. c ∷ []) e;
        all_passed = tt;
        fits = inl (subst (IsUnder holding) e (under-IsUnder holding b fits));
      }
  | inr past ↦
      let e = same_current (rw past at h) in
      record {
        passed = [];
        rest = [];
        split = ap (λ c. c ∷ []) e;
        all_passed = tt;
        fits = inr (subst (IsPast holding) e (under-IsPast holding b past), refl);
      }
]
place_in-Belongs holding below (b ∷ c ∷ cs) p h =
    elim (Bool-cases (under holding (ceiling_cents b))) [
      | inl fits ↦
          let e = same_current (rw fits at h) in
          record {
            passed = [];
            rest = c ∷ cs;
            split = ap (λ x. x ∷ c ∷ cs) e;
            all_passed = tt;
            fits = inl (subst (IsUnder holding) e (under-IsUnder holding b fits));
          }
      | inr past ↦
          cons-Belongs (under-IsPast holding b past)
            (place_in-Belongs holding (some b) (c ∷ cs) p (rw past at h))
    ]

-- The tier of a holding in US cents is the first band whose ceiling in dollars it is below, and the
-- last band if it has passed them all.
pub place-Belongs :
    (holding : ℕ) (bands : List HoldingTier) (p : Place)
    → place holding bands ≡ some p
    → Belongs holding bands p.current
unfolding place
place-Belongs holding bands p h = place_in-Belongs holding none bands p h

pct_bound : (part span : ℕ) → part ≤ span → part * 100000 / span ≤ 100000
pct_bound part span h = div-le_of_le-mul span (omega arith)

clamp_le : (into span : ℕ) → (if ltb span into then span else into) ≤ span
clamp_le into span = ground arith

-- The progress within a band is at most a hundred percent.
pub progress_pct_milli-le :
    (holding floor : ℕ) (ceiling : Option ℕ) (pct : ℕ)
    → progress_pct_milli holding floor ceiling ≡ some pct
    → pct ≤ 100000
unfolding progress_pct_milli
progress_pct_milli-le holding floor none pct h = cc
progress_pct_milli-le holding floor (some ceiling) pct h = elim (Bool-cases (ltb floor ceiling)) [
  | inl wide ↦
      bound (pct_bound _ (ceiling - floor) (clamp_le (holding - floor) (ceiling - floor)))
        (rw wide at h)
  | inr narrow ↦ cc (rw narrow at h)
]
  where
    bound : {x : ℕ} → x ≤ 100000 → some x ≡ some pct → pct ≤ 100000
    bound l e = rw (← same e) l
      where
        same : {x : ℕ} → some x ≡ some pct → x ≡ pct
        same e = cc

-- After the cache has been refreshed, a customer who is there has the tier by name.
pub cache_tier-has :
    (user_id : ℕ) (name : String) (db : Db) (u : User)
    → find_user user_id db ≡ some u
    → has_tier name (find_user user_id (cache_tier user_id name db).1) ≡ true
unfolding cache_tier
cache_tier-has user_id name db u found = elim (Bool-cases (has_tier name (find_user user_id db))) [
  | inl there ↦ rw there there
  | inr missing ↦
      rw
        (
          missing,
          find_row-update_row_self (λ (u : User). u.id) user_id
              (λ (u : User). record u { holding_tier = some name }) db.users u found refl,
        )
        ((eq_iff name name).1 refl)
]
