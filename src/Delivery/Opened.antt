-- ===== src/Delivery/Opened.antt =====
-- When a customer gets a delivery request (apps/api/src/delivery/delivery.service.ts, `create`).
use alkeva.Common.{
  ℕ, none, String, ◌≡◌, refl, ap, sym, ◌∙◌, ◌<◌, ◌⊎◌, inl, inr, true, false, not, ◌==◌, Option,
  some, ◌∷◌, any, Bool-cases, arith,
}
use alkeva.Common.Int.{pos, ltb_ℤ, ◌≤ℤ◌, ltb_ℤ→ge}
use alkeva.Common.Table.{sum_by}
use alkeva.Common.Keyed.{has_key}
use alkeva.Assets.{MetalAsset, metal, metal_eq, xau, xpt, etb}
use alkeva.Codes.{
  delivery_not_eligible, amount_too_small, insufficient_metal, delivery_already_open,
  unique_violation,
}
use alkeva.Schema.{Db, DeliveryRequest}
use alkeva.Request.{Result, ok, err, ◌>>=◌}
use alkeva.Request.Keeps.{Keeps, Keeps-bind, Keeps-raise_if}
use alkeva.Ledger.{assert_can_move_money, balance_for_user, find_user}
use alkeva.Ledger.Accounts.{assert_can_move_money-Keeps}
use alkeva.Books.{IsSound, held_mg}
use alkeva.Portfolio.Tier.{
  TierDto, Place, tier_for, settle_tier, cache_tier, has_tier, set_tier, holding_usd_cents,
}
use alkeva.Portfolio.Projection.{Portfolio, for_user, holding_of, page_of}
use alkeva.Delivery.Asked.{
  CreateDelivery, held_of, is_open_of, new_delivery, add_delivery, insert_delivery, write_delivery,
  open_request, create,
}

-- The table of users is all that a look at the portfolio writes.
data Shown (user_id : ℕ) (d : Db) : Db → Type 0 where
  as_it_was : Shown user_id d d
  tier_cached : (name : String) → Shown user_id d (set_tier user_id name d)

-- An answer with the tier, which leaves the rest as it was.
IsTold : ℕ → Db → Result TierDto × Db → Type 0
IsTold user_id d (err e, after) = ⊥
IsTold user_id d (ok t, after) = Shown user_id d after

tier_for-IsTold :
    (user_id total : ℕ) (rate : Option ℕ) (d : Db)
    → IsTold user_id d (tier_for user_id total rate d)
unfolding tier_for cache_tier IsTold
tier_for-IsTold user_id total rate d = go _
  where
    go :
        (p : Option Place)
        → IsTold user_id d (settle_tier user_id (holding_usd_cents total rate) p d)
    go none = as_it_was
    go (some p) = elim (Bool-cases (has_tier p.current.name (find_user user_id d))) [
      | inl same ↦ rw same as_it_was
      | inr other ↦ rw other (tier_cached p.current.name)
    ]

-- A page that shows what the customer holds of each metal.
IsShown : ℕ → Db → Result Portfolio × Db → Type 0
IsShown user_id d (err e, after) = ⊥
IsShown user_id d (ok s, after) =
    Shown user_id d after × ((a : MetalAsset) → held_of a s ≡ balance_for_user user_id (metal a) d)

for_user-IsShown :
    (cutoff : Option ℕ) (user_id : ℕ) (d : Db) → IsShown user_id d (for_user cutoff user_id d)
unfolding for_user IsShown IsTold page_of holding_of
for_user-IsShown cutoff user_id d = go (tier_for user_id _ _ d) (tier_for-IsTold user_id _ _ d)
  where
    shows :
        (s : Portfolio)
        → s.gold.grams_mg ≡ balance_for_user user_id (metal xau) d
        → s.platinum.grams_mg ≡ balance_for_user user_id (metal xpt) d
        → (a : MetalAsset) → held_of a s ≡ balance_for_user user_id (metal a) d
    shows s g p xau = g
    shows s g p xpt = p

    go :
        (r : Result TierDto × Db)
        → IsTold user_id d r
        → IsShown user_id d (
            ((λ _. r)
                >>= page_of cutoff user_id
                    (balance_for_user user_id etb d)
                    (holding_of user_id xau d)
                    (holding_of user_id xpt d))
              d)
    go (err e, after) h = absurd h
    go (ok t, after) h = (h, shows _ refl refl)

-- What `create` has checked when it stores a request, of the database that it found.
pub record IsOpened (id user_id : ℕ) (dto : CreateDelivery) (d after : Db) : Type 0 where
  pub stored : after.deliveries ≡ new_delivery id user_id dto ∷ d.deliveries
  pub positive : 0 < dto.grams_mg
  pub covered : pos dto.grams_mg ≤ℤ balance_for_user user_id (metal dto.asset) d
  pub alone : any (is_open_of user_id dto.asset) d.deliveries ≡ false

open_request-cases :
    (id user_id : ℕ) (dto : CreateDelivery) (s : Portfolio) (d : Db)
    → ((open_request id user_id dto s d).1 ≡ d)
      ⊎ ((s.tier.delivery_eligible ≡ true)
          × ((dto.grams_mg == 0) ≡ false)
          × (ltb_ℤ (held_of dto.asset s) (pos dto.grams_mg) ≡ false)
          × (any (is_open_of user_id dto.asset) d.deliveries ≡ false)
          × ((open_request id user_id dto s d).1.deliveries
              ≡ new_delivery id user_id dto ∷ d.deliveries))
unfolding open_request
open_request-cases id user_id dto s d = elim (Bool-cases (s.tier.delivery_eligible)) [
  | inr barred ↦ inl (rw barred refl)
  | inl eligible ↦ elim (Bool-cases (dto.grams_mg == 0)) [
    | inl none_asked ↦ inl (rw (none_asked, eligible) refl)
    | inr some_asked ↦ elim (Bool-cases (ltb_ℤ (held_of dto.asset s) (pos dto.grams_mg))) [
      | inl short ↦ inl (rw (short, some_asked, eligible) refl)
      | inr held ↦ elim (Bool-cases (any (is_open_of user_id dto.asset) d.deliveries)) [
        | inl busy ↦ inl (rw (held, some_asked, eligible, busy) refl)
        | inr alone ↦ elim (Bool-cases (has_key (λ (r : DeliveryRequest). r.id) id d.deliveries)) [
          | inl taken ↦ inl (rw (held, some_asked, eligible, alone, taken) refl)
          | inr new ↦
              inr (
                eligible,
                some_asked,
                held,
                alone,
                rw (held, some_asked, eligible, alone, new) refl,
              )
        ]
      ]
    ]
  ]
]

Shown-deliveries :
    {user_id : ℕ} {d after : Db} → Shown user_id d after → after.deliveries ≡ d.deliveries
Shown-deliveries as_it_was = refl
Shown-deliveries (tier_cached name) = refl

-- What a call of `create` leaves.
abbrev pub Ends : ℕ → ℕ → CreateDelivery → Db → Db → Type 0
Ends id user_id dto d after = (after.deliveries ≡ d.deliveries) ⊎ IsOpened id user_id dto d after

positive_of : (n : ℕ) → (n == 0) ≡ false → 0 < n
positive_of n h = ground arith

module _ (cutoff : Option ℕ) (id user_id : ℕ) (dto : CreateDelivery) (db : Db) where
  opened :
      (s : Portfolio) (after : Db)
      → after.deliveries ≡ db.deliveries
      → held_of dto.asset s ≡ balance_for_user user_id (metal dto.asset) db
      → Ends id user_id dto db (open_request id user_id dto s after).1
  opened s after same shows = elim (open_request-cases id user_id dto s after) [
    | inl unchanged ↦ inl (ap (λ (d : Db). d.deliveries) unchanged ∙ same)
    | inr (eligible, some_asked, held, alone, stored) ↦ inr (record {
      stored = stored ∙ ap (λ ds. new_delivery id user_id dto ∷ ds) same;
      positive = positive_of dto.grams_mg some_asked;
      covered =
          ltb_ℤ→ge (balance_for_user user_id (metal dto.asset) db) (pos dto.grams_mg)
            (rw shows at held);
      alone = sym (ap (any (is_open_of user_id dto.asset)) same) ∙ alone;
    })
  ]

  -- A call leaves the requests as they are, or the customer holds the metal, in a positive amount, and
  -- has no open request for it; then the new request is stored.
  pub create-IsOpened : Ends id user_id dto db (create cutoff id user_id dto db).1
  unfolding create IsShown
  create-IsOpened =
      asked (assert_can_move_money user_id db)
        (assert_can_move_money-Keeps (λ d. d ≡ db) user_id db refl)
    where
      shown :
          (r : Result Portfolio × Db)
          → IsShown user_id db r
          → Ends id user_id dto db (((λ _. r) >>= open_request id user_id dto) db).1
      shown (err e, after) h = absurd h
      shown (ok s, after) (page, shows) = opened s after (Shown-deliveries page) (shows dto.asset)

      asked :
          (r : Result (Unit {0}) × Db)
          → r.1 ≡ db
          → Ends id user_id dto db
              (((λ _. r) >>= λ _. (for_user cutoff user_id >>= open_request id user_id dto)) db).1
      asked (err e, d) same = inl (ap (λ (d : Db). d.deliveries) same)
      asked (ok u, d) same =
          rw same (shown (for_user cutoff user_id db) (for_user-IsShown cutoff user_id db))

-- A new request holds no metal yet.
add_delivery-Sound :
    (id user_id : ℕ) (dto : CreateDelivery) (d : Db)
    → IsSound d
    → IsSound (add_delivery (new_delivery id user_id dto) d)
add_delivery-Sound id user_id dto d s = record {
  solvent = s.solvent;
  reserved = s.reserved;
  zero_sum = s.zero_sum;
  payout_escrow = s.payout_escrow;
  delivery_escrow = λ m. s.delivery_escrow m ∙ ap pos (none_held m);
}
  where
    none_held :
        (m : MetalAsset)
        → sum_by (held_mg m) d.deliveries
          ≡ sum_by (held_mg m) (new_delivery id user_id dto ∷ d.deliveries)
    none_held m = elim (Bool-cases (metal_eq dto.asset m)) [
      | inl same ↦ rw same (omega arith)
      | inr other ↦ rw other (omega arith)
    ]

open_request-Sound :
    (id user_id : ℕ) (dto : CreateDelivery) (s : Portfolio)
    → Keeps IsSound (open_request id user_id dto s)
unfolding open_request
open_request-Sound id user_id dto s =
    Keeps-raise_if IsSound (not s.tier.delivery_eligible) delivery_not_eligible _ (
      Keeps-raise_if IsSound (dto.grams_mg == 0) amount_too_small _ (
        Keeps-raise_if IsSound (ltb_ℤ (held_of dto.asset s) (pos dto.grams_mg)) insufficient_metal _
          (λ d h.
            Keeps-raise_if IsSound (any (is_open_of user_id dto.asset) d.deliveries)
              delivery_already_open (insert_delivery row) inserted d h)))
  where
    row : DeliveryRequest
    row = new_delivery id user_id dto

    inserted : Keeps IsSound (insert_delivery row)
    inserted d h =
        Keeps-raise_if IsSound (has_key (λ (r : DeliveryRequest). r.id) id d.deliveries)
          unique_violation (write_delivery row) (λ d' h'. add_delivery-Sound id user_id dto d' h') d
          h

-- If the books are sound, they are sound after a customer has asked for a delivery.
pub create-Sound :
    (cutoff : Option ℕ) (id user_id : ℕ) (dto : CreateDelivery)
    → Keeps IsSound (create cutoff id user_id dto)
unfolding create IsShown
create-Sound cutoff id user_id dto =
    Keeps-bind IsSound (assert_can_move_money user_id)
      (λ _. for_user cutoff user_id >>= open_request id user_id dto)
      (assert_can_move_money-Keeps IsSound user_id)
      (λ _.
        Keeps-bind IsSound (for_user cutoff user_id) (open_request id user_id dto)
          (λ d s. after d (for_user cutoff user_id d) (for_user-IsShown cutoff user_id d) s)
          (open_request-Sound id user_id dto))
  where
    kept : {d d' : Db} → Shown user_id d d' → IsSound d → IsSound d'
    kept as_it_was s = s
    kept (tier_cached name) s = s

    after : (d : Db) (r : Result Portfolio × Db) → IsShown user_id d r → IsSound d → IsSound r.1
    after d (err e, d') h s = absurd h
    after d (ok p, d') (page, shows) s = kept page s
