-- ===== src/Delivery/Claims.antt =====
-- The conditional status moves of apps/api/src/delivery/delivery.service.ts and what they do to the
-- metal that is counted as held.
use alkeva.Common.{ℕ, ◌+◌, ◌≡◌, refl, Bool, true, false, Option, none, some, List, arith}
use alkeva.Common.Table.{update_row, claim_row, claim_row-eq-some, sum_by, sum_by-update_row}
use alkeva.Assets.{MetalAsset}
use alkeva.Schema.{Db, DeliveryRequest, DeliveryStatus}
use alkeva.Request.Keeps.{AllOk}
use alkeva.Books.{held_mg, is_held_delivery}
use alkeva.Delivery.{claim, take_claim, set_deliveries, mark, find_delivery}
use alkeva.Delivery.Escrow.{mg_in}

-- A claim that goes through has changed the row of the id, which had a status to claim from.
pub claim-AllOk :
    (Q : DeliveryRequest → Db → Type 0) (id : ℕ) (from : DeliveryStatus → Bool)
    (f : DeliveryRequest → DeliveryRequest) (db : Db)
    → ((r : DeliveryRequest)
        → find_delivery id db ≡ some r
        → from r.status ≡ true
        → Q
            (f r)
            (set_deliveries (update_row (λ (d : DeliveryRequest). d.id) id f db.deliveries) db))
    → AllOk Q (claim id from f db)
unfolding claim take_claim
claim-AllOk Q id from f db h =
    go (claim_row (λ (d : DeliveryRequest). d.id) id (λ d. from d.status) f db.deliveries) refl
  where
    go :
        (claimed : Option (DeliveryRequest × List DeliveryRequest))
        → claim_row (λ (d : DeliveryRequest). d.id) id (λ d. from d.status) f db.deliveries
          ≡ claimed
        → AllOk Q (take_claim claimed db)
    go none e = tt
    go (some (u, rows)) e =
        let (r, found, open_row, eu, er) =
          claim_row-eq-some (λ (d : DeliveryRequest). d.id) id (λ d. from d.status) f db.deliveries
            e in
        rw (eu, er) (h r found open_row)

combine : (a b c d e : ℕ) → a + b ≡ c + d → a + b ≡ c + e → d ≡ e
combine a b c d e h k = omega arith

module _ (id reviewer : ℕ) (db : Db) (r : DeliveryRequest) (found : find_delivery id db ≡ some r)
    (k : MetalAsset) where
  total_moved :
      (to : DeliveryStatus)
      → sum_by
            (held_mg k)
            (update_row (λ (d : DeliveryRequest). d.id) id (mark to reviewer) db.deliveries)
          + held_mg k r
        ≡ sum_by (held_mg k) db.deliveries + held_mg k (mark to reviewer r)
  total_moved to =
      sum_by-update_row (λ (d : DeliveryRequest). d.id) (held_mg k) id (mark to reviewer)
        db.deliveries r found

  pub total_in :
      (to : DeliveryStatus)
      → is_held_delivery r.status ≡ false
      → is_held_delivery to ≡ true
      → sum_by
          (held_mg k)
          (update_row (λ (d : DeliveryRequest). d.id) id (mark to reviewer) db.deliveries)
        ≡ sum_by (held_mg k) db.deliveries + mg_in r.asset r.grams_mg k
  total_in to free kept = ground (arith, total_moved to)

  pub total_out :
      (to : DeliveryStatus)
      → is_held_delivery r.status ≡ true
      → is_held_delivery to ≡ false
      → sum_by (held_mg k) db.deliveries
        ≡ sum_by
            (held_mg k)
            (update_row (λ (d : DeliveryRequest). d.id) id (mark to reviewer) db.deliveries)
          + mg_in r.asset r.grams_mg k
  total_out to kept free = ground (arith, total_moved to)

  pub total_same :
      (to : DeliveryStatus)
      → is_held_delivery r.status ≡ is_held_delivery to
      → sum_by
          (held_mg k)
          (update_row (λ (d : DeliveryRequest). d.id) id (mark to reviewer) db.deliveries)
        ≡ sum_by (held_mg k) db.deliveries
  total_same to same = ground (arith, total_moved to)
