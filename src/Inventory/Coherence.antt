-- ===== src/Inventory/Coherence.antt =====
-- services/inventory/app/service.py: the cache of products beside the table.
use ordermesh.Prelude.{
  ℕ, ◌≡◌, ◌≢◌, ◌∙◌, ap, refl, true, some, Option, List, [], ◌∷◌, arith, All, Text, ◌==◌, ==_iff,
  Bool-cases, Option-cases, inl, inr,
}
use ordermesh.Prelude.Int.{ℤ, ◌-ℤ◌, ◌+ℤ◌}
use ordermesh.Shared.Cache.{Client, Raw, json, invalidate}
use ordermesh.Shared.Cache.Server.{IsServer, IsReachable, invalidate_keeps, invalidate_removes}
use ordermesh.Shared.Cache.Aside.{IsAside}
use ordermesh.Shared.Event.{Item}
use ordermesh.Inventory.Model.{Db, Product, ProductOut, Reservation}
use ordermesh.Inventory.Service.{
  Wanted, cache_key, find_product, change_stock, wanted_of, available, first_reservation,
  reserve_one, reserve_all, reserve_for_order, invalidate_wanted, release_one, release_all,
  release_for_order, invalidate_ids, held_by, release_held, distinct_ids, mem_id,
}
use ordermesh.Inventory.Stock.Wanted.{IsFresh}
use ordermesh.Inventory.Reserve.{reserve_held, reserve_short, reserve_new}

find-change_stock :
    (j id : ℕ) (f : ℤ → ℤ) (ps : List Product)
    → id ≢ j
    → find_product j (change_stock id f ps) ≡ find_product j ps
find-change_stock j id f [] ne = refl
find-change_stock j id f (p ∷ ps) ne = ground (arith, find-change_stock j id f ps ne)

find-reserve_all :
    (o j : ℕ) (w : Wanted) (db : Db)
    → IsFresh j w
    → find_product j (reserve_all o w db).products ≡ find_product j db.products
unfolding reserve_all
find-reserve_all o j [] db h = refl
find-reserve_all o j ((k, q) ∷ w) db h =
    find-reserve_all o j w (reserve_one o k q db) h.1
    ∙ find-change_stock j k (λ n. n -ℤ q) db.products h.0

find-release_all :
    (j : ℕ) (rs : List Reservation) (db : Db)
    → All (λ r. r.product_id ≢ j) rs
    → find_product j (release_all rs db).products ≡ find_product j db.products
unfolding release_all
find-release_all j [] db h = refl
find-release_all j (r ∷ rs) db h =
    find-release_all j rs (release_one r db) h.1
    ∙ find-change_stock j r.product_id (λ n. n +ℤ r.quantity) db.products h.0

ne-mem_id : (j k : ℕ) (ks : List ℕ) → mem_id k ks ≡ true → All (λ i. i ≢ j) ks → k ≢ j
ne-mem_id j k [] m h = cc
ne-mem_id j k (i ∷ ks) m h = elim (Bool-cases (i == k)) [
  | inl e ↦ λ same. h.0 ((==_iff i k).0 e ∙ same)
  | inr e ↦ ne-mem_id j k ks (rw e at m) h.1
]

ne-distinct_ids :
    (j : ℕ) (rs : List Reservation)
    → All (λ i. i ≢ j) (distinct_ids rs)
    → All (λ r. r.product_id ≢ j) rs
ne-distinct_ids j [] h = tt
ne-distinct_ids j (r ∷ rs) h = elim (Bool-cases (mem_id r.product_id (distinct_ids rs))) [
  | inl e ↦
      let rest = rw e at h in
      (ne-mem_id j r.product_id (distinct_ids rs) e rest, ne-distinct_ids j rs rest)
  | inr e ↦ let both = rw e at h in (both.0, ne-distinct_ids j rs both.1)
]

module _ {C : Type 0} {redis : Client C ProductOut} {view : C → Text → Option (Raw ProductOut)}
    (server : IsServer redis view) where
  -- A product that the server holds is the table's row.
  abbrev pub IsCoherent : Db → C → Type 0
  IsCoherent db c = IsAside view cache_key (λ id. find_product id db.products) c

  module _ (up : IsReachable redis) where
    -- An entry that is left after the invalidations was there, and is of another product.
    ne_of_view :
        (c c' : C) (j k : ℕ) (out : ProductOut)
        → view (invalidate redis (cache_key k ∷ []) c) (cache_key j) ≡ some (json out)
        → k ≢ j
    ne_of_view c c' j k out e same =
        cc (ap cache_key same, invalidate_removes server up (cache_key k) c)

    invalidate_wanted-view :
        (j : ℕ) (out : ProductOut) (w : Wanted) (c : C)
        → view (invalidate_wanted redis w c) (cache_key j) ≡ some (json out)
        → (view c (cache_key j) ≡ some (json out)) × IsFresh j w
    unfolding invalidate_wanted
    invalidate_wanted-view j out [] c e = (e, tt)
    invalidate_wanted-view j out ((k, q) ∷ w) c e =
        let ih = invalidate_wanted-view j out w (invalidate redis (cache_key k ∷ []) c) e in
        (
          invalidate_keeps server (cache_key k ∷ []) c (cache_key j) (json out) ih.0,
          (ne_of_view c c j k out ih.0, ih.1),
        )

    invalidate_ids-view :
        (j : ℕ) (out : ProductOut) (ids : List ℕ) (c : C)
        → view (invalidate_ids redis ids c) (cache_key j) ≡ some (json out)
        → (view c (cache_key j) ≡ some (json out)) × All (λ i. i ≢ j) ids
    unfolding invalidate_ids
    invalidate_ids-view j out [] c e = (e, tt)
    invalidate_ids-view j out (k ∷ ids) c e =
        let ih = invalidate_ids-view j out ids (invalidate redis (cache_key k ∷ []) c) e in
        (
          invalidate_keeps server (cache_key k ∷ []) c (cache_key j) (json out) ih.0,
          (ne_of_view c c j k out ih.0, ih.1),
        )

    -- Reserving keeps the cache coherent, whether it succeeds or not, while Redis can be reached.
    pub reserve-IsCoherent :
        (order_id : ℕ) (items : List Item) (db : Db) (c : C)
        → IsCoherent db c
        → let s = reserve_for_order redis order_id items db c in IsCoherent s.db s.cache
    reserve-IsCoherent o items db c h = elim (Option-cases (first_reservation o db)) [
      | inr (r, e) ↦ rw (reserve_held redis o items db c e) h
      | inl fresh ↦ elim (Bool-cases (available (wanted_of items) db.products)) [
        | inr short ↦ rw (reserve_short redis o items db c fresh short) h
        | inl there ↦ rw (reserve_new redis o items db c fresh there) (record {
          agrees = λ id out e.
              let left = invalidate_wanted-view id out (wanted_of items) c e in
              find-reserve_all o id (wanted_of items) db left.1 ∙ h.agrees id out left.0;
        })
      ]
    ]

    -- Releasing keeps the cache coherent, while Redis can be reached.
    pub release-IsCoherent :
        (order_id : ℕ) (db : Db) (c : C)
        → IsCoherent db c
        → let after = release_for_order redis order_id db c in IsCoherent after.1.0 after.1.1
    unfolding release_for_order
    release-IsCoherent o db c h = go (held_by o db.reservations)
      where
        go :
            (rs : List Reservation)
            → IsCoherent (release_held redis rs db c).1.0 (release_held redis rs db c).1.1
        go [] = h
        go (r ∷ rs) = record {
          agrees = λ id out e.
              let left = invalidate_ids-view id out (distinct_ids (r ∷ rs)) c e in
              find-release_all id (r ∷ rs) db (ne-distinct_ids id (r ∷ rs) left.1)
              ∙ h.agrees id out left.0;
        }
