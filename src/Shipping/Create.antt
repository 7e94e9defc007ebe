-- ===== src/Shipping/Create.antt =====
-- services/shipping/app/service.py: `create_shipment` and the tracking numbers.
use ordermesh.Prelude.{
  ℕ, ◌<◌, ◌≡◌, ◌≢◌, ◌∙◌, refl, none, some, List, [], ◌∷◌, ◌++◌, arith, ◌==◌, Bool-cases,
  Option-cases, inl, inr, All, All-append, All-zip, ==_refl,
}
use ordermesh.Prelude.Decimal.{to_text, zero_padded_injective, to_text-digits, dash_injective}
use ordermesh.Prelude.Keys.{HasKeys, AreDistinct, HasKeys-append, AreDistinct-append, keys-lt}
use ordermesh.Shipping.Model.{Shipment, Db}
use ordermesh.Shipping.Service.{tracking_number, for_order, create_shipment, new_shipment}

-- Different shipments have different tracking numbers, whatever the years.
pub tracking_number_injective : (y z a b : ℕ) → tracking_number y a ≡ tracking_number z b → a ≡ b
unfolding tracking_number
tracking_number_injective y z a b e =
    zero_padded_injective 6 a b
      (dash_injective (to_text y) (to_text z) _ _ (to_text-digits y) (to_text-digits z) cc)

-- The tables: keys from the sequence, one shipment for an order, and no tracking number twice.
pub record IsValid (db : Db) : Type 0 where
  pub keys : HasKeys (λ (s : Shipment). s.id) db.shipment_seq db.shipments
  pub orders : AreDistinct (λ (s : Shipment). s.order_id) db.shipments
  pub numbers : AreDistinct (λ (s : Shipment). s.tracking_number) db.shipments
  pub numbered : All (λ s. (y : ℕ) × (s.tracking_number ≡ tracking_number y s.id)) db.shipments

first-ne : (o : ℕ) (ss : List Shipment) → for_order o ss ≡ none → All (λ s. o ≢ s.order_id) ss
first-ne o [] h = tt
first-ne o (s ∷ ss) h = elim (Bool-cases (s.order_id == o)) [
  | inl e ↦ cc (rw e at h)
  | inr e ↦ (λ same. cc (e, same, ==_refl o), first-ne o ss (rw e at h))
]

-- `create_shipment` keeps the tables valid: the unique columns never refuse its row.
pub create_shipment-IsValid :
    (year draw order_id : ℕ) (db : Db)
    → IsValid db
    → IsValid (create_shipment year draw order_id db).1
unfolding create_shipment
create_shipment-IsValid year draw o db v = elim (Option-cases (for_order o db.shipments)) [
  | inr (s, e) ↦ rw e v
  | inl e ↦
      let new = new_shipment year draw db.shipment_seq o in
      rw e (record {
        keys = HasKeys-append (λ (s : Shipment). s.id) db.shipment_seq db.shipments new refl v.keys;
        orders =
            AreDistinct-append (λ (s : Shipment). s.order_id) db.shipments new v.orders
              (first-ne o db.shipments e);
        numbers =
            AreDistinct-append (λ (s : Shipment). s.tracking_number) db.shipments new v.numbers
              (All-zip (λ s below (y, number) same. new_number_ne s.id y below (same ∙ number))
                db.shipments (keys-lt (λ (s : Shipment). s.id) db.shipment_seq db.shipments v.keys)
                v.numbered);
        numbered = All-append _ db.shipments (new ∷ []) v.numbered ((year, refl), tt);
      })
]
  where
    new_number_ne :
        (id y : ℕ)
        → id < db.shipment_seq
        → tracking_number year db.shipment_seq ≡ tracking_number y id
        → ⊥
    new_number_ne id y below same =
        let e = tracking_number_injective year y db.shipment_seq id same in omega arith

first-append_none :
    (o : ℕ) (ss : List Shipment) (s : Shipment)
    → for_order o ss ≡ none
    → s.order_id ≡ o
    → for_order o (ss ++ s ∷ []) ≡ some s
first-append_none o [] s h e = rw (e, ==_refl)
first-append_none o (t ∷ ss) s h e = ground (arith, first-append_none o ss s)

-- The shipment that is returned is the order's, and it is in the table afterwards.
pub create_shipment_stores :
    (year draw order_id : ℕ) (db : Db)
    → let (s, db') = create_shipment year draw order_id db in
      for_order order_id db'.shipments ≡ some s
unfolding create_shipment
create_shipment_stores year draw o db = elim (Option-cases (for_order o db.shipments)) [
  | inr (s, e) ↦ rw e e
  | inl e ↦
      rw e (first-append_none o db.shipments (new_shipment year draw db.shipment_seq o) e refl)
]

-- A second call for the order, in whatever year and whatever courier is drawn, returns the same
-- shipment and leaves the table alone.
pub create_shipment_idempotent :
    (year draw year' draw' order_id : ℕ) (db : Db)
    → let (s, db') = create_shipment year draw order_id db in
      create_shipment year' draw' order_id db' ≡ (s, db')
create_shipment_idempotent year draw year' draw' o db =
    existing (create_shipment year draw o db).0 (create_shipment year draw o db).1
      (create_shipment_stores year draw o db)
  where
    existing :
        (s : Shipment) (db' : Db)
        → for_order o db'.shipments ≡ some s
        → create_shipment year' draw' o db' ≡ (s, db')
    existing s db' e = unfold create_shipment in rw e
