-- ===== src/System/InventoryRows.antt =====
-- services/inventory/app: the orders that reservations name, and the tables after a request.
use Prim.Native.String.{count}
use ordermesh.Prelude.{
  ℕ, ◌≡◌, refl, List, [], ◌∷◌, inl, inr, Bool, true, false, Bool-cases, Option-cases, All,
  All-append, All-select, not, arith, leb, ◌&&◌,
}
use ordermesh.Prelude.Int.{pos, ◌≤ℤ◌, ltb_ℤ}
use ordermesh.Shared.Outcome.{
  Result, ok, raise, http, runtime, key_error, type_error, value_error, attribute_error, integrity,
  unreachable, unreachable_untried, external,
}
use ordermesh.Shared.Auth.{Identity}
use ordermesh.Shared.Event.{Item}
use ordermesh.Shared.Cache.{Client}
use ordermesh.Inventory.Model.{Db, Product, ProductOut, ProductCreate, Reservation}
use ordermesh.Inventory.Service.{
  first_reservation, available, wanted_of, reserve_all, reserve_one, reserve_for_order, release_all,
  release_one, release_for_order, held_by, Wanted,
}
use ordermesh.Inventory.Service
use ordermesh.Inventory.Routes.{accepts, created_by, conflict}
use ordermesh.Inventory.Invariant.{IsValid}
use ordermesh.Inventory.Reserve.{reserve_held, reserve_short, reserve_new}
use ordermesh.Inventory.Create.{create-IsValid}

module _ (P : ℕ → Type 0) where
  reserve_all-orders :
      (o : ℕ) (w : Wanted) (db : Db)
      → P o
      → All (λ r. P r.order_id) db.reservations
      → All (λ r. P r.order_id) (reserve_all o w db).reservations
  unfolding reserve_all
  reserve_all-orders o [] db p h = h
  reserve_all-orders o ((k, q) ∷ w) db p h =
      reserve_all-orders o w (reserve_one o k q db) p (All-append _ db.reservations _ h (p, tt))

  -- Each reservation afterwards is of an order that had one, or of this one.
  pub reserve-orders :
      {C : Type 0} (redis : Client C ProductOut) (o : ℕ) (items : List Item) (db : Db) (c : C)
      → P o
      → All (λ r. P r.order_id) db.reservations
      → All (λ r. P r.order_id) (reserve_for_order redis o items db c).db.reservations
  reserve-orders redis o items db c p h = elim (Option-cases (first_reservation o db)) [
    | inr (r, e) ↦ rw (reserve_held redis o items db c e) h
    | inl fresh ↦ elim (Bool-cases (available (wanted_of items) db.products)) [
      | inr short ↦ rw (reserve_short redis o items db c fresh short) h
      | inl enough ↦
          rw (reserve_new redis o items db c fresh enough)
            (reserve_all-orders o (wanted_of items) db p h)
    ]
  ]

  pub release_all-orders :
      (rs : List Reservation) (db : Db)
      → All (λ r. P r.order_id) db.reservations
      → All (λ r. P r.order_id) (release_all rs db).reservations
  unfolding release_all
  release_all-orders [] db h = h
  release_all-orders (r ∷ rs) db h =
      release_all-orders rs (release_one r db) (All-select _ _ db.reservations h)

-- A change of the tables that a request of an admin makes.
pub record Created (db db' : Db) : Type 0 where
  pub valid : IsValid db → IsValid db'
  pub same : db'.reservations ≡ db.reservations

pub conflict-state : (out : Result Product × Db) → (conflict out).1 ≡ out.1
conflict-state (ok p, db) = refl
conflict-state (raise integrity, db) = refl
conflict-state (raise (http code detail), db) = refl
conflict-state (raise (runtime detail), db) = refl
conflict-state (raise (key_error key), db) = refl
conflict-state (raise type_error, db) = refl
conflict-state (raise value_error, db) = refl
conflict-state (raise attribute_error, db) = refl
conflict-state (raise (unreachable retries last_err), db) = refl
conflict-state (raise unreachable_untried, db) = refl
conflict-state (raise external, db) = refl

and_right : (a b : Bool) → (a && b) ≡ true → b ≡ true
and_right true b h = h
and_right false b h = cc

accepts-nonneg :
    (payload : ProductCreate) → accepts payload ≡ true → pos 0 ≤ℤ payload.quantity_available
unfolding accepts
accepts-nonneg payload h =
    let last : not (ltb_ℤ payload.quantity_available (pos 0)) ≡ true =
      and_right
        (leb 1 (count payload.sku)
          && leb (count payload.sku) 64
          && leb 1 (count payload.name)
          && leb (count payload.name) 255)
        _ h in
    ground arith

insert-same :
    (payload : ProductCreate) (db : Db)
    → (Service.create_product payload db).1.reservations ≡ db.reservations
unfolding Service.create_product
insert-same payload db = ground arith

pub created_by-Created :
    (r : Result Identity) (payload : ProductCreate) (db : Db)
    → Created db (created_by r payload db).1
created_by-Created (raise e) payload db = record { valid = λ v. v; same = refl }
created_by-Created (ok _) payload db = elim (Bool-cases (accepts payload)) [
  | inl e ↦
      rw (e, conflict-state (Service.create_product payload db))
        (record {
          valid = create-IsValid payload db (accepts-nonneg payload e);
          same = insert-same payload db;
        })
  | inr e ↦ rw e (record { valid = λ v. v; same = refl })
]
