-- ===== src/System/Coherent/Products.antt =====
-- services/inventory/app: its cache under its request and its consumer.
use ordermesh.Prelude.{Option, [], ◌∷◌, first-append_some, ◌==◌, Bool-cases, inl, inr, Text}
use ordermesh.Shared.Outcome.{Result, ok, raise}
use ordermesh.Shared.Auth.{Identity, require_role}
use ordermesh.Shared.Cache.{Raw}
use ordermesh.Shared.Cache.Server.{IsServer, IsReachable}
use ordermesh.Shared.Broker.{Message}
use ordermesh.Shared.Platform.{Host}
use ordermesh.Inventory.Model.{ProductOut, ProductCreate, Db}
use ordermesh.Inventory.Service.{reserve_for_order, release_for_order, sku_taken}
use ordermesh.Inventory.Service
use ordermesh.Inventory.Routes.{accepts, created_by, conflict}
use ordermesh.Inventory.Routes
use ordermesh.Inventory.Consumers.{handlers}
use ordermesh.Inventory.Coherence.{IsCoherent, reserve-IsCoherent, release-IsCoherent}
use ordermesh.System.Rabbit.{Net, inventory_events}
use ordermesh.System.InventoryRows.{conflict-state}
use ordermesh.System.Kept.Inventory.{consume_inventory-Kept}
use ordermesh.System.Kept.{Kept}
use ordermesh.System.{Env, platform, consume}

module _ {C Body : Type 0} (env : Env C Body) {view : C → Text → Option (Raw ProductOut)}
    (server : IsServer env.inventory_redis view) where
  abbrev pub Agrees : Db → C → Type 0
  Agrees = IsCoherent server

  abbrev At : Host Db C (Net Body) → Type 0
  At = Kept env Agrees

  insert-Agrees :
      (payload : ProductCreate) (db : Db) (c : C)
      → Agrees db c
      → Agrees (Service.create_product payload db).1 c
  unfolding Service.create_product
  insert-Agrees payload db c k = elim (Bool-cases (sku_taken payload.sku db.products)) [
    | inl e ↦ rw e (record { agrees = k.agrees })
    | inr e ↦ rw e (record {
      agrees = λ j out v. first-append_some (λ x. x.id == j) db.products _ out (k.agrees j out v);
    })
  ]

  created_by-Agrees :
      (r : Result Identity) (payload : ProductCreate) (db : Db) (c : C)
      → Agrees db c
      → Agrees (created_by r payload db).1 c
  created_by-Agrees (raise e) payload db c k = k
  created_by-Agrees (ok _) payload db c k = elim (Bool-cases (accepts payload)) [
    | inl e ↦
        rw e
          (rw (conflict-state (Service.create_product payload db)) (insert-Agrees payload db c k))
    | inr e ↦ rw e k
  ]

  pub create_product-Agrees :
      (payload : ProductCreate) (identity : Identity) (db : Db) (c : C)
      → Agrees db c
      → Agrees (Routes.create_product payload identity db).1 c
  unfolding Routes.create_product
  create_product-Agrees payload identity db c k =
      created_by-Agrees (require_role ("ADMIN" ∷ []) identity) payload db c k

  module _ (up : IsReachable env.inventory_redis) where
    pub consume-At :
        (m : Message Body) (h : Host Db C (Net Body))
        → At h
        → At (consume env inventory_events (handlers (platform env env.inventory_redis)) m h)
    consume-At m h k =
        consume_inventory-Kept env Agrees
          (λ id items db c a. reserve-IsCoherent server up id items db c a)
          (λ id db c a. release-IsCoherent server up id db c a) m h k
