-- ===== src/Inventory/Routes.antt =====
-- services/inventory/app/routes.py and the checks of schemas.py.
use Prim.Native.String.{count}
use ordermesh.Prelude.{ℕ, Bool, Option, none, some, List, [], ◌∷◌, ◌&&◌, not, leb, if◌then◌else◌}
use ordermesh.Prelude.Int.{pos, ltb_ℤ}
use ordermesh.Shared.Outcome.{Result, ok, raise, http, integrity}
use ordermesh.Shared.Auth.{Identity, require_role}
use ordermesh.Shared.Cache.{get_json, set_json}
use ordermesh.Shared.Platform.{Platform}
use ordermesh.Inventory.Model.{Db, Product, ProductCreate, ProductOut}
use ordermesh.Inventory.Service.{cache_key}
use ordermesh.Inventory.Service

-- The fields' limits in `ProductCreate`.
unfoldable pub accepts : ProductCreate → Bool
accepts payload =
    leb 1 (count payload.sku)
    && leb (count payload.sku) 64
    && leb 1 (count payload.name)
    && leb (count payload.name) 255
    && not (ltb_ℤ payload.quantity_available (pos 0))

-- `except IntegrityError`
abbrev pub conflict : Result Product × Db → Result ProductOut × Db
conflict (ok p, db) = (ok p, db)
conflict (raise integrity, db) = (raise (http 409 "SKU already exists"), db)
conflict (raise e, db) = (raise e, db)

abbrev pub created_by : Result Identity → ProductCreate → Db → Result ProductOut × Db
created_by (raise e) payload db = (raise e, db)
created_by (ok _) payload db =
    if accepts payload
    then conflict (Service.create_product payload db)
    else (raise (http 422 "ProductCreate"), db)

-- `POST /inventory/products`: the dependency on an admin runs first, then the body is validated.
unfoldable pub create_product : ProductCreate → Identity → Db → Result ProductOut × Db
unfolding accepts
create_product payload identity db = created_by (require_role ("ADMIN" ∷ []) identity) payload db

-- `GET /inventory/products`
unfoldable pub list_products : Identity → Db → List ProductOut
list_products identity db = Service.list_products db

module _ {C X Body : Type 0} (platform : Platform ProductOut C X Body) where
  abbrev pub from_table : ℕ → Option Product → Db → C → Result ProductOut × C
  from_table id none db c = (raise (http 404 "Product not found"), c)
  from_table id (some p) db c =
      (ok p, set_json platform.redis platform.cache_ttl (cache_key id) p none c)

  abbrev pub cached_or_read : ℕ → Option ProductOut → Db → C → Result ProductOut × C
  cached_or_read id (some cached) db c = (ok cached, c)
  cached_or_read id none db c = from_table id (Service.get_product id db) db c

  -- `GET /inventory/products/{product_id}`: cache-aside.
  unfoldable pub get_product : ℕ → Identity → Db → C → Result ProductOut × C
  get_product id identity db c =
      let (cached, c') = get_json platform.redis (cache_key id) c in cached_or_read id cached db c'
