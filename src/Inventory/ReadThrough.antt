-- ===== src/Inventory/ReadThrough.antt =====
-- services/inventory/app/routes.py: `get_product`, reading through the cache.
use ordermesh.Prelude.{ℕ, ◌≡◌, sym, ap, refl, none, some, Option, Text}
use ordermesh.Prelude.Decimal.{to_text_injective}
use ordermesh.Shared.Outcome.{Result, ok, raise, http}
use ordermesh.Shared.Auth.{Identity}
use ordermesh.Shared.Cache.{Raw, get_json}
use ordermesh.Shared.Cache.Server.{IsServer}
use ordermesh.Shared.Cache.Aside.{get_json-row, get_json-IsAside, set_json-IsAside}
use ordermesh.Shared.Platform.{Platform}
use ordermesh.Inventory.Model.{Db, Product, ProductOut}
use ordermesh.Inventory.Service.{cache_key, find_product}
use ordermesh.Inventory.Service
use ordermesh.Inventory.Routes.{from_table, cached_or_read}
use ordermesh.Inventory.Routes
use ordermesh.Inventory.Coherence.{IsCoherent}

cache_key_injective : (a b : ℕ) → cache_key a ≡ cache_key b → a ≡ b
unfolding cache_key
cache_key_injective a b e = to_text_injective a b cc

abbrev pub answer : Option Product → Result ProductOut
answer none = raise (http 404 "Product not found")
answer (some p) = ok p

module _ {C X Body : Type 0} (platform : Platform ProductOut C X Body)
    {view : C → Text → Option (Raw ProductOut)} (server : IsServer platform.redis view) where
  -- With a coherent cache the route answers what the table holds, or 404, whether Redis answers,
  -- misses, raises or holds a text that does not decode, and the cache stays coherent.
  pub get_product_transparent :
      (id : ℕ) (identity : Identity) (db : Db) (c : C)
      → IsCoherent server db c
      → ((Routes.get_product platform id identity db c).0 ≡ answer (find_product id db.products))
        × IsCoherent server db (Routes.get_product platform id identity db c).1
  unfolding Routes.get_product Service.get_product
  get_product_transparent id identity db c h = go (get_json platform.redis (cache_key id) c).0 refl
    where
      c' : C
      c' = (get_json platform.redis (cache_key id) c).1

      kept : IsCoherent server db c'
      kept = get_json-IsAside server id c h

      read :
          (found : Option Product)
          → find_product id db.products ≡ found
          → ((from_table platform id found db c').0 ≡ answer found)
            × IsCoherent server db (from_table platform id found db c').1
      read none e = (refl, kept)
      read (some p) e =
          (refl, set_json-IsAside server cache_key_injective platform.cache_ttl id p none c' e kept)

      go :
          (cached : Option ProductOut)
          → (get_json platform.redis (cache_key id) c).0 ≡ cached
          → ((cached_or_read platform id cached db c').0 ≡ answer (find_product id db.products))
            × IsCoherent server db (cached_or_read platform id cached db c').1
      go (some out) e = (ap answer (sym (get_json-row server id out c h e)), kept)
      go none e = read (find_product id db.products) refl
