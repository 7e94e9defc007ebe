-- ===== src/Shipping/Coherence.antt =====
-- services/shipping/app: the cache of shipments beside the table.
use ordermesh.Prelude.{
  ℕ, ◌≡◌, ◌∙◌, sym, ap, refl, none, some, Option, Text, first-append_some, ◌==◌, ==_ne, String,
}
use ordermesh.Prelude.Decimal.{to_text_injective}
use ordermesh.Shared.Outcome.{Result, ok, raise, http}
use ordermesh.Shared.Auth.{Identity}
use ordermesh.Shared.Cache.{Raw, get_json}
use ordermesh.Shared.Cache.Server.{IsServer, IsReachable}
use ordermesh.Shared.Cache.Aside.{
  IsAside, get_json-row, get_json-IsAside, set_json-IsAside, invalidate-IsAside,
}
use ordermesh.Shared.Platform.{Platform, Host}
use ordermesh.Shipping.Model.{Shipment, ShipmentOut, ShipmentStatus, Db}
use ordermesh.Shipping.Service.{
  cache_key, find_shipment, get_shipment, for_order, create_unless, create_shipment,
}
use ordermesh.Shipping.Routes.{from_table, cached_or_read, update_shipment_status}
use ordermesh.Shipping.Routes
use ordermesh.Shipping.Update.{Update, forbidden, missing, written, update_shipment_status-Update}

cache_key_injective : (a b : ℕ) → cache_key a ≡ cache_key b → a ≡ b
unfolding cache_key
cache_key_injective a b e = to_text_injective a b cc

-- What the table answers.
abbrev pub answer : Option Shipment → Result ShipmentOut
answer none = raise (http 404 "Shipment not found")
answer (some s) = ok s

module _ {C X Body : Type 0} (platform : Platform ShipmentOut C X Body)
    {view : C → Text → Option (Raw ShipmentOut)} (server : IsServer platform.redis view) where
  -- A shipment that the server holds is the table's row.
  abbrev pub IsCoherent : Db → C → Type 0
  IsCoherent db c = IsAside view cache_key (λ id. find_shipment id db.shipments) c

  -- The consumer's insert leaves the cache alone, and it stays coherent.
  pub create_shipment-IsCoherent :
      (year draw order_id : ℕ) (db : Db) (c : C)
      → IsCoherent db c
      → IsCoherent (create_shipment year draw order_id db).1 c
  unfolding create_shipment
  create_shipment-IsCoherent year draw order_id db c h = go (for_order order_id db.shipments)
    where
      go : (found : Option Shipment) → IsCoherent (create_unless found year draw order_id db).1 c
      go (some s) = h
      go none = record {
        agrees =
            λ j out e. first-append_some (λ x. x.id == j) db.shipments _ out (h.agrees j out e);
      }

  -- While Redis can be reached, a request that changes a status keeps the cache coherent, whatever its
  -- outcome: refused, not found, written, or written with a publication that raises.
  pub update_shipment_status-IsCoherent :
      IsReachable platform.redis
      → (id : ℕ) (status : ShipmentStatus) (identity : Identity) (rid : String) (h : Host Db C X)
      → IsCoherent h.db h.cache
      → let after = (update_shipment_status platform id status identity rid h).1 in
        IsCoherent after.db after.cache
  update_shipment_status-IsCoherent up id status identity rid h coherent =
      go (update_shipment_status platform id status identity rid h)
        (update_shipment_status-Update platform id status identity rid h)
    where
      go :
          (outcome : Result ShipmentOut × Host Db C X)
          → Update platform id status identity rid h outcome
          → IsCoherent outcome.1.db outcome.1.cache
      go outcome (forbidden _ e) = rw e coherent
      go outcome (missing _ _ e) = rw e coherent
      go outcome (written _ _ _ rows cache _) = rw cache (
          invalidate-IsAside server up id (λ j. find_shipment j outcome.1.db.shipments) h.cache
            (λ j other. rows j ∙ rw (==_ne id j other) refl) coherent)

  -- With a coherent cache the route answers what the table holds, whether Redis answers, misses or
  -- raises, and the cache stays coherent.
  pub get_shipment_transparent :
      (id : ℕ) (identity : Identity) (db : Db) (c : C)
      → IsCoherent db c
      → ((Routes.get_shipment platform id identity db c).0 ≡ answer (get_shipment id db))
        × IsCoherent db (Routes.get_shipment platform id identity db c).1
  unfolding Routes.get_shipment get_shipment
  get_shipment_transparent id identity db c h = go (get_json platform.redis (cache_key id) c).0 refl
    where
      c' : C
      c' = (get_json platform.redis (cache_key id) c).1

      kept : IsCoherent db c'
      kept = get_json-IsAside server id c h

      read :
          (found : Option Shipment)
          → find_shipment id db.shipments ≡ found
          → ((from_table platform id found c').0 ≡ answer found)
            × IsCoherent db (from_table platform id found c').1
      read none e = (refl, kept)
      read (some s) e =
          (refl, set_json-IsAside server cache_key_injective platform.cache_ttl id s none c' e kept)

      go :
          (cached : Option ShipmentOut)
          → (get_json platform.redis (cache_key id) c).0 ≡ cached
          → ((cached_or_read platform id cached db c').0 ≡ answer (find_shipment id db.shipments))
            × IsCoherent db (cached_or_read platform id cached db c').1
      go (some out) e = (ap answer (sym (get_json-row server id out c h e)), kept)
      go none e = read (find_shipment id db.shipments) refl
