-- ===== src/Order/Coherence.antt =====
-- services/order/app: the cache of orders beside the table.
use ordermesh.Prelude.{
  ℕ, ◌≡◌, ◌∙◌, sym, ap, refl, none, some, Option, [], ◌∷◌, Text, Bool-cases, inl, inr, ==_ne,
  String,
}
use ordermesh.Prelude.Decimal.{to_text_injective}
use ordermesh.Shared.Outcome.{Result, ok, raise, http}
use ordermesh.Shared.Auth.{Identity}
use ordermesh.Shared.Cache.{Raw, get_json, invalidate}
use ordermesh.Shared.Cache.Server.{IsServer, IsReachable}
use ordermesh.Shared.Cache.Aside.{
  IsAside, get_json-row, get_json-IsAside, set_json-IsAside, invalidate-IsAside,
}
use ordermesh.Shared.Event.{EventType}
use ordermesh.Shared.Platform.{Platform, publish_event}
use ordermesh.Order.Model.{Order, OrderOut, OrderStatus, cancelled, same_status, Db}
use ordermesh.Order.Service.{
  State, cache_key, find_order, get_order, write_status, set_status, set_status_of,
  cancelled_payload, cancel_order,
}
use ordermesh.Order.Routes.{may_see, visible, from_table, store_visible, cached_or_read}
use ordermesh.Order.Routes
use ordermesh.Order.Create.{returning-state, db-publish_event, cache-publish_event}
use ordermesh.Order.Status.{find-write_status}

cache_key_injective : (a b : ℕ) → cache_key a ≡ cache_key b → a ≡ b
unfolding cache_key
cache_key_injective a b e = to_text_injective a b cc

-- What the table answers to the caller.
abbrev pub shown_to : Identity → Option Order → Result OrderOut
shown_to identity none = raise (http 404 "Order not found")
shown_to identity (some order) = visible order (may_see identity order.customer_id)

module _ {C X Body : Type 0} (platform : Platform OrderOut C X Body)
    {view : C → Text → Option (Raw OrderOut)} (server : IsServer platform.redis view) where
  -- An order that the server holds is the table's row.
  abbrev pub IsCoherent : Db → C → Type 0
  IsCoherent db c = IsAside view cache_key (λ id. find_order id db.orders) c

  module _ (up : IsReachable platform.redis) where
    written-IsCoherent :
        (id : ℕ) (status : OrderStatus) (db : Db) (c : C)
        → IsCoherent db c
        → IsCoherent
            (record db { orders = write_status id status db.orders })
            (invalidate platform.redis (cache_key id ∷ []) c)
    written-IsCoherent id status db c h =
        invalidate-IsAside server up id (λ j. find_order j (write_status id status db.orders)) c
          (λ j other. find-write_status j id status db.orders ∙ rw (==_ne id j other) refl) h

    -- A status change from an event keeps the cache coherent, while Redis can be reached.
    pub set_status-IsCoherent :
        (id : ℕ) (status : OrderStatus) (h : State platform)
        → IsCoherent h.db h.cache
        → let after = set_status platform id status h in IsCoherent after.db after.cache
    unfolding set_status
    set_status-IsCoherent id status h coherent = go (get_order id h.db)
      where
        go :
            (found : Option Order)
            → let after = set_status_of platform found id status h in
              IsCoherent after.db after.cache
        go none = coherent
        go (some o) = elim (Bool-cases (same_status o.status status)) [
          | inl same ↦ rw same coherent
          | inr new ↦ rw new (written-IsCoherent id status h.db h.cache coherent)
        ]

    -- Cancelling an order keeps the cache coherent while Redis can be reached, whether the
    -- publication succeeds or raises.
    pub cancel_order-IsCoherent :
        (order : Order) (rid : String) (h : State platform)
        → IsCoherent h.db h.cache
        → let after = (cancel_order platform order rid h).1 in IsCoherent after.db after.cache
    unfolding cancel_order
    cancel_order-IsCoherent order rid h coherent =
        let order' = record order { status = cancelled } in
        let written : State platform = record h {
          db = record h.db { orders = write_status order.id cancelled h.db.orders };
          cache = invalidate platform.redis (cache_key order.id ∷ []) h.cache;
        } in
        let p = cancelled_payload order' in
        let event = publish_event platform EventType.order_cancelled p rid written in
        rw
          (
            returning-state order' event,
            db-publish_event platform EventType.order_cancelled p rid written,
            cache-publish_event platform EventType.order_cancelled p rid written,
          )
          (written-IsCoherent order.id cancelled h.db h.cache coherent)

  -- With a coherent cache the route answers the caller what the table holds, with the same check
  -- of the caller, whether Redis answers, misses or raises, and the cache stays coherent.
  pub get_order_transparent :
      (id : ℕ) (identity : Identity) (db : Db) (c : C)
      → IsCoherent db c
      → ((Routes.get_order platform id identity db c).0
          ≡ shown_to identity (find_order id db.orders))
        × IsCoherent db (Routes.get_order platform id identity db c).1
  unfolding Routes.get_order get_order
  get_order_transparent id identity db c h = go (get_json platform.redis (cache_key id) c).0 refl
    where
      c' : C
      c' = (get_json platform.redis (cache_key id) c).1

      kept : IsCoherent db c'
      kept = get_json-IsAside server id c h

      checked :
          (o : Order) (sees : Result (Unit {0}))
          → find_order id db.orders ≡ some o
          → ((store_visible platform id o sees c').0 ≡ visible o sees)
            × IsCoherent db (store_visible platform id o sees c').1
      checked o (ok _) there = (
        refl,
        set_json-IsAside server cache_key_injective platform.cache_ttl id o none c' there kept,
      )
      checked o (raise e) there = (refl, kept)

      read :
          (found : Option Order)
          → find_order id db.orders ≡ found
          → ((from_table platform id found identity c').0 ≡ shown_to identity found)
            × IsCoherent db (from_table platform id found identity c').1
      read none e = (refl, kept)
      read (some o) e = checked o (may_see identity o.customer_id) e

      go :
          (cached : Option OrderOut)
          → (get_json platform.redis (cache_key id) c).0 ≡ cached
          → ((cached_or_read platform id cached identity db c').0
              ≡ shown_to identity (find_order id db.orders))
            × IsCoherent db (cached_or_read platform id cached identity db c').1
      go (some out) e = (ap (shown_to identity) (sym (get_json-row server id out c h e)), kept)
      go none e = read (find_order id db.orders) refl
