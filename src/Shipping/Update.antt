-- ===== src/Shipping/Update.antt =====
-- `PATCH /shipments/{shipment_id}/status`, on every branch.
use text.Mathlib.TextEquality.{eq_iff}
use text.Mathlib.Text.{◌==◌ as str_eq}
use ordermesh.Prelude.{
  ℕ, ◌≡◌, ◌≢◌, ◌∙◌, refl, sym, ap, String, Bool, true, false, Option, none, some, List, [], ◌∷◌,
  ◌==◌, ==_iff, if◌then◌else◌, Bool-cases, inl, inr, arith,
}
use ordermesh.Shared.Outcome.{Result, ok, raise, http}
use ordermesh.Shared.Auth.{Identity, require_role}
use ordermesh.Shared.Cache.{invalidate}
use ordermesh.Shared.Event.{EventType}
use ordermesh.Shared.Platform.{Platform, Host, emit, publish_event}
use ordermesh.Shipping.Model.{Shipment, ShipmentOut, ShipmentStatus, is_delivered, Db}
use ordermesh.Shipping.Service.{find_shipment, get_shipment, write_status, update_status, cache_key}
use ordermesh.Shipping.Routes.{
  delivered_payload, announce_delivery, returning, updated, update_shipment_status,
}

abbrev pub with_status : ShipmentStatus → Option Shipment → Option Shipment
with_status status none = none
with_status status (some s) = some (record s { status = status })

find-write_status :
    (j id : ℕ) (status : ShipmentStatus) (ss : List Shipment)
    → find_shipment j (write_status id status ss)
      ≡ (if id == j then with_status status (find_shipment j ss) else find_shipment j ss)
find-write_status j id status [] = ground arith
find-write_status j id status (s ∷ ss) = ground (arith, find-write_status j id status ss)

find-id : (id : ℕ) (ss : List Shipment) (s : Shipment) → find_shipment id ss ≡ some s → s.id ≡ id
find-id id [] s h = cc
find-id id (t ∷ ss) s h = elim (Bool-cases (t.id == id)) [
  | inl e ↦
      let same : t ≡ s = cc (rw e at h) in
      ap (λ (x : Shipment). x.id) (sym same) ∙ (==_iff t.id id).0 e
  | inr e ↦ find-id id ss s (rw e at h)
]

module _ {C X Body : Type 0} (platform : Platform ShipmentOut C X Body) where
  -- The world behind the exchange afterwards.
  abbrev pub announced : Bool → Shipment → String → X → X
  announced true s rid x =
      (emit platform EventType.shipment_delivered (delivered_payload s) rid x).1
  announced false s rid x = x

  pub data Update (id : ℕ) (status : ShipmentStatus) (identity : Identity) (rid : String)
      (h : Host Db C X) (outcome : Result ShipmentOut × Host Db C X) : Type 0 where
    forbidden :
        identity.role ≢ "ADMIN"
        → outcome ≡ (raise (http 403 "Insufficient permissions"), h)
        → Update id status identity rid h outcome
    missing :
        identity.role ≡ "ADMIN"
        → get_shipment id h.db ≡ none
        → outcome ≡ (raise (http 404 "Shipment not found"), h)
        → Update id status identity rid h outcome
    written :
        identity.role ≡ "ADMIN"
        → (s : Shipment) → get_shipment id h.db ≡ some s
        → ((j : ℕ)
            → find_shipment j outcome.1.db.shipments ≡ (
                if id == j
                then with_status status (find_shipment j h.db.shipments)
                else find_shipment j h.db.shipments))
        → outcome.1.cache ≡ invalidate platform.redis (cache_key id ∷ []) h.cache
        → outcome.1.net ≡ announced (is_delivered status) (record s { status = status }) rid h.net
        → Update id status identity rid h outcome

  after_announcing :
      (b : Bool) (s : Shipment) (rid : String) (h : Host Db C X)
      → let after = (announce_delivery platform b s rid h).1 in
        (after.db ≡ h.db) × (after.cache ≡ h.cache) × (after.net ≡ announced b s rid h.net)
  unfolding publish_event
  after_announcing false s rid h = (refl, refl, refl)
  after_announcing true s rid h =
      go (emit platform EventType.shipment_delivered (delivered_payload s) rid h.net)
    where
      go :
          (m : Result (Unit {0}) × X)
          → let after = (returning s (m.0, record h { net = m.1 })).1 in
            (after.db ≡ h.db) × (after.cache ≡ h.cache) × (after.net ≡ m.1)
      go (ok _, x) = (refl, refl, refl)
      go (raise e, x) = (refl, refl, refl)

  updated-Update :
      (id : ℕ) (status : ShipmentStatus) (identity : Identity) (rid : String) (h : Host Db C X)
      (found : Option Shipment)
      → identity.role ≡ "ADMIN"
      → get_shipment id h.db ≡ found
      → Update id status identity rid h (updated platform found status rid h)
  unfolding update_status get_shipment
  updated-Update id status identity rid h none admin e = missing admin e refl
  updated-Update id status identity rid h (some s) admin e =
      let same : s.id ≡ id = find-id id h.db.shipments s e in
      let s' : Shipment = record s { status = status } in
      let h' : Host Db C X = record h {
        db = record h.db { shipments = write_status s.id status h.db.shipments };
        cache = invalidate platform.redis (cache_key s.id ∷ []) h.cache;
      } in
      let (db, cache, net) = after_announcing (is_delivered status) s' rid h' in
      written admin s e
        (λ j.
          ap (λ (d : Db). find_shipment j d.shipments) db
          ∙ rw same (find-write_status j id status h.db.shipments))
        (cache ∙ rw same) net

  -- Only an admin changes the status of a shipment, others get 403 and an id that is not there 404,
  -- and then nothing changes. Otherwise the shipment has the new status and every other is as it
  -- was, its cache entry is deleted, and if it is delivered the event is published; whether that
  -- succeeds or raises, the new status stays.
  pub update_shipment_status-Update :
      (id : ℕ) (status : ShipmentStatus) (identity : Identity) (rid : String) (h : Host Db C X)
      → Update id status identity rid h (update_shipment_status platform id status identity rid h)
  unfolding update_shipment_status require_role
  update_shipment_status-Update id status identity rid h =
      elim (Bool-cases (str_eq identity.role "ADMIN")) [
        | inl e ↦ rw e (
            updated-Update id status identity rid h (get_shipment id h.db)
              ((eq_iff identity.role "ADMIN").0 e) refl)
        | inr e ↦ rw e (forbidden (λ is. cc (e, (eq_iff identity.role "ADMIN").1 is)) refl)
      ]
