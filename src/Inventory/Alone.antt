-- ===== src/Inventory/Alone.antt =====
-- services/inventory/app/service.py: a session of Sessions.antt that no other interrupts, against
-- `reserve_for_order` and `release_for_order` as they are written.
use ordermesh.Prelude.{
  ℕ, ◌≡◌, ◌∙◌, refl, sym, Option, none, some, Option-cases, List, [], ◌∷◌, Bool-cases, inl, inr,
  if◌then◌else◌,
}
use ordermesh.Shared.Cache.{Client}
use ordermesh.Shared.Event.{Item}
use ordermesh.Inventory.Model.{Db, ProductOut, Reservation}
use ordermesh.Inventory.Service.{
  first_reservation, available, reserve_for_order, release_for_order, held_by, reserve_all,
  release_all, wanted_of,
}
use ordermesh.Inventory.Reserve.{reserve_held, reserve_short, reserve_new}
use ordermesh.Inventory.Release.{db-release_for_order}
use ordermesh.Inventory.Sessions.{
  Session, Moves, found_held, found_unheld, fell_short, took, read_none, read_some, gave_back,
}

-- The steps of one session up to its end, and the tables that it leaves.
pub data Alone (db' : Db) : Db → Session → Type 0 where
  ended : Alone db' db' Session.finished
  goes :
      {db : Db} {s : Session} (next : Db) (t : Session)
      → Moves db s next t
      → Alone db' next t
      → Alone db' db s

abbrev reserved_unless : Option Reservation → ℕ → List Item → Db → Db
reserved_unless (some r) o items db = db
reserved_unless none o items db =
    if available (wanted_of items) db.products then reserve_all o (wanted_of items) db else db

-- Where a session has still to bring the tables.
abbrev left_to_do : Session → Db → Db
left_to_do (Session.reserving o items) db = reserved_unless (first_reservation o db) o items db
left_to_do (Session.reserving_unheld o items) db = reserved_unless none o items db
left_to_do (Session.releasing o) db = release_all (held_by o db.reservations) db
left_to_do (Session.releasing_read rs) db = release_all rs db
left_to_do Session.finished db = db

left_to_do-Moves :
    (db next : Db) (s t : Session) → Moves db s next t → left_to_do t next ≡ left_to_do s db
left_to_do-Moves db next s t (found_held e) = rw e refl
left_to_do-Moves db next s t (found_unheld e) = rw e refl
left_to_do-Moves db next s t (fell_short e) = rw e refl
left_to_do-Moves db next s t (took e) = rw e refl
left_to_do-Moves db next s t (read_none e) = unfold release_all in rw e refl
left_to_do-Moves db next s t (read_some e) = rw e refl
left_to_do-Moves db next s t gave_back = refl

left_to_do-Alone : (db' db : Db) (s : Session) → Alone db' db s → db' ≡ left_to_do s db
left_to_do-Alone db' db s ended = refl
left_to_do-Alone db' db s (goes next t move rest) =
    left_to_do-Alone db' next t rest ∙ left_to_do-Moves db next s t move

module _ {C : Type 0} (redis : Client C ProductOut) (o : ℕ) (db : Db) (c : C) where
  reserving-Alone :
      (items : List Item)
      → Alone (reserve_for_order redis o items db c).db db (Session.reserving o items)
  reserving-Alone items = elim (Option-cases (first_reservation o db)) [
    | inr (r, e) ↦ rw (reserve_held redis o items db c e) (goes _ _ (found_held e) ended)
    | inl fresh ↦ elim (Bool-cases (available (wanted_of items) db.products)) [
      | inr h ↦
          rw (reserve_short redis o items db c fresh h)
            (goes _ _ (found_unheld fresh) (goes _ _ (fell_short h) ended))
      | inl h ↦
          rw (reserve_new redis o items db c fresh h)
            (goes _ _ (found_unheld fresh) (goes _ _ (took h) ended))
    ]
  ]

  releasing-Alone : Alone (release_for_order redis o db c).1.0 db (Session.releasing o)
  releasing-Alone =
      rw (db-release_for_order redis o db c) (released (held_by o db.reservations) refl)
    where
      released :
          (rs : List Reservation)
          → held_by o db.reservations ≡ rs
          → Alone (release_all rs db) db (Session.releasing o)
      released [] e = unfold release_all in goes _ _ (read_none e) ended
      released (r ∷ rs) e = goes _ _ (read_some e) (goes _ _ gave_back ended)

  -- A session that no other interrupts can run to its end, and then leaves the tables that the
  -- function leaves, and no others: one that reserves those of `reserve_for_order`, and one that
  -- releases those of `release_for_order`.
  pub session-Alone :
      (items : List Item)
      → let reserved_db = (reserve_for_order redis o items db c).db in
        let released_db = (release_for_order redis o db c).1.0 in
        Alone reserved_db db (Session.reserving o items)
        × ((db' : Db) → Alone db' db (Session.reserving o items) → db' ≡ reserved_db)
        × Alone released_db db (Session.releasing o)
        × ((db' : Db) → Alone db' db (Session.releasing o) → db' ≡ released_db)
  session-Alone items = (
    reserving-Alone items,
    λ db' run.
        left_to_do-Alone db' db (Session.reserving o items) run
        ∙ sym (left_to_do-Alone _ db (Session.reserving o items) (reserving-Alone items)),
    releasing-Alone,
    λ db' run.
        left_to_do-Alone db' db (Session.releasing o) run
        ∙ sym (left_to_do-Alone _ db (Session.releasing o) releasing-Alone),
  )
