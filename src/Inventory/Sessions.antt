-- ===== src/Inventory/Sessions.antt =====
-- services/inventory/app/service.py under concurrency. A session of `reserve_for_order` or
-- `release_for_order` reads without a lock whether there is something to do; then it locks the rows
-- of the products with `with_for_update`, works on them and commits, and no other session comes in
-- between, since it would wait for the lock.
use ordermesh.Prelude.{ℕ, ◌≡◌, true, false, none, some, List, [], ◌∷◌, ◌++◌, All}
use ordermesh.Shared.Event.{Item}
use ordermesh.Inventory.Model.{Db, Reservation}
use ordermesh.Inventory.Safety.{AsksForUnits}
use ordermesh.Inventory.Service.{
  first_reservation, available, wanted_of, reserve_all, held_by, release_all,
}

pub data Session : Type 0 where
  -- before the first select, and after it has found that there is something to do
  reserving reserving_unheld : ℕ → List Item → Session
  releasing : ℕ → Session
  -- with the reservations that it has read
  releasing_read : List Reservation → Session
  finished : Session

-- One step of a session.
pub data Moves (db : Db) : Session → Db → Session → Type 0 where
  found_held :
      {o : ℕ} {items : List Item} {r : Reservation}
      → first_reservation o db ≡ some r
      → Moves db (Session.reserving o items) db Session.finished
  found_unheld :
      {o : ℕ} {items : List Item}
      → first_reservation o db ≡ none
      → Moves db (Session.reserving o items) db (Session.reserving_unheld o items)
  fell_short :
      {o : ℕ} {items : List Item}
      → available (wanted_of items) db.products ≡ false
      → Moves db (Session.reserving_unheld o items) db Session.finished
  took :
      {o : ℕ} {items : List Item}
      → available (wanted_of items) db.products ≡ true
      → Moves db
          (Session.reserving_unheld o items)
          (reserve_all o (wanted_of items) db)
          Session.finished
  read_none :
      {o : ℕ} → held_by o db.reservations ≡ [] → Moves db (Session.releasing o) db Session.finished
  read_some :
      {o : ℕ} {r : Reservation} {rs : List Reservation}
      → held_by o db.reservations ≡ r ∷ rs
      → Moves db (Session.releasing o) db (Session.releasing_read (r ∷ rs))
  gave_back :
      {rs : List Reservation}
      → Moves db (Session.releasing_read rs) (release_all rs db) Session.finished

-- What an event brings in; the quantities of an order are never negative.
pub data Starts : Session → Type 0 where
  starts_reserving :
      {o : ℕ} {items : List Item} → All AsksForUnits items → Starts (Session.reserving o items)
  starts_releasing : {o : ℕ} → Starts (Session.releasing o)

-- The sessions run interleaved, and new ones arrive at any time.
pub data Runs (db' : Db) (ended : List Session) : Db → List Session → Type 0 where
  stops : Runs db' ended db' ended
  arrives :
      {db : Db} {ss : List Session} (s : Session)
      → Starts s
      → Runs db' ended db (s ∷ ss)
      → Runs db' ended db ss
  moves :
      {db : Db} {ss : List Session} (before after : List Session) (s t : Session) (next : Db)
      → ss ≡ before ++ s ∷ after
      → Moves db s next t
      → Runs db' ended next (before ++ t ∷ after)
      → Runs db' ended db ss
