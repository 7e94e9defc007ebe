-- ===== src/Inventory/Interleaving.antt =====
-- The sessions of Sessions.antt, interleaved.
use ordermesh.Prelude.Keys.{HasKeys-select}
use ordermesh.Prelude.{
  ℕ, ◌≡◌, refl, none, some, List, [], ◌∷◌, ◌++◌, All, All-select, subst, ◌∙◌, ap,
}
use ordermesh.Prelude.Int.{◌+ℤ◌}
use ordermesh.Inventory.Model.{Db, Reservation}
use ordermesh.Inventory.Service.{held_by, release_one, release_all, wanted_of}
use ordermesh.Inventory.Stock.{stock, reserved, changed}
use ordermesh.Inventory.Stock.Wanted.{wanted_of-HasDistinctKeys}
use ordermesh.Inventory.Stock.Release.{stock-release_all}
use ordermesh.Inventory.Invariant.{reservation_key, IsHeld, IsValid}
use ordermesh.Inventory.Invariant.Keys.{HasKeys-change_stock, HasDistinctSkus-change_stock}
use ordermesh.Inventory.Safety.{
  AsksForUnits, wanted_of-nonneg, reserve_all-IsValid, release_all-no_oversell,
}
use ordermesh.Inventory.Sessions.{
  Session, Moves, found_held, found_unheld, fell_short, took, read_none, read_some, gave_back,
  Starts, starts_reserving, starts_releasing, Runs, stops, arrives, moves,
}

-- A session asks for no negative quantity, and what it has read is no negative quantity.
abbrev pub IsSound : Session → Type 0
IsSound (Session.reserving o items) = All AsksForUnits items
IsSound (Session.reserving_unheld o items) = All AsksForUnits items
IsSound (Session.releasing o) = Unit
IsSound (Session.releasing_read rs) = All IsHeld rs
IsSound Session.finished = Unit

release_one-IsValid :
    (r : Reservation) (db : Db) → IsValid db → IsHeld r → IsValid (release_one r db)
release_one-IsValid r db v h = record {
  no_oversell = unfold release_all in release_all-no_oversell (r ∷ []) db v (h, tt);
  held = All-select IsHeld _ db.reservations v.held;
  product_keys = HasKeys-change_stock db.product_seq r.product_id _ db.products v.product_keys;
  reservation_keys =
      HasKeys-select reservation_key db.reservation_seq _ db.reservations v.reservation_keys;
  skus = HasDistinctSkus-change_stock r.product_id _ db.products v.skus;
}

-- Whatever reservations a session has read, some of which may be gone by now.
pub release_read-IsValid :
    (rs : List Reservation) (db : Db) → IsValid db → All IsHeld rs → IsValid (release_all rs db)
unfolding release_all
release_read-IsValid [] db v h = v
release_read-IsValid (r ∷ rs) db v h =
    release_read-IsValid rs (release_one r db) (release_one-IsValid r db v h.0) h.1

Moves-IsValid :
    (db next : Db) (s t : Session)
    → IsValid db
    → IsSound s
    → Moves db s next t
    → IsValid next × IsSound t
Moves-IsValid db next s t v h (found_held e) = (v, tt)
Moves-IsValid db next s t v h (found_unheld e) = (v, h)
Moves-IsValid db next s t v h (fell_short e) = (v, tt)
Moves-IsValid db next s t v h (took {o} {items} e) = (
  reserve_all-IsValid o (wanted_of items) db v (wanted_of-HasDistinctKeys items)
      (wanted_of-nonneg items h) e,
  tt,
)
Moves-IsValid db next s t v h (read_none e) = (v, tt)
Moves-IsValid db next s t v h (read_some {o} e) =
    (v, subst (All IsHeld) e (All-select IsHeld _ db.reservations v.held))
Moves-IsValid db next s t v h (gave_back {rs}) = (release_read-IsValid rs db v h, tt)

Starts-IsSound : (s : Session) → Starts s → IsSound s
Starts-IsSound s (starts_reserving h) = h
Starts-IsSound s starts_releasing = tt

IsSound-at :
    (before after : List Session) (s : Session) → All IsSound (before ++ s ∷ after) → IsSound s
IsSound-at [] after s h = h.0
IsSound-at (b ∷ before) after s h = IsSound-at before after s h.1

IsSound-replaced :
    (before after : List Session) (s t : Session)
    → IsSound t
    → All IsSound (before ++ s ∷ after)
    → All IsSound (before ++ t ∷ after)
IsSound-replaced [] after s t ht h = (ht, h.1)
IsSound-replaced (b ∷ before) after s t ht h = (h.0, IsSound-replaced before after s t ht h.1)

-- However sessions that reserve and release stock run interleaved, and whichever arrive in the
-- meantime, valid tables stay valid, if the sessions ask for no negative quantity: the stock of
-- no product falls below zero.
pub Runs-IsValid :
    (db' : Db) (ended : List Session) (db : Db) (ss : List Session)
    → IsValid db
    → All IsSound ss
    → Runs db' ended db ss
    → IsValid db'
Runs-IsValid db' ended db ss v h stops = v
Runs-IsValid db' ended db ss v h (arrives s start rest) =
    Runs-IsValid db' ended db (s ∷ ss) v (Starts-IsSound s start, h) rest
Runs-IsValid db' ended db ss v h (moves before after s t next e move rest) =
    let sound = subst (All IsSound) e h in
    let (v', ht) = Moves-IsValid db next s t v (IsSound-at before after s sound) move in
    Runs-IsValid db' ended next (before ++ t ∷ after) v'
      (IsSound-replaced before after s t ht sound) rest

-- Two sessions that release the same order, which holds something, can both read its reservations
-- before either commits. Then both give them back: the stock of each product grows by twice what
-- the order held.
pub release_race :
    (o : ℕ) (db : Db) (r : Reservation) (rs : List Reservation)
    → held_by o db.reservations ≡ r ∷ rs
    → (db' : Db) × Runs db'
        (Session.finished ∷ Session.finished ∷ [])
        db
        (Session.releasing o ∷ Session.releasing o ∷ [])
      × ((j : ℕ)
          → stock j db'.products
            ≡ changed (λ n. n +ℤ reserved j (r ∷ rs) +ℤ reserved j (r ∷ rs)) (stock j db.products))
release_race o db r rs e =
    let one = release_all (r ∷ rs) db in
    (
      release_all (r ∷ rs) one,
      moves [] (Session.releasing o ∷ []) _ _ db refl (read_some e) (
          moves (Session.releasing_read (r ∷ rs) ∷ []) [] _ _ db refl (read_some e) (
            moves [] (Session.releasing_read (r ∷ rs) ∷ []) _ _ one refl gave_back (
              moves (Session.finished ∷ []) [] _ _ (release_all (r ∷ rs) one) refl gave_back
                stops))),
      λ j.
          stock-release_all j (r ∷ rs) one
          ∙ ap (changed (λ n. n +ℤ reserved j (r ∷ rs))) (stock-release_all j (r ∷ rs) db)
          ∙ twice j (stock j db.products),
    )
  where
    twice :
        (j : ℕ) (found : _)
        → changed (λ n. n +ℤ reserved j (r ∷ rs)) (changed (λ n. n +ℤ reserved j (r ∷ rs)) found)
          ≡ changed (λ n. n +ℤ reserved j (r ∷ rs) +ℤ reserved j (r ∷ rs)) found
    twice j none = refl
    twice j (some n) = refl
