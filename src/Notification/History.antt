-- ===== src/Notification/History.antt =====
-- What the history holds, and what a page of it shows.
use mathlib.Core.List.{Perm}
use mathlib.Core.List.Perm
use ordermesh.Prelude.{
  take, ℕ, zero, suc, ◌≤◌, ◌≡◌, refl, ap, List, [], ◌∷◌, ◌++◌, arith, ltb, Bool-cases, inl, inr,
  All, All-map, length,
}
use ordermesh.Notification.Service.{Notification, Db, insert_desc, sort_desc, list_notifications}

abbrev AtMost : ℕ → List Notification → Type 0
AtMost id = All (λ n. n.id ≤ id)

abbrev pub IsNewestFirst : List Notification → Type 0
IsNewestFirst [] = Unit
IsNewestFirst (n ∷ ns) = AtMost n.id ns × IsNewestFirst ns

insert_desc-AtMost :
    (id : ℕ) (n : Notification) (ns : List Notification)
    → n.id ≤ id
    → AtMost id ns
    → AtMost id (insert_desc n ns)
insert_desc-AtMost id n [] h t = (h, tt)
insert_desc-AtMost id n (m ∷ ms) h t = elim (Bool-cases (ltb n.id m.id)) [
  | inl e ↦ rw e (t.0, insert_desc-AtMost id n ms h t.1)
  | inr e ↦ rw e (h, t)
]

insert_desc-IsNewestFirst :
    (n : Notification) (ns : List Notification)
    → IsNewestFirst ns
    → IsNewestFirst (insert_desc n ns)
insert_desc-IsNewestFirst n [] h = (tt, tt)
insert_desc-IsNewestFirst n (m ∷ ms) h = elim (Bool-cases (ltb n.id m.id)) [
  | inl e ↦
      rw e (insert_desc-AtMost m.id n ms (ground arith) h.0, insert_desc-IsNewestFirst n ms h.1)
  | inr e ↦
      let le : m.id ≤ n.id = ground arith in rw e ((le, All-map (λ x below. omega arith) ms h.0), h)
]

sort_desc-IsNewestFirst : (ns : List Notification) → IsNewestFirst (sort_desc ns)
sort_desc-IsNewestFirst [] = tt
sort_desc-IsNewestFirst (n ∷ ns) =
    insert_desc-IsNewestFirst n (sort_desc ns) (sort_desc-IsNewestFirst ns)

insert_desc-perm : (n : Notification) (ns : List Notification) → Perm (insert_desc n ns) (n ∷ ns)
insert_desc-perm n [] = Perm.refl (n ∷ [])
insert_desc-perm n (m ∷ ms) = elim (Bool-cases (ltb n.id m.id)) [
  | inl e ↦ rw e (Perm.trans (Perm.cons m (insert_desc-perm n ms)) (Perm.swap n m ms))
  | inr e ↦ rw e (Perm.refl (n ∷ m ∷ ms))
]

sort_desc-perm : (ns : List Notification) → Perm (sort_desc ns) ns
sort_desc-perm [] = Perm.refl []
sort_desc-perm (n ∷ ns) =
    Perm.trans (insert_desc-perm n (sort_desc ns)) (Perm.cons n (sort_desc-perm ns))

-- What a page leaves out.
abbrev pub drop : ℕ → List Notification → List Notification
drop zero ns = ns
drop (suc k) [] = []
drop (suc k) (n ∷ ns) = drop k ns

take-drop : (k : ℕ) (ns : List Notification) → take k ns ++ drop k ns ≡ ns
take-drop zero ns = refl
take-drop (suc k) [] = refl
take-drop (suc k) (n ∷ ns) = ap (λ t. n ∷ t) (take-drop k ns)

AtMost-take : (id k : ℕ) (ns : List Notification) → AtMost id ns → AtMost id (take k ns)
AtMost-take id zero ns h = tt
AtMost-take id (suc k) [] h = tt
AtMost-take id (suc k) (n ∷ ns) h = (h.0, AtMost-take id k ns h.1)

AtMost-drop : (id k : ℕ) (ns : List Notification) → AtMost id ns → AtMost id (drop k ns)
AtMost-drop id zero ns h = h
AtMost-drop id (suc k) [] h = tt
AtMost-drop id (suc k) (n ∷ ns) h = AtMost-drop id k ns h.1

take-IsNewestFirst : (k : ℕ) (ns : List Notification) → IsNewestFirst ns → IsNewestFirst (take k ns)
take-IsNewestFirst zero ns h = tt
take-IsNewestFirst (suc k) [] h = tt
take-IsNewestFirst (suc k) (n ∷ ns) h = (AtMost-take n.id k ns h.0, take-IsNewestFirst k ns h.1)

length-take : (k : ℕ) (ns : List Notification) → length (take k ns) ≤ k
length-take zero ns = omega arith
length-take (suc k) [] = omega arith
length-take (suc k) (n ∷ ns) = omega (arith, length-take k ns)

drop-older :
    (k : ℕ) (ns : List Notification)
    → IsNewestFirst ns
    → All (λ n. AtMost n.id (drop k ns)) (take k ns)
drop-older zero ns h = tt
drop-older (suc k) [] h = tt
drop-older (suc k) (n ∷ ns) h = (AtMost-drop n.id k ns h.0, drop-older k ns h.1)

-- A page has at most `limit` rows, newest id first. Together with what it leaves out it is the
-- whole table, and no row that it leaves out has a higher id than one that it shows.
pub list_notifications_page :
    (limit : ℕ) (db : Db)
    → let page = list_notifications limit db in
      (length page ≤ limit)
      × IsNewestFirst page
      × ((rest : List Notification) × Perm (page ++ rest) db.notifications
          × All (λ n. AtMost n.id rest) page)
unfolding list_notifications
list_notifications_page limit db =
    let sorted = sort_desc db.notifications in
    let newest = sort_desc-IsNewestFirst db.notifications in
    (
      length-take limit sorted,
      take-IsNewestFirst limit sorted newest,
      (
        drop limit sorted,
        rw take-drop (sort_desc-perm db.notifications),
        drop-older limit sorted newest,
      ),
    )
