-- ===== src/System/Life/Stage.antt =====
-- The stages of an order, by what waits in the queues of three services: OrderCreated at the
-- inventory, StockReserved at the shipping and the order service, and ShipmentCreated at the order
-- service; or, where the stock is short, OrderCreated and then StockUnavailable.
use ordermesh.Prelude.{
  ℕ, ◌-◌, ◌≤◌, ◌≡◌, ◌∙◌, ap, refl, Bool, true, false, ◌||◌, List, [], ◌∷◌, ◌++◌, All, arith, String,
  length,
}
use ordermesh.Order.Model.{OrderStatus, pending, confirmed, shipped, cancelled}
use ordermesh.System.Rabbit.{
  Queue, order_events, inventory_events, shipping_events, notification_events, same_queue,
}

pub data Stage : Type 0 where
  placed reserved confirmed_first sent_first announced over placed_short declined dropped : Stage

-- The kinds of messages that wait at a service, in their order.
abbrev pub waiting : Stage → Queue → List String
waiting placed inventory_events = "OrderCreated" ∷ []
waiting reserved shipping_events = "StockReserved" ∷ []
waiting reserved order_events = "StockReserved" ∷ []
waiting confirmed_first shipping_events = "StockReserved" ∷ []
waiting sent_first order_events = "StockReserved" ∷ "ShipmentCreated" ∷ []
waiting announced order_events = "ShipmentCreated" ∷ []
waiting placed_short inventory_events = "OrderCreated" ∷ []
waiting declined order_events = "StockUnavailable" ∷ []
waiting _ _ = []

abbrev pub status_at : Stage → OrderStatus
status_at placed = pending
status_at reserved = pending
status_at confirmed_first = confirmed
status_at sent_first = pending
status_at announced = confirmed
status_at over = shipped
status_at placed_short = pending
status_at declined = pending
status_at dropped = cancelled

-- Whether the stock covers the order, and the last stage by that.
abbrev pub fillable : Stage → Bool
fillable placed_short = false
fillable declined = false
fillable dropped = false
fillable _ = true

abbrev pub last_stage : Bool → Stage
last_stage true = over
last_stage false = dropped

-- A delivery at a service.
abbrev pub next : Queue → Stage → Stage
next inventory_events placed = reserved
next shipping_events reserved = sent_first
next order_events reserved = confirmed_first
next shipping_events confirmed_first = announced
next order_events sent_first = announced
next order_events announced = over
next inventory_events placed_short = declined
next order_events declined = dropped
next _ st = st

abbrev pub advance : List Queue → Stage → Stage
advance [] st = st
advance (q ∷ qs) st = advance qs (next q st)

abbrev pub left : Stage → ℕ
left placed = 4
left reserved = 3
left confirmed_first = 2
left sent_first = 2
left announced = 1
left over = 0
left placed_short = 2
left declined = 1
left dropped = 0

-- A service where something waits.
abbrev due : Stage → Queue
due placed = inventory_events
due reserved = shipping_events
due confirmed_first = shipping_events
due sent_first = order_events
due announced = order_events
due over = order_events
due placed_short = inventory_events
due declined = order_events
due dropped = order_events

abbrev mem_queue : Queue → List Queue → Bool
mem_queue q [] = false
mem_queue q (p ∷ ps) = same_queue p q || mem_queue q ps

-- Each of the three services gets at least one delivery, in any order and among any others.
pub record IsRound (qs : List Queue) : Type 0 where
  pub inventory : mem_queue inventory_events qs ≡ true
  pub shipping : mem_queue shipping_events qs ≡ true
  pub order : mem_queue order_events qs ≡ true

due-mem : (qs : List Queue) (st : Stage) → IsRound qs → mem_queue (due st) qs ≡ true
due-mem qs placed r = r.inventory
due-mem qs reserved r = r.shipping
due-mem qs confirmed_first r = r.shipping
due-mem qs sent_first r = r.order
due-mem qs announced r = r.order
due-mem qs over r = r.order
due-mem qs placed_short r = r.inventory
due-mem qs declined r = r.order
due-mem qs dropped r = r.order

-- A delivery changes nothing, or there is less left.
data Effect (q : Queue) (st : Stage) : Type 0 where
  idle : next q st ≡ st → same_queue q (due st) ≡ false → Effect q st
  onward : left (next q st) ≤ left st - 1 → Effect q st

effect : (q : Queue) (st : Stage) → Effect q st
effect order_events placed = idle refl refl
effect inventory_events placed = onward (omega arith)
effect shipping_events placed = idle refl refl
effect notification_events placed = idle refl refl
effect order_events reserved = onward (omega arith)
effect inventory_events reserved = idle refl refl
effect shipping_events reserved = onward (omega arith)
effect notification_events reserved = idle refl refl
effect order_events confirmed_first = idle refl refl
effect inventory_events confirmed_first = idle refl refl
effect shipping_events confirmed_first = onward (omega arith)
effect notification_events confirmed_first = idle refl refl
effect order_events sent_first = onward (omega arith)
effect inventory_events sent_first = idle refl refl
effect shipping_events sent_first = idle refl refl
effect notification_events sent_first = idle refl refl
effect order_events announced = onward (omega arith)
effect inventory_events announced = idle refl refl
effect shipping_events announced = idle refl refl
effect notification_events announced = idle refl refl
effect order_events over = onward (omega arith)
effect inventory_events over = onward (omega arith)
effect shipping_events over = onward (omega arith)
effect notification_events over = onward (omega arith)
effect order_events placed_short = idle refl refl
effect inventory_events placed_short = onward (omega arith)
effect shipping_events placed_short = idle refl refl
effect notification_events placed_short = idle refl refl
effect order_events declined = onward (omega arith)
effect inventory_events declined = idle refl refl
effect shipping_events declined = idle refl refl
effect notification_events declined = idle refl refl
effect order_events dropped = onward (omega arith)
effect inventory_events dropped = onward (omega arith)
effect shipping_events dropped = onward (omega arith)
effect notification_events dropped = onward (omega arith)

pub fillable-next : (q : Queue) (st : Stage) → fillable (next q st) ≡ fillable st
fillable-next order_events placed = refl
fillable-next inventory_events placed = refl
fillable-next shipping_events placed = refl
fillable-next notification_events placed = refl
fillable-next order_events reserved = refl
fillable-next inventory_events reserved = refl
fillable-next shipping_events reserved = refl
fillable-next notification_events reserved = refl
fillable-next order_events confirmed_first = refl
fillable-next inventory_events confirmed_first = refl
fillable-next shipping_events confirmed_first = refl
fillable-next notification_events confirmed_first = refl
fillable-next order_events sent_first = refl
fillable-next inventory_events sent_first = refl
fillable-next shipping_events sent_first = refl
fillable-next notification_events sent_first = refl
fillable-next order_events announced = refl
fillable-next inventory_events announced = refl
fillable-next shipping_events announced = refl
fillable-next notification_events announced = refl
fillable-next order_events over = refl
fillable-next inventory_events over = refl
fillable-next shipping_events over = refl
fillable-next notification_events over = refl
fillable-next order_events placed_short = refl
fillable-next inventory_events placed_short = refl
fillable-next shipping_events placed_short = refl
fillable-next notification_events placed_short = refl
fillable-next order_events declined = refl
fillable-next inventory_events declined = refl
fillable-next shipping_events declined = refl
fillable-next notification_events declined = refl
fillable-next order_events dropped = refl
fillable-next inventory_events dropped = refl
fillable-next shipping_events dropped = refl
fillable-next notification_events dropped = refl

pub fillable-advance : (qs : List Queue) (st : Stage) → fillable (advance qs st) ≡ fillable st
fillable-advance [] st = refl
fillable-advance (q ∷ qs) st = fillable-advance qs (next q st) ∙ fillable-next q st

advance-le : (qs : List Queue) (st : Stage) → left (advance qs st) ≤ left st
advance-le [] st = omega arith
advance-le (q ∷ qs) st = elim (effect q st) [
  | idle same other ↦ rw same (advance-le qs st)
  | onward less ↦ omega (arith, advance-le qs (next q st))
]

advance-due :
    (qs : List Queue) (st : Stage)
    → mem_queue (due st) qs ≡ true
    → left (advance qs st) ≤ left st - 1
advance-due [] st h = cc
advance-due (q ∷ qs) st h = elim (effect q st) [
  | idle same other ↦ rw same (advance-due qs st (rw other at h))
  | onward less ↦ omega (arith, advance-le qs (next q st))
]

abbrev pub all_of : List (List Queue) → List Queue
all_of [] = []
all_of (r ∷ rs) = r ++ all_of rs

advance-append :
    (ps qs : List Queue) (st : Stage) → advance (ps ++ qs) st ≡ advance qs (advance ps st)
advance-append [] qs st = refl
advance-append (p ∷ ps) qs st = advance-append ps qs (next p st)

left-zero : (st : Stage) → left st ≤ 0 → st ≡ last_stage (fillable st)
left-zero placed h = absurd (omega arith)
left-zero reserved h = absurd (omega arith)
left-zero confirmed_first h = absurd (omega arith)
left-zero sent_first h = absurd (omega arith)
left-zero announced h = absurd (omega arith)
left-zero over h = refl
left-zero placed_short h = absurd (omega arith)
left-zero declined h = absurd (omega arith)
left-zero dropped h = refl

-- As many rounds as there are steps left end it.
pub rounds_end :
    (rounds : List (List Queue)) (st : Stage)
    → All IsRound rounds
    → left st ≤ length rounds
    → advance (all_of rounds) st ≡ last_stage (fillable st)
rounds_end [] st h le = left-zero st le
rounds_end (r ∷ rs) st h le =
    advance-append r (all_of rs) st
    ∙ rounds_end rs (advance r st) h.1 (omega (arith, advance-due r st (due-mem r st h.0)))
    ∙ ap last_stage (fillable-advance r st)
