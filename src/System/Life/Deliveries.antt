-- ===== src/System/Life/Deliveries.antt =====
-- Deliveries while the order is on its way, at any service and in any order.
use ordermesh.Prelude.{ℕ, ◌≡◌, ◌∙◌, sym, refl, none, List, [], ◌∷◌, map}
use ordermesh.Shared.Event.{Item}
use ordermesh.Inventory.Model as InventoryModel
use ordermesh.Inventory.Service.{first_reservation, available, wanted_of}
use ordermesh.Order.Model.{Order}
use ordermesh.System.Rabbit.{
  Queue, order_events, inventory_events, shipping_events, notification_events,
}
use ordermesh.System.Truth.{IsRoundTrip}
use ordermesh.System.Life.Stage.{
  Stage, placed, reserved, confirmed_first, sent_first, announced, over, placed_short, declined,
  dropped, fillable, fillable-next, next, advance,
}
use ordermesh.System.Life.At.{At, Saying}
use ordermesh.System.Life.Stock.{reserve-At}
use ordermesh.System.Life.Short.{decline-At}
use ordermesh.System.Life.Order.{confirm_first-At, confirm_last-At, drop-At, ship-At}
use ordermesh.System.Life.Shipment.{send_first-At, send_last-At}
use ordermesh.System.Life.Email.{email-At}
use ordermesh.System.{System, Env, deliver, step, run}

pub saying-nothing :
    {C Body : Type 0} (env : Env C Body) (id : ℕ) (items : List Item) (ms : List _)
    → Saying env id items [] ms
    → ms ≡ []
saying-nothing env id items [] h = refl
saying-nothing env id items (m ∷ ms) h = absurd h

module _ {C Body : Type 0} (env : Env C Body) (round_trip : IsRoundTrip env) (id : ℕ)
    (items : List Item) (o : Order) (before : InventoryModel.Db)
    (fresh : first_reservation id before ≡ none) where
  -- A delivery where nothing waits.
  idle-At :
      (q : Queue) (st : Stage) (s : System C Body)
      → At env id items o before st s
      → Saying env id items [] (s.net.queues q)
      → At env id items o before st (step env (deliver q) s)
  unfolding step
  idle-At q st s at none_waits = rw (saying-nothing env id items (s.net.queues q) none_waits) at

  deliver-At :
      (q : Queue) (st : Stage) (s : System C Body)
      → available (wanted_of items) before.products ≡ fillable st
      → At env id items o before st s
      → At env id items o before (next q st) (step env (deliver q) s)
  unfolding step
  deliver-At order_events placed s covers at = idle-At order_events placed s at at.order
  deliver-At inventory_events placed s covers at =
      reserve-At env id items o before fresh covers round_trip s at _ refl at.inventory
  deliver-At shipping_events placed s covers at = idle-At shipping_events placed s at at.shipping
  deliver-At notification_events placed s covers at =
      email-At env id items o before placed s _ at refl at.emails
  deliver-At order_events reserved s covers at =
      confirm_first-At env id items o before s _ at refl at.order
  deliver-At inventory_events reserved s covers at =
      idle-At inventory_events reserved s at at.inventory
  deliver-At shipping_events reserved s covers at =
      send_first-At env id items o before s round_trip _ at refl at.shipping
  deliver-At notification_events reserved s covers at =
      email-At env id items o before reserved s _ at refl at.emails
  deliver-At order_events confirmed_first s covers at =
      idle-At order_events confirmed_first s at at.order
  deliver-At inventory_events confirmed_first s covers at =
      idle-At inventory_events confirmed_first s at at.inventory
  deliver-At shipping_events confirmed_first s covers at =
      send_last-At env id items o before s round_trip _ at refl at.shipping
  deliver-At notification_events confirmed_first s covers at =
      email-At env id items o before confirmed_first s _ at refl at.emails
  deliver-At order_events sent_first s covers at =
      confirm_last-At env id items o before s _ at refl at.order
  deliver-At inventory_events sent_first s covers at =
      idle-At inventory_events sent_first s at at.inventory
  deliver-At shipping_events sent_first s covers at =
      idle-At shipping_events sent_first s at at.shipping
  deliver-At notification_events sent_first s covers at =
      email-At env id items o before sent_first s _ at refl at.emails
  deliver-At order_events announced s covers at = ship-At env id items o before s _ at refl at.order
  deliver-At inventory_events announced s covers at =
      idle-At inventory_events announced s at at.inventory
  deliver-At shipping_events announced s covers at =
      idle-At shipping_events announced s at at.shipping
  deliver-At notification_events announced s covers at =
      email-At env id items o before announced s _ at refl at.emails
  deliver-At order_events over s covers at = idle-At order_events over s at at.order
  deliver-At inventory_events over s covers at = idle-At inventory_events over s at at.inventory
  deliver-At shipping_events over s covers at = idle-At shipping_events over s at at.shipping
  deliver-At notification_events over s covers at =
      email-At env id items o before over s _ at refl at.emails
  deliver-At order_events placed_short s covers at = idle-At order_events placed_short s at at.order
  deliver-At inventory_events placed_short s covers at =
      decline-At env id items o before fresh covers round_trip s at _ refl at.inventory
  deliver-At shipping_events placed_short s covers at =
      idle-At shipping_events placed_short s at at.shipping
  deliver-At notification_events placed_short s covers at =
      email-At env id items o before placed_short s _ at refl at.emails
  deliver-At order_events declined s covers at = drop-At env id items o before s _ at refl at.order
  deliver-At inventory_events declined s covers at =
      idle-At inventory_events declined s at at.inventory
  deliver-At shipping_events declined s covers at =
      idle-At shipping_events declined s at at.shipping
  deliver-At notification_events declined s covers at =
      email-At env id items o before declined s _ at refl at.emails
  deliver-At order_events dropped s covers at = idle-At order_events dropped s at at.order
  deliver-At inventory_events dropped s covers at =
      idle-At inventory_events dropped s at at.inventory
  deliver-At shipping_events dropped s covers at = idle-At shipping_events dropped s at at.shipping
  deliver-At notification_events dropped s covers at =
      email-At env id items o before dropped s _ at refl at.emails

  pub run-At :
      (qs : List Queue) (st : Stage) (s : System C Body)
      → available (wanted_of items) before.products ≡ fillable st
      → At env id items o before st s
      → At env id items o before (advance qs st) (run env (map deliver qs) s)
  unfolding run
  run-At [] st s covers at = at
  run-At (q ∷ qs) st s covers at =
      run-At qs (next q st) (step env (deliver q) s) (covers ∙ sym (fillable-next q st))
        (deliver-At q st s covers at)
