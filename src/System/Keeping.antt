-- ===== src/System/Keeping.antt =====
-- shared/shared/events/consumer.py, `_handle`: a predicate on the state that the calls of the
-- channel and the handlers keep.
use ordermesh.Prelude.{
  ℕ, ◌+◌, ◌≡◌, refl, sym, String, Option, none, some, [], ◌∷◌, inl, inr, Bool-cases, leb, All,
}
use text.Mathlib.Text.{◌==◌ as str_eq}
use text.Mathlib.TextEquality.{eq_iff}
use ordermesh.Shared.Outcome.{Result, ok, raise}
use ordermesh.Shared.Event.{Event}
use ordermesh.Shared.Broker.{Message}
use ordermesh.Shared.Consumer.{
  Channel, Handler, Handlers, handler_for, has_request_id, set_retry, run_handler, then_ack,
  on_failure, dispatch, attempt, caught, with_retry, handle, int_of, retry_header,
}

module _ {Body W : Type 0} (P : W → Type 0) (ch : Channel Body W) (validate : Body → Result Event)
    (m : Message Body) where
  pub record Calls : Type 0 where
    pub ack : (w : W) → P w → P (ch.ack m w).1
    pub reject : (w : W) → P w → P (ch.reject m w).1
    pub sleep : (n : ℕ) (w : W) → P w → P (ch.sleep n w)
    pub publish :
        (n : ℕ) (w : W) → P w → P (ch.publish (record m { headers = set_retry n m.headers }) w).1

  -- The handler registered under a key keeps `P` at the events of the message that have the key.
  abbrev pub Keeps : String × Handler W → Type 0
  Keeps (key, h) =
      (e : Event)
      → validate m.body ≡ ok e
      → e.event_type ≡ key
      → (ctx : String) (w : W) → P w
      → P (h e ctx w).1

  KeepsFound : Option (Handler W) → Event → Type 0
  KeepsFound none e = Unit
  KeepsFound (some h) e = (ctx : String) (w : W) → P w → P (h e ctx w).1

  handler_for-Keeps :
      (hs : Handlers W) (e : Event)
      → validate m.body ≡ ok e
      → All Keeps hs
      → KeepsFound (handler_for e.event_type hs) e
  unfolding KeepsFound
  handler_for-Keeps [] e v k = tt
  handler_for-Keeps ((key, h) ∷ hs) e v k = elim (Bool-cases (str_eq key e.event_type)) [
    | inl same ↦ rw same (k.0 e v (sym ((eq_iff key e.event_type).0 same)))
    | inr other ↦ rw other (handler_for-Keeps hs e v k.1)
  ]

  module _ (calls : Calls) where
    then_ack-keeps : (r : Result (Unit {0})) (w : W) → P w → P (then_ack ch m (r, w)).1
    then_ack-keeps (ok _) w p = calls.ack w p
    then_ack-keeps (raise e) w p = p

    run_handler-keeps :
        (found : Option (Handler W)) (e : Event)
        → KeepsFound found e
        → (ctx : String) (w : W) → P w
        → P (run_handler ch m found e ctx w).1
    unfolding KeepsFound
    run_handler-keeps none e k ctx w p = calls.ack w p
    run_handler-keeps (some h) e k ctx w p = then_ack-keeps (h e ctx w).0 (h e ctx w).1 (k ctx w p)

    on_failure-keeps : (n : ℕ) (w : W) → P w → P (on_failure ch m n w).1
    unfolding on_failure
    on_failure-keeps n w p = elim (Bool-cases (leb 3 (n + 1))) [
      | inl over ↦ rw over (calls.reject w p)
      | inr more ↦ rw more (then_ack-keeps _ _ (calls.publish (n + 1) _ (calls.sleep _ w p)))
    ]

    caught-keeps : (n : ℕ) (r : Result (Unit {0})) (w : W) → P w → P (caught ch m n r w).1
    caught-keeps n (ok _) w p = p
    caught-keeps n (raise e) w p = on_failure-keeps n w p

    module _ (hs : Handlers W) (keeps : All Keeps hs) where
      dispatch-keeps :
          (e : Event)
          → validate m.body ≡ ok e
          → (rid : Option String) (ctx : String) (w : W) → P w
          → P (dispatch ch hs m e rid ctx w).world
      dispatch-keeps e v none ctx w p =
          run_handler-keeps _ e (handler_for-Keeps hs e v keeps) ctx w p
      dispatch-keeps e v (some rid) ctx w p =
          run_handler-keeps _ e (handler_for-Keeps hs e v keeps) rid w p

      attempt-keeps :
          (r : Result Event)
          → validate m.body ≡ r
          → (ctx : String) (w : W) → P w
          → P (attempt ch hs m r ctx w).world
      unfolding attempt
      attempt-keeps (raise e) v ctx w p = p
      attempt-keeps (ok e) v ctx w p = dispatch-keeps e v (has_request_id e.request_id) ctx w p

      with_retry-keeps :
          (n : Result ℕ) (ctx : String) (w : W) → P w → P (with_retry ch validate hs m n ctx w).1.1
      with_retry-keeps (raise e) ctx w p = p
      with_retry-keeps (ok n) ctx w p =
          let a = attempt ch hs m (validate m.body) ctx w in
          caught-keeps n a.result a.world (attempt-keeps (validate m.body) refl ctx w p)

      -- What the calls of the channel and the handlers keep, a delivery keeps.
      pub handle-keeps : (ctx : String) (w : W) → P w → P (handle ch validate hs m ctx w).1.1
      unfolding handle
      handle-keeps ctx w p = with_retry-keeps (int_of (retry_header m.headers)) ctx w p
