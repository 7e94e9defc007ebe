-- ===== src/Shared/Consumer/Poison.antt =====
-- shared/shared/events/consumer.py: a message whose handler always raises.
use text.Mathlib.Text.{◌==◌ as str_eq}
use Prim.Native.Nat.{min}
use ordermesh.Prelude.{
  ℕ, suc, ◌+◌, ◌≡◌, ◌∙◌, ap, refl, String, Option, none, some, List, [], ◌∷◌, inl, inr, Bool-cases,
  leb, ◌++◌, if◌then◌else◌, ◌^◌,
}
use ordermesh.Shared.Outcome.{Result, ok, raise}
use ordermesh.Shared.Event.{Event}
use ordermesh.Shared.Broker.{Message, number}
use ordermesh.Shared.Consumer.{
  Handler, Handlers, handler_for, has_request_id, dispatch, attempt, run_handler, then_ack, caught,
  on_failure, handle, retry_header, int_of,
}
use ordermesh.Shared.Consumer.Link.{Link, channel, lift_all, deliver, drain}
use ordermesh.Shared.Consumer.Delivery.{
  retried, Tried, fine, failed, attempt-Tried, retry_header-set_retry,
}

abbrev pub Raises : {A : Type 0} → Result A → Type 0
Raises (ok a) = ⊥
Raises (raise e) = Unit

abbrev pub AlwaysFails : {A : Type 0} → Event → Option (Handler A) → Type 0
AlwaysFails event none = ⊥
AlwaysFails {A} event (some h) = (ctx : String) (a : A) → Raises (h event ctx a).0

module _ {A Body : Type 0} where
  then_ack-Raises :
      (m : Message Body) (r : Result (Unit {0})) (a : A) (l : Link A Body)
      → Raises r
      → Raises (then_ack channel m (r, record l { app = a })).0
  then_ack-Raises m (ok _) a l h = h
  then_ack-Raises m (raise e) a l h = tt

  -- The link after a failing delivery of `m` with its counter at `n`.
  abbrev next : Message Body → ℕ → Link A Body → A → Link A Body
  next m n l a = if leb 3 (n + 1) then record l { app = a; dead = m ∷ l.dead } else record l {
    app = a;
    acked = m ∷ l.acked;
    pending = l.pending ++ retried m (n + 1) ∷ [];
    slept = l.slept ++ min (2 ^ (n + 1)) 10 ∷ [];
  }

  caught-failing :
      (m : Message Body) (n : ℕ) (l l' : Link A Body) (r : Result (Unit {0}))
      → Raises r
      → Tried m l r l'
      → (a : A) × ((caught channel m n r l').1 ≡ next m n l a)
  unfolding on_failure
  caught-failing m n l l' r bad (fine a er el) = absurd (rw er at bad)
  caught-failing m n l l' r bad (failed a e er el) = (
    a,
    elim (Bool-cases (leb 3 (n + 1))) [
      | inl over ↦ rw (er, el, over)
      | inr more ↦ rw (er, el, more)
    ],
  )

module _ {A Body : Type 0} (validate : Body → Result Event) (hs : Handlers A) where
  run_failing :
      (key : String) (m : Message Body) (event : Event) (ctx : String) (l : Link A Body)
      (hs' : Handlers A)
      → AlwaysFails event (handler_for key hs')
      → Raises (run_handler channel m (handler_for key (lift_all hs')) event ctx l).0
  run_failing key m event ctx l [] h = h
  run_failing key m event ctx l ((k, g) ∷ rest) h = elim (Bool-cases (str_eq k key)) [
    | inl e ↦
        rw e (then_ack-Raises m (g event ctx l.app).0 (g event ctx l.app).1 l (rw e at h ctx l.app))
    | inr e ↦ rw e (run_failing key m event ctx l rest (rw e at h))
  ]

  dispatch_failing :
      (m : Message Body) (event : Event) (rid : Option String) (ctx : String) (l : Link A Body)
      → AlwaysFails event (handler_for event.event_type hs)
      → Raises (dispatch channel (lift_all hs) m event rid ctx l).result
  dispatch_failing m event none ctx l h = run_failing event.event_type m event ctx l hs h
  dispatch_failing m event (some rid) ctx l h = run_failing event.event_type m event rid l hs h

  drain_step :
      (fuel : ℕ) (ctx : String) (l : Link A Body) (m : Message Body) (rest : List (Message Body))
      {l' : Link A Body}
      → l.pending ≡ m ∷ rest
      → deliver validate hs m ctx (record l { pending = rest }) ≡ l'
      → drain validate hs (suc fuel) ctx l ≡ drain validate hs fuel ctx l'
  unfolding drain
  drain_step fuel ctx l m rest p e = rw (p, e)

  drain-zero : (ctx : String) (l : Link A Body) → drain validate hs 0 ctx l ≡ l
  unfolding drain
  drain-zero ctx l = refl

  module _ (m : Message Body) (event : Event) (valid : validate m.body ≡ ok event)
      (bad : AlwaysFails event (handler_for event.event_type hs)) where
    attempt_failing :
        (m' : Message Body) (decoded : Result Event) (ctx : String) (l : Link A Body)
        → decoded ≡ ok event
        → Raises (attempt channel (lift_all hs) m' decoded ctx l).result
    unfolding attempt
    attempt_failing m' decoded ctx l e =
        rw e (dispatch_failing m' event (has_request_id event.request_id) ctx l bad)

    deliver_failing :
        (m' : Message Body) (n : ℕ) (ctx : String) (l : Link A Body)
        → m'.body ≡ m.body
        → int_of (retry_header m'.headers) ≡ ok n
        → (a : A) × (deliver validate hs m' ctx l ≡ next m' n l a)
    unfolding handle
    deliver_failing m' n ctx l e h =
        rw (h, deliver)
          (caught-failing m' n l _ _
            (attempt_failing m' (validate m'.body) ctx l (ap validate e ∙ valid))
            (attempt-Tried hs m' (validate m'.body) ctx l))

    -- A new message that decodes to an event whose handler always raises is tried three times,
    -- after waits of 2 and 4 seconds; its last copy, with the counter at 2, is dead-lettered, the
    -- two before it are acknowledged, and the queue is empty.
    pub poison_dead_letters :
        (ctx : String) (a : A)
        → retry_header m.headers ≡ number 0
        → let l =
            drain validate hs 3 ctx
              (record { app = a; pending = m ∷ []; acked = []; dead = []; slept = [] }) in
          (l.pending ≡ [])
          × (l.dead ≡ retried (retried m 1) 2 ∷ [])
          × (l.acked ≡ retried m 1 ∷ m ∷ [])
          × (l.slept ≡ 2 ∷ 4 ∷ [])
    poison_dead_letters ctx a fresh =
        let l0 : Link A Body = record {
          app = a;
          pending = [];
          acked = [];
          dead = [];
          slept = [];
        } in
        let m1 = retried m 1 in
        let m2 = retried m1 2 in
        let (a1, e1) = deliver_failing m 0 ctx l0 refl (ap int_of fresh) in
        let l1 : Link A Body = record l0 { app = a1; acked = m ∷ []; slept = 2 ∷ [] } in
        let (a2, e2) =
          deliver_failing m1 1 ctx l1 refl (ap int_of (retry_header-set_retry 1 m.headers)) in
        let l2 : Link A Body = record l1 { app = a2; acked = m1 ∷ m ∷ []; slept = 2 ∷ 4 ∷ [] } in
        let (a3, e3) =
          deliver_failing m2 2 ctx l2 refl (ap int_of (retry_header-set_retry 2 m1.headers)) in
        rw
          (drain_step 2 ctx (record l0 { pending = m ∷ [] }) m [] refl e1
            ∙ drain_step 1 ctx (record l1 { pending = m1 ∷ [] }) m1 [] refl e2
            ∙ drain_step 0 ctx (record l2 { pending = m2 ∷ [] }) m2 [] refl e3
            ∙ drain-zero ctx _)
          (refl, refl, refl, refl)
