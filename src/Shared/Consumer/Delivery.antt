-- ===== src/Shared/Consumer/Delivery.antt =====
-- shared/shared/events/consumer.py: one message, from delivery to delivery.
use Prim.Native.Nat.{min}
use text.Mathlib.Text.{◌==◌ as str_eq}
use ordermesh.Prelude.{
  ℕ, ◌+◌, ◌^◌, ◌≤◌, ◌<◌, ◌≡◌, refl, String, Option, none, some, List, [], ◌∷◌, ◌++◌, inl, inr,
  arith, Bool-cases, leb,
}
use ordermesh.Shared.Outcome.{Result, ok, raise, Error}
use ordermesh.Shared.Event.{Event}
use ordermesh.Shared.Broker.{Message, Header, number}
use ordermesh.Shared.Consumer.{
  Handlers, handler_for, has_request_id, dispatch, attempt, run_handler, set_retry, retry_header,
  int_of, then_ack, on_failure, handle, caught,
}
use ordermesh.Shared.Consumer.Link.{Link, channel, lift_all, deliver}

pub retry_header-set_retry :
    (n : ℕ) (headers : List (String × Header)) → retry_header (set_retry n headers) ≡ number n
retry_header-set_retry n [] = refl
retry_header-set_retry n ((k, v) ∷ rest) = elim (Bool-cases (str_eq k "x-retry")) [
  | inl e ↦ rw (e, e)
  | inr e ↦ rw (e, e) (retry_header-set_retry n rest)
]

abbrev pub retried : {Body : Type 0} → Message Body → ℕ → Message Body
retried m n = record m { headers = set_retry n m.headers }

module _ {A Body : Type 0} where
  -- How a delivery of `m`, with the counter at `n`, changes the link.
  pub data Delivery (m : Message Body) (n : ℕ) (l l' : Link A Body) : Type 0 where
    done : (a : A) → l' ≡ record l { app = a; acked = m ∷ l.acked } → Delivery m n l l'
    buried : (a : A) → 3 ≤ n + 1 → l' ≡ record l { app = a; dead = m ∷ l.dead } → Delivery m n l l'
    again :
        (a : A)
        → n + 1 < 3
        → l' ≡ record l {
          app = a;
          acked = m ∷ l.acked;
          pending = l.pending ++ retried m (n + 1) ∷ [];
          slept = l.slept ++ min (2 ^ (n + 1)) 10 ∷ [];
        }
        → Delivery m n l l'

  -- The `try` block on the link: the message is acknowledged, or the block raised.
  pub data Tried (m : Message Body) (l : Link A Body) (r : Result (Unit {0})) (l' : Link A Body)
      : Type 0 where
    fine : (a : A) → r ≡ ok tt → l' ≡ record l { app = a; acked = m ∷ l.acked } → Tried m l r l'
    failed : (a : A) (e : Error) → r ≡ raise e → l' ≡ record l { app = a } → Tried m l r l'

  then_ack-Tried :
      (m : Message Body) (l : Link A Body) (r : Result (Unit {0})) (a : A)
      → let (r', l') = then_ack channel m (r, record l { app = a }) in Tried m l r' l'
  then_ack-Tried m l (ok _) a = fine a refl refl
  then_ack-Tried m l (raise e) a = failed a e refl refl

  run_lifted-Tried :
      (hs : Handlers A) (key : String) (m : Message Body) (event : Event) (ctx : String)
      (l : Link A Body)
      → let (r, l') = run_handler channel m (handler_for key (lift_all hs)) event ctx l in
        Tried m l r l'
  run_lifted-Tried [] key m event ctx l = fine l.app refl refl
  run_lifted-Tried ((k, h) ∷ hs) key m event ctx l = elim (Bool-cases (str_eq k key)) [
    | inl e ↦ let (r, a) = h event ctx l.app in rw e (then_ack-Tried m l r a)
    | inr e ↦ rw e (run_lifted-Tried hs key m event ctx l)
  ]

  dispatch-Tried :
      (hs : Handlers A) (m : Message Body) (event : Event) (rid : Option String) (ctx : String)
      (l : Link A Body)
      → let t = dispatch channel (lift_all hs) m event rid ctx l in Tried m l t.result t.world
  dispatch-Tried hs m event none ctx l = run_lifted-Tried hs event.event_type m event ctx l
  dispatch-Tried hs m event (some rid) ctx l = run_lifted-Tried hs event.event_type m event rid l

  pub attempt-Tried :
      (hs : Handlers A) (m : Message Body) (decoded : Result Event) (ctx : String) (l : Link A Body)
      → let t = attempt channel (lift_all hs) m decoded ctx l in Tried m l t.result t.world
  unfolding attempt
  attempt-Tried hs m (raise e) ctx l = failed l.app e refl refl
  attempt-Tried hs m (ok event) ctx l =
      dispatch-Tried hs m event (has_request_id event.request_id) ctx l

  caught-Delivery :
      (m : Message Body) (n : ℕ) (l l' : Link A Body) (r : Result (Unit {0}))
      → Tried m l r l'
      → Delivery m n l (caught channel m n r l').1
  unfolding on_failure
  caught-Delivery m n l l' r (fine a er el) = rw (er, el) (done a refl)
  caught-Delivery m n l l' r (failed a e er el) = elim (Bool-cases (leb 3 (n + 1))) [
    | inl over ↦ rw (er, el, over) (buried a (ground arith) refl)
    | inr more ↦ rw (er, el, more) (again a (ground arith) refl)
  ]

  module _ (validate : Body → Result Event) (hs : Handlers A) where
    pub deliver-Delivery :
        (m : Message Body) (n : ℕ) (ctx : String) (l : Link A Body)
        → int_of (retry_header m.headers) ≡ ok n
        → Delivery m n l (deliver validate hs m ctx l)
    unfolding handle
    deliver-Delivery m n ctx l h =
        rw (h, deliver) (caught-Delivery m n l _ _ (attempt-Tried hs m (validate m.body) ctx l))
