-- ===== src/Shared/Consumer/Context.antt =====
-- The request id of the context around one delivery.
use ordermesh.Prelude.{ℕ, String, ◌≡◌, refl, Option, none, some}
use ordermesh.Shared.Outcome.{Result, ok, raise}
use ordermesh.Shared.Event.{Event}
use ordermesh.Shared.Broker.{Message}
use ordermesh.Shared.Consumer.{
  Channel, Handlers, has_request_id, restored, dispatch, attempt, with_retry, handle, int_of,
  retry_header,
}

module _ {Body W : Type 0} (ch : Channel Body W) (validate : Body → Result Event)
    (hs : Handlers W) where
  restored-dispatch :
      (m : Message Body) (event : Event) (rid : Option String) (ctx : String) (w : W)
      → let a = dispatch ch hs m event rid ctx w in restored a.token a.request_id ≡ ctx
  restored-dispatch m event none ctx w = refl
  restored-dispatch m event (some rid) ctx w = refl

  restored-attempt :
      (m : Message Body) (decoded : Result Event) (ctx : String) (w : W)
      → let a = attempt ch hs m decoded ctx w in restored a.token a.request_id ≡ ctx
  unfolding attempt
  restored-attempt m (raise e) ctx w = refl
  restored-attempt m (ok event) ctx w =
      restored-dispatch m event (has_request_id event.request_id) ctx w

  -- However a delivery ends, with an exception that escapes too, the context's request id is what
  -- it was before.
  pub handle_restores_context :
      (m : Message Body) (ctx : String) (w : W) → (handle ch validate hs m ctx w).1.0 ≡ ctx
  unfolding handle
  handle_restores_context m ctx w = go (int_of (retry_header m.headers))
    where
      go : (retry : Result ℕ) → (with_retry ch validate hs m retry ctx w).1.0 ≡ ctx
      go (raise e) = refl
      go (ok retry) = restored-attempt m (validate m.body) ctx w
