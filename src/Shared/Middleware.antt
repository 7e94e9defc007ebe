-- ===== src/Shared/Middleware.antt =====
-- shared/shared/middleware.py. The response and the rest of the application are parameters, the
-- fresh UUID an argument.
use text.Mathlib.Text.{◌==◌ as str_eq}
use ordermesh.Prelude.{String, ◌≡◌, refl, Option, none, some, if◌then◌else◌}
use ordermesh.Shared.Outcome.{Result, ok, raise}

-- `request.headers.get("X-Request-ID") or str(uuid.uuid4())`
abbrev pub request_id_of : Option String → String → String
request_id_of none uuid = uuid
request_id_of (some value) uuid = if str_eq value "" then uuid else value

module _ {Response W : Type 0} (set_header : String → String → Response → Response) where
  -- After `call_next`: the context variable is reset in any case, the header set on a response.
  abbrev pub answered : String → String → Result Response × W → Result Response × (String × W)
  answered request_id ctx (ok response, w) =
      (ok (set_header "X-Request-ID" request_id response), (ctx, w))
  answered request_id ctx (raise e, w) = (raise e, (ctx, w))

  -- `dispatch`: the result, the context's request id afterwards, and the state. `call_next` reads
  -- the request id of the context.
  unfoldable pub dispatch :
      (String → W → Result Response × W)
      → Option String
      → String
      → String
      → W
      → Result Response × (String × W)
  dispatch call_next header uuid ctx w =
      let request_id = request_id_of header uuid in answered request_id ctx (call_next request_id w)

  -- Whatever the application does, an exception included, the context is as it was afterwards and the
  -- state as the application left it.
  pub dispatch_restores :
      (call_next : String → W → Result Response × W) (header : Option String) (uuid ctx : String)
      (w : W)
      → let after = dispatch call_next header uuid ctx w in
        (after.1.0 ≡ ctx) × (after.1.1 ≡ (call_next (request_id_of header uuid) w).1)
  unfolding dispatch
  dispatch_restores call_next header uuid ctx w = go (call_next (request_id_of header uuid) w)
    where
      go :
          (o : Result Response × W)
          → let after = answered (request_id_of header uuid) ctx o in
            (after.1.0 ≡ ctx) × (after.1.1 ≡ o.1)
      go (ok response, w') = (refl, refl)
      go (raise e, w') = (refl, refl)
