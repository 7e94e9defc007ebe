-- ===== src/Gateway/Main.antt =====
-- services/gateway/app/main.py. The gateway has no broker: its process holds the HTTP client of
-- proxy.py and the loggers.
use ordermesh.Prelude.{String, Option, none, some, List, [], ◌∷◌, ◌++◌, Text, ◌≡◌, refl}
use ordermesh.Shared.Outcome.{Result, raise, attribute_error}
use ordermesh.Shared.Auth.{TokenData}
use ordermesh.Shared.Logging.{Loggers, info, configure_logging}
use ordermesh.Gateway.Proxy.{HttpClient, Request, forward, forward_headers}

-- `settings.service_name`
abbrev service_name : String
service_name = "gateway"

-- The module's `client` of proxy.py, and the loggers of the process.
pub record Process (Content Handler W : Type 0) : Type 0 where
  pub client : Option (HttpClient Content W)
  pub loggers : Loggers Handler

-- `await proxy.client.aclose()`, where the client is None before the startup.
abbrev pub closed :
    {Content W : Type 0}
    → (HttpClient Content W → W → Result (Unit {0}) × W)
    → Option (HttpClient Content W)
    → W
    → Result (Unit {0}) × W
closed aclose none w = (raise attribute_error, w)
closed aclose (some c) w = aclose c w

module _ {Content Handler W : Type 0} where
  -- `lifespan` before its `yield`; the new `httpx.AsyncClient` is an argument.
  unfoldable pub startup :
      (String → Handler)
      → HttpClient Content W
      → Process Content Handler W
      → Process Content Handler W
  unfolding configure_logging
  startup stream_handler new_client p = record {
    client = some new_client;
    loggers = configure_logging stream_handler service_name info p.loggers;
  }

  -- `lifespan` after its `yield`: the client stays in its variable, closed.
  unfoldable pub shutdown :
      (HttpClient Content W → W → Result (Unit {0}) × W)
      → Process Content Handler W
      → W
      → Result (Unit {0}) × W
  shutdown aclose p w = closed aclose p.client w

  -- What a started gateway forwards, it sends with the client of its startup: `forward` is never
  -- without one.
  pub forward-startup :
      (stream_handler : String → Handler) (new_client : HttpClient Content W)
      (p : Process Content Handler W) (request : Request Content) (base_url path : Text)
      (user : TokenData) (request_id : String) (w : W)
      → forward (startup stream_handler new_client p).client request base_url path user request_id w
        ≡ new_client
            (record {
              method = request.method;
              url = base_url ++ path;
              params = request.query_params;
              content = request.body;
              headers = forward_headers request.headers user request_id;
            })
            w
  unfolding startup forward
  forward-startup stream_handler new_client p request base_url path user request_id w = refl

-- `GET /health`
abbrev pub health : List (String × String)
health = ("status", "ok") ∷ ("service", service_name) ∷ []
