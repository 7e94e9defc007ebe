-- ===== src/Gateway/Proxy.antt =====
-- services/gateway/app/proxy.py. The HTTP client is outside the repository: a function that takes
-- the request for the internal service and may raise, `W` being the world that it acts on.
use mathlib.Core.List.{foldl}
use ordermesh.Prelude.{
  ℕ, ◌+◌, String, Bool, false, ◌&&◌, ◌||◌, Option, none, some, List, [], ◌∷◌, ◌++◌, map, Text,
  codes, text_eq, leb, if◌then◌else◌,
}
use ordermesh.Shared.Outcome.{Result, raise, runtime}
use ordermesh.Shared.Auth.{TokenData}

-- Names and values in order: `request.headers.items()`, and a dict in insertion order.
abbrev pub Headers : Type 0
Headers = List (Text × Text)

-- `k.lower()` of a header name, which is ASCII.
abbrev lower_char : ℕ → ℕ
lower_char c = if leb b'A' c && leb c b'Z' then c + 32 else c

abbrev pub lower : Text → Text
lower = map lower_char

-- `_SKIP_HEADERS`
abbrev pub skip_headers : List Text
skip_headers =
    codes "host" ∷ codes "content-length" ∷ codes "connection" ∷ codes "authorization" ∷ []

abbrev pub is_in : Text → List Text → Bool
is_in k [] = false
is_in k (j ∷ js) = text_eq k j || is_in k js

-- `headers[k] = v`
abbrev pub put : Text → Text → Headers → Headers
put k v [] = (k, v) ∷ []
put k v ((j, w) ∷ d) = if text_eq j k then (j, v) ∷ d else (j, w) ∷ put k v d

-- The comprehension: a name that comes again keeps its place and takes the later value.
abbrev pub keep_header : Headers → Text × Text → Headers
keep_header d (k, v) = if is_in (lower k) skip_headers then d else put k v d

unfoldable pub kept_headers : Headers → Headers
kept_headers items = foldl keep_header [] items

-- The headers that go to the internal service.
unfoldable pub forward_headers : Headers → TokenData → String → Headers
forward_headers items user request_id = put (codes "X-Request-ID") (codes request_id) (
    put (codes "X-User-Role") (codes user.role)
      (put (codes "X-User-Id") user.user_id (kept_headers items)))

pub record Request (Content : Type 0) : Type 0 where
  pub method : String
  pub headers : Headers
  pub query_params : Text
  pub body : Content

pub record Upstream (Content : Type 0) : Type 0 where
  pub method : String
  pub url : Text
  pub params : Text
  pub content : Content
  pub headers : Headers

-- `content_type` is `upstream.headers.get("content-type")`; of the upstream's headers no other is
-- passed on.
pub record Response (Content : Type 0) : Type 0 where
  pub content : Content
  pub status_code : ℕ
  pub content_type : Option Text

abbrev pub HttpClient : Type 0 → Type 0 → Type 0
HttpClient Content W = Upstream Content → W → Result (Response Content) × W

module _ {Content W : Type 0} where
  -- `await get_client().request(…)`
  abbrev pub send_on :
      Option (HttpClient Content W) → Upstream Content → W → Result (Response Content) × W
  send_on none upstream w = (raise (runtime "HTTP client not initialised"), w)
  send_on (some request) upstream w = request upstream w

  unfoldable pub forward :
      Option (HttpClient Content W)
      → Request Content
      → Text
      → Text
      → TokenData
      → String
      → W
      → Result (Response Content) × W
  unfolding forward_headers
  forward client request base_url path user request_id w =
      send_on client
        (record {
          method = request.method;
          url = base_url ++ path;
          params = request.query_params;
          content = request.body;
          headers = forward_headers request.headers user request_id;
        })
        w
