-- ===== src/Gateway/Edge.antt =====
-- The gateway as the edge: what reaches the internal services.
use text.Mathlib.Text.{◌==◌ as str_eq}
use text.Mathlib.TextEquality.{eq_iff}
use ordermesh.Prelude.{
  ℕ, String, ◌≡◌, refl, subst, Option, none, some, ◌++◌, Text, Bool-cases, inl, inr,
}
use ordermesh.Shared.Outcome.{Result, ok, raise, Error}
use ordermesh.Shared.Auth.{TokenData, Jwt}
use ordermesh.Gateway.Model.{Settings}
use ordermesh.Gateway.Dependencies.{current_user, require_admin, admin_only}
use ordermesh.Gateway.Proxy.{Request, Upstream, Response, HttpClient, forward}
use ordermesh.Gateway.Routes.{Route, create_product, path, base_url, dependency, forwarded, handle}
use ordermesh.Gateway.Caller.{IsCaller, current_user-IsCaller, IsCaller-current_user}
use ordermesh.Gateway.Carried.{address, base_url-address, Carries, forwarded-Carries}

-- Who may use a route.
abbrev pub MayUse : Route → TokenData → Type 0
MayUse create_product user = user.role ≡ "ADMIN"
MayUse _ user = Unit

-- One request goes out, and its outcome comes back, for a caller who may use the route; or nothing
-- goes out and the world behind the gateway is as it was, since there is no caller, the caller may
-- not use the route, or the gateway has no client yet.
pub data Gated {Content W : Type 0} (client : Option (HttpClient Content W)) (route : Route)
    (url : Text) (request : Request Content) (Caller : TokenData → Type 0) (rid : String) (w : W)
    (outcome : Result (Response Content) × W) : Type 0 where
  passes :
      (c : HttpClient Content W) (user : TokenData) (sent : Upstream Content)
      → client ≡ some c
      → Caller user
      → MayUse route user
      → Carries request url user rid sent
      → outcome ≡ c sent w
      → Gated client route url request Caller rid w outcome
  no_client :
      (user : TokenData) (e : Error)
      → client ≡ none
      → Caller user
      → outcome ≡ (raise e, w)
      → Gated client route url request Caller rid w outcome
  unverified :
      (e : Error)
      → ((user : TokenData) → ¬ Caller user)
      → outcome ≡ (raise e, w)
      → Gated client route url request Caller rid w outcome
  not_allowed :
      (user : TokenData) (e : Error)
      → Caller user
      → ¬ MayUse route user
      → outcome ≡ (raise e, w)
      → Gated client route url request Caller rid w outcome

Gated-same :
    {Content W : Type 0} (client : Option (HttpClient Content W)) (route : Route) (url : Text)
    (request : Request Content) (P Q : TokenData → Type 0) (rid : String) (w : W)
    (outcome : Result (Response Content) × W)
    → ((user : TokenData) → P user → Q user)
    → ((user : TokenData) → Q user → P user)
    → Gated client route url request P rid w outcome
    → Gated client route url request Q rid w outcome
Gated-same client route url request P Q rid w outcome to from (passes c user sent a p m k e) =
    passes c user sent a (to user p) m k e
Gated-same client route url request P Q rid w outcome to from (no_client user x a p e) =
    no_client user x a (to user p) e
Gated-same client route url request P Q rid w outcome to from (unverified x no_one e) =
    unverified x (λ user q. no_one user (from user q)) e
Gated-same client route url request P Q rid w outcome to from (not_allowed user x p m e) =
    not_allowed user x (to user p) m e

forward-Gated :
    {Content W : Type 0} (client : Option (HttpClient Content W)) (route : Route)
    (request : Request Content) (base rest : Text) (user : TokenData) (rid : String) (w : W)
    → MayUse route user
    → Gated client route
        (base ++ rest)
        request
        (λ u. ok user ≡ ok u)
        rid
        w
        (forward client request base rest user rid w)
unfolding forward
forward-Gated none route request base rest user rid w may = no_client user _ refl refl refl
forward-Gated (some c) route request base rest user rid w may =
    passes c user _ refl refl may (forwarded-Carries request (base ++ rest) user rid) refl

module _ {Token Content W : Type 0} (jwt : Jwt Token) (settings : Settings)
    (client : Option (HttpClient Content W)) where
  abbrev url : Route → Text
  url route = base_url settings route ++ path route

  admin_gate :
      (request : Request Content) (user : TokenData) (rid : String) (w : W)
      → Gated client create_product
          (url create_product)
          request
          (λ u. ok user ≡ ok u)
          rid
          w
          (forwarded jwt settings client create_product request (admin_only user) rid w)
  admin_gate request user rid w = elim (Bool-cases (str_eq user.role "ADMIN")) [
    | inl e ↦ rw e (
        forward-Gated client create_product request (base_url settings create_product)
          (path create_product) user rid w ((eq_iff user.role "ADMIN").0 e))
    | inr e ↦ rw e (not_allowed user _ refl (λ is. cc (e, (eq_iff user.role "ADMIN").1 is)) refl)
  ]

  gate :
      (route : Route) (request : Request Content) (caller : Result TokenData) (rid : String) (w : W)
      → Gated client route
          (url route)
          request
          (λ u. caller ≡ ok u)
          rid
          w
          (forwarded jwt settings client route request (dependency route caller) rid w)
  unfolding require_admin
  gate create_product request (ok user) rid w = admin_gate request user rid w
  gate create_product request (raise e) rid w = unverified e (λ u h. cc) refl
  gate Route.orders_collection request (ok user) rid w =
      forward-Gated client Route.orders_collection request _ _ user rid w tt
  gate Route.orders_collection request (raise e) rid w = unverified e (λ u h. cc) refl
  gate (Route.order_item i) request (ok user) rid w =
      forward-Gated client (Route.order_item i) request _ _ user rid w tt
  gate (Route.order_item i) request (raise e) rid w = unverified e (λ u h. cc) refl
  gate (Route.order_cancel i) request (ok user) rid w =
      forward-Gated client (Route.order_cancel i) request _ _ user rid w tt
  gate (Route.order_cancel i) request (raise e) rid w = unverified e (λ u h. cc) refl
  gate Route.list_products request (ok user) rid w =
      forward-Gated client Route.list_products request _ _ user rid w tt
  gate Route.list_products request (raise e) rid w = unverified e (λ u h. cc) refl
  gate (Route.get_shipment i) request (ok user) rid w =
      forward-Gated client (Route.get_shipment i) request _ _ user rid w tt
  gate (Route.get_shipment i) request (raise e) rid w = unverified e (λ u h. cc) refl

  -- On every route an internal service gets a request only if the caller's token decodes with the
  -- gateway's secret at that time to claims that name a user, and on the route that creates a
  -- product only if this user's role is ADMIN; a gateway that has no HTTP client yet sends none.
  -- The request has the client's method, query and body, goes to the URL of the route's service,
  -- and bears the id and the role of that user and the request's id under the names X-User-Id,
  -- X-User-Role and X-Request-ID; what the service answers is the outcome. Every other request
  -- fails before an internal service is called.
  pub handle_gates :
      (route : Route) (request : Request Content) (bearer : Result Token) (now : ℕ) (rid : String)
      (w : W)
      → Gated client route
          (address settings route)
          request
          (IsCaller jwt settings bearer now)
          rid
          w
          (handle jwt settings client route request bearer now rid w)
  unfolding handle
  handle_gates route request bearer now rid w =
      let outcome = handle jwt settings client route request bearer now rid w in
      Gated-same client route (address settings route) request
        (λ u. current_user jwt settings bearer now ≡ ok u) (IsCaller jwt settings bearer now) rid w
        outcome (current_user-IsCaller jwt settings now bearer)
        (IsCaller-current_user jwt settings now bearer)
        (subst
          (λ url.
            Gated client route url request (λ u. current_user jwt settings bearer now ≡ ok u) rid w
              outcome)
          (base_url-address settings route)
          (gate route request (current_user jwt settings bearer now) rid w))
