-- ===== src/Gateway/Carried.antt =====
-- services/gateway/app/proxy.py: the request that an internal service gets.
use ordermesh.Prelude.{
  String, false, ◌≡◌, ◌∙◌, ap, refl, Option, none, some, [], ◌∷◌, ◌++◌, Text, codes, text_eq,
  text_eq_sound, text_eq_refl, Bool-cases, inl, inr, if◌then◌else◌,
}
use ordermesh.Prelude.Decimal.{to_text}
use ordermesh.Shared.Auth.{TokenData}
use ordermesh.Gateway.Model.{Settings}
use ordermesh.Gateway.Proxy.{Headers, Request, Upstream, put, kept_headers, forward_headers}
use ordermesh.Gateway.Routes.{Route, create_product, path, base_url}

-- Where each route leads.
abbrev pub address : Settings → Route → Text
address settings Route.orders_collection = settings.order_service_url ++ codes "/orders"
address settings (Route.order_item id) =
    settings.order_service_url ++ (codes "/orders/" ++ to_text id)
address settings (Route.order_cancel id) =
    settings.order_service_url ++ (codes "/orders/" ++ (to_text id ++ codes "/cancel"))
address settings Route.list_products = settings.inventory_service_url ++ codes "/inventory/products"
address settings create_product = settings.inventory_service_url ++ codes "/inventory/products"
address settings (Route.get_shipment id) =
    settings.shipping_service_url ++ (codes "/shipments/" ++ to_text id)

pub base_url-address :
    (settings : Settings) (route : Route)
    → base_url settings route ++ path route ≡ address settings route
base_url-address settings Route.orders_collection = refl
base_url-address settings (Route.order_item id) = refl
base_url-address settings (Route.order_cancel id) = refl
base_url-address settings Route.list_products = refl
base_url-address settings create_product = refl
base_url-address settings (Route.get_shipment id) = refl

-- The value under a name that is spelled like this.
abbrev pub value_of : Text → Headers → Option Text
value_of name [] = none
value_of name ((k, v) ∷ d) = if text_eq k name then some v else value_of name d

-- The request that an internal service gets: the client's, at this URL, with the gateway's three
-- headers.
pub record Carries {Content : Type 0} (request : Request Content) (url : Text) (user : TokenData)
    (rid : String) (sent : Upstream Content) : Type 0 where
  pub same_method : sent.method ≡ request.method
  pub at_url : sent.url ≡ url
  pub same_query : sent.params ≡ request.query_params
  pub same_body : sent.content ≡ request.body
  pub user_id : value_of (codes "X-User-Id") sent.headers ≡ some user.user_id
  pub role : value_of (codes "X-User-Role") sent.headers ≡ some (codes user.role)
  pub request_id : value_of (codes "X-Request-ID") sent.headers ≡ some (codes rid)

value_of-put : (k v : Text) (d : Headers) → value_of k (put k v d) ≡ some v
value_of-put k v [] = rw (text_eq_refl k) refl
value_of-put k v ((j, w) ∷ d) = elim (Bool-cases (text_eq j k)) [
  | inl same ↦ rw (same, same) refl
  | inr other ↦ rw (other, other) (value_of-put k v d)
]

value_of-put_other :
    (name k v : Text) (d : Headers)
    → text_eq k name ≡ false
    → value_of name (put k v d) ≡ value_of name d
value_of-put_other name k v [] h = rw h refl
value_of-put_other name k v ((j, w) ∷ d) h = elim (Bool-cases (text_eq j k)) [
  | inl same ↦ rw (same, text_eq_sound j k same, h) refl
  | inr other ↦
      rw other (ap (λ o. if text_eq j name then some w else o) (value_of-put_other name k v d h))
]

pub forwarded-Carries :
    {Content : Type 0} (request : Request Content) (url : Text) (user : TokenData) (rid : String)
    → Carries request url user rid (record {
      method = request.method;
      url = url;
      params = request.query_params;
      content = request.body;
      headers = forward_headers request.headers user rid;
    })
unfolding forward_headers
forwarded-Carries request url user rid =
    let kept = kept_headers request.headers in
    let with_id = put (codes "X-User-Id") user.user_id kept in
    let with_role = put (codes "X-User-Role") (codes user.role) with_id in
    record {
      same_method = refl;
      at_url = refl;
      same_query = refl;
      same_body = refl;
      user_id =
          value_of-put_other (codes "X-User-Id") (codes "X-Request-ID") (codes rid) with_role refl
          ∙ value_of-put_other (codes "X-User-Id") (codes "X-User-Role") (codes user.role) with_id
              refl
          ∙ value_of-put (codes "X-User-Id") user.user_id kept;
      role =
          value_of-put_other (codes "X-User-Role") (codes "X-Request-ID") (codes rid) with_role refl
          ∙ value_of-put (codes "X-User-Role") (codes user.role) with_id;
      request_id = value_of-put (codes "X-Request-ID") (codes rid) with_role;
    }
