-- ===== src/Gateway/Routes.antt =====
-- services/gateway/app/routes_proxy.py: each route runs its dependency, then forwards.
use ordermesh.Prelude.{ℕ, String, Option, ◌++◌, Text, codes}
use ordermesh.Prelude.Decimal.{to_text}
use ordermesh.Shared.Outcome.{Result, ok, raise}
use ordermesh.Shared.Auth.{TokenData, Jwt}
use ordermesh.Gateway.Model.{Settings}
use ordermesh.Gateway.Dependencies.{current_user, require_admin}
use ordermesh.Gateway.Proxy.{Request, Response, HttpClient, forward}

-- The routes; `orders_collection` and `list_products` are for two methods and one.
pub data Route : Type 0 where
  orders_collection : Route
  order_item : ℕ → Route
  order_cancel : ℕ → Route
  list_products : Route
  create_product : Route
  get_shipment : ℕ → Route

abbrev pub path : Route → Text
path orders_collection = codes "/orders"
path (order_item order_id) = codes "/orders/" ++ to_text order_id
path (order_cancel order_id) = codes "/orders/" ++ (to_text order_id ++ codes "/cancel")
path list_products = codes "/inventory/products"
path create_product = codes "/inventory/products"
path (get_shipment shipment_id) = codes "/shipments/" ++ to_text shipment_id

abbrev pub base_url : Settings → Route → Text
base_url settings orders_collection = settings.order_service_url
base_url settings (order_item _) = settings.order_service_url
base_url settings (order_cancel _) = settings.order_service_url
base_url settings list_products = settings.inventory_service_url
base_url settings create_product = settings.inventory_service_url
base_url settings (get_shipment _) = settings.shipping_service_url

-- `Depends(require_admin)` or `Depends(current_user)`, which the former rests on.
abbrev pub dependency : Route → Result TokenData → Result TokenData
dependency create_product user = require_admin user
dependency _ user = user

module _ {Token Content W : Type 0} (jwt : Jwt Token) (settings : Settings)
    (client : Option (HttpClient Content W)) where
  abbrev pub forwarded :
      Route → Request Content → Result TokenData → String → W → Result (Response Content) × W
  forwarded route request (raise e) rid w = (raise e, w)
  forwarded route request (ok user) rid w =
      forward client request (base_url settings route) (path route) user rid w

  -- The handler of a route, at the time `now`.
  unfoldable pub handle :
      Route → Request Content → Result Token → ℕ → String → W → Result (Response Content) × W
  handle route request bearer now rid w =
      forwarded route request (dependency route (current_user jwt settings bearer now)) rid w
