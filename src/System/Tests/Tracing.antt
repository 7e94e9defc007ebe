-- ===== src/System/Tests/Tracing.antt =====
-- A request for two widgets with an id of the client's, through the middleware.
use ordermesh.Prelude.{◌≢◌, refl, String, List, some, [], ◌∷◌}
use ordermesh.Shared.Middleware.{dispatch}
use ordermesh.Order.Model.{Order}
use ordermesh.Order.Routes as OrderRoutes
use ordermesh.System.Tracing.{Identifies, responding, IsTraced, request_id_flows}
use ordermesh.System.Tests.{env, start, customer, forgetful}
use ordermesh.System.Tests.Orders.{nine_widgets, big_order, big_placed}
use ordermesh.System.{platform, order_host}

-- A response is its headers and its body.
abbrev Response : Type 0
Response = List (String × String) × Order

abbrev set_header : String → String → Response → Response
set_header name value (headers, body) = ((name, value) ∷ headers, body)

abbrev respond : Order → Response
respond order = ([], order)

uuid-ne-empty : ◌≢◌ {A = String} "u1" ""
uuid-ne-empty e = cc

request_id_flows_example :
    (rid : String) × Identifies (some "r9") "u1" rid
    × IsTraced env set_header respond rid "-" big_order start (
        dispatch set_header
          (λ rid' h. responding respond (
            OrderRoutes.create_order
              (platform env forgetful)
              env.numeric
              nine_widgets
              customer
              rid'
              h))
          (some "r9")
          "u1"
          "-"
          (order_host start))
request_id_flows_example =
    request_id_flows env set_header respond (λ e. refl) (some "r9") "u1" "-" nine_widgets customer
      start big_order uuid-ne-empty big_placed refl
