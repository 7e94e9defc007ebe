-- ===== src/Gateway/Tests.antt =====
-- An account, its token, and requests with and without identity headers of the client's own.
use text.Mathlib.Text.{◌==◌ as str_eq}
use text.Mathlib.TextEquality.{eq_iff}
use ordermesh.Prelude.{
  ℕ, ◌≡◌, refl, String, none, some, List, [], ◌∷◌, ◌&&◌, Text, codes, text_eq, text_eq_refl, ltb,
  if◌then◌else◌, arith,
}
use ordermesh.Shared.Outcome.{ok}
use ordermesh.Shared.Auth.{TokenData, Claims, Jwt}
use ordermesh.Shared.Security.{Bcrypt, IsBcrypt, hash_password}
use ordermesh.Gateway.Model.{Role, User, Db, RegisterRequest, Settings, accepts}
use ordermesh.Gateway.Accounts.{register, login}
use ordermesh.Gateway.Dependencies.{current_user}
use ordermesh.Gateway.Proxy.{Headers, Request, HttpClient, forward, forward_headers}
use ordermesh.Gateway.Routes.{create_product, handle}
use ordermesh.Gateway.Register.{IsValid, register-IsValid}
use ordermesh.Gateway.Session.{IsJwt, IsSession, login_after_register}
use ordermesh.Gateway.Headers.{first_value}
use ordermesh.Gateway.Identity.{forward_headers_identity}
use ordermesh.Gateway.Caller.{IsCaller}
use ordermesh.Gateway.Edge.{Gated, handle_gates}

-- The hash of a password is the password; the salt is not used.
abbrev plain : Bcrypt ℕ (List ℕ)
plain = record {
  hashpw = λ password salt. ok password;
  checkpw = λ password hash. ok (text_eq password hash);
}

plain-IsBcrypt : IsBcrypt plain
plain-IsBcrypt = record { checks = λ password salt hash e. cc (e, text_eq_refl password) }

-- A token is its claims and the secret.
abbrev open_jwt : Jwt (Claims × String)
open_jwt = record {
  encode = λ claims secret. (claims, secret);
  decode = λ token secret now.
      if str_eq token.1 secret && ltb now token.0.exp then some token.0 else none;
}

open_jwt-IsJwt : IsJwt open_jwt
open_jwt-IsJwt = record {
  decodes = λ claims secret now live. rw ((eq_iff secret secret).1 refl) (ground arith);
}

abbrev settings : Settings
settings = record {
  jwt_secret = "secret";
  jwt_expiry_minutes = 60;
  order_service_url = codes "http://order";
  inventory_service_url = codes "http://inventory";
  shipping_service_url = codes "http://shipping";
}

abbrev alice : RegisterRequest
alice = record { email = "alice@example.com"; password = codes "s3cret!"; role = Role.customer }

abbrev bob : User (List ℕ)
bob = record {
  id = 1;
  email = "bob@example.com";
  hashed_password = codes "hunter2";
  role = "ADMIN";
}

abbrev accounts : Db (List ℕ)
accounts = record { users = bob ∷ []; user_seq = 2 }

accounts-IsValid : IsValid accounts
accounts-IsValid = record { keys = (omega arith, tt, tt); emails = (tt, tt) }

register-IsValid_example : IsValid (register plain alice 0 accounts).1
register-IsValid_example = register-IsValid plain alice 0 accounts accounts-IsValid

alice_registered :
    (register plain alice 0 accounts).0
    ≡ ok (record { id = 2; email = "alice@example.com"; role = "CUSTOMER" })
unfolding register accepts hash_password
alice_registered = refl

login_after_register_example :
    IsSession plain open_jwt settings 2 "alice@example.com" "CUSTOMER"
      (login plain open_jwt settings
        (record { email = "alice@example.com"; password = codes "s3cret!" })
        (register plain alice 0 accounts).1
        1000)
      4599
login_after_register_example =
    login_after_register plain open_jwt settings plain-IsBcrypt open_jwt-IsJwt alice 0 accounts 1000
      4599 alice_registered (omega arith)

abbrev user : TokenData
user = record { user_id = codes "2"; email = "alice@example.com"; role = "CUSTOMER" }

-- The client claims to be an admin.
abbrev sent : Headers
sent =
    (codes "host", codes "shop")
    ∷ (codes "x-user-role", codes "ADMIN")
    ∷ (codes "accept", codes "*/*")
    ∷ []

forward_headers_identity_example :
    (first_value (codes "x-user-id") (forward_headers sent user "r") ≡ some (codes "2"))
    × (first_value (codes "x-user-role") (forward_headers sent user "r") ≡ some (codes "ADMIN"))
    × (first_value (codes "x-request-id") (forward_headers sent user "r") ≡ some (codes "r"))
forward_headers_identity_example = forward_headers_identity sent user "r" (refl, (refl, (refl, tt)))

abbrev request : Request Text
request = record { method = "POST"; headers = sent; query_params = []; body = codes "{}" }

-- The internal services answer 201 and count the requests.
abbrev created : HttpClient Text ℕ
created upstream n =
    (ok (record { content = upstream.content; status_code = 201; content_type = none }), ℕ.suc n)

-- The admin's token, with the claim of the client's headers beside it.
abbrev admin_token : Claims × String
admin_token = (
  record {
    sub = some (codes "1");
    email = some "bob@example.com";
    role = some "ADMIN";
    exp = 4600;
  },
  "secret",
)

handle_gates_example :
    Gated
      (some created)
      create_product
      (codes "http://inventory/inventory/products")
      request
      (IsCaller open_jwt settings (ok admin_token) 1000)
      "r"
      0
      (handle open_jwt settings (some created) create_product request (ok admin_token) 1000 "r" 0)
handle_gates_example =
    handle_gates open_jwt settings (some created) create_product request (ok admin_token) 1000 "r" 0

-- The request goes out: the service has counted it.
admin_passes :
    (handle open_jwt settings (some created) create_product request (ok admin_token) 1000 "r" 0).1
    ≡ 1
unfolding handle ordermesh.Gateway.Dependencies.current_user
    ordermesh.Gateway.Dependencies.require_admin forward
admin_passes = refl
