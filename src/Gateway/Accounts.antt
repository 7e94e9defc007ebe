-- ===== src/Gateway/Accounts.antt =====
-- services/gateway/app/routes_auth.py.
use text.Mathlib.Text.{◌==◌ as str_eq}
use ordermesh.Prelude.{
  ℕ, ◌+◌, String, Bool, true, false, Option, none, some, List, [], ◌∷◌, ◌++◌, first, if◌then◌else◌,
}
use ordermesh.Shared.Outcome.{Result, ok, raise, http}
use ordermesh.Shared.Auth.{Jwt, create_access_token}
use ordermesh.Shared.Security.{Bcrypt, hash_password, verify_password}
use ordermesh.Gateway.Model.{
  User, Db, RegisterRequest, LoginRequest, TokenResponse, UserResponse, Settings, role_value,
  accepts,
}

-- `select(User).where(User.email == …)`
abbrev pub find_user : {Hash : Type 0} → String → List (User Hash) → Option (User Hash)
find_user email = first (λ u. str_eq u.email email)

abbrev pub user_response : {Hash : Type 0} → User Hash → UserResponse
user_response u = record { id = u.id; email = u.email; role = u.role }

abbrev pub new_user : {Hash : Type 0} → ℕ → RegisterRequest → Hash → User Hash
new_user id payload hash = record {
  id = id;
  email = payload.email;
  hashed_password = hash;
  role = role_value payload.role;
}

abbrev pub insert_user : {Hash : Type 0} → User Hash → Db Hash → Db Hash
insert_user u db = record { users = db.users ++ u ∷ []; user_seq = db.user_seq + 1 }

module _ {Salt Hash : Type 0} (bcrypt : Bcrypt Salt Hash) where
  abbrev pub add_user : RegisterRequest → Result Hash → Db Hash → Result UserResponse × Db Hash
  add_user payload (raise e) db = (raise e, db)
  add_user payload (ok hash) db =
      let u = new_user db.user_seq payload hash in (ok (user_response u), insert_user u db)

  abbrev pub register_unless :
      Option (User Hash) → RegisterRequest → Salt → Db Hash → Result UserResponse × Db Hash
  register_unless (some existing) payload salt db =
      (raise (http 409 "Email already registered"), db)
  register_unless none payload salt db =
      add_user payload (hash_password bcrypt payload.password salt) db

  -- `POST /auth/register`: the body is validated before the function runs.
  unfoldable pub register : RegisterRequest → Salt → Db Hash → Result UserResponse × Db Hash
  unfolding hash_password
  register payload salt db =
      if accepts payload
      then register_unless (find_user payload.email db.users) payload salt db
      else (raise (http 422 "RegisterRequest"), db)

  module _ {Token : Type 0} (jwt : Jwt Token) (settings : Settings) where
    abbrev pub issue : User Hash → Result Bool → ℕ → Result (TokenResponse Token)
    issue u (raise e) now = raise e
    issue u (ok false) now = raise (http 401 "Invalid credentials")
    issue u (ok true) now = ok (record {
      access_token =
          create_access_token jwt u.id u.email u.role settings.jwt_secret
            settings.jwt_expiry_minutes now;
      token_type = "bearer";
    })

    abbrev pub login_found : Option (User Hash) → LoginRequest → ℕ → Result (TokenResponse Token)
    login_found none payload now = raise (http 401 "Invalid credentials")
    login_found (some u) payload now =
        issue u (verify_password bcrypt payload.password u.hashed_password) now

    -- `POST /auth/login`, at the time `now` in seconds.
    unfoldable pub login : LoginRequest → Db Hash → ℕ → Result (TokenResponse Token)
    unfolding verify_password
    login payload db now = login_found (find_user payload.email db.users) payload now
