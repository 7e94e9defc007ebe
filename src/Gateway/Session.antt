-- ===== src/Gateway/Session.antt =====
-- From an account to a token and back to the caller's identity.
use ordermesh.Prelude.{ℕ, ◌+◌, ◌*◌, ◌<◌, String, ◌≡◌, refl, none, some}
use ordermesh.Prelude.Decimal.{to_text}
use ordermesh.Shared.Outcome.{Result, ok}
use ordermesh.Shared.Auth.{Claims, Jwt, create_access_token, decode_token}
use ordermesh.Shared.Security.{Bcrypt, IsBcrypt, hash_password, verify_password}
use ordermesh.Gateway.Model.{Db, RegisterRequest, TokenResponse, UserResponse, Settings, role_value}
use ordermesh.Gateway.Accounts.{register, login, insert_user, new_user, find_user}
use ordermesh.Gateway.Dependencies.{current_user}
use ordermesh.Gateway.Register.{
  Registration, refused, added, register-Registration, find_user-append,
}

-- What the `jwt` package documents: a token gives back its claims until it expires.
pub record IsJwt {Token : Type 0} (jwt : Jwt Token) : Type 0 where
  pub decodes :
      (claims : Claims) (secret : String) (now : ℕ)
      → now < claims.exp
      → jwt.decode (jwt.encode claims secret) secret now ≡ some claims

module _ {Salt Hash Token : Type 0} (bcrypt : Bcrypt Salt Hash) (jwt : Jwt Token)
    (settings : Settings) where
  current_user-token :
      IsJwt jwt
      → (id now later : ℕ) (email role : String) → later < now + settings.jwt_expiry_minutes * 60
      → current_user jwt settings
          (ok (
            create_access_token jwt id email role settings.jwt_secret settings.jwt_expiry_minutes
              now))
          later
        ≡ ok (record { user_id = to_text id; email = email; role = role })
  unfolding current_user create_access_token decode_token
  current_user-token good id now later email role live = rw (
      good.decodes
        (record {
          sub = some (to_text id);
          email = some email;
          role = some role;
          exp = now + settings.jwt_expiry_minutes * 60;
        })
        settings.jwt_secret later live)

  login-user :
      IsBcrypt bcrypt
      → (payload : RegisterRequest) (salt : Salt) (hash : Hash) (db : Db Hash) (now : ℕ)
      → find_user payload.email db.users ≡ none
      → hash_password bcrypt payload.password salt ≡ ok hash
      → login bcrypt jwt settings
          (record { email = payload.email; password = payload.password })
          (insert_user (new_user db.user_seq payload hash) db)
          now
        ≡ ok (record {
          access_token =
              create_access_token jwt db.user_seq payload.email
                (role_value payload.role)
                settings.jwt_secret
                settings.jwt_expiry_minutes
                now;
          token_type = "bearer";
        })
  unfolding login hash_password verify_password
  login-user good payload salt hash db now free hashed = rw (
    find_user-append payload.email db.users (new_user db.user_seq payload hash) free refl,
    good.checks _ salt hash hashed,
  )

  -- What a login answers with, and the identity that its token stands for.
  pub record IsSession (id : ℕ) (email role : String) (answer : Result (TokenResponse Token))
      (later : ℕ) : Type 0 where
    pub token : Token
    pub issued : answer ≡ ok (record { access_token = token; token_type = "bearer" })
    pub identity :
        current_user jwt settings (ok token) later
        ≡ ok (record { user_id = to_text id; email = email; role = role })

  -- If bcrypt checks a password against its own hash and a token gives back its claims until it
  -- expires, then whoever has registered can log in with the same email and password, and until
  -- it expires the token stands for the id of the account, its email and the role that was asked
  -- for.
  pub login_after_register :
      IsBcrypt bcrypt
      → IsJwt jwt
      → (payload : RegisterRequest) (salt : Salt) (db : Db Hash) (now later : ℕ)
      → {account : UserResponse} → (register bcrypt payload salt db).0 ≡ ok account
      → later < now + settings.jwt_expiry_minutes * 60
      → IsSession account.id payload.email
          (role_value payload.role)
          (login bcrypt jwt settings
            (record { email = payload.email; password = payload.password })
            (register bcrypt payload salt db).1
            now)
          later
  login_after_register hashes signs payload salt db now later {account} done live =
      go (register bcrypt payload salt db) (register-Registration bcrypt payload salt db) done
    where
      go :
          (outcome : Result UserResponse × Db Hash)
          → Registration bcrypt payload salt db outcome
          → outcome.0 ≡ ok account
          → IsSession account.id payload.email
              (role_value payload.role)
              (login bcrypt jwt settings
                (record { email = payload.email; password = payload.password })
                outcome.1
                now)
              later
      go outcome (refused e eq) h = cc
      go outcome (added hash free hashed eq) h =
          let same : account.id ≡ db.user_seq = cc in
          rw (eq, same)
            (record {
              token =
                  create_access_token jwt db.user_seq payload.email (role_value payload.role)
                    settings.jwt_secret settings.jwt_expiry_minutes now;
              issued = login-user hashes payload salt hash db now free hashed;
              identity =
                  current_user-token signs db.user_seq now later payload.email
                    (role_value payload.role) live;
            })
