-- ===== src/Gateway/Caller.antt =====
-- services/gateway/app/dependencies.py: whom `current_user` finds.
use ordermesh.Prelude.{ℕ, String, ◌≡◌, refl, Option, none, some, Text}
use ordermesh.Shared.Outcome.{Result, ok, raise}
use ordermesh.Shared.Auth.{TokenData, Claims, Jwt, claim, token_data, verified, decode_token}
use ordermesh.Gateway.Model.{Settings}
use ordermesh.Gateway.Dependencies.{current_user}

-- The request has a token that decodes now with the gateway's secret, to claims that name this
-- user.
pub record IsCaller {Token : Type 0} (jwt : Jwt Token) (settings : Settings) (bearer : Result Token)
    (now : ℕ) (user : TokenData) : Type 0 where
  pub token : Token
  pub claims : Claims
  pub has_token : bearer ≡ ok token
  pub decodes : jwt.decode token settings.jwt_secret now ≡ some claims
  pub sub : claims.sub ≡ some user.user_id
  pub email : claims.email ≡ some user.email
  pub role : claims.role ≡ some user.role

token_data-claims :
    (sub : Option Text) (email role : Option String) (user : TokenData)
    → token_data (claim "sub" sub) (claim "email" email) (claim "role" role) ≡ ok user
    → (sub ≡ some user.user_id) × (email ≡ some user.email) × (role ≡ some user.role)
token_data-claims none email role user h = absurd (cc)
token_data-claims (some i) none role user h = absurd (cc)
token_data-claims (some i) (some e) none user h = absurd (cc)
token_data-claims (some i) (some e) (some r) user h = (cc, cc, cc)

module _ {Token : Type 0} (jwt : Jwt Token) (settings : Settings) (now : ℕ) where
  verified-IsCaller :
      (token : Token) (user : TokenData) (decoded : Option Claims)
      → jwt.decode token settings.jwt_secret now ≡ decoded
      → verified decoded ≡ ok user
      → IsCaller jwt settings (ok token) now user
  verified-IsCaller token user none e h = absurd (cc)
  verified-IsCaller token user (some c) e h =
      let named = token_data-claims c.sub c.email c.role user h in
      record {
        token = token;
        claims = c;
        has_token = refl;
        decodes = e;
        sub = named.0;
        email = named.1;
        role = named.2;
      }

  pub current_user-IsCaller :
      (bearer : Result Token) (user : TokenData)
      → current_user jwt settings bearer now ≡ ok user
      → IsCaller jwt settings bearer now user
  unfolding current_user decode_token
  current_user-IsCaller (ok token) user h = verified-IsCaller token user _ refl h
  current_user-IsCaller (raise e) user h = absurd (cc)

  pub IsCaller-current_user :
      (bearer : Result Token) (user : TokenData)
      → IsCaller jwt settings bearer now user
      → current_user jwt settings bearer now ≡ ok user
  unfolding current_user decode_token
  IsCaller-current_user bearer user c = rw (c.has_token, c.decodes, c.sub, c.email, c.role) refl
