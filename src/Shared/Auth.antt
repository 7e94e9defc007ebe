-- ===== src/Shared/Auth.antt =====
-- shared/shared/auth.py: tokens at the gateway, and the identity that internal services trust.
use text.Mathlib.Text.{◌==◌ as str_eq}
use ordermesh.Prelude.{
  ℕ, ◌+◌, ◌*◌, String, Bool, false, Option, none, some, List, [], ◌∷◌, Text, ◌||◌, if◌then◌else◌,
}
use ordermesh.Prelude.Decimal.{to_text}
use ordermesh.Shared.Outcome.{Result, ok, raise, http, key_error}

pub record TokenData : Type 0 where
  pub user_id : Text
  pub email : String
  pub role : String

-- The claims of a token that verifies; one that a foreign issuer signed may lack a claim.
pub record Claims : Type 0 where
  pub sub : Option Text
  pub email : Option String
  pub role : Option String
  pub exp : ℕ

-- The `jwt` package: `decode` checks the signature and the expiry at the time it is called.
pub record Jwt (Token : Type 0) : Type 0 where
  pub encode : Claims → String → Token
  pub decode : Token → String → ℕ → Option Claims

module _ {Token : Type 0} (jwt : Jwt Token) where
  -- Times are in seconds.
  unfoldable pub create_access_token : ℕ → String → String → String → ℕ → ℕ → Token
  create_access_token user_id email role secret expires_minutes now =
      jwt.encode
        (record {
          sub = some (to_text user_id);
          email = some email;
          role = some role;
          exp = now + expires_minutes * 60;
        })
        secret

-- `payload["sub"]`, …: a missing claim is a KeyError, which the `except` does not catch.
abbrev pub claim : {A : Type 0} → String → Option A → Result A
claim key none = raise (key_error key)
claim key (some a) = ok a

abbrev pub token_data : Result Text → Result String → Result String → Result TokenData
token_data (ok user_id) (ok email) (ok role) =
    ok (record { user_id = user_id; email = email; role = role })
token_data (raise e) email role = raise e
token_data (ok user_id) (raise e) role = raise e
token_data (ok user_id) (ok email) (raise e) = raise e

abbrev pub verified : Option Claims → Result TokenData
verified none = raise (http 401 "Invalid or expired token")
verified (some c) = token_data (claim "sub" c.sub) (claim "email" c.email) (claim "role" c.role)

module _ {Token : Type 0} (jwt : Jwt Token) where
  unfoldable pub decode_token : Token → String → ℕ → Result TokenData
  decode_token token secret now = verified (jwt.decode token secret now)

pub record Identity : Type 0 where
  pub user_id : Text
  pub role : String

-- `get_identity`: a request without one of the two headers is refused by FastAPI.
unfoldable pub get_identity : Option Text → Option String → Result Identity
get_identity none role = raise (http 422 "X-User-Id")
get_identity (some user_id) none = raise (http 422 "X-User-Role")
get_identity (some user_id) (some role) = ok (record { user_id = user_id; role = role })

abbrev pub has_role : String → List String → Bool
has_role role [] = false
has_role role (r ∷ rs) = str_eq role r || has_role role rs

-- The `checker` that `require_role(*roles)` returns.
unfoldable pub require_role : List String → Identity → Result Identity
require_role roles identity =
    if has_role identity.role roles
    then ok identity
    else raise (http 403 "Insufficient permissions")
