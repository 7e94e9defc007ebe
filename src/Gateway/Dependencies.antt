-- ===== src/Gateway/Dependencies.antt =====
-- services/gateway/app/dependencies.py. `bearer` is what FastAPI's `HTTPBearer` made of the
-- request: the credentials, or the exception for a request without any.
use text.Mathlib.Text.{◌==◌ as str_eq}
use ordermesh.Prelude.{ℕ, if◌then◌else◌}
use ordermesh.Shared.Outcome.{Result, ok, raise, http, ◌>>=◌}
use ordermesh.Shared.Auth.{TokenData, Jwt, decode_token}
use ordermesh.Gateway.Model.{Settings}

module _ {Token : Type 0} (jwt : Jwt Token) (settings : Settings) where
  unfoldable pub current_user : Result Token → ℕ → Result TokenData
  unfolding decode_token
  current_user bearer now = bearer >>= (λ token. decode_token jwt token settings.jwt_secret now)

-- The check of `require_admin` on the user that `current_user` gave.
abbrev pub admin_only : TokenData → Result TokenData
admin_only user =
    if str_eq user.role "ADMIN" then ok user else raise (http 403 "Admin access required")

unfoldable pub require_admin : Result TokenData → Result TokenData
require_admin user = user >>= admin_only
