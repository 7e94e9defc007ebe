-- ===== src/Gateway/Model.antt =====
-- services/gateway/app/models.py, schemas.py and config.py. The column `created_at` is left out.
use ordermesh.Prelude.{ℕ, String, Bool, List, ◌&&◌, Text, leb, length}

pub data Role : Type 0 where
  customer admin : Role

-- The members of the `StrEnum`.
abbrev pub role_value : Role → String
role_value customer = "CUSTOMER"
role_value admin = "ADMIN"

-- `Hash` is the type of bcrypt's hashes.
pub record User (Hash : Type 0) : Type 0 where
  pub id : ℕ
  pub email : String
  pub hashed_password : Hash
  pub role : String

pub record Db (Hash : Type 0) : Type 0 where
  pub users : List (User Hash)
  pub user_seq : ℕ

-- An email is the text that `EmailStr` made of the client's, in normal form.
pub record RegisterRequest : Type 0 where
  pub email : String
  pub password : Text
  pub role : Role

pub record LoginRequest : Type 0 where
  pub email : String
  pub password : Text

pub record TokenResponse (Token : Type 0) : Type 0 where
  pub access_token : Token
  pub token_type : String

pub record UserResponse : Type 0 where
  pub id : ℕ
  pub email : String
  pub role : String

-- `Field(min_length=6, max_length=128)`
unfoldable pub accepts : RegisterRequest → Bool
accepts payload = leb 6 (length payload.password) && leb (length payload.password) 128

pub record Settings : Type 0 where
  pub jwt_secret : String
  pub jwt_expiry_minutes : ℕ
  pub order_service_url : Text
  pub inventory_service_url : Text
  pub shipping_service_url : Text
