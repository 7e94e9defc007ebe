-- ===== src/Shared/Security.antt =====
-- shared/shared/security.py: passwords are hashed with bcrypt, which is outside the repository and
-- a parameter; the salt is what `bcrypt.gensalt()` drew.
use ordermesh.Prelude.{
  ℕ, ◌+◌, ◌/◌, ◌%◌, ◌≡◌, Bool, true, List, [], ◌∷◌, ◌++◌, Text, take, ltb, if◌then◌else◌,
}
use ordermesh.Shared.Outcome.{Result, ok}

-- UTF-8 of one code point.
abbrev utf8 : ℕ → List ℕ
utf8 c =
    if ltb c 128
    then c ∷ []
    else if ltb c 2048
    then (192 + c / 64) ∷ (128 + c % 64) ∷ []
    else if ltb c 65536
    then (224 + c / 4096) ∷ (128 + c / 64 % 64) ∷ (128 + c % 64) ∷ []
    else (240 + c / 262144) ∷ (128 + c / 4096 % 64) ∷ (128 + c / 64 % 64) ∷ (128 + c % 64) ∷ []

-- `password.encode("utf-8")`
abbrev encode_utf8 : Text → List ℕ
encode_utf8 [] = []
encode_utf8 (c ∷ t) = utf8 c ++ encode_utf8 t

abbrev pub max_bytes : ℕ
max_bytes = 72

unfoldable pub encode : Text → List ℕ
encode password = take max_bytes (encode_utf8 password)

pub record Bcrypt (Salt Hash : Type 0) : Type 0 where
  pub hashpw : List ℕ → Salt → Result Hash
  pub checkpw : List ℕ → Hash → Result Bool

-- What the package documents: a password checks against its own hash.
pub record IsBcrypt {Salt Hash : Type 0} (bcrypt : Bcrypt Salt Hash) : Type 0 where
  pub checks :
      (password : List ℕ) (salt : Salt) (hash : Hash)
      → bcrypt.hashpw password salt ≡ ok hash
      → bcrypt.checkpw password hash ≡ ok true

module _ {Salt Hash : Type 0} (bcrypt : Bcrypt Salt Hash) where
  unfoldable pub hash_password : Text → Salt → Result Hash
  hash_password password salt = bcrypt.hashpw (encode password) salt

  unfoldable pub verify_password : Text → Hash → Result Bool
  verify_password password hash = bcrypt.checkpw (encode password) hash
