-- ===== src/Shared/Outcome.antt =====
-- How a Python call ends: with a value, or with an exception.
use ordermesh.Prelude.{ℕ, String}

pub data Error : Type 0 where
  http : ℕ → String → Error
  runtime : String → Error
  key_error : String → Error
  type_error value_error attribute_error : Error
  integrity : Error
  -- `RuntimeError(f"Could not connect to RabbitMQ after {retries} attempts: {last_err}")`, and the
  -- same after no attempt, where `last_err` is None
  unreachable : ℕ → Error → Error
  unreachable_untried : Error
  -- any exception that a library or a service outside the repository raises
  external : Error

pub data Result {ℓ} (A : Type ℓ) : Type ℓ where
  ok : A → Result A
  raise : Error → Result A

infixl 5 ◌>>=◌
abbrev pub ◌>>=◌ {ℓ κ} : {A : Type ℓ} {B : Type κ} → Result A → (A → Result B) → Result B
ok a >>= f = f a
raise e >>= f = raise e
