-- ===== src/Shared/Cache.antt =====
-- shared/shared/cache.py: cache-aside over Redis. The Redis server is outside the repository: a
-- `Client` holds what the class calls. What Redis documents is in Server.antt.
pub mod Server
pub mod Memory
pub mod Aside
use ordermesh.Prelude.{ℕ, zero, suc, Option, none, some, List, [], ◌∷◌, Text}
use ordermesh.Shared.Outcome.{Result, ok, raise, value_error}

-- What is stored under a key: the JSON text of a value, or a text that `json.loads` refuses.
pub data Raw (V : Type 0) : Type 0 where
  json : V → Raw V
  garbage : Raw V

-- The calls of the `redis` client; each may raise, and `C` is the server's state.
pub record Client (C V : Type 0) : Type 0 where
  pub get : Text → C → Result (Option (Raw V)) × C
  pub set : Text → Raw V → ℕ → C → Result (Unit {0}) × C
  pub delete : List Text → C → Result (Unit {0}) × C

-- The body of the `try` after the client's answer.
abbrev pub decoded : {V : Type 0} → Result (Option (Raw V)) → Result (Option V)
decoded (ok none) = ok none
decoded (ok (some (json v))) = ok (some v)
decoded (ok (some garbage)) = raise value_error
decoded (raise e) = raise e

-- `except Exception: return None`
abbrev pub or_miss : {V : Type 0} → Result (Option V) → Option V
or_miss (ok found) = found
or_miss (raise e) = none

-- `ttl or self.default_ttl`
abbrev effective_ttl : Option ℕ → ℕ → ℕ
effective_ttl none default_ttl = default_ttl
effective_ttl (some zero) default_ttl = default_ttl
effective_ttl (some (suc n)) default_ttl = suc n

module _ {C V : Type 0} where
  unfoldable pub get_json : Client C V → Text → C → Option V × C
  get_json redis key c = let (r, c') = redis.get key c in (or_miss (decoded r), c')

  unfoldable pub set_json : Client C V → ℕ → Text → V → Option ℕ → C → C
  set_json redis default_ttl key v ttl c =
      (redis.set key (json v) (effective_ttl ttl default_ttl) c).1

  unfoldable pub invalidate : Client C V → List Text → C → C
  invalidate redis [] c = c
  invalidate redis (k ∷ ks) c = (redis.delete (k ∷ ks) c).1
