-- ===== src/Shared/Cache/Server.antt =====
-- What Redis documents, as laws of a `Client`, and what `class Cache` makes of them.
use ordermesh.Prelude.{ℕ, ◌≡◌, ◌⊎◌, inl, Option, none, some, List, [], ◌∷◌, Text, refl}
use ordermesh.Shared.Outcome.{Result, ok, raise}
use ordermesh.Shared.Cache.{
  Client, Raw, json, garbage, decoded, or_miss, get_json, set_json, invalidate,
}

abbrev pub IsAmong : Text → List Text → Type 0
IsAmong k [] = ⊥
IsAmong k (j ∷ js) = (k ≡ j) ⊎ IsAmong k js

-- `view c k` is the value that the server holds. Entries may vanish at any time, since they expire;
-- a call that raises may have been carried out or not.
pub record IsServer {C V : Type 0} (redis : Client C V) (view : C → Text → Option (Raw V))
    : Type 0 where
  pub get_answers :
      (k : Text) (c : C) (raw : Raw V) → (redis.get k c).0 ≡ ok (some raw) → view c k ≡ some raw
  pub get_keeps :
      (k : Text) (c : C) (j : Text) (raw : Raw V)
      → view (redis.get k c).1 j ≡ some raw
      → view c j ≡ some raw
  pub set_keeps :
      (k : Text) (new : Raw V) (ttl : ℕ) (c : C) (j : Text) (raw : Raw V)
      → view (redis.set k new ttl c).1 j ≡ some raw
      → (view c j ≡ some raw) ⊎ ((j ≡ k) × (raw ≡ new))
  pub delete_keeps :
      (ks : List Text) (c : C) (j : Text) (raw : Raw V)
      → view (redis.delete ks c).1 j ≡ some raw
      → view c j ≡ some raw
  pub delete_removes :
      (ks : List Text) (c : C) (k : Text)
      → (redis.delete ks c).0 ≡ ok tt
      → IsAmong k ks
      → view (redis.delete ks c).1 k ≡ none

-- The server can be reached when something is to be deleted.
pub record IsReachable {C V : Type 0} (redis : Client C V) : Type 0 where
  pub deletes : (ks : List Text) (c : C) → (redis.delete ks c).0 ≡ ok tt

module _ {C V : Type 0} {redis : Client C V} {view : C → Text → Option (Raw V)}
    (server : IsServer redis view) where
  decoded-some :
      (r : Result (Option (Raw V))) (v : V) → or_miss (decoded r) ≡ some v → r ≡ ok (some (json v))
  decoded-some (ok none) v e = cc
  decoded-some (ok (some (json x))) v e = cc
  decoded-some (ok (some garbage)) v e = cc
  decoded-some (raise x) v e = cc

  pub get_json_answers :
      (k : Text) (c : C) (v : V) → (get_json redis k c).0 ≡ some v → view c k ≡ some (json v)
  unfolding get_json
  get_json_answers k c v e = server.get_answers k c (json v) (decoded-some (redis.get k c).0 v e)

  pub get_json_keeps :
      (k : Text) (c : C) (j : Text) (raw : Raw V)
      → view (get_json redis k c).1 j ≡ some raw
      → view c j ≡ some raw
  unfolding get_json
  get_json_keeps k c j raw e = server.get_keeps k c j raw e

  pub set_json_keeps :
      (default_ttl : ℕ) (k : Text) (v : V) (ttl : Option ℕ) (c : C) (j : Text) (raw : Raw V)
      → view (set_json redis default_ttl k v ttl c) j ≡ some raw
      → (view c j ≡ some raw) ⊎ ((j ≡ k) × (raw ≡ json v))
  unfolding set_json
  set_json_keeps default_ttl k v ttl c j raw e = server.set_keeps k (json v) _ c j raw e

  pub invalidate_keeps :
      (ks : List Text) (c : C) (j : Text) (raw : Raw V)
      → view (invalidate redis ks c) j ≡ some raw
      → view c j ≡ some raw
  unfolding invalidate
  invalidate_keeps [] c j raw e = e
  invalidate_keeps (k ∷ ks) c j raw e = server.delete_keeps (k ∷ ks) c j raw e

  pub invalidate_removes :
      IsReachable redis → (k : Text) (c : C) → view (invalidate redis (k ∷ []) c) k ≡ none
  unfolding invalidate
  invalidate_removes up k c = server.delete_removes (k ∷ []) c k (up.deletes (k ∷ []) c) (inl refl)
