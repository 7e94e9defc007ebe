-- ===== src/Shared/Cache/Aside.antt =====
-- A table beside the cache that serves its rows: what cache-aside needs of the calls of `class Cache`.
use ordermesh.Prelude.{ℕ, ◌≡◌, ◌≢◌, ◌∙◌, sym, ap, some, Option, [], ◌∷◌, Text, inl, inr}
use ordermesh.Shared.Cache.{Client, Raw, json, get_json, set_json, invalidate}
use ordermesh.Shared.Cache.Server.{
  IsServer, IsReachable, get_json_answers, get_json_keeps, set_json_keeps, invalidate_keeps,
  invalidate_removes,
}

json_injective : {V : Type 0} {a b : V} → json a ≡ json b → a ≡ b
json_injective e = cc

-- A value that the server holds for an id is the table's row, `row` being the search in the table.
pub record IsAside {C V : Type 0} (view : C → Text → Option (Raw V)) (key : ℕ → Text)
    (row : ℕ → Option V) (c : C) : Type 0 where
  pub agrees : (id : ℕ) (out : V) → view c (key id) ≡ some (json out) → row id ≡ some out

module _ {C V : Type 0} {redis : Client C V} {view : C → Text → Option (Raw V)}
    (server : IsServer redis view) {key : ℕ → Text} {row : ℕ → Option V} where
  pub get_json-row :
      (id : ℕ) (out : V) (c : C)
      → IsAside view key row c
      → (get_json redis (key id) c).0 ≡ some out
      → row id ≡ some out
  get_json-row id out c h e = h.agrees id out (get_json_answers server (key id) c out e)

  pub get_json-IsAside :
      (id : ℕ) (c : C) → IsAside view key row c → IsAside view key row (get_json redis (key id) c).1
  get_json-IsAside id c h = record {
    agrees = λ j out e. h.agrees j out (get_json_keeps server (key id) c (key j) (json out) e);
  }

  -- A row that is stored under its own id.
  pub set_json-IsAside :
      ((a b : ℕ) → key a ≡ key b → a ≡ b)
      → (default_ttl id : ℕ) (v : V) (ttl : Option ℕ) (c : C) → row id ≡ some v
      → IsAside view key row c
      → IsAside view key row (set_json redis default_ttl (key id) v ttl c)
  set_json-IsAside key_injective default_ttl id v ttl c there h = record {
    agrees = λ j out e.
        elim (set_json_keeps server default_ttl (key id) v ttl c (key j) (json out) e) [
          | inl old ↦ h.agrees j out old
          | inr (same, raw) ↦
              ap row (key_injective j id same) ∙ there ∙ ap some (sym (json_injective raw))
        ];
  }

  -- A change of one row, whose entry is then deleted.
  pub invalidate-IsAside :
      IsReachable redis
      → (id : ℕ) (row' : ℕ → Option V) (c : C) → ((j : ℕ) → id ≢ j → row' j ≡ row j)
      → IsAside view key row c
      → IsAside view key row' (invalidate redis (key id ∷ []) c)
  invalidate-IsAside up id row' c others h = record {
    agrees = λ j out e.
        others j (λ same. cc (ap key same, e, invalidate_removes server up (key id) c))
        ∙ h.agrees j out (invalidate_keeps server (key id ∷ []) c (key j) (json out) e);
  }
