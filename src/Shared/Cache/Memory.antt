-- ===== src/Shared/Cache/Memory.antt =====
-- A Redis that always answers and never expires an entry: the laws of Server.antt can be met.
use ordermesh.Prelude.{
  text_eq, text_eq_sound, text_eq_refl, ◌≡◌, refl, inl, inr, Bool, true, false, ◌||◌, Option, none,
  some, List, [], ◌∷◌, Text, if◌then◌else◌, Bool-cases, arith,
}
use ordermesh.Shared.Outcome.{ok}
use ordermesh.Shared.Cache.{Client, Raw}
use ordermesh.Shared.Cache.Server.{IsServer, IsReachable, IsAmong}

abbrev pub Memory : Type 0 → Type 0
Memory V = Text → Option (Raw V)

abbrev among : Text → List Text → Bool
among k [] = false
among k (j ∷ js) = text_eq k j || among k js

abbrev pub memory : {V : Type 0} → Client (Memory V) V
memory = record {
  get = λ k c. (ok (c k), c);
  set = λ k v ttl c. (ok tt, λ j. if text_eq j k then some v else c j);
  delete = λ ks c. (ok tt, λ j. if among j ks then none else c j);
}

abbrev pub held : {V : Type 0} → Memory V → Text → Option (Raw V)
held c k = c k

abbrev pub nothing : {V : Type 0} → Memory V
nothing k = none

among_complete : (k : Text) (ks : List Text) → IsAmong k ks → among k ks ≡ true
among_complete k [] h = absurd h
among_complete k (j ∷ js) (inl e) = rw (← e, text_eq_refl)
among_complete k (j ∷ js) (inr h) = ground (arith, among_complete k js h)

module _ {V : Type 0} where
  pub memory-IsServer : IsServer (memory {V = V}) held
  memory-IsServer = record {
    get_answers = λ k c raw e. cc;
    get_keeps = λ k c j raw e. e;
    set_keeps = λ k new ttl c j raw e. elim (Bool-cases (text_eq j k)) [
      | inl same ↦ inr (text_eq_sound j k same, cc (rw same at e))
      | inr other ↦ inl (rw other at e)
    ];
    delete_keeps = λ ks c j raw e. elim (Bool-cases (among j ks)) [
      | inl gone ↦ cc (rw gone at e)
      | inr left ↦ rw left at e
    ];
    delete_removes = λ ks c k e h. rw (among_complete k ks h);
  }

  pub memory-IsReachable : IsReachable (memory {V = V})
  memory-IsReachable = record { deletes = λ ks c. refl }
