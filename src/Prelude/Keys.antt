-- ===== src/Prelude/Keys.antt =====
-- Columns of a table that tell its rows apart: primary keys from a sequence, and unique columns.
use Prim.Native.Nat.{ℕ, ◌+◌, ◌≤◌, ◌<◌}
use mathlib.Core.Path.{◌≡◌, sym, ◌∙◌}
use mathlib.Core.Logic.{◌≢◌, inl, inr}
use mathlib.Core.Bool.{Bool}
use mathlib.Core.List.{List, [], ◌∷◌, ◌++◌, map}
use native.Mathlib.Omega.{arith}
use ordermesh.Prelude.Tests.{Bool-cases}
use ordermesh.Prelude.Lists.{All, All-select, All-append, select}

-- Primary keys below the sequence, no two alike.
abbrev pub HasKeys {ℓ} : {A : Type ℓ} → (A → ℕ) → ℕ → List A → Type 0
HasKeys key seq [] = Unit
HasKeys key seq (x ∷ xs) = (key x < seq) × All (λ y. key y ≢ key x) xs × HasKeys key seq xs

-- A unique column.
abbrev pub AreDistinct {ℓ κ} : {A : Type ℓ} {B : Type κ} → (A → B) → List A → Type κ
AreDistinct column [] = Unit
AreDistinct column (x ∷ xs) = All (λ y. column y ≢ column x) xs × AreDistinct column xs

module _ {ℓ} {A : Type ℓ} (key : A → ℕ) where
  All-key-append :
      (k : ℕ) (xs : List A) (y : A)
      → key y ≢ k
      → All (λ x. key x ≢ k) xs
      → All (λ x. key x ≢ k) (xs ++ y ∷ [])
  All-key-append k [] y ne h = (ne, tt)
  All-key-append k (x ∷ xs) y ne h = (h.0, All-key-append k xs y ne h.1)

  pub HasKeys-le : (a b : ℕ) (xs : List A) → a ≤ b → HasKeys key a xs → HasKeys key b xs
  HasKeys-le a b [] le h = tt
  HasKeys-le a b (x ∷ xs) le h = (omega arith, h.1, HasKeys-le a b xs le h.2)

  -- A row that took the next number.
  pub HasKeys-append :
      (seq : ℕ) (xs : List A) (y : A)
      → key y ≡ seq
      → HasKeys key seq xs
      → HasKeys key (seq + 1) (xs ++ y ∷ [])
  HasKeys-append seq [] y e h = (omega arith, tt, tt)
  HasKeys-append seq (x ∷ xs) y e h =
      (omega arith, All-key-append (key x) xs y (omega arith) h.1, HasKeys-append seq xs y e h.2)

  pub HasKeys-select :
      (seq : ℕ) (p : A → Bool) (xs : List A) → HasKeys key seq xs → HasKeys key seq (select p xs)
  HasKeys-select seq p [] h = tt
  HasKeys-select seq p (x ∷ xs) h = elim (Bool-cases (p x)) [
    | inl e ↦ rw e (h.0, All-select (λ y. key y ≢ key x) p xs h.1, HasKeys-select seq p xs h.2)
    | inr e ↦ rw e (HasKeys-select seq p xs h.2)
  ]

  pub keys-lt : (seq : ℕ) (xs : List A) → HasKeys key seq xs → All (λ x. key x < seq) xs
  keys-lt seq [] h = tt
  keys-lt seq (x ∷ xs) h = (h.0, keys-lt seq xs h.2)

pub AreDistinct-append {ℓ κ} :
    {A : Type ℓ} {B : Type κ} (column : A → B) (xs : List A) (y : A)
    → AreDistinct column xs
    → All (λ x. column y ≢ column x) xs
    → AreDistinct column (xs ++ y ∷ [])
AreDistinct-append column [] y h t = (tt, tt)
AreDistinct-append column (x ∷ xs) y h t = (
  All-append (λ z. column z ≢ column x) xs (y ∷ []) h.0 (t.0, tt),
  AreDistinct-append column xs y h.1 t.1,
)

-- Rows that are written anew with the columns that they had.
module _ {ℓ} {A : Type ℓ} (f : A → A) where
  pub All-map_rows {ι} :
      (P Q : A → Type ι) (xs : List A) → ((x : A) → P x → Q (f x)) → All P xs → All Q (map f xs)
  All-map_rows P Q [] keep h = tt
  All-map_rows P Q (x ∷ xs) keep h = (keep x h.0, All-map_rows P Q xs keep h.1)

  ne_after {κ} :
      {B : Type κ} (column : A → B) (x y : A)
      → ((z : A) → column (f z) ≡ column z)
      → column y ≢ column x
      → column (f y) ≢ column (f x)
  ne_after column x y same ne e = ne (sym (same y) ∙ e ∙ same x)

  pub HasKeys-map :
      (key : A → ℕ) (seq : ℕ) (xs : List A)
      → ((x : A) → key (f x) ≡ key x)
      → HasKeys key seq xs
      → HasKeys key seq (map f xs)
  HasKeys-map key seq [] same h = tt
  HasKeys-map key seq (x ∷ xs) same h = (
    omega (arith, same x),
    All-map_rows (λ y. key y ≢ key x) (λ y. key y ≢ key (f x)) xs (λ y ne. ne_after key x y same ne)
        h.1,
    HasKeys-map key seq xs same h.2,
  )

  pub AreDistinct-map {κ} :
      {B : Type κ} (column : A → B) (xs : List A)
      → ((x : A) → column (f x) ≡ column x)
      → AreDistinct column xs
      → AreDistinct column (map f xs)
  AreDistinct-map column [] same h = tt
  AreDistinct-map column (x ∷ xs) same h = (
    All-map_rows (λ y. column y ≢ column x) (λ y. column y ≢ column (f x)) xs
        (λ y ne. ne_after column x y same ne) h.0,
    AreDistinct-map column xs same h.1,
  )
