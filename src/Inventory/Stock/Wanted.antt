-- ===== src/Inventory/Stock/Wanted.antt =====
-- The dict `wanted` of `reserve_for_order`: each product once, with the sum of what the items ask.
use mathlib.Core.List.{foldl}
use ordermesh.Prelude.{
  ℕ, ◌≡◌, ◌≢◌, ◌∙◌, ◌↔◌, refl, List, [], ◌∷◌, arith, ◌==◌, if◌then◌else◌, All, All-zip, Bool-cases,
  inl, inr, subst, ==_iff,
}
use ordermesh.Prelude.Int.{ℤ, pos, ◌+ℤ◌, int_laws}
use ordermesh.Shared.Event.{Item}
use ordermesh.Inventory.Service.{Wanted, wanted_add, add_item, wanted_of}

-- What the items of an order ask of a product.
abbrev pub asked : ℕ → List Item → ℤ
asked id [] = pos 0
asked id (x ∷ xs) = if x.product_id == id then x.quantity +ℤ asked id xs else asked id xs

abbrev pub amount : ℕ → Wanted → ℤ
amount id [] = pos 0
amount id ((k, q) ∷ w) = if k == id then q +ℤ amount id w else amount id w

abbrev pub IsFresh : ℕ → Wanted → Type 0
IsFresh id = All (λ e. e.0 ≢ id)

abbrev pub HasDistinctKeys : Wanted → Type 0
HasDistinctKeys [] = Unit
HasDistinctKeys ((k, q) ∷ w) = IsFresh k w × HasDistinctKeys w

amount-wanted_add :
    (j id : ℕ) (q : ℤ) (w : Wanted)
    → amount j (wanted_add id q w) ≡ (if id == j then amount j w +ℤ q else amount j w)
amount-wanted_add j id q [] = grind int_laws
amount-wanted_add j id q ((k, n) ∷ w) = grind (int_laws, amount-wanted_add j id q w)

amount-fold :
    (j : ℕ) (w : Wanted) (items : List Item)
    → amount j (foldl add_item w items) ≡ amount j w +ℤ asked j items
amount-fold j w [] = omega int_laws
amount-fold j w (x ∷ xs) =
    grind (int_laws, amount-fold j (add_item w x) xs, amount-wanted_add j x.product_id x.quantity w)

pub amount-wanted_of : (j : ℕ) (items : List Item) → amount j (wanted_of items) ≡ asked j items
unfolding wanted_of
amount-wanted_of j items = amount-fold j [] items ∙ omega int_laws

IsFresh-wanted_add :
    (j id : ℕ) (q : ℤ) (w : Wanted) → id ≢ j → IsFresh j w → IsFresh j (wanted_add id q w)
IsFresh-wanted_add j id q [] ne h = (ne, tt)
IsFresh-wanted_add j id q ((k, n) ∷ w) ne h = ground (arith, IsFresh-wanted_add j id q w ne h.1)

wanted_add-HasDistinctKeys :
    (id : ℕ) (q : ℤ) (w : Wanted) → HasDistinctKeys w → HasDistinctKeys (wanted_add id q w)
wanted_add-HasDistinctKeys id q [] h = (tt, tt)
wanted_add-HasDistinctKeys id q ((k, n) ∷ w) h =
    ground (arith, IsFresh-wanted_add k id q w, wanted_add-HasDistinctKeys id q w h.1)

fold-HasDistinctKeys :
    (w : Wanted) (items : List Item) → HasDistinctKeys w → HasDistinctKeys (foldl add_item w items)
fold-HasDistinctKeys w [] h = h
fold-HasDistinctKeys w (x ∷ xs) h =
    fold-HasDistinctKeys (add_item w x) xs (wanted_add-HasDistinctKeys x.product_id x.quantity w h)

pub wanted_of-HasDistinctKeys : (items : List Item) → HasDistinctKeys (wanted_of items)
unfolding wanted_of
wanted_of-HasDistinctKeys items = fold-HasDistinctKeys [] items tt

pub amount-IsFresh : (id : ℕ) (w : Wanted) → IsFresh id w → amount id w ≡ pos 0
amount-IsFresh id [] h = refl
amount-IsFresh id ((k, q) ∷ w) h = ground (arith, amount-IsFresh id w h.1)

wanted_add-ne-nil : (id : ℕ) (q : ℤ) (w : Wanted) → wanted_add id q w ≢ []
wanted_add-ne-nil id q [] = cc
wanted_add-ne-nil id q (e ∷ w) = ground arith

fold-ne-nil : (w : Wanted) (items : List Item) → w ≢ [] → foldl add_item w items ≢ []
fold-ne-nil w [] h = h
fold-ne-nil w (x ∷ xs) h =
    fold-ne-nil (add_item w x) xs (wanted_add-ne-nil x.product_id x.quantity w)

pub wanted_of-ne-nil : (items : List Item) → items ≢ [] → wanted_of items ≢ []
unfolding wanted_of
wanted_of-ne-nil [] h = absurd (h refl)
wanted_of-ne-nil (x ∷ xs) h =
    fold-ne-nil (add_item [] x) xs (wanted_add-ne-nil x.product_id x.quantity [])

-- Each entry holds the whole amount of its product.
pub entries-amount : (w : Wanted) → HasDistinctKeys w → All (λ e. e.1 ≡ amount e.0 w) w
entries-amount [] h = tt
entries-amount ((k, q) ∷ w) h = (
  grind (int_laws, amount-IsFresh k w h.0),
  All-zip (λ e ne same. ground arith) w h.0 (entries-amount w h.1),
)

module _ {ℓ} (P : ℕ → Type ℓ) where
  keys-wanted_add :
      (id : ℕ) (q : ℤ) (w : Wanted)
      → All (λ e. P e.0) (wanted_add id q w) ↔ (P id × All (λ e. P e.0) w)
  keys-wanted_add id q [] = (λ h. h, λ h. h)
  keys-wanted_add id q ((k, n) ∷ w) = elim (Bool-cases (k == id)) [
    | inl e ↦ rw e (λ h. (subst P ((==_iff k id).0 e) h.0, h), λ h. h.1)
    | inr e ↦
        let ih = keys-wanted_add id q w in
        rw e (λ h. let r = ih.0 h.1 in (r.0, (h.0, r.1)), λ h. (h.1.0, ih.1 (h.0, h.1.1)))
  ]

  keys-fold :
      (w : Wanted) (items : List Item)
      → All (λ e. P e.0) (foldl add_item w items)
        ↔ (All (λ e. P e.0) w × All (λ x. P x.product_id) items)
  keys-fold w [] = (λ h. (h, tt), λ h. h.0)
  keys-fold w (x ∷ xs) =
      let ih = keys-fold (add_item w x) xs in
      let step = keys-wanted_add x.product_id x.quantity w in
      (
        λ h. let r = ih.0 h in let t = step.0 r.0 in (t.1, (t.0, r.1)),
        λ h. ih.1 (step.1 (h.1.0, h.0), h.1.1),
      )

  -- What holds of every key of `wanted` holds of every product that an item names, and the other
  -- way round.
  pub keys-wanted_of :
      (items : List Item) → All (λ e. P e.0) (wanted_of items) ↔ All (λ x. P x.product_id) items
  unfolding wanted_of
  keys-wanted_of items = (λ h. ((keys-fold [] items).0 h).1, λ h. (keys-fold [] items).1 (tt, h))
