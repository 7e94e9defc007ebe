-- ===== src/Inventory/Invariant/Keys.antt =====
-- The columns that tell rows apart, when quantities change.
use ordermesh.Prelude.Keys.{HasKeys}
use ordermesh.Prelude.{ℕ, ◌≢◌, List, [], ◌∷◌, All, Bool-cases, inl, inr, ◌==◌}
use ordermesh.Prelude.Int.{ℤ}
use ordermesh.Inventory.Model.{Product}
use ordermesh.Inventory.Service.{change_stock}
use ordermesh.Inventory.Invariant.{HasDistinctSkus, product_key}

-- Only the quantity changes.
All-change_stock {κ} :
    (P : Product → Type κ) (id : ℕ) (f : ℤ → ℤ) (ps : List Product)
    → ((p : Product) → P p → P (record p { quantity_available = f p.quantity_available }))
    → All P ps
    → All P (change_stock id f ps)
All-change_stock P id f [] keep h = tt
All-change_stock P id f (p ∷ ps) keep h = elim (Bool-cases (p.id == id)) [
  | inl e ↦ rw e (keep p h.0, All-change_stock P id f ps keep h.1)
  | inr e ↦ rw e (h.0, All-change_stock P id f ps keep h.1)
]

pub HasKeys-change_stock :
    (seq id : ℕ) (f : ℤ → ℤ) (ps : List Product)
    → HasKeys product_key seq ps
    → HasKeys product_key seq (change_stock id f ps)
HasKeys-change_stock seq id f [] h = tt
HasKeys-change_stock seq id f (p ∷ ps) h =
    let tail = All-change_stock (λ q. q.id ≢ p.id) id f ps (λ q r. r) h.1 in
    let rest = HasKeys-change_stock seq id f ps h.2 in
    elim (Bool-cases (p.id == id)) [
      | inl e ↦ rw e (h.0, tail, rest)
      | inr e ↦ rw e (h.0, tail, rest)
    ]

pub HasDistinctSkus-change_stock :
    (id : ℕ) (f : ℤ → ℤ) (ps : List Product)
    → HasDistinctSkus ps
    → HasDistinctSkus (change_stock id f ps)
HasDistinctSkus-change_stock id f [] h = tt
HasDistinctSkus-change_stock id f (p ∷ ps) h =
    let tail = All-change_stock (λ q. q.sku ≢ p.sku) id f ps (λ q r. r) h.0 in
    let rest = HasDistinctSkus-change_stock id f ps h.1 in
    elim (Bool-cases (p.id == id)) [ inl e ↦ rw e (tail, rest) | inr e ↦ rw e (tail, rest) ]
