-- ===== src/Schema/Tests.antt =====
-- A database that keeps only names: each of a table or an index, with the table that it belongs to.
use text.Mathlib.Text.{◌==◌ as str_eq}
use text.Mathlib.TextEquality.{eq_iff}
use ordermesh.Prelude.{
  String, true, false, not, ◌≡◌, ap, refl, List, [], ◌∷◌, All, Text, codes, select, arith,
  Bool-cases, inl, inr,
}
use ordermesh.Schema.{Op, create_table, create_index, drop_index, drop_table, run}
use ordermesh.Schema.Migrations.{Service, upgrade, downgrade, shipments}
use ordermesh.Schema.Undo.{is_prefix, IsDdl, run-downgrade-upgrade}
use ordermesh.Schema.Agreement.{
  SameTables, created_tables, created_indexes, declared_indexes, upgrade_agrees,
}
use ordermesh.Schema.Models.{metadata}
use ordermesh.Schema.Widths.{Fits, new_shipment-Fits}
use ordermesh.Shipping.Model.{in_transit, status_name}
use ordermesh.Shipping.Service.{new_shipment}

abbrev Names : Type 0
Names = List (String × String)

abbrev execute : Op → Names → Names
execute (create_table name columns) s = (name, name) ∷ s
execute (create_index i) s = (i.name, i.table) ∷ s
execute (drop_index name) s = select (λ x. not (str_eq x.0 name)) s
execute (drop_table name) s = select (λ x. not (str_eq x.1 name)) s

abbrev Free : Names → String → Type 0
Free s n = All (λ x. (str_eq x.0 n ≡ false) × (str_eq x.1 n ≡ false)) s

str_eq_refl : (t : String) → str_eq t t ≡ true
str_eq_refl t = (eq_iff t t).1 refl

is_prefix_refl : (t : Text) → is_prefix t t ≡ true
is_prefix_refl [] = refl
is_prefix_refl (c ∷ t) = ground (arith, is_prefix_refl t)

apart : (name n : String) → is_prefix (codes name) (codes n) ≡ false → str_eq name n ≡ false
apart name n h = elim (Bool-cases (str_eq name n)) [
  | inr e ↦ e
  | inl e ↦ cc (
    h,
    ap (λ t. is_prefix (codes name) (codes t)) ((eq_iff name n).0 e),
    is_prefix_refl (codes name),
  )
]

select-Free_name : (s : Names) (n : String) → Free s n → select (λ x. not (str_eq x.0 n)) s ≡ s
select-Free_name [] n h = refl
select-Free_name (x ∷ s) n h = ground (arith, select-Free_name s n h.1)

select-Free_table : (s : Names) (n : String) → Free s n → select (λ x. not (str_eq x.1 n)) s ≡ s
select-Free_table [] n h = refl
select-Free_table (x ∷ s) n h = ground (arith, select-Free_table s n h.1)

names-IsDdl : IsDdl execute Free
names-IsDdl = record {
  drop_created_table = λ name columns s h. rw str_eq_refl (select-Free_table s name h);
  drop_created_index = λ i s h. rw str_eq_refl (select-Free_name s i.name h);
  drop_indexed_table = λ i s. rw str_eq_refl;
  free_after_table = λ name n columns s h f. ((apart name n h, apart name n h), f);
  free_after_index = λ i n s h t f. ((h, t), f);
}

run-downgrade-upgrade_example :
    run execute
      (downgrade Service.order)
      (run execute (upgrade Service.order) (("users", "users") ∷ []))
    ≡ ("users", "users") ∷ []
run-downgrade-upgrade_example =
    run-downgrade-upgrade names-IsDdl Service.order (("users", "users") ∷ [])
      (((refl, refl), tt), (((refl, refl), tt), (((refl, refl), tt), (((refl, refl), tt), tt))))

upgrade_agrees_example :
    SameTables (created_tables (upgrade Service.notification)) (metadata Service.notification)
    × (created_indexes (upgrade Service.notification)
        ≡ declared_indexes (metadata Service.notification))
upgrade_agrees_example = upgrade_agrees Service.notification

new_shipment-Fits_example :
    Fits shipments "tracking_number" (new_shipment 2024 3 1234567 9).tracking_number
    × Fits shipments "courier_name" (codes (new_shipment 2024 3 1234567 9).courier_name)
    × Fits shipments "status" (codes (status_name in_transit))
new_shipment-Fits_example =
    new_shipment-Fits 2024 3 1234567 9 in_transit (omega arith) (omega arith)
