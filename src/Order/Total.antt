-- ===== src/Order/Total.antt =====
-- services/order/app/service.py: the total of an order, where prices have at most two decimals.
use mathlib.Core.List.{foldl}
use Prim.Native.Nat.{max}
use ordermesh.Prelude.{
  ℕ, zero, suc, ◌+◌, ◌-◌, ◌*◌, ◌^◌, ◌≤◌, ◌<◌, ◌≡◌, refl, sym, List, [], ◌∷◌, map, All, subst, arith,
}
use ordermesh.Shared.Outcome.{ok}
use ordermesh.Order.Decimal.{Decimal, rounded, times, plus}
use ordermesh.Order.Model.{OrderItem, OrderItemIn, OrderCreate}
use ordermesh.Order.Service.{Numeric, add_price, total_of, item_rows}

-- `c` / 10 ^ `scale` is `n` hundredths, and has no more than two decimals.
abbrev Cents : ℕ → ℕ → ℕ → Type 0
Cents c zero n = n ≡ c * 100
Cents c (suc zero) n = n ≡ c * 10
Cents c (suc (suc zero)) n = n ≡ c
Cents c (suc (suc (suc k))) n = ⊥

abbrev pub IsCents : Decimal → ℕ → Type 0
IsCents d n = Cents d.coefficient d.scale n

abbrev cents : ℕ → ℕ → ℕ
cents c zero = c * 100
cents c (suc zero) = c * 10
cents c (suc (suc k)) = c

-- The value in hundredths.
abbrev pub cents_of : Decimal → ℕ
cents_of d = cents d.coefficient d.scale

abbrev pub HasCents : Decimal → Type 0
HasCents d = d.scale ≤ 2

Cents-cents : (c s : ℕ) → s ≤ 2 → Cents c s (cents c s)
Cents-cents c zero h = refl
Cents-cents c (suc zero) h = refl
Cents-cents c (suc (suc zero)) h = refl
Cents-cents c (suc (suc (suc k))) h = omega arith

-- What the precision leaves exact.
rounded-small : (d : Decimal) → d.coefficient < 10 ^ 28 → rounded d ≡ d
unfolding rounded
rounded-small d h = ground arith

Cents-le : (c s n : ℕ) → Cents c s n → c ≤ n
Cents-le c zero n h = omega arith
Cents-le c (suc zero) n h = omega arith
Cents-le c (suc (suc zero)) n h = omega arith
Cents-le c (suc (suc (suc k))) n h = absurd h

Cents-times : (c s n q : ℕ) → Cents c s n → Cents (c * q) s (n * q)
Cents-times c zero n q h = rw h (omega arith)
Cents-times c (suc zero) n q h = rw h (omega arith)
Cents-times c (suc (suc zero)) n q h = rw h
Cents-times c (suc (suc (suc k))) n q h = h

times-IsCents :
    (d : Decimal) (n q : ℕ) → IsCents d n → n * q < 10 ^ 28 → IsCents (times d q) (n * q)
unfolding times
times-IsCents d n q h small =
    let exact = Cents-times d.coefficient d.scale n q h in
    let product : Decimal = record { coefficient = d.coefficient * q; scale = d.scale } in
    subst (λ r. IsCents r (n * q))
      (sym
        (rounded-small product (omega (arith, Cents-le (d.coefficient * q) d.scale (n * q) exact))))
      exact

Cents-plus :
    (a s b t m n : ℕ)
    → Cents a s m
    → Cents b t n
    → Cents (a * 10 ^ (max s t - s) + b * 10 ^ (max s t - t)) (max s t) (m + n)
Cents-plus a zero b zero m n h k = omega arith
Cents-plus a zero b (suc zero) m n h k = omega arith
Cents-plus a zero b (suc (suc zero)) m n h k = omega arith
Cents-plus a (suc zero) b zero m n h k = omega arith
Cents-plus a (suc zero) b (suc zero) m n h k = omega arith
Cents-plus a (suc zero) b (suc (suc zero)) m n h k = omega arith
Cents-plus a (suc (suc zero)) b zero m n h k = omega arith
Cents-plus a (suc (suc zero)) b (suc zero) m n h k = omega arith
Cents-plus a (suc (suc zero)) b (suc (suc zero)) m n h k = omega arith
Cents-plus a (suc (suc (suc s))) b t m n h k = absurd h
Cents-plus a zero b (suc (suc (suc t))) m n h k = absurd k
Cents-plus a (suc zero) b (suc (suc (suc t))) m n h k = absurd k
Cents-plus a (suc (suc zero)) b (suc (suc (suc t))) m n h k = absurd k

plus-IsCents :
    (a b : Decimal) (m n : ℕ)
    → IsCents a m
    → IsCents b n
    → m + n < 10 ^ 28
    → IsCents (plus a b) (m + n)
unfolding plus
plus-IsCents a b m n h k small =
    let exact = Cents-plus a.coefficient a.scale b.coefficient b.scale m n h k in
    let scale = max a.scale b.scale in
    let sum : Decimal = record {
      coefficient = a.coefficient * 10 ^ (scale - a.scale) + b.coefficient * 10 ^ (scale - b.scale);
      scale = scale;
    } in
    subst (λ r. IsCents r (m + n))
      (sym (rounded-small sum (omega (arith, Cents-le sum.coefficient scale (m + n) exact)))) exact

-- What an order costs, in hundredths.
abbrev pub amount_due : List OrderItemIn → ℕ
amount_due [] = 0
amount_due (i ∷ is) = cents_of i.price * i.quantity + amount_due is

total-fold :
    (sum : Decimal) (m : ℕ) (items : List OrderItemIn)
    → All (λ i. HasCents i.price) items
    → IsCents sum m
    → m + amount_due items < 10 ^ 28
    → IsCents (foldl add_price sum items) (m + amount_due items)
total-fold sum m [] h k small = subst (IsCents sum) (omega arith) k
total-fold sum m (i ∷ is) h k small =
    let n = cents_of i.price * i.quantity in
    let price =
      times-IsCents i.price (cents_of i.price) i.quantity
        (Cents-cents i.price.coefficient i.price.scale h.0) (omega arith) in
    subst (IsCents (foldl add_price (add_price sum i) is)) (omega arith) (
      total-fold (add_price sum i) (m + n) is h.1
        (plus-IsCents sum (times i.price i.quantity) m n k price (omega arith)) (omega arith))

-- If every price has at most two decimals and the amount due, in hundredths, has at most 28 digits,
-- the total of the order is exactly the amount due: the decimal context rounds nothing.
pub total_of-IsCents :
    (items : OrderCreate)
    → All (λ i. HasCents i.price) items
    → amount_due items < 10 ^ 28
    → IsCents (total_of items) (amount_due items)
unfolding total_of
total_of-IsCents items h small =
    subst (IsCents (foldl add_price _ items)) (omega arith)
      (total-fold _ 0 items h refl (omega arith))

-- What PostgreSQL documents of a `Numeric(12, 2)` column: a value with at most two decimals below
-- 10 ^ 10 is kept as it is.
abbrev pub IsExact : Numeric → Type 0
IsExact numeric = (d : Decimal) (n : ℕ) → IsCents d n → n < 10 ^ 12 → numeric d ≡ ok n

abbrev pub priced : OrderItemIn → OrderItem
priced i = record { product_id = i.product_id; quantity = i.quantity; price = cents_of i.price }

pub item_rows-priced :
    (numeric : Numeric) (items : List OrderItemIn)
    → IsExact numeric
    → All (λ i. HasCents i.price × (cents_of i.price < 10 ^ 12)) items
    → item_rows numeric items ≡ ok (map priced items)
unfolding item_rows
item_rows-priced numeric [] exact h = refl
item_rows-priced numeric (i ∷ is) exact h = rw (
  exact i.price (cents_of i.price) (Cents-cents i.price.coefficient i.price.scale h.0.0) h.0.1,
  item_rows-priced numeric is exact h.1,
)
