-- ===== src/Order/Decimal.antt =====
-- `decimal.Decimal` for the amounts of orders, none of which is negative: the value is
-- coefficient / 10 ^ scale. Results are rounded to the 28 digits of the default context, half to
-- even. Trailing zeros do not matter, since an amount is printed only after the database has
-- brought it to two places.
use ordermesh.Prelude.{
  ℕ, zero, suc, ◌+◌, ◌-◌, ◌*◌, ◌/◌, ◌%◌, ◌^◌, ◌||◌, ◌&&◌, ltb, leb, ◌==◌, if◌then◌else◌,
}
use Prim.Native.Nat.{max}

pub record Decimal : Type 0 where
  pub coefficient : ℕ
  pub scale : ℕ

abbrev pub precision : ℕ
precision = 28

-- How many digits are too many; the coefficient is fuel enough, since it falls by tens.
excess_digits : ℕ → ℕ → ℕ
excess_digits zero c = 0
excess_digits (suc fuel) c =
    let more = suc (excess_digits fuel (c / 10)) in if ltb c (10 ^ precision) then 0 else more

-- c / 10 ^ k, half to even.
half_even : ℕ → ℕ → ℕ
half_even k c =
    let q = c / 10 ^ k in
    let twice = 2 * (c % 10 ^ k) in
    if ltb (10 ^ k) twice || twice == 10 ^ k && q % 2 == 1 then q + 1 else q

-- The value with its last `k` digits rounded away.
abbrev drop_digits : ℕ → Decimal → Decimal
drop_digits k d =
    if leb k d.scale
    then record { coefficient = half_even k d.coefficient; scale = d.scale - k }
    else record { coefficient = half_even k d.coefficient * 10 ^ (k - d.scale); scale = 0 }

unfoldable pub rounded : Decimal → Decimal
unfolding excess_digits half_even
rounded d =
    let less = drop_digits (excess_digits d.coefficient d.coefficient) d in
    if ltb d.coefficient (10 ^ precision) then d else less

-- `price * quantity`
unfoldable pub times : Decimal → ℕ → Decimal
times d n = rounded (record { coefficient = d.coefficient * n; scale = d.scale })

-- `a + b`
unfoldable pub plus : Decimal → Decimal → Decimal
plus a b =
    let scale = max a.scale b.scale in
    rounded (record {
      coefficient = a.coefficient * 10 ^ (scale - a.scale) + b.coefficient * 10 ^ (scale - b.scale);
      scale = scale;
    })
