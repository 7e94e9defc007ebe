-- ===== src/Order/Model.antt =====
-- services/order/app/models.py and schemas.py. The columns `created_at` and `updated_at`, which
-- the database fills and no code reads, are left out.
use ordermesh.Prelude.{ℕ, String, List, Bool, true, false, ltb, ◌&&◌, ◌∷◌, []}
use ordermesh.Order.Decimal.{Decimal}

pub data OrderStatus : Type 0 where
  pending confirmed shipped delivered cancelled : OrderStatus

-- The members of the `StrEnum`.
abbrev pub status_name : OrderStatus → String
status_name pending = "PENDING"
status_name confirmed = "CONFIRMED"
status_name shipped = "SHIPPED"
status_name delivered = "DELIVERED"
status_name cancelled = "CANCELLED"

abbrev pub same_status : OrderStatus → OrderStatus → Bool
same_status pending pending = true
same_status confirmed confirmed = true
same_status shipped shipped = true
same_status delivered delivered = true
same_status cancelled cancelled = true
same_status _ _ = false

-- `price` is in hundredths, as the column `Numeric(12, 2)` holds it.
pub record OrderItem : Type 0 where
  pub product_id : ℕ
  pub quantity : ℕ
  pub price : ℕ

pub record Order : Type 0 where
  pub id : ℕ
  pub customer_id : ℕ
  pub total_amount : ℕ
  pub status : OrderStatus
  pub items : List OrderItem

pub record Db : Type 0 where
  pub orders : List Order
  pub order_seq : ℕ

pub record OrderItemIn : Type 0 where
  pub product_id : ℕ
  pub quantity : ℕ
  pub price : Decimal

abbrev pub OrderCreate : Type 0
OrderCreate = List OrderItemIn

-- `Field(gt=0)` of the quantity and the price, and `Field(min_length=1)` of the list.
abbrev item_accepted : OrderItemIn → Bool
item_accepted i = ltb 0 i.quantity && ltb 0 i.price.coefficient

abbrev items_accepted : List OrderItemIn → Bool
items_accepted [] = true
items_accepted (i ∷ is) = item_accepted i && items_accepted is

unfoldable pub accepts : OrderCreate → Bool
accepts [] = false
accepts (i ∷ is) = items_accepted (i ∷ is)

-- `OrderOut` has the fields of the row.
abbrev pub OrderOut : Type 0
OrderOut = Order
