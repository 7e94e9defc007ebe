-- ===== src/Shipping/Bounds.antt =====
-- The columns of services/shipping/app/models.py and what is put into them.
use ordermesh.Prelude.{ℕ, ◌≤◌, ◌<◌, ◌^◌, ◌++◌, arith, length, length-append, codes}
use ordermesh.Prelude.Decimal.{to_text, zero_padded}
use ordermesh.Prelude.Decimal.Length.{length-to_text, length-zero_padded}
use ordermesh.Shipping.Service.{tracking_number}

-- Up to the year 9999 and for keys below 2 ^ 31, the range of the key's column, a tracking number
-- has at most 19 characters, so it fits its column, which takes 32.
pub tracking_number_bound :
    (year id : ℕ) → year < 10000 → id < 2 ^ 31 → length (tracking_number year id) ≤ 19
unfolding tracking_number
tracking_number_bound year id y k = omega (
  arith,
  length-append {0} (to_text year) (codes "-" ++ zero_padded 6 (to_text id)),
  length-to_text 4 year (omega arith) (omega arith),
  length-zero_padded 6 10 (to_text id) (omega arith)
      (length-to_text 10 id (omega arith) (omega arith)),
)
