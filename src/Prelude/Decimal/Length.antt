-- ===== src/Prelude/Decimal/Length.antt =====
-- How long a numeral is.
use mathlib.Core.Logic.{dif_pos, dif_neg, inl, inr}
use mathlib.Core.WellFounded.{Acc}
use Prim.Native.Nat.{ℕ, zero, suc, ◌+◌, ◌-◌, ◌/◌, ◌%◌, ◌^◌, ◌<◌, ◌≤◌}
use mathlib.Core.Path.{◌≡◌}
use mathlib.Core.List.{[], ◌∷◌}
use native.Mathlib.Omega.{arith}
use native.Mathlib.Decide.{dec_lt}
use native.Mathlib.Bridge.{le_prop}
use native.Mathlib.Nat.{pow-succ'}
use ordermesh.Prelude.Tests.{◌==◌, Bool-cases}
use ordermesh.Prelude.Lists.{Text, length}
use ordermesh.Prelude.Decimal.{prepend_digits, to_text, zeros, zero_padded, tenth_lt, lt_wf}

shift : (x k r : ℕ) → x ≤ k + suc r → x ≤ suc k + r
shift x k r h = omega arith

length-prepend_digits :
    (k n : ℕ) (w : Acc ◌<◌ n) (rest : Text)
    → n < 10 ^ k
    → length (prepend_digits n w rest) ≤ k + length rest
unfolding prepend_digits
length-prepend_digits zero n (Acc.intro _ smaller) rest small =
    rw (dif_neg _ (λ (h : 0 < n). absurd (omega arith))) (omega arith)
length-prepend_digits (suc k) n (Acc.intro _ smaller) rest small = elim (dec_lt 0 n) [
  | no h ↦ rw (dif_neg _ h) (omega arith)
  | yes h ↦
      let next : n / 10 < 10 ^ k = omega (arith, pow-succ' 10 k) in
      rw (dif_pos _ le_prop h) (
        shift _ k (length rest) (
          length-prepend_digits k (n / 10) (smaller (n / 10) (tenth_lt n h))
            ((b'0' + n % 10) ∷ rest) next))
]

pub length-to_text : (k n : ℕ) → 1 ≤ k → n < 10 ^ k → length (to_text n) ≤ k
unfolding to_text
length-to_text k n pos small = elim (Bool-cases (n == 0)) [
  | inl e ↦ rw e (omega arith)
  | inr e ↦ rw e (omega (arith, length-prepend_digits k n (lt_wf.apply n) [] small))
]

length-zeros : (k : ℕ) (t : Text) → length (zeros k t) ≡ k + length t
length-zeros zero t = omega arith
length-zeros (suc k) t = omega (arith, length-zeros k t)

pub length-zero_padded :
    (width bound : ℕ) (t : Text)
    → width ≤ bound
    → length t ≤ bound
    → length (zero_padded width t) ≤ bound
unfolding zero_padded
length-zero_padded width bound t fits short = omega (arith, length-zeros (width - length t) t)
