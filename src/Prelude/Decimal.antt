-- ===== src/Prelude/Decimal.antt =====
-- Python's `str(n)` and the format `{n:06d}` of a natural number, as texts.
pub mod Length
use mathlib.Core.Logic.{dite, dif_pos, dif_neg, inl, inr, ◌≢◌}
use mathlib.Core.WellFounded.{Acc, WellFounded}
use Prim.Native.Nat.{ℕ, zero, suc, ◌+◌, ◌-◌, ◌*◌, ◌/◌, ◌%◌, ◌^◌, ◌<◌, ◌≤◌}
use mathlib.Core.Path.{◌≡◌, refl, ap, sym, ◌∙◌}
use mathlib.Core.List.{[], ◌∷◌, ◌++◌, foldl}
use mathlib.Core.Bool.{◌&&◌, true}
use mathlib.Core.Option.{Option, none, some}
use native.Mathlib.Omega.{arith}
use native.Mathlib.Decide.{dec_lt}
use native.Mathlib.Bridge.{le_prop}
use native.Mathlib.Nat.{pow-succ'}
use ordermesh.Prelude.Tests.{◌==◌, leb, ==_iff, ==_refl, Bool-cases, if◌then◌else◌}
use ordermesh.Prelude.Lists.{Text, length, codes, All}

Acc-of_bound : (k n : ℕ) → n < k → Acc ◌<◌ n
Acc-of_bound zero n h = absurd (omega arith)
Acc-of_bound (suc k) n h = Acc.intro n (λ m hm. Acc-of_bound k m (omega arith))

unfoldable pub lt_wf : WellFounded ◌<◌
unfolding Acc-of_bound
lt_wf = record { apply = λ n. Acc-of_bound (suc n) n (omega arith) }

pub tenth_lt : (n : ℕ) → 0 < n → n / 10 < n
tenth_lt n h = omega arith

-- The decimal digits in front of `rest`; none for 0.
prepend_digits : (n : ℕ) → Acc ◌<◌ n → Text → Text
prepend_digits n (Acc.intro _ smaller) rest =
    dite (dec_lt 0 n)
      (λ h. prepend_digits (n / 10) (smaller (n / 10) (tenth_lt n h)) ((b'0' + n % 10) ∷ rest))
      (λ _. rest)

unfoldable pub to_text : ℕ → Text
unfolding prepend_digits lt_wf dec_lt
to_text n = if n == 0 then b'0' ∷ [] else prepend_digits n (lt_wf.apply n) []

-- Zeros on the left up to the width.
abbrev zeros : ℕ → Text → Text
zeros zero t = t
zeros (suc k) t = b'0' ∷ zeros k t

unfoldable pub zero_padded : ℕ → Text → Text
zero_padded width t = zeros (width - length t) t

-- The number that a text of digits reads as.
add_digit : ℕ → ℕ → ℕ
add_digit acc c = acc * 10 + (c - b'0')

pub value_of : Text → ℕ
value_of t = foldl add_digit 0 t

abbrev digits_value : Text → ℕ → Option ℕ
digits_value [] acc = some acc
digits_value (c ∷ t) acc =
    if leb b'0' c && leb c b'9' then digits_value t (add_digit acc c) else none

-- `int(t)` of a text of decimal digits; any other text is refused.
unfoldable pub parse_int : Text → Option ℕ
unfolding add_digit
parse_int [] = none
parse_int (c ∷ t) = digits_value (c ∷ t) 0

to_text_test : to_text 1205 ≡ codes "1205"
unfolding to_text
to_text_test = refl

-- Reading back, from an accumulator.
value_of-prepend_digits :
    (n : ℕ) (w : Acc ◌<◌ n) (rest : Text)
    → foldl add_digit 0 (prepend_digits n w rest) ≡ foldl add_digit n rest
unfolding prepend_digits add_digit
value_of-prepend_digits n (Acc.intro _ smaller) rest = elim (dec_lt 0 n) [
  | yes h ↦ rw (dif_pos _ le_prop h) (
      value_of-prepend_digits (n / 10) (smaller (n / 10) (tenth_lt n h)) ((b'0' + n % 10) ∷ rest)
      ∙ ap (λ k. foldl add_digit k rest) (omega arith))
  | no h ↦ rw (dif_neg _ h) (ap (λ k. foldl add_digit k rest) (omega arith))
]

value_of-zeros : (k : ℕ) (t : Text) → value_of (zeros k t) ≡ value_of t
unfolding value_of add_digit
value_of-zeros zero t = refl
value_of-zeros (suc k) t = value_of-zeros k t

-- A number reads back from its text, so different numbers have different texts.
pub value_of-to_text : (n : ℕ) → value_of (to_text n) ≡ n
unfolding value_of to_text add_digit
value_of-to_text n = elim (Bool-cases (n == 0)) [
  | inl e ↦ rw e (omega (arith, (==_iff n 0).0 e))
  | inr e ↦ rw e (value_of-prepend_digits n (lt_wf.apply n) [])
]

pub to_text_injective : (a b : ℕ) → to_text a ≡ to_text b → a ≡ b
to_text_injective a b e = sym (value_of-to_text a) ∙ ap value_of e ∙ value_of-to_text b

pub zero_padded_injective :
    (w a b : ℕ) → zero_padded w (to_text a) ≡ zero_padded w (to_text b) → a ≡ b
unfolding zero_padded
zero_padded_injective w a b e =
    sym (value_of-to_text a)
    ∙ sym (value_of-zeros (w - length (to_text a)) (to_text a))
    ∙ ap value_of e
    ∙ value_of-zeros (w - length (to_text b)) (to_text b)
    ∙ value_of-to_text b

is_digit : (n : ℕ) → (leb b'0' (b'0' + n % 10) && leb (b'0' + n % 10) b'9') ≡ true
is_digit n = ground arith

digit_step :
    (n : ℕ) (rest : Text) → digits_value ((b'0' + n % 10) ∷ rest) (n / 10) ≡ digits_value rest n
unfolding add_digit
digit_step n rest = rw (is_digit n) (ap (λ k. digits_value rest k) (omega arith))

-- Reading a number's digits gives the number, from any accumulator that stood before them.
digits_value-prepend_digits :
    (n : ℕ) (w : Acc ◌<◌ n) (rest : Text)
    → digits_value (prepend_digits n w rest) 0 ≡ digits_value rest n
unfolding prepend_digits add_digit
digits_value-prepend_digits n (Acc.intro _ smaller) rest = elim (dec_lt 0 n) [
  | yes h ↦ rw (dif_pos _ le_prop h) (
      digits_value-prepend_digits (n / 10) (smaller (n / 10) (tenth_lt n h))
        ((b'0' + n % 10) ∷ rest)
      ∙ digit_step n rest)
  | no h ↦ rw (dif_neg _ h) (ap (λ k. digits_value rest k) (omega arith))
]

parse_int-digits_value : (t : Text) → t ≢ [] → parse_int t ≡ digits_value t 0
unfolding parse_int
parse_int-digits_value [] h = absurd (h refl)
parse_int-digits_value (c ∷ t) h = refl

prepend_digits-ne-nil :
    (n : ℕ) (w : Acc ◌<◌ n) (rest : Text) → (n ≡ 0 → rest ≢ []) → prepend_digits n w rest ≢ []
unfolding prepend_digits
prepend_digits-ne-nil n (Acc.intro _ smaller) rest h = elim (dec_lt 0 n) [
  | yes p ↦ rw (dif_pos _ le_prop p) (
      prepend_digits-ne-nil (n / 10) (smaller (n / 10) (tenth_lt n p)) ((b'0' + n % 10) ∷ rest)
        (λ e. cc))
  | no p ↦ rw (dif_neg _ p) (h (omega arith))
]

-- `int(str(n))` is `n`.
pub parse_int-to_text : (n : ℕ) → parse_int (to_text n) ≡ some n
unfolding to_text
parse_int-to_text n = elim (Bool-cases (n == 0)) [
  | inl e ↦ rw e (unfold parse_int in ap some (omega (arith, (==_iff n 0).0 e)))
  | inr e ↦ rw e (
      parse_int-digits_value _ (prepend_digits-ne-nil n (lt_wf.apply n) [] (λ z. cc (z, ==_refl n)))
      ∙ digits_value-prepend_digits n (lt_wf.apply n) [])
]

IsDigits-prepend_digits :
    (n : ℕ) (w : Acc ◌<◌ n) (rest : Text)
    → All (λ c. b'0' ≤ c) rest
    → All (λ c. b'0' ≤ c) (prepend_digits n w rest)
unfolding prepend_digits
IsDigits-prepend_digits n (Acc.intro _ smaller) rest h = elim (dec_lt 0 n) [
  | yes p ↦ rw (dif_pos _ le_prop p) (
      IsDigits-prepend_digits (n / 10) (smaller (n / 10) (tenth_lt n p)) ((b'0' + n % 10) ∷ rest)
        (omega arith, h))
  | no p ↦ rw (dif_neg _ p) h
]

-- Digits, and so no dash, which comes before them in ASCII.
pub to_text-digits : (n : ℕ) → All (λ c. b'0' ≤ c) (to_text n)
unfolding to_text
to_text-digits n = elim (Bool-cases (n == 0)) [
  | inl e ↦ rw e (omega arith, tt)
  | inr e ↦ rw e (IsDigits-prepend_digits n (lt_wf.apply n) [] tt)
]

-- The text before the first dash, and the text after it, are determined.
pub dash_injective :
    (s t u v : Text)
    → All (λ c. b'0' ≤ c) s
    → All (λ c. b'0' ≤ c) t
    → s ++ (codes "-" ++ u) ≡ t ++ (codes "-" ++ v)
    → u ≡ v
dash_injective [] [] u v hs ht e = cc
dash_injective [] (d ∷ t) u v hs ht e = ground arith
dash_injective (c ∷ s) [] u v hs ht e = ground arith
dash_injective (c ∷ s) (d ∷ t) u v hs ht e = dash_injective s t u v hs.1 ht.1 cc
