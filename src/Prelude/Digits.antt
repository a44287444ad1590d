-- ===== src/Prelude/Digits.antt =====
-- `int(str(n))` is `n`.
use Prim.Native.Nat.{ℕ, zero, suc, ◌+◌, ◌-◌, ◌*◌, ◌/◌, ◌%◌, ◌≤◌, ◌<◌}
use mathlib.Core.Path.{◌≡◌, refl, ◌∙◌}
use mathlib.Core.Logic.{inl, inr}
use mathlib.Core.Bool.{Bool, true, false, ◌&&◌}
use mathlib.Core.Option.{some}
use mathlib.Core.List.{[], ◌∷◌, reverse, reverse-reverse, reverse-cons}
use native.Mathlib.Omega.{arith}
use fabricperf.Prelude.Tests.{leb, ltb, eqb, Bool-cases}
use fabricperf.Prelude.Lists.{All, All-append}
use fabricperf.Prelude.Int.{pos}
use fabricperf.Prelude.Text.{
  Text, is_space, is_digit, lstrip, strip, digits_before, show, digits_value, signed_value,
  parse_int,
}

-- Reading the digits of `n`, and then what stands after them, reads `n` first.
digits_value-digits_before :
    (f n : ℕ) (seen : Bool) (t : Text)
    → n < f
    → digits_value seen 0 (digits_before f n t) ≡ digits_value true n t
unfolding digits_value digits_before is_digit
digits_value-digits_before zero n seen t h = absurd (omega arith)
digits_value-digits_before (suc f) n seen t h = elim (Bool-cases (ltb n 10)) [
  | inl small ↦
      let digit : (leb 48 (48 + n) && leb (48 + n) 57) ≡ true = ground arith in
      let value : 0 * 10 + (48 + n - 48) ≡ n = omega arith in rw (small, digit, value) refl
  | inr large ↦
      let tens : 10 ≤ n = ground arith in
      let digit : (leb 48 (48 + n % 10) && leb (48 + n % 10) 57) ≡ true = ground arith in
      let value : n / 10 * 10 + (48 + n % 10 - 48) ≡ n = omega arith in
      let rest = digits_value-digits_before f (n / 10) seen ((48 + n % 10) ∷ t) (omega arith) in
      rw large (rest ∙ rw (digit, value) refl)
]

abbrev pub AllDigits : Text → Type 0
AllDigits = All (λ c. is_digit c ≡ true)

digits_before-AllDigits :
    (f n : ℕ) (t : Text) → n < f → AllDigits t → AllDigits (digits_before f n t)
unfolding digits_before is_digit
digits_before-AllDigits zero n t h d = absurd (omega arith)
digits_before-AllDigits (suc f) n t h d = elim (Bool-cases (ltb n 10)) [
  | inl small ↦ rw small (ground arith, d)
  | inr large ↦
      let tens : 10 ≤ n = ground arith in
      rw large
        (digits_before-AllDigits f (n / 10) ((48 + n % 10) ∷ t) (omega arith) (ground arith, d))
]

pub show-AllDigits : (n : ℕ) → AllDigits (show n)
unfolding show
show-AllDigits n = digits_before-AllDigits (n + 1) n [] (omega arith) tt

digit_space : (c : ℕ) → is_digit c ≡ true → is_space c ≡ false
unfolding is_digit is_space
digit_space c h = ground arith

lstrip_digits : (s : Text) → AllDigits s → lstrip s ≡ s
unfolding lstrip
lstrip_digits [] d = refl
lstrip_digits (c ∷ s) d = rw (digit_space c d.0) refl

reverse-AllDigits : (s : Text) → AllDigits s → AllDigits (reverse s)
reverse-AllDigits [] d = tt
reverse-AllDigits (c ∷ s) d =
    rw (reverse-cons c s)
      (All-append (λ c. is_digit c ≡ true) (reverse s) (c ∷ []) (reverse-AllDigits s d.1) (d.0, tt))

pub strip_digits : (s : Text) → AllDigits s → strip s ≡ s
unfolding strip
strip_digits s d =
    rw (lstrip_digits s d, lstrip_digits (reverse s) (reverse-AllDigits s d)) (reverse-reverse s)

signed_value_digits :
    (s : Text) (n : ℕ)
    → AllDigits s
    → digits_value false 0 s ≡ some n
    → signed_value s ≡ some (pos n)
unfolding signed_value is_digit digits_value
signed_value_digits [] n d h = absurd (cc)
signed_value_digits (c ∷ s) n d h =
    let plus : eqb c 43 ≡ false = ground (arith, d.0) in
    let minus : eqb c 45 ≡ false = ground (arith, d.0) in rw (plus, minus, h) refl

pub parse_int-show : (n : ℕ) → parse_int (show n) ≡ some (pos n)
unfolding parse_int show
parse_int-show n = rw (strip_digits (show n) (show-AllDigits n)) (
    signed_value_digits (show n) n (show-AllDigits n)
      (digits_value-digits_before (n + 1) n false [] (omega arith)))
