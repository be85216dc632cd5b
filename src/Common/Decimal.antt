-- ===== src/Common/Decimal.antt =====
-- `Display` of an unsigned integer: its decimal digits, with no leading zero.
use rs_console.Common.Base.{
  ℕ, zero, suc, ◌+◌, ◌-◌, ◌*◌, ◌/◌, ◌%◌, ◌≤◌, ◌<◌, ◌≡◌, refl, sym, ap, ◌∙◌, inl, inr, [], ◌∷◌, ◌++◌,
  arith,
}
use rs_console.Common.Tests.{ltb, if◌then◌else◌, Text, Bool-cases}

-- The digits of a number, given fuel above it; the recursion ends at a one-digit number.
unfoldable pub digits_from : ℕ → ℕ → Text
digits_from zero n = []
digits_from (suc fuel) n =
    let front = digits_from fuel (n / 10) in
    if ltb n 10 then (b'0' + n) ∷ [] else front ++ (b'0' + n % 10) ∷ []

unfoldable pub print_nat : ℕ → Text
unfolding digits_from
print_nat n = digits_from (suc n) n

-- The value of a text of digits.
abbrev value_from : ℕ → Text → ℕ
value_from v [] = v
value_from v (c ∷ s) = value_from (v * 10 + (c - b'0')) s

abbrev value : Text → ℕ
value s = value_from 0 s

value_from-append : (v : ℕ) (s t : Text) → value_from v (s ++ t) ≡ value_from (value_from v s) t
value_from-append v [] t = refl
value_from-append v (c ∷ s) t = value_from-append (v * 10 + (c - b'0')) s t

value-digits_from : (fuel n : ℕ) → n < fuel → value (digits_from fuel n) ≡ n
unfolding digits_from
value-digits_from zero n h = absurd (omega arith)
value-digits_from (suc fuel) n h = elim (Bool-cases (ltb n 10)) [
  | inl small ↦ rw small (omega arith)
  | inr large ↦
      rw (large, value_from-append 0 (digits_from fuel (n / 10)) ((b'0' + n % 10) ∷ []))
        (rw (value-digits_from fuel (n / 10) (ground arith)) (omega arith))
]

value-print_nat : (n : ℕ) → value (print_nat n) ≡ n
unfolding print_nat
value-print_nat n = value-digits_from (suc n) n (omega arith)

-- Different numbers have different digits.
pub print_nat_injective : (m n : ℕ) → print_nat m ≡ print_nat n → m ≡ n
print_nat_injective m n e = sym (value-print_nat m) ∙ ap value e ∙ value-print_nat n

-- Every character is a digit.
abbrev pub AllDigits : Text → Type 0
AllDigits [] = Unit
AllDigits (c ∷ s) = (b'0' ≤ c) × (c ≤ b'9') × AllDigits s

AllDigits-append : (s t : Text) → AllDigits s → AllDigits t → AllDigits (s ++ t)
AllDigits-append [] t h k = k
AllDigits-append (c ∷ s) t h k = (h.0, h.1, AllDigits-append s t h.2 k)

digits_from-AllDigits : (fuel n : ℕ) → AllDigits (digits_from fuel n)
unfolding digits_from
digits_from-AllDigits zero n = tt
digits_from-AllDigits (suc fuel) n = elim (Bool-cases (ltb n 10)) [
  | inl small ↦ rw small (ground arith, ground arith, tt)
  | inr large ↦
      rw large
        (AllDigits-append _ _ (digits_from-AllDigits fuel (n / 10)) (omega arith, omega arith, tt))
]

pub print_nat-AllDigits : (n : ℕ) → AllDigits (print_nat n)
unfolding print_nat
print_nat-AllDigits n = digits_from-AllDigits (suc n) n
