-- ===== src/Policy/Timestamp/Calendar.antt =====
-- The calendar and the fractions of a second that policy/src/contract.rs accepts.
use rs_console.Common.{
  ℕ, zero, suc, ◌-◌, ◌%◌, ◌≤◌, ◌<◌, ◌≡◌, refl, sym, ap, ◌∙◌, ◌↔◌, ◌⊎◌, inl, inr, Bool, true, not,
  ◌&&◌, ◌||◌, some, List, [], ◌∷◌, arith, ℕ_discrete, if◌then◌else◌, Text, ◌==◌, nat_eq, text_eq,
  bool_eq, Option-cases, length, get_elem?, all,
}
use rs_console.Policy.Timestamp.{valid_fraction, is_leap_year, days_in_month, valid_numbers}
use rs_console.Policy.Ids.{is_ascii_digit}

-- Every fourth year but three of four centuries.
abbrev pub leaps : ℕ → Bool
leaps year = year % 400 == 0 || year % 4 == 0 && not (year % 100 == 0)

is_leap_year-leaps : (year : ℕ) → is_leap_year year ≡ leaps year
unfolding is_leap_year
is_leap_year-leaps year = ground arith

-- The days of the months of a year.
abbrev pub month_lengths : ℕ → List ℕ
month_lengths year =
    31 ∷ (if leaps year then 29 else 28) ∷ 31 ∷ 30 ∷ 31 ∷ 30 ∷ 31 ∷ 31 ∷ 30 ∷ 31 ∷ 30 ∷ 31 ∷ []

-- A moment of the calendar.
abbrev pub IsMoment : ℕ → ℕ → ℕ → ℕ → ℕ → ℕ → Type 0
IsMoment year month day hour minute second =
    (1 ≤ year)
    × (1 ≤ month)
    × ((days : ℕ) × (get_elem? (month_lengths year) (month - 1) ≡ some days)
        × (1 ≤ day)
        × (day ≤ days))
    × (hour ≤ 23)
    × (minute ≤ 59)
    × (second ≤ 59)

days_in_month-lengths :
    (year month : ℕ)
    → 1 ≤ month
    → month ≤ 12
    → days_in_month (is_leap_year year) month ≡ get_elem? (month_lengths year) (month - 1)
unfolding days_in_month ℕ_discrete
days_in_month-lengths year zero low high = absurd (omega arith)
days_in_month-lengths year (suc zero) low high = refl
days_in_month-lengths year (suc (suc zero)) low high =
    ap (λ b. some (if b then 29 else 28)) (is_leap_year-leaps year)
days_in_month-lengths year (suc (suc (suc zero))) low high = refl
days_in_month-lengths year (suc (suc (suc (suc zero)))) low high = refl
days_in_month-lengths year (suc (suc (suc (suc (suc zero))))) low high = refl
days_in_month-lengths year (suc (suc (suc (suc (suc (suc zero)))))) low high = refl
days_in_month-lengths year (suc (suc (suc (suc (suc (suc (suc zero))))))) low high = refl
days_in_month-lengths year (suc (suc (suc (suc (suc (suc (suc (suc zero)))))))) low high = refl
days_in_month-lengths year (suc (suc (suc (suc (suc (suc (suc (suc (suc zero))))))))) low high =
    refl
days_in_month-lengths year (suc (suc (suc (suc (suc (suc (suc (suc (suc (suc zero)))))))))) low
      high =
    refl
days_in_month-lengths year (suc (suc (suc (suc (suc (suc (suc (suc (suc (suc (suc zero)))))))))))
      low high =
    refl
days_in_month-lengths year
      (suc (suc (suc (suc (suc (suc (suc (suc (suc (suc (suc (suc zero)))))))))))) low high =
    refl
days_in_month-lengths year
      (suc (suc (suc (suc (suc (suc (suc (suc (suc (suc (suc (suc (suc m))))))))))))) low high =
    absurd (omega arith)

days_in_month-bounds :
    (leap : Bool) (month days : ℕ)
    → days_in_month leap month ≡ some days
    → (1 ≤ month) × (month ≤ 12)
unfolding days_in_month
days_in_month-bounds leap month days h = (ground arith, ground arith)

get_elem?-length : (xs : List ℕ) (i x : ℕ) → get_elem? xs i ≡ some x → i < length xs
get_elem?-length [] i x h = cc
get_elem?-length (y ∷ xs) zero x h = omega arith
get_elem?-length (y ∷ xs) (suc i) x h = omega (arith, get_elem?-length xs i x h)

pub valid_numbers_iff :
    (year month day hour minute second : ℕ)
    → (valid_numbers year month day hour minute second ≡ true)
      ↔ IsMoment year month day hour minute second
unfolding valid_numbers
valid_numbers_iff year month day hour minute second = (
  (λ h. elim (Option-cases (days_in_month (is_leap_year year) month)) [
    | inl e ↦ absurd (ground arith)
    | inr (days, e) ↦
        let (low, high) = days_in_month-bounds (is_leap_year year) month days e in
        (
          ground arith,
          low,
          (days, sym (days_in_month-lengths year month low high) ∙ e, ground arith, ground arith),
          ground arith,
          ground arith,
          ground arith,
        )
  ]),
  (λ (y, low, (days, e, first, last), h, m, s).
      let short = get_elem?-length (month_lengths year) (month - 1) days e in
      let found = days_in_month-lengths year month low (omega arith) ∙ e in ground arith),
)

-- No fraction, or a point and at least one digit.
abbrev pub IsFraction : Text → Type 0
IsFraction fraction =
    (fraction ≡ [])
    ⊎ ((d : ℕ) × (rest : Text) × (fraction ≡ b'.' ∷ d ∷ rest)
        × (all is_ascii_digit (d ∷ rest) ≡ true))

pub valid_fraction_iff : (fraction : Text) → (valid_fraction fraction ≡ true) ↔ IsFraction fraction
unfolding valid_fraction
valid_fraction_iff [] = ((λ h. inl refl), (λ h. refl))
valid_fraction_iff (c ∷ []) = ((λ h. cc), (λ h. ground arith))
valid_fraction_iff (c ∷ d ∷ rest) =
    ((λ h. inr (d, rest, ground arith, ground arith)), (λ h. ground arith))
