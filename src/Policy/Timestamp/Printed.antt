-- ===== src/Policy/Timestamp/Printed.antt =====
-- Which printed moments `valid_utc_timestamp` of policy/src/contract.rs accepts.
use rs_console.Common.{
  ℕ, suc, ◌+◌, ◌-◌, ◌*◌, ◌/◌, ◌%◌, ◌≤◌, ◌≡◌, refl, ap, ◌∙◌, ◌↔◌, true, ◌&&◌, some, [], ◌∷◌, ◌++◌,
  arith, ℕ_discrete, Text, length, take,
}
use rs_console.Policy.Timestamp.{
  decimal_from, decimal, slice, has_separators, valid_fraction, valid_numbers, read_numbers,
  valid_utc_timestamp,
}
use rs_console.Policy.Ids.{is_ascii_digit, ends_with}
use rs_console.Policy.Timestamp.Calendar.{
  IsMoment, valid_numbers_iff, IsFraction, valid_fraction_iff,
}

abbrev digit : ℕ → ℕ
digit n = b'0' + n

abbrev pad2 : ℕ → Text
pad2 n = digit (n / 10) ∷ digit (n % 10) ∷ []

abbrev pad4 : ℕ → Text
pad4 n = digit (n / 1000) ∷ digit (n / 100 % 10) ∷ digit (n / 10 % 10) ∷ digit (n % 10) ∷ []

-- `YYYY-MM-DDTHH:MM:SS`, the fraction of a second, and `Z`.
abbrev printed : ℕ → ℕ → ℕ → ℕ → ℕ → ℕ → Text → Text
printed year month day hour minute second fraction =
    pad4 year
    ++ (b'-'
        ∷ (pad2 month
            ++ (b'-'
                ∷ (pad2 day
                    ++ (b'T'
                        ∷ (pad2 hour
                            ++ (b':'
                                ∷ (pad2 minute
                                    ++ (b':' ∷ (pad2 second ++ (fraction ++ (b'Z' ∷ []))))))))))))

digit-read :
    (v n : ℕ) (rest : Text)
    → n ≤ 9
    → decimal_from v (digit n ∷ rest) ≡ decimal_from (v * 10 + n) rest
unfolding decimal_from is_ascii_digit
digit-read v n rest h = ground arith

decimal-pad2 : (n : ℕ) → n ≤ 99 → decimal (pad2 n) ≡ some n
unfolding decimal decimal_from
decimal-pad2 n h =
    digit-read 0 (n / 10) (digit (n % 10) ∷ []) (omega arith)
    ∙ digit-read (0 * 10 + n / 10) (n % 10) [] (omega arith)
    ∙ ap some (omega arith)

decimal-pad4 : (n : ℕ) → n ≤ 9999 → decimal (pad4 n) ≡ some n
unfolding decimal decimal_from
decimal-pad4 n h =
    let d1 = digit (n / 100 % 10) in
    let d2 = digit (n / 10 % 10) in
    let d3 = digit (n % 10) in
    digit-read 0 (n / 1000) (d1 ∷ d2 ∷ d3 ∷ []) (omega arith)
    ∙ digit-read (0 * 10 + n / 1000) (n / 100 % 10) (d2 ∷ d3 ∷ []) (omega arith)
    ∙ digit-read ((0 * 10 + n / 1000) * 10 + n / 100 % 10) (n / 10 % 10) (d3 ∷ []) (omega arith)
    ∙ digit-read (((0 * 10 + n / 1000) * 10 + n / 100 % 10) * 10 + n / 10 % 10) (n % 10) []
        (omega arith)
    ∙ ap some (omega arith)

take-append : (xs ys : Text) → take (length xs) (xs ++ ys) ≡ xs
take-append [] ys = refl
take-append (x ∷ xs) ys = ap (λ zs. x ∷ zs) (take-append xs ys)

length-snoc : (xs : Text) (y : ℕ) → length (xs ++ (y ∷ [])) ≡ suc (length xs)
length-snoc [] y = refl
length-snoc (x ∷ xs) y = ap suc (length-snoc xs y)

ends_with-snoc : (c : ℕ) (xs : Text) → ends_with c (xs ++ (c ∷ [])) ≡ true
unfolding ends_with
ends_with-snoc c [] = ground arith
ends_with-snoc c (x ∷ []) = ground arith
ends_with-snoc c (x ∷ y ∷ xs) = ends_with-snoc c (y ∷ xs)

ends_with-cons :
    (c x : ℕ) (xs : Text)
    → ends_with c (xs ++ (c ∷ [])) ≡ true
    → ends_with c (x ∷ (xs ++ (c ∷ []))) ≡ true
unfolding ends_with
ends_with-cons c x [] h = h
ends_with-cons c x (y ∷ xs) h = h

module _ (year month day hour minute second : ℕ) (fraction : Text) where
  abbrev text : Text
  text = printed year month day hour minute second fraction

  read_numbers-printed :
      year ≤ 9999
      → month ≤ 99
      → day ≤ 99
      → hour ≤ 99
      → minute ≤ 99
      → second ≤ 99
      → read_numbers text ≡ some (valid_numbers year month day hour minute second)
  unfolding read_numbers
  read_numbers-printed a b c d e f =
      rw
        (
          decimal-pad4 year a,
          decimal-pad2 month b,
          decimal-pad2 day c,
          decimal-pad2 hour d,
          decimal-pad2 minute e,
          decimal-pad2 second f,
        )
        refl

  has_separators-printed : has_separators text ≡ true
  unfolding has_separators ends_with ℕ_discrete
  has_separators-printed =
      let ends = ends_with-snoc b'Z' (digit (second % 10) ∷ fraction) in
      let long = length-snoc fraction b'Z' in ground arith

  slice-printed : slice 19 (length text - 1) text ≡ fraction
  slice-printed =
      let whole = length-snoc fraction b'Z' in
      let amount : length text - 1 - 19 ≡ length fraction = omega arith in
      ap (λ n. take n (fraction ++ (b'Z' ∷ []))) amount ∙ take-append fraction (b'Z' ∷ [])

  valid_utc_timestamp-text :
      year ≤ 9999
      → month ≤ 99
      → day ≤ 99
      → hour ≤ 99
      → minute ≤ 99
      → second ≤ 99
      → valid_utc_timestamp text
        ≡ (valid_fraction fraction && valid_numbers year month day hour minute second)
  unfolding valid_utc_timestamp
  valid_utc_timestamp-text a b c d e f =
      rw (has_separators-printed, slice-printed, read_numbers-printed a b c d e f) refl

  -- A moment that is printed with four digits of the year and two of each of the other numbers is
  -- accepted exactly when it is one of the calendar, with leap years and a positive year, and its
  -- fraction of a second is none or a point and at least one digit.
  pub valid_utc_timestamp-printed_iff :
      year ≤ 9999
      → month ≤ 99
      → day ≤ 99
      → hour ≤ 99
      → minute ≤ 99
      → second ≤ 99
      → (valid_utc_timestamp (printed year month day hour minute second fraction) ≡ true)
        ↔ (IsFraction fraction × IsMoment year month day hour minute second)
  valid_utc_timestamp-printed_iff a b c d e f =
      let same = valid_utc_timestamp-text a b c d e f in
      let numbers = valid_numbers_iff year month day hour minute second in
      let fractions = valid_fraction_iff fraction in
      (
        (λ h. (fractions.0 (ground arith), numbers.0 (ground arith))),
        (λ (g, m). let x = fractions.1 g in let y = numbers.1 m in ground arith),
      )
