-- ===== src/Policy/Timestamp.antt =====
-- `valid_utc_timestamp` and `decimal` of policy/src/contract.rs.
-- `decimal` is called on at most four bytes, so its u32 does not overflow.
pub mod Calendar
pub mod Printed
use rs_console.Common.Options.{◌>>=◌}
use rs_console.Common.{
  ℕ, ◌+◌, ◌-◌, ◌*◌, ◌%◌, Bool, true, false, not, ◌&&◌, ◌||◌, Option, none, some, [], ◌∷◌, ltb, leb,
  if◌then◌else◌, Text, ◌==◌, nat_eq, text_eq, bool_eq, length, get_elem?, take, drop, all,
}
use rs_console.Policy.Ids.{is_ascii_digit, ends_with}

unfoldable pub decimal_from : ℕ → Text → Option ℕ
unfolding is_ascii_digit
decimal_from value [] = some value
decimal_from value (byte ∷ rest) = elim (is_ascii_digit byte) [
  | true ↦ decimal_from (value * 10 + (byte - b'0')) rest
  | false ↦ none
]

unfoldable pub decimal : Text → Option ℕ
unfolding decimal_from
decimal text = decimal_from 0 text

-- `&bytes[from..to]`.
abbrev pub slice : ℕ → ℕ → Text → Text
slice from to text = take (to - from) (drop from text)

-- `bytes.get(i) == Some(&c)`.
abbrev pub byte_is : ℕ → ℕ → Text → Bool
byte_is i c text = elim (get_elem? text i) [ none ↦ false | some b ↦ b == c ]

-- The early return on the length and the separators.
unfoldable pub has_separators : Text → Bool
unfolding ends_with
has_separators text =
    leb 20 (length text)
    && ends_with b'Z' text
    && byte_is 4 b'-' text
    && byte_is 7 b'-' text
    && byte_is 10 b'T' text
    && byte_is 13 b':' text
    && byte_is 16 b':' text

-- The early return on the fraction of a second.
unfoldable pub valid_fraction : Text → Bool
unfolding is_ascii_digit
valid_fraction [] = true
valid_fraction (c ∷ []) = false
valid_fraction (c ∷ d ∷ rest) = c == b'.' && all is_ascii_digit (d ∷ rest)

unfoldable pub is_leap_year : ℕ → Bool
is_leap_year year = year % 4 == 0 && (not (year % 100 == 0) || year % 400 == 0)

unfoldable pub days_in_month : Bool → ℕ → Option ℕ
days_in_month leap month =
    if month == 1
      || month == 3
      || month == 5
      || month == 7
      || month == 8
      || month == 10
      || month == 12
    then some 31
    else if month == 4 || month == 6 || month == 9 || month == 11
    then some 30
    else if month == 2
    then some (if leap then 29 else 28)
    else none

unfoldable pub valid_numbers : ℕ → ℕ → ℕ → ℕ → ℕ → ℕ → Bool
unfolding is_leap_year days_in_month
valid_numbers year month day hour minute second = elim (days_in_month (is_leap_year year) month) [
  | none ↦ false
  | some days ↦
      ltb 0 year && leb 1 day && leb day days && leb hour 23 && leb minute 59 && leb second 59
]

unfoldable pub read_numbers : Text → Option Bool
unfolding decimal valid_numbers
read_numbers text = do
  year ← decimal (slice 0 4 text)
  month ← decimal (slice 5 7 text)
  day ← decimal (slice 8 10 text)
  hour ← decimal (slice 11 13 text)
  minute ← decimal (slice 14 16 text)
  second ← decimal (slice 17 19 text)
  some (valid_numbers year month day hour minute second)

unfoldable pub valid_utc_timestamp : Text → Bool
unfolding has_separators valid_fraction read_numbers
valid_utc_timestamp text =
    has_separators text
    && valid_fraction (slice 19 (length text - 1) text)
    && elim (read_numbers text) [ none ↦ false | some b ↦ b ]
