-- ===== src/Policy/Address.antt =====
-- `OverlayAddress` of policy/src/vpn.rs: a usable host address inside 10.100.0.0/24, as text and as
-- a number. `Ipv4Addr` is the standard library's: four octets, printed and read in decimal.
pub mod RoundTrip
use rs_console.Common.Options.{◌>>=◌}
use rs_console.Common.{
  ℕ, ◌+◌, ◌-◌, ◌*◌, ◌/◌, ◌%◌, ◌&&◌, Option, none, some, [], ◌∷◌, ◌++◌, ltb, leb, if◌then◌else◌,
  Text, bytes, ◌==◌, nat_eq, text_eq, bool_eq, Result, ok, err,
}
use rs_console.Policy.Ids.{PolicyError, is_ascii_digit, invalid_address}

pub record Ipv4Addr : Type 0 where
  pub a : ℕ
  pub b : ℕ
  pub c : ℕ
  pub d : ℕ

abbrev pub OverlayAddress : Type 0
OverlayAddress = Ipv4Addr

-- `OverlayAddress::new`.
unfoldable pub new_address : ℕ → Result PolicyError OverlayAddress
new_address host =
    if leb 2 host && leb host 254
    then ok (record { a = 10; b = 100; c = 0; d = host })
    else err invalid_address

-- `OverlayAddress::host`.
abbrev pub host : OverlayAddress → ℕ
host address = address.d

-- An octet in decimal, with no leading zero.
unfoldable pub print_octet : ℕ → Text
print_octet n =
    if ltb n 10
    then (b'0' + n) ∷ []
    else if ltb n 100
    then (b'0' + n / 10) ∷ (b'0' + n % 10) ∷ []
    else (b'0' + n / 100) ∷ (b'0' + n / 10 % 10) ∷ (b'0' + n % 10) ∷ []

-- `Display`: the four octets and the suffix of the mask.
unfoldable pub display : OverlayAddress → Text
unfolding print_octet
display address =
    print_octet address.a
    ++ (b'.'
        ∷ (print_octet address.b
            ++ (b'.' ∷ (print_octet address.c ++ (b'.' ∷ (print_octet address.d ++ bytes "/32"))))))

-- The digits at the front of a text, and the rest.
unfoldable pub split_digits : Text → Text × Text
unfolding is_ascii_digit
split_digits [] = ([], [])
split_digits (c ∷ s) =
    let (front, rest) = split_digits s in
    if is_ascii_digit c then (c ∷ front, rest) else ([], c ∷ s)

-- The value of one to three digits without a leading zero, if it fits an octet.
unfoldable pub octet_value : Text → Option ℕ
octet_value (x ∷ []) = some (x - b'0')
octet_value (x ∷ y ∷ []) = if x == b'0' then none else some ((x - b'0') * 10 + (y - b'0'))
octet_value (x ∷ y ∷ z ∷ []) =
    let n = (x - b'0') * 100 + (y - b'0') * 10 + (z - b'0') in
    if x == b'0' then none else if leb n 255 then some n else none
octet_value s = none

-- One octet at the front of a text, and the rest.
unfoldable pub read_octet : Text → Option (ℕ × Text)
unfolding split_digits octet_value
read_octet s =
    let (front, rest) = split_digits s in
    elim (octet_value front) [ none ↦ none | some n ↦ some (n, rest) ]

-- One given character at the front of a text, and the rest.
unfoldable pub expect : ℕ → Text → Option Text
expect c [] = none
expect c (x ∷ s) = if x == c then some s else none

-- An octet and the dot behind it.
unfoldable pub read_octet_dot : Text → Option (ℕ × Text)
unfolding read_octet expect
read_octet_dot s = do (n, rest) ← read_octet s; rest' ← expect b'.' rest; some (n, rest')

-- The last octet, with nothing behind it.
unfoldable pub read_last_octet : Text → Option ℕ
unfolding read_octet
read_last_octet s = do (n, rest) ← read_octet s; elim rest [ [] ↦ some n | _ ∷ _ ↦ none ]

-- `str::parse::<Ipv4Addr>`: exactly four octets and three dots.
unfoldable pub parse_ipv4 : Text → Option Ipv4Addr
unfolding read_octet_dot read_last_octet
parse_ipv4 s = do
  (a, s1) ← read_octet_dot s
  (b, s2) ← read_octet_dot s1
  (c, s3) ← read_octet_dot s2
  d ← read_last_octet s3
  some (record { a = a; b = b; c = c; d = d })

-- `str::strip_suffix("/32")`.
unfoldable pub strip_mask : Text → Option Text
strip_mask [] = none
strip_mask (c ∷ s) =
    if c ∷ s == bytes "/32"
    then some []
    else elim (strip_mask s) [ none ↦ none | some t ↦ some (c ∷ t) ]

-- `OverlayAddress::from_str`.
unfoldable pub from_str : Text → Result PolicyError OverlayAddress
unfolding strip_mask parse_ipv4
from_str value = elim (strip_mask value) [
  | none ↦ err invalid_address
  | some text ↦ elim (parse_ipv4 text) [
    | none ↦ err invalid_address
    | some address ↦
        if address.a == 10
          && address.b == 100
          && address.c == 0
          && leb 2 address.d
          && leb address.d 254
        then ok address
        else err invalid_address
  ]
]
