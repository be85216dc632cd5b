-- ===== src/Policy/Address/RoundTrip.antt =====
-- The text of an overlay address (policy/src/vpn.rs), printed and read.
use mathlib.Core.List.{append_assoc, append-nil}
use rs_console.Common.Options.{>>=-eq-some}
use rs_console.Common.{
  ℕ, zero, suc, ◌≤◌, ◌≡◌, refl, sym, ◌∙◌, subst, inl, inr, Bool, true, false, not, ◌&&◌, Option,
  none, some, [], ◌∷◌, ◌++◌, arith, ℕ_discrete, leb, if◌then◌else◌, Text, bytes, ◌==◌,
  Text-discrete, nat_eq, text_eq, bool_eq, Option-cases, all, Result, ok, err,
}
use rs_console.Policy.Ids.{PolicyError, is_ascii_digit}
use rs_console.Policy.Address.{
  Ipv4Addr, OverlayAddress, new_address, host, print_octet, display, split_digits, octet_value,
  read_octet, expect, read_octet_dot, read_last_octet, parse_ipv4, strip_mask, from_str,
}

-- A test of every host up to a last one.
for_hosts : (ℕ → Bool) → ℕ → Bool
for_hosts test zero = test 0
for_hosts test (suc last) = if test (suc last) then for_hosts test last else false

for_hosts-le :
    (test : ℕ → Bool) (last host : ℕ) → host ≤ last → for_hosts test last ≡ true → test host ≡ true
unfolding for_hosts
for_hosts-le test zero host le passed = ground arith
for_hosts-le test (suc last) host le passed = ground (arith, for_hosts-le test last host)

abbrev overlay : ℕ → OverlayAddress
overlay h = record { a = 10; b = 100; c = 0; d = h }

-- Whether the text of the address with this host is read back.
reads_back : ℕ → Bool
unfolding from_str display
reads_back h = elim (from_str (display (overlay h))) [
  | err e ↦ not (leb 2 h)
  | ok r ↦ r.a == 10 && r.b == 100 && r.c == 0 && r.d == h
]

reads_back_table : for_hosts reads_back 254 ≡ true
unfolding for_hosts reads_back Text-discrete ℕ_discrete
reads_back_table = refl

reads_back_ok :
    (h : ℕ) (r : Result PolicyError OverlayAddress)
    → 2 ≤ h
    → from_str (display (overlay h)) ≡ r
    → reads_back h ≡ true
    → r ≡ ok (overlay h)
unfolding reads_back
reads_back_ok h (ok r) two e t = ground arith
reads_back_ok h (err x) two e t = ground arith

-- An address made from a host number is read back from its text.
pub from_str-display :
    (h : ℕ) (address : OverlayAddress)
    → new_address h ≡ ok address
    → from_str (display address) ≡ ok address
unfolding new_address
from_str-display h address e =
    let bounds : (2 ≤ h) × (h ≤ 254) × (address ≡ overlay h) = ground arith in
    rw bounds.2 (
      reads_back_ok h _ bounds.0 refl
        (for_hosts-le reads_back 254 h (omega arith) reads_back_table))

split_digits-append :
    (s : Text)
    → ((split_digits s).0 ++ (split_digits s).1 ≡ s)
      × (all is_ascii_digit (split_digits s).0 ≡ true)
unfolding split_digits
split_digits-append [] = (refl, refl)
split_digits-append (c ∷ s) = ground (arith, split_digits-append s)

print_octet-octet_value :
    (front : Text) (n : ℕ)
    → all is_ascii_digit front ≡ true
    → octet_value front ≡ some n
    → print_octet n ≡ front
unfolding octet_value print_octet is_ascii_digit
print_octet-octet_value [] n d e = cc
print_octet-octet_value (x ∷ []) n d e = ground arith
print_octet-octet_value (x ∷ y ∷ []) n d e = ground arith
print_octet-octet_value (x ∷ y ∷ z ∷ []) n d e = ground arith
print_octet-octet_value (x ∷ y ∷ z ∷ w ∷ s) n d e = cc

print_octet-read_octet :
    (s rest : Text) (n : ℕ) → read_octet s ≡ some (n, rest) → print_octet n ++ rest ≡ s
unfolding read_octet
print_octet-read_octet s rest n e = ground (
  arith,
  split_digits-append s,
  print_octet-octet_value (split_digits s).0 n (split_digits-append s).1,
)

expect-eq-some : (c : ℕ) (s t : Text) → expect c s ≡ some t → s ≡ c ∷ t
unfolding expect
expect-eq-some c [] t e = cc
expect-eq-some c (x ∷ s) t e = ground arith

strip_mask-eq-some : (s t : Text) → strip_mask s ≡ some t → s ≡ t ++ bytes "/32"
unfolding strip_mask
strip_mask-eq-some [] t e = cc
strip_mask-eq-some (c ∷ s) t e = elim (Option-cases (strip_mask s)) [
  | inl missed ↦ ground arith
  | inr (u, found) ↦ ground (arith, strip_mask-eq-some s u)
]

read_octet_dot-eq-some :
    (s : Text) (r : Option (ℕ × Text)) (n : ℕ) (rest : Text)
    → read_octet s ≡ r
    → read_octet_dot s ≡ some (n, rest)
    → s ≡ print_octet n ++ b'.' ∷ rest
unfolding read_octet_dot
read_octet_dot-eq-some s none n rest f e = ground arith
read_octet_dot-eq-some s (some (m, t)) n rest f e =
    ground (arith, print_octet-read_octet s t m, expect-eq-some b'.' t rest)

read_last_octet-eq-some :
    (s : Text) (r : Option (ℕ × Text)) (n : ℕ)
    → read_octet s ≡ r
    → read_last_octet s ≡ some n
    → s ≡ print_octet n ++ []
unfolding read_last_octet
read_last_octet-eq-some s none n f e = ground arith
read_last_octet-eq-some s (some (m, t)) n f e = ground (arith, print_octet-read_octet s t m)

some_inj : {x y : Ipv4Addr} → some x ≡ some y → x ≡ y
some_inj e = cc

parse_ipv4_parts :
    (s : Text) (address : Ipv4Addr)
    → parse_ipv4 s ≡ some address
    → (s1 : Text) × (s2 : Text) × (s3 : Text) × (read_octet_dot s ≡ some (address.a, s1))
      × (read_octet_dot s1 ≡ some (address.b, s2))
      × (read_octet_dot s2 ≡ some (address.c, s3))
      × (read_last_octet s3 ≡ some address.d)
unfolding parse_ipv4
parse_ipv4_parts s address e =
    let ((a, s1), e1, k1) = >>=-eq-some (read_octet_dot s) _ e in
    let ((b, s2), e2, k2) = >>=-eq-some (read_octet_dot s1) _ k1 in
    let ((c, s3), e3, k3) = >>=-eq-some (read_octet_dot s2) _ k2 in
    let (d, e4, k4) = >>=-eq-some (read_last_octet s3) _ k3 in
    let same = some_inj k4 in
    (
      s1,
      s2,
      s3,
      subst (λ r. read_octet_dot s ≡ some (r.a, s1)) same e1,
      subst (λ r. read_octet_dot s1 ≡ some (r.b, s2)) same e2,
      subst (λ r. read_octet_dot s2 ≡ some (r.c, s3)) same e3,
      subst (λ r. read_last_octet s3 ≡ some r.d) same e4,
    )

-- What `parse_ipv4` accepts is the printed form of its result.
parse_ipv4-eq-some :
    (s : Text) (address : Ipv4Addr)
    → parse_ipv4 s ≡ some address
    → display address ≡ s ++ bytes "/32"
unfolding display
parse_ipv4-eq-some s address e =
    let (s1, s2, s3, e1, e2, e3, e4) = parse_ipv4_parts s address e in
    rw
      (
        read_octet_dot-eq-some s _ _ s1 refl e1,
        read_octet_dot-eq-some s1 _ _ s2 refl e2,
        read_octet_dot-eq-some s2 _ _ s3 refl e3,
        read_last_octet-eq-some s3 _ _ refl e4,
      )
      (simp (append_assoc, append-nil))

from_str_parts :
    (text : Text) (address : OverlayAddress)
    → from_str text ≡ ok address
    → (u : Text) × (strip_mask text ≡ some u)
      × (parse_ipv4 u ≡ some address)
      × (new_address address.d ≡ ok address)
unfolding from_str new_address
from_str_parts text address e = elim (Option-cases (strip_mask text)) [
  | inl missed ↦ absurd (ground arith)
  | inr (u, found) ↦ elim (Option-cases (parse_ipv4 u)) [
    | inl bad ↦ absurd (ground arith)
    | inr (r, read) ↦ (u, found, ground arith, ground arith)
  ]
]

-- A text that is read as an address is exactly the address's text, and the address is usable.
pub display-from_str :
    (text : Text) (address : OverlayAddress)
    → from_str text ≡ ok address
    → (display address ≡ text) × (new_address address.d ≡ ok address)
display-from_str text address e =
    let (u, found, read, usable) = from_str_parts text address e in
    (parse_ipv4-eq-some u address read ∙ sym (strip_mask-eq-some text u found), usable)
