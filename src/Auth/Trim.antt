-- ===== src/Auth/Trim.antt =====
-- `str::trim` on the bytes of a text: it drops the characters at both ends that Unicode calls white
-- space.
pub mod Visible
use rs_console.Common.{
  ℕ, zero, suc, ◌&&◌, ◌||◌, [], ◌∷◌, leb, if◌then◌else◌, Text, ◌==◌, nat_eq, text_eq, bool_eq,
}

-- The number of bytes of the white space that a text starts with.
unfoldable pub space_width : Text → ℕ
space_width [] = 0
space_width (x ∷ []) = if x == 32 || leb 9 x && leb x 13 then 1 else 0
space_width (x ∷ y ∷ []) =
    if x == 32 || leb 9 x && leb x 13
    then 1
    else if x == 0xc2 && (y == 0x85 || y == 0xa0)
    then 2
    else 0
space_width (x ∷ y ∷ z ∷ s) =
    if x == 32 || leb 9 x && leb x 13
    then 1
    else if x == 0xc2 && (y == 0x85 || y == 0xa0)
    then 2
    else if x == 0xe1 && y == 0x9a && z == 0x80
        || x == 0xe2
          && y == 0x80
          && (leb 0x80 z && leb z 0x8a || z == 0xa8 || z == 0xa9 || z == 0xaf)
        || x == 0xe2 && y == 0x81 && z == 0x9f
        || x == 0xe3 && y == 0x80 && z == 0x80
    then 3
    else 0

-- The same for a text read from its end.
unfoldable pub space_width_back : Text → ℕ
unfolding space_width
space_width_back [] = 0
space_width_back (x ∷ []) = space_width (x ∷ [])
space_width_back (y ∷ x ∷ []) =
    if space_width (y ∷ []) == 1 then 1 else if space_width (x ∷ y ∷ []) == 2 then 2 else 0
space_width_back (z ∷ y ∷ x ∷ s) =
    if space_width (z ∷ []) == 1
    then 1
    else if space_width (y ∷ z ∷ []) == 2
    then 2
    else if space_width (x ∷ y ∷ z ∷ []) == 3
    then 3
    else 0

-- Drops so many bytes, then white space as long as there is some.
unfoldable pub trim_from : (Text → ℕ) → ℕ → Text → Text
trim_from width skip [] = []
trim_from width (suc skip) (x ∷ s) = trim_from width skip s
trim_from width zero (x ∷ s) = elim (width (x ∷ s)) [
  | zero ↦ x ∷ s
  | suc rest ↦ trim_from width rest s
]

unfoldable pub reverse_onto : Text → Text → Text
reverse_onto done [] = done
reverse_onto done (x ∷ s) = reverse_onto (x ∷ done) s

unfoldable pub trim : Text → Text
unfolding trim_from reverse_onto space_width space_width_back
trim s =
    let start = trim_from space_width 0 s in
    reverse_onto [] (trim_from space_width_back 0 (reverse_onto [] start))
