-- ===== src/Auth/Trim/Visible.antt =====
-- Texts of visible ASCII bytes under `str::trim`.
use rs_console.Common.{ℕ, ◌≡◌, refl, ap, Bool, true, ◌&&◌, [], ◌∷◌, ◌++◌, arith, ltb, Text, all}
use rs_console.Auth.Trim.{space_width, space_width_back, trim_from, reverse_onto, trim}

-- A byte that no white space has.
abbrev pub is_visible : ℕ → Bool
is_visible x = ltb 32 x && ltb x 127

reverse_twice : (a b s : Text) → reverse_onto a (reverse_onto b s) ≡ reverse_onto (s ++ a) b
unfolding reverse_onto
reverse_twice a b [] = refl
reverse_twice a b (x ∷ s) = reverse_twice a (x ∷ b) s

append_nil : (s : Text) → s ++ [] ≡ s
append_nil [] = refl
append_nil (x ∷ s) = ap (λ t. x ∷ t) (append_nil s)

all-reverse_onto :
    (done s : Text)
    → all is_visible done ≡ true
    → all is_visible s ≡ true
    → all is_visible (reverse_onto done s) ≡ true
unfolding reverse_onto
all-reverse_onto done [] h k = h
all-reverse_onto done (x ∷ s) h k = all-reverse_onto (x ∷ done) s (ground arith) (ground arith)

space_width-visible : (x : ℕ) (s : Text) → is_visible x ≡ true → space_width (x ∷ s) ≡ 0
unfolding space_width
space_width-visible x [] h = ground arith
space_width-visible x (y ∷ []) h = ground arith
space_width-visible x (y ∷ z ∷ s) h = ground arith

space_width_back-visible : (z : ℕ) (s : Text) → is_visible z ≡ true → space_width_back (z ∷ s) ≡ 0
unfolding space_width_back space_width
space_width_back-visible z [] h = ground arith
space_width_back-visible z (y ∷ []) h = ground arith
space_width_back-visible z (y ∷ x ∷ s) h = ground arith

trim_from-visible :
    (width : Text → ℕ) (s : Text)
    → ((x : ℕ) (t : Text) → is_visible x ≡ true → width (x ∷ t) ≡ 0)
    → all is_visible s ≡ true
    → trim_from width 0 s ≡ s
unfolding trim_from
trim_from-visible width [] w h = refl
trim_from-visible width (x ∷ s) w h = ground (arith, w x s)

-- Trimming leaves a text of visible bytes as it is.
pub trim-visible : (s : Text) → all is_visible s ≡ true → trim s ≡ s
unfolding trim
trim-visible s h =
    rw
      (
        trim_from-visible space_width s space_width-visible h,
        trim_from-visible space_width_back (reverse_onto [] s) space_width_back-visible
            (all-reverse_onto [] s refl h),
        reverse_twice [] [] s,
        append_nil s,
      )
      refl
