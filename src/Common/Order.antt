-- ===== src/Common/Order.antt =====
-- The order of texts, Rust's `Ord` of strings: the first byte that differs decides, and a prefix
-- comes first.
use rs_console.Common.Base.{◌≡◌, refl, ◌≢◌, Bool, true, false, [], ◌∷◌, arith}
use rs_console.Common.Tests.{ltb, if◌then◌else◌, Text, ◌==◌, nat_eq, text_eq, bool_eq}

unfoldable pub text_ltb : Text → Text → Bool
text_ltb [] [] = false
text_ltb [] (y ∷ ys) = true
text_ltb (x ∷ xs) [] = false
text_ltb (x ∷ xs) (y ∷ ys) = if ltb x y then true else if x == y then text_ltb xs ys else false

pub text_ltb_irrefl : (s : Text) → text_ltb s s ≡ false
unfolding text_ltb
text_ltb_irrefl [] = refl
text_ltb_irrefl (x ∷ xs) = ground (arith, text_ltb_irrefl xs)

pub ne_of_text_ltb : (s t : Text) → text_ltb s t ≡ true → s ≢ t
ne_of_text_ltb s t h e = ground (arith, text_ltb_irrefl s)

pub text_ltb_trans :
    (s t u : Text) → text_ltb s t ≡ true → text_ltb t u ≡ true → text_ltb s u ≡ true
unfolding text_ltb
text_ltb_trans [] [] u h k = cc
text_ltb_trans [] (y ∷ ys) [] h k = cc
text_ltb_trans [] (y ∷ ys) (z ∷ zs) h k = refl
text_ltb_trans (x ∷ xs) [] u h k = cc
text_ltb_trans (x ∷ xs) (y ∷ ys) [] h k = cc
text_ltb_trans (x ∷ xs) (y ∷ ys) (z ∷ zs) h k = ground (arith, text_ltb_trans xs ys zs)

pub text_ltb_total : (s t : Text) → text_ltb s t ≡ false → s ≢ t → text_ltb t s ≡ true
unfolding text_ltb
text_ltb_total [] [] h d = absurd (d refl)
text_ltb_total [] (y ∷ ys) h d = cc
text_ltb_total (x ∷ xs) [] h d = refl
text_ltb_total (x ∷ xs) (y ∷ ys) h d = ground (arith, text_ltb_total xs ys)

pub text_ltb_asymm : (s t : Text) → text_ltb s t ≡ true → text_ltb t s ≡ false
text_ltb_asymm s t h = ground (arith, text_ltb_trans s t s, text_ltb_irrefl s)
