-- ===== src/Common/Found.antt =====
-- What `find` returns.
use mathlib.Core.List.{Memᴰ}
use rs_console.Common.Base.{◌≡◌, refl, subst, inl, inr, Bool, true, some, List, [], ◌∷◌, arith}
use rs_console.Common.Tests.{Bool-cases}
use rs_console.Common.Lists.{find}

pub find-Memᴰ :
    {A : Type 0} (p : A → Bool) (xs : List A) (a : A)
    → find p xs ≡ some a
    → Memᴰ a xs × (p a ≡ true)
find-Memᴰ p [] a h = cc
find-Memᴰ p (x ∷ xs) a h = elim (Bool-cases (p x)) [
  | inl e ↦
      let same : x ≡ a = ground arith in
      subst (λ y. Memᴰ y (x ∷ xs) × (p y ≡ true)) same (Memᴰ.head refl, e)
  | inr e ↦ let found = find-Memᴰ p xs a (ground arith) in (Memᴰ.tail found.0, found.1)
]
