-- ===== src/Common/Tests.antt =====
-- Boolean tests on numbers and texts, and the conditional.
-- A Rust string is the list of its UTF-8 bytes: `len`, slices and `Ord` of `str` are those of the
-- bytes. An ASCII test on characters is the same test on bytes, since every byte of a character
-- outside ASCII is 128 or more.
use Prim.Native.Char.{code}
use Prim.Native.String.{String}
use rs_console.Common.Base.{
  ℕ, compare, Ordering, ◌≡◌, refl, ◌↔◌, ◌⊎◌, inl, inr, Bool, true, false, Option, none, some, List,
  [], ◌∷◌, ℕ_discrete,
}

abbrev pub ltb : ℕ → ℕ → Bool
ltb a b = elim (compare a b) [ Ordering.lt ↦ true | _ ↦ false ]

abbrev pub leb : ℕ → ℕ → Bool
leb a b = elim (compare a b) [ Ordering.gt ↦ false | _ ↦ true ]

infix 1 if◌then◌else◌
abbrev pub if◌then◌else◌ {ℓ} : {A : Type ℓ} → Bool → A → A → A
if true then x else y = x
if false then x else y = y

abbrev pub Text : Type 0
Text = List ℕ

-- The bytes of an ASCII literal.
abbrev pub bytes : String → Text
bytes String.[] = []
bytes (String.◌∷◌ c s) = code c ∷ bytes s

-- Types with a decided equality, Rust's `Eq`.
pub record Eq {ℓ} (A : Type ℓ) : Type ℓ where
  pub dec : Discrete A

infix 50 ◌==◌
abbrev pub ◌==◌ {ℓ} : {A : Type ℓ} ⦃e : Eq A⦄ → A → A → Bool
◌==◌ ⦃e⦄ a b = elim (e.dec a b) [ yes _ ↦ true | no _ ↦ false ]

unfoldable pub Text-discrete : Discrete Text
unfolding ℕ_discrete
Text-discrete = hlevel ℕ_discrete

instance abbrev pub nat_eq : Eq ℕ
nat_eq = record { dec = ℕ_discrete }

instance abbrev pub text_eq : Eq Text
text_eq = record { dec = Text-discrete }

pub ==_iff {ℓ} : {A : Type ℓ} ⦃e : Eq A⦄ (a b : A) → ((a == b) ≡ true) ↔ (a ≡ b)
==_iff ⦃e⦄ a b =
    elim (e.dec a b) as (λ d. ((elim d [ yes _ ↦ true | no _ ↦ false ]) ≡ true) ↔ (a ≡ b)) [
      | yes p ↦ (λ _. p, λ _. refl)
      | no p ↦ (λ h. cc, λ h. absurd (p h))
    ]

unfoldable pub Bool-discrete : Discrete Bool
Bool-discrete = hlevel

instance abbrev pub bool_eq : Eq Bool
bool_eq = record { dec = Bool-discrete }

-- To split on a computed value and keep the equation.
pub Bool-cases : (b : Bool) → (b ≡ true) ⊎ (b ≡ false)
Bool-cases true = inl refl
Bool-cases false = inr refl

pub Option-cases {ℓ} : {A : Type ℓ} (o : Option A) → (o ≡ none) ⊎ ((a : A) × (o ≡ some a))
Option-cases none = inl refl
Option-cases (some a) = inr (a, refl)
