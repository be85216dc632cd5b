-- ===== src/Common/Results.antt =====
-- Rust's `Result`, with `?` as bind.
use rs_console.Common.Base.{◌≡◌, refl, ◌⊎◌, inl, inr, Option, none, some}

pub data Result {ℓ κ} (E : Type ℓ) (A : Type κ) : Type (ℓ ⊔ κ) where
  ok : A → Result E A
  err : E → Result E A

module _ {ℓ κ μ} {E : Type ℓ} {A : Type κ} {B : Type μ} where
  infixl 5 ◌>>=◌
  abbrev pub ◌>>=◌ : Result E A → (A → Result E B) → Result E B
  err failure >>= next = err failure
  ok value >>= next = next value

  -- Inversion of a successful bind.
  pub >>=-eq-ok :
      (first : Result E A) (next : A → Result E B) {last : B}
      → (first >>= next) ≡ ok last
      → (value : A) × (first ≡ ok value) × (next value ≡ ok last)
  >>=-eq-ok (err failure) next done = cc
  >>=-eq-ok (ok value) next done = (value, refl, done)

module _ {ℓ κ} {E : Type ℓ} {A : Type κ} where
  -- `Option::ok_or`.
  abbrev pub ok_or : E → Option A → Result E A
  ok_or e none = err e
  ok_or e (some a) = ok a

  pub ok_or-eq-ok : (e : E) (o : Option A) {a : A} → ok_or e o ≡ ok a → o ≡ some a
  ok_or-eq-ok e none h = cc
  ok_or-eq-ok e (some b) h = cc

  pub Result-cases : (r : Result E A) → ((a : A) × (r ≡ ok a)) ⊎ ((e : E) × (r ≡ err e))
  Result-cases (ok a) = inl (a, refl)
  Result-cases (err e) = inr (e, refl)
