-- ===== src/Common/Map.antt =====
-- `BTreeMap` with text keys: an association list in the order of its keys.
pub mod Entries
pub mod Search
use rs_console.Common.Base.{◌≡◌, refl, Bool, true, false, Option, none, some, List, [], ◌∷◌, arith}
use rs_console.Common.Tests.{if◌then◌else◌, Text, ◌==◌, nat_eq, text_eq, bool_eq}
use rs_console.Common.Order.{text_ltb, ne_of_text_ltb, text_ltb_trans, text_ltb_total}

abbrev pub Map {ℓ} : Type ℓ → Type ℓ
Map V = List (Text × V)

module _ {ℓ} {V : Type ℓ} where
  unfoldable pub get : Text → Map V → Option V
  get k [] = none
  get k ((j, v) ∷ m) = if j == k then some v else get k m

  unfoldable pub contains_key : Text → Map V → Bool
  unfolding get
  contains_key k m = elim (get k m) [ none ↦ false | some v ↦ true ]

  unfoldable pub insert : Text → V → Map V → Map V
  insert k v [] = (k, v) ∷ []
  insert k v ((j, w) ∷ m) =
      if text_ltb k j
      then (k, v) ∷ (j, w) ∷ m
      else if j == k
      then (k, v) ∷ m
      else (j, w) ∷ insert k v m

  unfoldable pub remove : Text → Map V → Map V
  remove k [] = []
  remove k ((j, w) ∷ m) = if j == k then m else (j, w) ∷ remove k m

  abbrev pub values : Map V → List V
  values [] = []
  values ((k, v) ∷ m) = v ∷ values m

  -- Every key of the map is above `k`.
  abbrev pub KeysAbove : Text → Map V → Type 0
  KeysAbove k [] = Unit
  KeysAbove k ((j, v) ∷ m) = (text_ltb k j ≡ true) × KeysAbove k m

  abbrev pub IsSorted : Map V → Type 0
  IsSorted [] = Unit
  IsSorted ((k, v) ∷ m) = KeysAbove k m × IsSorted m

  pub KeysAbove-trans :
      (k j : Text) (m : Map V) → text_ltb k j ≡ true → KeysAbove j m → KeysAbove k m
  KeysAbove-trans k j [] h a = tt
  KeysAbove-trans k j ((i, v) ∷ m) h a = (text_ltb_trans k j i h a.0, KeysAbove-trans k j m h a.1)

  pub get_above : (k : Text) (m : Map V) → KeysAbove k m → get k m ≡ none
  unfolding get
  get_above k [] a = refl
  get_above k ((j, v) ∷ m) a = ground (arith, get_above k m a.1, ne_of_text_ltb k j a.0)

  -- A lookup behind an insertion.
  pub get-insert :
      (k j : Text) (v : V) (m : Map V) → get j (insert k v m) ≡ (if k == j then some v else get j m)
  unfolding get insert
  get-insert k j v [] = refl
  get-insert k j v ((i, w) ∷ m) = ground (arith, get-insert k j v m)

  -- A lookup behind a removal.
  pub get-remove :
      (k j : Text) (m : Map V)
      → IsSorted m
      → get j (remove k m) ≡ (if k == j then none else get j m)
  unfolding get remove
  get-remove k j [] s = ground arith
  get-remove k j ((i, w) ∷ m) s = ground (arith, get-remove k j m s.1, get_above i m s.0)

  KeysAbove-insert :
      (i k : Text) (v : V) (m : Map V)
      → text_ltb i k ≡ true
      → KeysAbove i m
      → KeysAbove i (insert k v m)
  unfolding insert
  KeysAbove-insert i k v [] h a = (h, tt)
  KeysAbove-insert i k v ((j, w) ∷ m) h a = ground (arith, KeysAbove-insert i k v m h a.1)

  pub insert-IsSorted : (k : Text) (v : V) (m : Map V) → IsSorted m → IsSorted (insert k v m)
  unfolding insert
  insert-IsSorted k v [] s = (tt, tt)
  insert-IsSorted k v ((j, w) ∷ m) s = ground (
    arith,
    insert-IsSorted k v m s.1,
    KeysAbove-insert j k v m,
    text_ltb_total k j,
    KeysAbove-trans k j m,
  )

  KeysAbove-remove : (i k : Text) (m : Map V) → KeysAbove i m → KeysAbove i (remove k m)
  unfolding remove
  KeysAbove-remove i k [] a = tt
  KeysAbove-remove i k ((j, w) ∷ m) a = ground (arith, KeysAbove-remove i k m a.1)

  pub remove-IsSorted : (k : Text) (m : Map V) → IsSorted m → IsSorted (remove k m)
  unfolding remove
  remove-IsSorted k [] s = tt
  remove-IsSorted k ((j, w) ∷ m) s =
      ground (arith, remove-IsSorted k m s.1, KeysAbove-remove j k m s.0)
