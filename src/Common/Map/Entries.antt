-- ===== src/Common/Map/Entries.antt =====
-- What holds of all entries of a map, and an attribute of the values in which any two entries differ.
use rs_console.Common.Base.{◌≡◌, sym, ◌≢◌, some, [], ◌∷◌, arith}
use rs_console.Common.Tests.{Text}
use rs_console.Common.Order.{ne_of_text_ltb}
use rs_console.Common.Map.{Map, get, insert, remove, KeysAbove, IsSorted, KeysAbove-trans}

module _ {V : Type 0} (P : Text → V → Type 0) where
  -- `P` holds of every entry.
  abbrev pub Entries : Map V → Type 0
  Entries [] = Unit
  Entries ((k, v) ∷ m) = P k v × Entries m

  pub insert-Entries : (k : Text) (v : V) (m : Map V) → P k v → Entries m → Entries (insert k v m)
  unfolding insert
  insert-Entries k v [] p h = (p, tt)
  insert-Entries k v ((j, w) ∷ m) p h = ground (arith, insert-Entries k v m p h.1)

  pub remove-Entries : (k : Text) (m : Map V) → Entries m → Entries (remove k m)
  unfolding remove
  remove-Entries k [] h = tt
  remove-Entries k ((j, w) ∷ m) h = ground (arith, remove-Entries k m h.1)

  pub get-Entries : (k : Text) (v : V) (m : Map V) → Entries m → get k m ≡ some v → P k v
  unfolding get
  get-Entries k v [] h e = cc
  get-Entries k v ((j, w) ∷ m) h e = ground (arith, get-Entries k v m h.1)

module _ {V B : Type 0} (f : V → B) where
  -- The entries under other keys than `k` have another attribute than `b`.
  abbrev pub Elsewhere : Text → B → Map V → Type 0
  Elsewhere k b [] = Unit
  Elsewhere k b ((j, w) ∷ m) = (j ≢ k → f w ≢ b) × Elsewhere k b m

  abbrev pub Differs : B → Map V → Type 0
  Differs b [] = Unit
  Differs b ((j, w) ∷ m) = (f w ≢ b) × Differs b m

  abbrev pub Distinct : Map V → Type 0
  Distinct [] = Unit
  Distinct ((k, v) ∷ m) = Differs (f v) m × Distinct m

  pub Differs-Elsewhere : (k : Text) (b : B) (m : Map V) → Differs b m → Elsewhere k b m
  Differs-Elsewhere k b [] d = tt
  Differs-Elsewhere k b ((j, w) ∷ m) d = (λ _. d.0, Differs-Elsewhere k b m d.1)

  Elsewhere-above : (k : Text) (b : B) (m : Map V) → KeysAbove k m → Elsewhere k b m → Differs b m
  Elsewhere-above k b [] a h = tt
  Elsewhere-above k b ((j, w) ∷ m) a h =
      (h.0 (λ e. ne_of_text_ltb k j a.0 (sym e)), Elsewhere-above k b m a.1 h.1)

  Differs-insert :
      (k : Text) (v : V) (b : B) (m : Map V) → f v ≢ b → Differs b m → Differs b (insert k v m)
  unfolding insert
  Differs-insert k v b [] p d = (p, tt)
  Differs-insert k v b ((j, w) ∷ m) p d = ground (arith, Differs-insert k v b m p d.1)

  Differs-remove : (k : Text) (b : B) (m : Map V) → Differs b m → Differs b (remove k m)
  unfolding remove
  Differs-remove k b [] d = tt
  Differs-remove k b ((j, w) ∷ m) d = ground (arith, Differs-remove k b m d.1)

  -- The entries keep their attributes apart when the new one differs from those elsewhere.
  pub insert-Distinct :
      (k : Text) (v : V) (m : Map V)
      → IsSorted m
      → Elsewhere k (f v) m
      → Distinct m
      → Distinct (insert k v m)
  unfolding insert
  insert-Distinct k v [] s h d = (tt, tt)
  insert-Distinct k v ((j, w) ∷ m) s h d = ground (
    arith,
    insert-Distinct k v m s.1 h.1 d.1,
    h.0,
    ne_of_text_ltb k j,
    Differs-insert k v (f w) m,
    KeysAbove-trans k j m,
    Elsewhere-above k (f v) m,
  )

  pub remove-Distinct : (k : Text) (m : Map V) → Distinct m → Distinct (remove k m)
  unfolding remove
  remove-Distinct k [] d = tt
  remove-Distinct k ((j, w) ∷ m) d =
      ground (arith, remove-Distinct k m d.1, Differs-remove k (f w) m d.0)

  get-Differs : (k : Text) (v : V) (b : B) (m : Map V) → get k m ≡ some v → Differs b m → f v ≢ b
  unfolding get
  get-Differs k v b [] e d = cc
  get-Differs k v b ((j, w) ∷ m) e d = ground (arith, get-Differs k v b m)

  -- In a map with distinct attributes the one found under a key is not elsewhere.
  pub get-Elsewhere :
      (k : Text) (v : V) (m : Map V) → get k m ≡ some v → Distinct m → Elsewhere k (f v) m
  unfolding get
  get-Elsewhere k v [] e d = tt
  get-Elsewhere k v ((j, w) ∷ m) e d = ground (
    arith,
    Differs-Elsewhere k (f w) m d.0,
    get-Differs k v (f w) m,
    λ (g : get k m ≡ some v). get-Elsewhere k v m g d.1,
  )
