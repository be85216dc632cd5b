-- ===== src/Common/Map/Search.antt =====
-- A test on the entries of a map, against what lookups find.
use rs_console.Common.Base.{◌≡◌, sym, inl, inr, Bool, true, false, some, [], ◌∷◌, arith}
use rs_console.Common.Tests.{Text, ◌==◌, nat_eq, text_eq, ==_iff, Bool-cases}
use rs_console.Common.Lists.{any}
use rs_console.Common.Map.{Map, get, IsSorted, get_above}

module _ {V : Type 0} (p : Text → V → Bool) where
  -- An entry that passes is found under its key.
  pub any-get :
      (m : Map V)
      → IsSorted m
      → any (λ e. p e.0 e.1) m ≡ true
      → (k : Text) × (v : V) × (get k m ≡ some v) × (p k v ≡ true)
  unfolding get
  any-get [] s h = cc
  any-get ((j, w) ∷ m) s h = elim (Bool-cases (p j w)) [
    | inl e ↦ (j, w, ground arith, e)
    | inr e ↦
        let (k, v, found, passes) = any-get m s.1 (ground arith) in
        elim (Bool-cases (j == k)) [
          | inl same ↦
              let missing = get_above j m s.0 in
              let found' : get j m ≡ some v = rw ((==_iff j k).0 same) found in cc
          | inr other ↦ (k, v, ground arith, passes)
        ]
  ]

  -- When none passes, nothing that is found does.
  pub none-get :
      (m : Map V) (k : Text) (v : V)
      → any (λ e. p e.0 e.1) m ≡ false
      → get k m ≡ some v
      → p k v ≡ false
  unfolding get
  none-get [] k v h found = cc
  none-get ((j, w) ∷ m) k v h found = elim (Bool-cases (j == k)) [
    | inl same ↦
        let same_value : w ≡ v = ground arith in
        rw (sym ((==_iff j k).0 same)) (rw (sym same_value) (ground arith))
    | inr other ↦ none-get m k v (ground arith) (ground arith)
  ]
