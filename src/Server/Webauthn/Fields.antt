-- ===== src/Server/Webauthn/Fields.antt =====
-- The entries of a `serde_json::Value`: `pointer_mut` on objects and `Map::insert`.
use rs_console.Common.{
  ◌≡◌, refl, ap, ◌∙◌, inl, inr, false, Option, none, some, List, [], ◌∷◌, ◌++◌, arith,
  if◌then◌else◌, Text, ◌==◌, nat_eq, text_eq, bool_eq, Option-cases,
}
use rs_console.Policy.Canonical.{
  Json, Fields, null, bool, number, string, array, object, end, field,
}

-- The value under a key.
unfoldable pub get_field : Text → Fields → Option Json
get_field key end = none
get_field key (field name value rest) =
    let later = get_field key rest in if name == key then some value else later

-- `Map::insert`.
unfoldable pub set_field : Text → Json → Fields → Fields
set_field key value end = field key value end
set_field key value (field name old rest) =
    let later = set_field key value rest in
    if name == key then field name value rest else field name old later

-- One step of `pointer`.
abbrev pub member : Text → Json → Option Json
member key (object fs) = get_field key fs
member key value = none

-- `pointer` along keys.
unfoldable pub pointer : List Text → Json → Option Json
pointer [] value = some value
pointer (key ∷ keys) value = elim (member key value) [
  | none ↦ none
  | some inner ↦ pointer keys inner
]

-- A change at a pointer; `none` where it leads nowhere or the change fails.
unfoldable pub change_at : List Text → (Json → Option Json) → Json → Option Json
unfolding get_field set_field
change_at [] f value = f value
change_at (key ∷ keys) f (object fs) = elim (get_field key fs) [
  | none ↦ none
  | some inner ↦ elim (change_at keys f inner) [
    | none ↦ none
    | some changed ↦ some (object (set_field key changed fs))
  ]
]
change_at (key ∷ keys) f value = none

pub get_field-set_field :
    (key : Text) (value : Json) (fs : Fields) → get_field key (set_field key value fs) ≡ some value
unfolding get_field set_field
get_field-set_field key value end = ground arith
get_field-set_field key value (field name old rest) =
    ground (arith, get_field-set_field key value rest)

pub get_field-set_field_other :
    (key other : Text) (value : Json) (fs : Fields)
    → (key == other) ≡ false
    → get_field key (set_field other value fs) ≡ get_field key fs
unfolding get_field set_field
get_field-set_field_other key other value end h = ground arith
get_field-set_field_other key other value (field name old rest) h =
    ground (arith, get_field-set_field_other key other value rest h)

pub pointer-member :
    (key : Text) (keys : List Text) (value inner : Json)
    → member key value ≡ some inner
    → pointer (key ∷ keys) value ≡ pointer keys inner
unfolding pointer
pointer-member key keys value inner h = elim (Option-cases (member key value)) [
  | inl e ↦ absurd (ground arith)
  | inr (found, e) ↦ ground arith
]

-- After a change, the pointer leads to what the change made.
pub pointer-change_at :
    (keys more : List Text) (f : Json → Option Json) (value changed : Json)
    → change_at keys f value ≡ some changed
    → (old : Json) × (made : Json) × (f old ≡ some made)
      × (pointer (keys ++ more) changed ≡ pointer more made)
unfolding change_at pointer
pointer-change_at [] more f value changed h = (value, changed, h, refl)
pointer-change_at (key ∷ keys) more f (object fs) changed h =
    elim (Option-cases (get_field key fs)) [
      | inl e ↦ absurd (ground arith)
      | inr (inner, e) ↦ elim (Option-cases (change_at keys f inner)) [
        | inl k ↦ absurd (ground arith)
        | inr (made, k) ↦
            let (old, final, made_of, leads) = pointer-change_at keys more f inner made k in
            let whole : changed ≡ object (set_field key made fs) = ground arith in
            let leads_here : member key changed ≡ some made =
              ap (member key) whole ∙ get_field-set_field key made fs in
            (old, final, made_of, pointer-member key (keys ++ more) changed made leads_here ∙ leads)
      ]
    ]
pointer-change_at (key ∷ keys) more f null changed h = cc
pointer-change_at (key ∷ keys) more f (bool b) changed h = cc
pointer-change_at (key ∷ keys) more f (number n) changed h = cc
pointer-change_at (key ∷ keys) more f (string t) changed h = cc
pointer-change_at (key ∷ keys) more f (array vs) changed h = cc
