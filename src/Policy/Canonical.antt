-- ===== src/Policy/Canonical.antt =====
-- `write_canonical_json` of policy/src/contract.rs. `serde_json` is a parameter: a number holds the
-- text of its `to_string`, and `quote` is `serde_json::to_string` of a string.
pub mod KeyOrder
use rs_console.Common.{
  Bool, true, false, Option, List, [], ◌∷◌, ◌++◌, if◌then◌else◌, Text, bytes, Result, ◌>>=◌, ok_or,
  ok,
}
use rs_console.Common.Order.{text_ltb}
use rs_console.Policy.Ids.{PolicyError, serialization}

-- `serde_json::Value`, with the lists of an array and of an object as types of their own.
mutual
  pub data Json : Type 0 where
    null : Json
    bool : Bool → Json
    number : Text → Json
    string : Text → Json
    array : Items → Json
    object : Fields → Json

  pub data Items : Type 0 where
    nil : Items
    cons : Json → Items → Items

  pub data Fields : Type 0 where
    end : Fields
    field : Text → Json → Fields → Fields

abbrev pub fields : Fields → List (Text × Json)
fields end = []
fields (field k v fs) = (k, v) ∷ fields fs

-- A key with what is written for its value.
abbrev pub Written : Type 0
Written = Text × Result PolicyError Text

-- `keys.sort_unstable()`; the keys of an object are different.
unfoldable pub insert_key : Written → List Written → List Written
insert_key e [] = e ∷ []
insert_key e (d ∷ ds) = if text_ltb d.0 e.0 then d ∷ insert_key e ds else e ∷ d ∷ ds

unfoldable pub sort_keys : List Written → List Written
unfolding insert_key
sort_keys [] = []
sort_keys (e ∷ es) = insert_key e (sort_keys es)

-- A comma before every element but the first.
abbrev pub separator : Bool → Text
separator true = []
separator false = bytes ","

-- The elements of an array.
unfoldable pub join_items : Bool → List (Result PolicyError Text) → Result PolicyError Text
join_items first [] = ok []
join_items first (r ∷ rs) = do
  text ← r
  rest ← join_items false rs
  ok (separator first ++ (text ++ rest))

module _ (quote : Text → Option Text) where
  -- The entries of an object, `"key":value`.
  unfoldable pub join_entries : Bool → List Written → Result PolicyError Text
  join_entries first [] = ok []
  join_entries first ((key, r) ∷ es) = do
    name ← ok_or serialization (quote key)
    text ← r
    rest ← join_entries false es
    ok (separator first ++ (name ++ (b':' ∷ (text ++ rest))))

  abbrev pub brace : Text → Text
  brace text = b'{' ∷ (text ++ bytes "}")

  abbrev pub bracket : Text → Text
  bracket text = b'[' ∷ (text ++ bytes "]")

  unfoldable mutual
    -- What `write_canonical_json` appends to its output.
    pub canonical : Json → Result PolicyError Text
    canonical null = ok (bytes "null")
    canonical (bool b) = ok (if b then bytes "true" else bytes "false")
    canonical (number text) = ok text
    canonical (string text) = ok_or serialization (quote text)
    canonical (array items) = do text ← join_items true (canonical_items items); ok (bracket text)
    canonical (object fs) = do
      text ← join_entries true (sort_keys (canonical_fields fs))
      ok (brace text)

    pub canonical_items : Items → List (Result PolicyError Text)
    canonical_items nil = []
    canonical_items (cons v vs) = canonical v ∷ canonical_items vs

    pub canonical_fields : Fields → List Written
    canonical_fields end = []
    canonical_fields (field key v fs) = (key, canonical v) ∷ canonical_fields fs
