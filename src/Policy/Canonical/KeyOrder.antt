-- ===== src/Policy/Canonical/KeyOrder.antt =====
-- The order of the fields in canonical JSON (policy/src/contract.rs).
use mathlib.Core.List.{Perm, Permᴰ, Nodup, mem-cons_self, Nodup-cons}
use mathlib.Core.List.Perm
use mathlib.Core.Logic.{∥∥₁_elim}
use rs_console.Common.{
  ◌≡◌, refl, ap, ◌∙◌, ◌≢◌, true, Option, List, [], ◌∷◌, map, arith, Text, Result, ◌>>=◌, ok,
}
use rs_console.Common.Order.{text_ltb_irrefl, text_ltb_trans, text_ltb_total, text_ltb_asymm}
use rs_console.Policy.Ids.{PolicyError}
use rs_console.Policy.Canonical.{
  Json, Fields, fields, Written, insert_key, sort_keys, join_entries, brace, canonical,
  canonical_fields, object, end, field,
}

-- Entries with different keys may be put in in either order.
insert_key_comm :
    (a b : Written) (es : List Written)
    → a.0 ≢ b.0
    → insert_key a (insert_key b es) ≡ insert_key b (insert_key a es)
unfolding insert_key
insert_key_comm a b [] d =
    ground (arith, text_ltb_total a.0 b.0, text_ltb_asymm a.0 b.0, text_ltb_asymm b.0 a.0)
insert_key_comm a b (e ∷ es) d = ground (
  arith,
  insert_key_comm a b es d,
  text_ltb_total a.0 b.0,
  text_ltb_asymm a.0 b.0,
  text_ltb_asymm b.0 a.0,
  text_ltb_total e.0 a.0,
  text_ltb_total e.0 b.0,
  text_ltb_asymm e.0 a.0,
  text_ltb_asymm e.0 b.0,
  text_ltb_trans e.0 a.0 b.0,
  text_ltb_trans e.0 b.0 a.0,
  text_ltb_trans a.0 b.0 e.0,
  text_ltb_trans b.0 a.0 e.0,
  text_ltb_irrefl a.0,
)

abbrev keys : List Written → List Text
keys es = map (λ e. e.0) es

sort_keys-permᴰ :
    {es ds : List Written} → Permᴰ es ds → Nodup (keys es) → sort_keys es ≡ sort_keys ds
unfolding sort_keys
sort_keys-permᴰ Permᴰ.nil n = refl
sort_keys-permᴰ (Permᴰ.cons {a = a} {b = b} {l₁ = es} {l₂ = ds} e p) n =
    rw (sort_keys-permᴰ p (Nodup-cons.0 n).1) (ap (λ x. insert_key x (sort_keys ds)) e)
sort_keys-permᴰ (Permᴰ.swap {a = a} {b = b} {a' = c} {b' = d} {l = es} e f) n =
    insert_key_comm a b (sort_keys es) (λ same. (Nodup-cons.0 n).0 (rw same mem-cons_self))
    ∙ ap (λ x. insert_key x (insert_key a (sort_keys es))) f
    ∙ ap (λ x. insert_key c (insert_key x (sort_keys es))) e
sort_keys-permᴰ (Permᴰ.trans p q) n =
    sort_keys-permᴰ p n ∙ sort_keys-permᴰ q (Perm.nodup (Perm.map (λ e. e.0) ∣ p ∣₁) n)

Result-set : IsSet (Result PolicyError Text)
Result-set = hlevel

module _ (quote : Text → Option Text) where
  abbrev written : Text × Json → Written
  written e = (e.0, canonical quote e.1)

  canonical_fields-map : (fs : Fields) → canonical_fields quote fs ≡ map written (fields fs)
  unfolding canonical_fields
  canonical_fields-map end = refl
  canonical_fields-map (field k v fs) = ap (◌∷◌ (k, canonical quote v)) (canonical_fields-map fs)

  keys-canonical_fields :
      (fs : Fields) → keys (canonical_fields quote fs) ≡ map (λ e. e.0) (fields fs)
  unfolding canonical_fields
  keys-canonical_fields end = refl
  keys-canonical_fields (field k v fs) = ap (◌∷◌ k) (keys-canonical_fields fs)

  -- Two objects with the same fields, whose keys are different, have the same canonical text,
  -- whatever the order in which the fields are stored.
  pub canonical-perm :
      (fs gs : Fields)
      → Nodup (map (λ e. e.0) (fields fs))
      → Perm (fields fs) (fields gs)
      → canonical quote (object fs) ≡ canonical quote (object gs)
  unfolding canonical
  canonical-perm fs gs n p = ∥∥₁_elim (Perm.map written p) (Result-set _ _) λ d.
      ap (λ es. join_entries quote true es >>= λ text. ok (brace quote text))
        (rw (canonical_fields-map fs, canonical_fields-map gs)
          (sort_keys-permᴰ d (rw (← canonical_fields-map fs) (rw (keys-canonical_fields fs) n))))
