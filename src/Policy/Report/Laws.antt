-- ===== src/Policy/Report/Laws.antt =====
-- Which reports are supported, and what the state of `wg-users` in one is.
use rs_console.Common.{
  ℕ, suc, ◌≤◌, ◌≡◌, refl, sym, ap, ◌∙◌, ◌≢◌, ◌↔◌, ◌⊎◌, inl, inr, Bool, true, false, ◌&&◌, ◌||◌,
  List, [], ◌∷◌, arith, ℕ_discrete, Text, bytes, ◌==◌, Text-discrete, nat_eq, text_eq, ==_iff,
  bool_eq, Bool-cases, length, all,
}
use rs_console.Policy.Report.{
  AppliedInterface, GatewayStateReport, interfaces, to_set, is_supported,
}
use rs_console.Policy.Manifest.{wg_users, wg_nodes, address_eq}
use rs_console.Policy.Ids.{GatewayId}

length-to_set-le : (ts : List Text) → length (to_set ts) ≤ length ts
unfolding to_set
length-to_set-le [] = omega arith
length-to_set-le (t ∷ ts) = ground (arith, length-to_set-le ts)

length-interfaces : (states : List AppliedInterface) → length (interfaces states) ≡ length states
length-interfaces [] = refl
length-interfaces (s ∷ ss) = ap suc (length-interfaces ss)

-- Interfaces that are pairwise different and known.
abbrev pub IsSupported : GatewayStateReport → Type 0
IsSupported report =
    (report.schema_version ≡ 1)
    × ((report.applied ≡ [])
        ⊎ ((a : AppliedInterface) × (report.applied ≡ a ∷ [])
            × ((a.interface ≡ bytes "wg-users") ⊎ (a.interface ≡ bytes "wg-nodes")))
        ⊎ ((a : AppliedInterface) × (b : AppliedInterface) × (report.applied ≡ a ∷ b ∷ [])
            × (((a.interface ≡ bytes "wg-users") × (b.interface ≡ bytes "wg-nodes"))
                ⊎ ((a.interface ≡ bytes "wg-nodes") × (b.interface ≡ bytes "wg-users")))))

and_parts : (a b : Bool) → (a && (b && true)) ≡ true → (a ≡ true) × (b ≡ true)
and_parts a b h = ground arith

abbrev known : Text → Bool
known name = name == wg_users || name == wg_nodes

known_cases : (x : Text) → known x ≡ true → (x ≡ wg_users) ⊎ (x ≡ wg_nodes)
known_cases x h = ground arith

different_cases :
    (x y : Text)
    → (x ≡ wg_users) ⊎ (x ≡ wg_nodes)
    → (y ≡ wg_users) ⊎ (y ≡ wg_nodes)
    → y ≢ x
    → ((x ≡ wg_users) × (y ≡ wg_nodes)) ⊎ ((x ≡ wg_nodes) × (y ≡ wg_users))
different_cases x y (inl p) (inl q) d = absurd (d (q ∙ sym p))
different_cases x y (inl p) (inr q) d = inl (p, q)
different_cases x y (inr p) (inl q) d = inr (p, q)
different_cases x y (inr p) (inr q) d = absurd (d (q ∙ sym p))

one_name : (x : Text) → all known (to_set (x ∷ [])) ≡ true → (x ≡ wg_users) ⊎ (x ≡ wg_nodes)
unfolding to_set
one_name x each = known_cases x (and_parts (known x) true (ground arith)).0

-- Two names that are not merged and are both known are the two interfaces.
two_names :
    (x y : Text)
    → length (to_set (x ∷ y ∷ [])) ≡ 2
    → all known (to_set (x ∷ y ∷ [])) ≡ true
    → ((x ≡ wg_users) × (y ≡ wg_nodes)) ⊎ ((x ≡ wg_nodes) × (y ≡ wg_users))
unfolding to_set
two_names x y two each = elim (Bool-cases (y == x)) [
  | inl same ↦ let one : ◌≡◌ {A = ℕ} 1 2 = rw same at two in absurd (omega arith)
  | inr other ↦
      let both : (known x && (known y && true)) ≡ true = rw other at each in
      let parts = and_parts (known x) (known y) both in
      different_cases x y (known_cases x parts.0) (known_cases y parts.1)
        (λ e. let t : true ≡ false = sym ((==_iff y x).1 e) ∙ other in cc)
]

supported_parts :
    (version n : ℕ) (states : List AppliedInterface) (id : GatewayId)
    → is_supported (record { schema_version = version; gateway_id = id; applied = states }) ≡ true
    → (version ≡ 1)
      × (length states ≤ 2)
      × (length (to_set (interfaces states)) ≡ length states)
      × (all known (to_set (interfaces states)) ≡ true)
unfolding is_supported
supported_parts version n states id h = ground arith

is_supported_sound :
    (version : ℕ) (id : GatewayId) (states : List AppliedInterface)
    → is_supported (record { schema_version = version; gateway_id = id; applied = states }) ≡ true
    → IsSupported (record { schema_version = version; gateway_id = id; applied = states })
is_supported_sound version id [] h = ((supported_parts version 0 _ id h).0, inl refl)
is_supported_sound version id (a ∷ []) h =
    let (v, _, _, each) = supported_parts version 0 (a ∷ []) id h in
    (v, inr (inl (a, refl, one_name a.interface each)))
is_supported_sound version id (a ∷ b ∷ []) h =
    let (v, _, two, each) = supported_parts version 0 (a ∷ b ∷ []) id h in
    (v, inr (inr (a, b, refl, two_names a.interface b.interface two each)))
is_supported_sound version id (a ∷ b ∷ c ∷ states) h =
    absurd (omega (arith, (supported_parts version 0 (a ∷ b ∷ c ∷ states) id h).1))

is_supported_complete :
    (report : GatewayStateReport) → IsSupported report → is_supported report ≡ true
unfolding is_supported Text-discrete ℕ_discrete
is_supported_complete report (v, inl e) = rw (v, e)
is_supported_complete report (v, inr (inl (a, e, inl p))) = rw (v, e, p)
is_supported_complete report (v, inr (inl (a, e, inr p))) = rw (v, e, p)
is_supported_complete report (v, inr (inr (a, b, e, inl (p, q)))) = rw (v, e, p, q)
is_supported_complete report (v, inr (inr (a, b, e, inr (p, q)))) = rw (v, e, p, q)

-- A report is supported exactly when it has schema version 1 and speaks of no interface, of one of
-- `wg-users` and `wg-nodes`, or of both, each once.
pub is_supported_iff :
    (report : GatewayStateReport) → (is_supported report ≡ true) ↔ IsSupported report
is_supported_iff report = (is_supported_sound _ _ report.applied, is_supported_complete report)
