-- ===== src/Policy/Vpn/Pool.antt =====
-- The address pool: which host `allocate_address` takes, and when it has none.
use rs_console.Common.{
  ℕ, zero, suc, ◌+◌, ◌≤◌, ◌<◌, ◌≡◌, refl, ap, ◌≢◌, ◌⊎◌, inl, inr, true, false, not, Option, none,
  some, List, [], ◌∷◌, arith, ℕ_discrete, if◌then◌else◌, ◌==◌, nat_eq, text_eq, bool_eq, Bool-cases,
  length, find, All, ok, err,
}
use rs_console.Policy.Manifest.{address_eq, contains}
use rs_console.Policy.Vpn.{VpnPolicy, count_from, used_hosts, allocate_address}
use rs_console.Policy.Address.{OverlayAddress, new_address}
use rs_console.Common.Map.{values}
use rs_console.Policy.Ids.{address_pool_exhausted}

-- The list without the first occurrence of a number.
drop_one : ℕ → List ℕ → List ℕ
drop_one a [] = []
drop_one a (x ∷ xs) = if x == a then xs else x ∷ drop_one a xs

length-drop_one :
    (a : ℕ) (xs : List ℕ) → contains a xs ≡ true → length xs ≡ length (drop_one a xs) + 1
unfolding drop_one
length-drop_one a [] h = cc
length-drop_one a (x ∷ xs) h = ground (arith, length-drop_one a xs)

contains-drop_one :
    (a b : ℕ) (xs : List ℕ) → b ≢ a → contains b xs ≡ true → contains b (drop_one a xs) ≡ true
unfolding drop_one
contains-drop_one a b [] d h = cc
contains-drop_one a b (x ∷ xs) d h = ground (arith, contains-drop_one a b xs)

-- Every number of a stretch is in the list.
abbrev pub Covers : ℕ → ℕ → List ℕ → Type 0
Covers n start xs = (h : ℕ) → start ≤ h → h < start + n → contains h xs ≡ true

length-Covers : (n start : ℕ) (xs : List ℕ) → Covers n start xs → n ≤ length xs
length-Covers zero start xs c = omega arith
length-Covers (suc n) start xs c = omega (
  arith,
  length-drop_one start xs (c start (omega arith) (omega arith)),
  length-Covers n (suc start) (drop_one start xs)
      (λ h low high. contains-drop_one start h xs (omega arith) (c h (omega arith) (omega arith))),
)

-- What `find` says over a stretch of hosts.
abbrev pub Found : List ℕ → ℕ → ℕ → Option ℕ → Type 0
Found used n start none = Covers n start used
Found used n start (some h) =
    (start ≤ h)
    × (h < start + n)
    × (contains h used ≡ false)
    × ((i : ℕ) → start ≤ i → i < h → contains i used ≡ true)

Found-next :
    (used : List ℕ) (n start : ℕ) (r : Option ℕ)
    → contains start used ≡ true
    → Found used n (suc start) r
    → Found used (suc n) start r
Found-next used n start none t c = λ h low high. elim (ℕ_discrete h start) [
  | yes e ↦ rw e t
  | no e ↦ c h (omega arith) (omega arith)
]
Found-next used n start (some h) t (low, high, free, below) = (
  omega arith,
  omega arith,
  free,
  λ i p q. elim (ℕ_discrete i start) [ yes e ↦ rw e t | no e ↦ below i (omega arith) q ],
)

pub find-Found :
    (used : List ℕ) (n start : ℕ)
    → Found used n start (find (λ h. not (contains h used)) (count_from n start))
find-Found used zero start = λ h low high. absurd (omega arith)
find-Found used (suc n) start = elim (Bool-cases (contains start used)) [
  | inl taken ↦ rw taken (Found-next used n start _ taken (find-Found used n (suc start)))
  | inr free ↦ rw free (omega arith, omega arith, free, λ i p q. absurd (omega arith))
]

abbrev pub hosts : VpnPolicy → List ℕ
hosts policy = used_hosts (values policy.peers)

-- The address has the lowest host of the pool that no peer uses.
abbrev pub IsLowestFree : List ℕ → OverlayAddress → Type 0
IsLowestFree used address =
    (2 ≤ address.d)
    × (address.d ≤ 254)
    × (new_address address.d ≡ ok address)
    × (contains address.d used ≡ false)
    × ((i : ℕ) → 2 ≤ i → i < address.d → contains i used ≡ true)

pub new_address_in_pool :
    (h : ℕ) → 2 ≤ h → h ≤ 254 → new_address h ≡ ok (record { a = 10; b = 100; c = 0; d = h })
unfolding new_address
new_address_in_pool h low high = ground arith

-- Either the lowest free address, or an error at a full pool.
pub allocate_cases :
    (policy : VpnPolicy)
    → ((address : OverlayAddress) × (allocate_address policy ≡ ok address)
        × IsLowestFree (hosts policy) address)
      ⊎ ((allocate_address policy ≡ err address_pool_exhausted) × (253 ≤ length (hosts policy)))
unfolding allocate_address
allocate_cases policy = go _ (find-Found (hosts policy) 253 2)
  where
    go :
        (r : Option ℕ)
        → Found (hosts policy) 253 2 r
        → ((address : OverlayAddress) × ((elim r [
          | none ↦ err address_pool_exhausted
          | some h ↦ new_address h
        ])
              ≡ ok address)
            × IsLowestFree (hosts policy) address)
          ⊎ (((elim r [ none ↦ err address_pool_exhausted | some h ↦ new_address h ])
                ≡ err address_pool_exhausted)
              × (253 ≤ length (hosts policy)))
    go none c = inr (refl, length-Covers 253 2 (hosts policy) c)
    go (some h) (low, high, free, below) =
        let made = new_address_in_pool h low (omega arith) in
        inl (_, made, (low, omega arith, made, free, below))

-- No number twice.
abbrev pub Unrepeated : List ℕ → Type 0
Unrepeated [] = Unit
Unrepeated (x ∷ xs) = All (λ y. y ≢ x) xs × Unrepeated xs

All-contains-drop_one :
    (a : ℕ) (xs ys : List ℕ)
    → All (λ y. y ≢ a) xs
    → All (λ x. contains x ys ≡ true) xs
    → All (λ x. contains x (drop_one a ys) ≡ true) xs
All-contains-drop_one a [] ys d h = tt
All-contains-drop_one a (x ∷ xs) ys d h =
    (contains-drop_one a x ys d.0 h.0, All-contains-drop_one a xs ys d.1 h.1)

length-le_of_contains :
    (xs ys : List ℕ) → Unrepeated xs → All (λ x. contains x ys ≡ true) xs → length xs ≤ length ys
length-le_of_contains [] ys u h = omega arith
length-le_of_contains (x ∷ xs) ys u h = omega (
  arith,
  length-drop_one x ys h.0,
  length-le_of_contains xs (drop_one x ys) u.1 (All-contains-drop_one x xs ys u.0 h.1),
)

contains-count_from :
    (h n start : ℕ) → start ≤ h → h < start + n → contains h (count_from n start) ≡ true
contains-count_from h zero start low high = absurd (omega arith)
contains-count_from h (suc n) start low high = ground (arith, contains-count_from h n (suc start))

length-count_from : (n start : ℕ) → length (count_from n start) ≡ n
length-count_from zero start = refl
length-count_from (suc n) start = ap suc (length-count_from n (suc start))

All-count_from :
    (xs : List ℕ)
    → All (λ h. (2 ≤ h) × (h ≤ 254)) xs
    → All (λ h. contains h (count_from 253 2) ≡ true) xs
All-count_from [] r = tt
All-count_from (x ∷ xs) r = (contains-count_from x 253 2 r.0.0 (omega arith), All-count_from xs r.1)

-- Distinct hosts of the pool are at most 253.
pub length-hosts-le :
    (xs : List ℕ) → Unrepeated xs → All (λ h. (2 ≤ h) × (h ≤ 254)) xs → length xs ≤ 253
length-hosts-le xs u r = length-le_of_contains xs (count_from 253 2) u (All-count_from xs r)
