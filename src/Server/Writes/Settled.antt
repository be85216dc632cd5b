-- ===== src/Server/Writes/Settled.antt =====
-- Rows with a key that are all settled: what has happened to them is not undone by an insertion or an
-- update of server/src/repository.rs.
pub mod Sessions
pub mod Capabilities
pub mod Recoveries
pub mod SignedOut
use rs_console.Common.{
  ◌≡◌, refl, sym, ◌∙◌, subst, inl, inr, Bool, true, false, not, ◌||◌, some, List, [], ◌∷◌, ◌++◌,
  arith, if◌then◌else◌, Bool-cases, all, any, find,
}
use rs_console.Server.Writes.Distinct.{distinct, all-append}
use rs_console.Server.Tables.{update, affects_one}

-- A row with the key is there, and every such row is settled.
abbrev pub IsSettled : {A : Type 0} → (A → Bool) → (A → Bool) → List A → Type 0
IsSettled key settled rows =
    (any key rows ≡ true) × (all (λ r. not (key r) || settled r) rows ≡ true)

append-any :
    {A : Type 0} (p : A → Bool) (rows : List A) (row : A)
    → any p rows ≡ true
    → any p (rows ++ (row ∷ [])) ≡ true
append-any p [] row h = cc
append-any p (r ∷ rows) row h = ground (arith, append-any p rows row)

pub append-IsSettled :
    {A : Type 0} (key settled : A → Bool) (rows : List A) (row : A)
    → key row ≡ false
    → IsSettled key settled rows
    → IsSettled key settled (rows ++ (row ∷ []))
append-IsSettled key settled rows row e (h, a) = (
  append-any key rows row h,
  all-append (λ r. not (key r) || settled r) rows row a (ground arith),
)

-- What a row with the key is, some row is.
pub any-weaken :
    {A : Type 0} (key p : A → Bool) (rows : List A)
    → ((r : A) → key r ≡ true → p r ≡ true)
    → any key rows ≡ true
    → any p rows ≡ true
any-weaken key p [] f h = h
any-weaken key p (r ∷ rows) f h = ground (arith, f r, any-weaken key p rows f)

any-set :
    {A : Type 0} (key where_ : A → Bool) (set : A → A) (rows : List A)
    → ((r : A) → key (set r) ≡ key r)
    → any key (update where_ set rows) ≡ any key rows
any-set key where_ set [] f = refl
any-set key where_ set (r ∷ rows) f = ground (arith, f r, any-set key where_ set rows f)

all-set :
    {A : Type 0} (key settled where_ : A → Bool) (set : A → A) (rows : List A)
    → ((r : A) → key (set r) ≡ key r)
    → ((r : A) → settled r ≡ true → settled (set r) ≡ true)
    → all (λ r. not (key r) || settled r) rows ≡ true
    → all (λ r. not (key r) || settled r) (update where_ set rows) ≡ true
all-set key settled where_ set [] f g h = h
all-set key settled where_ set (r ∷ rows) f g h =
    ground (arith, f r, g r, all-set key settled where_ set rows f g)

pub update-IsSettled :
    {A : Type 0} (key settled where_ : A → Bool) (set : A → A) (rows : List A)
    → ((r : A) → key (set r) ≡ key r)
    → ((r : A) → settled r ≡ true → settled (set r) ≡ true)
    → IsSettled key settled rows
    → IsSettled key settled (update where_ set rows)
update-IsSettled key settled where_ set rows f g (h, a) =
    (any-set key where_ set rows f ∙ h, all-set key settled where_ set rows f g a)

none_left :
    {A : Type 0} (same : A → A → Bool) (key settled where_ : A → Bool) (set : A → A) (s : A)
    (rows : List A)
    → ((r : A) → key r ≡ true → same s r ≡ true)
    → ((r : A) → key (set r) ≡ key r)
    → any (same s) rows ≡ false
    → all (λ r. not (key r) || settled r) (update where_ set rows) ≡ true
none_left same key settled where_ set s [] f g h = refl
none_left same key settled where_ set s (r ∷ rows) f g h =
    ground (arith, f r, g r, none_left same key settled where_ set s rows f g)

-- The update that settles a row of its own, where no two rows share the key.
pub settles_own :
    {A : Type 0} (same : A → A → Bool) (key settled own where_ : A → Bool) (set : A → A)
    (rows : List A)
    → ((r r' : A) → key r ≡ true → key r' ≡ true → same r r' ≡ true)
    → ((r : A) → key (set r) ≡ key r)
    → ((r : A) → own r ≡ true → key r ≡ true)
    → ((r : A) → own r ≡ true → settled (if where_ r then set r else r) ≡ true)
    → distinct same rows ≡ true
    → any own rows ≡ true
    → IsSettled key settled (update where_ set rows)
settles_own same key settled own where_ set [] f g w k d h = cc
settles_own same key settled own where_ set (r ∷ rows) f g w k d h = elim (Bool-cases (own r)) [
  | inl e ↦
      let rest =
        none_left same key settled where_ set r rows (λ r' x. f r r' (w r e) x) g (ground arith) in
      ground (arith, g r, w r, k r)
  | inr e ↦
      let found : any own rows ≡ true = ground arith in
      let rest = settles_own same key settled own where_ set rows f g w k (ground arith) found in
      elim (Bool-cases (key r)) [
        | inl x ↦ let both = any-weaken own (same r) rows (λ r' y. f r r' x (w r' y)) found in cc
        | inr x ↦ ground (arith, g r)
      ]
]

-- The update that settles what it changes.
pub settles :
    {A : Type 0} (same : A → A → Bool) (key settled where_ : A → Bool) (set : A → A) (rows : List A)
    → ((r r' : A) → key r ≡ true → key r' ≡ true → same r r' ≡ true)
    → ((r : A) → key (set r) ≡ key r)
    → ((r : A) → where_ r ≡ true → key r ≡ true)
    → ((r : A) → settled (set r) ≡ true)
    → distinct same rows ≡ true
    → any where_ rows ≡ true
    → IsSettled key settled (update where_ set rows)
settles same key settled where_ set rows f g w k =
    settles_own same key settled where_ where_ set rows f g w (λ r e. ground (arith, k r))

-- A row that is not settled is not found.
pub settled-closed :
    {A : Type 0} (key settled p : A → Bool) (rows : List A)
    → ((r : A) → p r ≡ true → (key r ≡ true) × (settled r ≡ false))
    → all (λ r. not (key r) || settled r) rows ≡ true
    → any p rows ≡ false
settled-closed key settled p [] f h = refl
settled-closed key settled p (r ∷ rows) f h =
    ground (arith, f r, settled-closed key settled p rows f)

-- What becomes of the rows of a table: none changes, one is added that has not the key of one there,
-- or some are changed that keep their keys and stay settled.
pub data Change {A : Type 0} (key settled : A → Bool) (rows rows' : List A) : Type 0 where
  kept : rows' ≡ rows → Change key settled rows rows'
  added :
      (row : A)
      → (any key rows ≡ true → key row ≡ false)
      → rows' ≡ rows ++ (row ∷ [])
      → Change key settled rows rows'
  changed :
      (where_ : A → Bool) (set : A → A)
      → ((r : A) → key (set r) ≡ key r)
      → ((r : A) → settled r ≡ true → settled (set r) ≡ true)
      → rows' ≡ update where_ set rows
      → Change key settled rows rows'

pub Change-IsSettled :
    {A : Type 0} (key settled : A → Bool) (rows rows' : List A)
    → Change key settled rows rows'
    → IsSettled key settled rows
    → IsSettled key settled rows'
Change-IsSettled key settled rows rows' (kept e) h = subst (IsSettled key settled) (sym e) h
Change-IsSettled key settled rows rows' (added row f e) h =
    subst (IsSettled key settled) (sym e) (append-IsSettled key settled rows row (f h.0) h)
Change-IsSettled key settled rows rows' (changed where_ set f g e) h =
    subst (IsSettled key settled) (sym e) (update-IsSettled key settled where_ set rows f g h)

-- A row whose insertion looked for its own key.
pub fresh_differs :
    {A : Type 0} (key p : A → Bool) (row : A) (rows : List A)
    → ((r : A) → key row ≡ true → key r ≡ true → p r ≡ true)
    → any p rows ≡ false
    → any key rows ≡ true
    → key row ≡ false
fresh_differs key p row rows f absent present = elim (Bool-cases (key row)) [
  | inl e ↦ let found = any-weaken key p rows (λ r k. f r e k) present in cc
  | inr e ↦ e
]

-- A row that a statement affects is there, and so is one that is found.
pub affects-any :
    {A : Type 0} (p : A → Bool) (rows : List A) → affects_one p rows ≡ true → any p rows ≡ true
affects-any p [] h = ground arith
affects-any p (r ∷ rows) h = ground (arith, affects-any p rows)

pub find-any :
    {A : Type 0} (p : A → Bool) (rows : List A) (row : A)
    → find p rows ≡ some row
    → any p rows ≡ true
find-any p [] row h = cc
find-any p (r ∷ rows) row h = ground (arith, find-any p rows row)
