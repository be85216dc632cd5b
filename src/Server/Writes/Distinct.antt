-- ===== src/Server/Writes/Distinct.antt =====
-- Rows of which no two share a key, and that each meet a condition: how an insertion and an update
-- of server/src/repository.rs keep them so.
use rs_console.Common.{
  ◌≡◌, refl, Bool, true, false, not, ◌&&◌, List, [], ◌∷◌, ◌++◌, arith, all, any,
}
use rs_console.Server.Tables.{update}

-- No row has the key of a row before it.
abbrev pub distinct {ℓ} : {A : Type ℓ} → (A → A → Bool) → List A → Bool
distinct same [] = true
distinct same (row ∷ rows) = not (any (same row) rows) && distinct same rows

abbrev pub IsRows : {A : Type 0} → (A → A → Bool) → (A → Bool) → List A → Type 0
IsRows same allowed rows = (distinct same rows ≡ true) × (all allowed rows ≡ true)

any-append :
    {A : Type 0} (p : A → Bool) (rows : List A) (row : A)
    → any p rows ≡ false
    → p row ≡ false
    → any p (rows ++ (row ∷ [])) ≡ false
any-append p [] row h k = ground arith
any-append p (r ∷ rows) row h k = ground (arith, any-append p rows row)

pub all-append :
    {A : Type 0} (p : A → Bool) (rows : List A) (row : A)
    → all p rows ≡ true
    → p row ≡ true
    → all p (rows ++ (row ∷ [])) ≡ true
all-append p [] row h k = ground arith
all-append p (r ∷ rows) row h k = ground (arith, all-append p rows row)

distinct-append :
    {A : Type 0} (same : A → A → Bool) (rows : List A) (row : A)
    → distinct same rows ≡ true
    → any (λ r. same r row) rows ≡ false
    → distinct same (rows ++ (row ∷ [])) ≡ true
distinct-append same [] row h k = refl
distinct-append same (r ∷ rows) row h k =
    ground (arith, any-append (same r) rows row, distinct-append same rows row)

any-update :
    {A : Type 0} (p q : A → Bool) (where_ : A → Bool) (set : A → A) (rows : List A)
    → ((r : A) → p r ≡ false → q r ≡ false)
    → ((r : A) → p r ≡ false → q (set r) ≡ false)
    → any p rows ≡ false
    → any q (update where_ set rows) ≡ false
any-update p q where_ set [] f g h = h
any-update p q where_ set (r ∷ rows) f g h =
    ground (arith, f r, g r, any-update p q where_ set rows f g)

all-update :
    {A : Type 0} (p : A → Bool) (where_ : A → Bool) (set : A → A) (rows : List A)
    → ((r : A) → p r ≡ true → p (set r) ≡ true)
    → all p rows ≡ true
    → all p (update where_ set rows) ≡ true
all-update p where_ set [] g h = h
all-update p where_ set (r ∷ rows) g h = ground (arith, g r, all-update p where_ set rows g)

-- A change that makes no two rows share a key.
abbrev pub Keeps : {A : Type 0} → (A → A → Bool) → (A → A) → Type 0
Keeps {A} same set =
    (r r' : A)
    → same r r' ≡ false
    → (same r (set r') ≡ false) × (same (set r) r' ≡ false) × (same (set r) (set r') ≡ false)

distinct-update :
    {A : Type 0} (same : A → A → Bool) (where_ : A → Bool) (set : A → A) (rows : List A)
    → Keeps same set
    → distinct same rows ≡ true
    → distinct same (update where_ set rows) ≡ true
distinct-update same where_ set [] keep h = h
distinct-update same where_ set (r ∷ rows) keep h =
    let rest = distinct-update same where_ set rows keep (ground arith) in
    let after_kept =
      any-update (same r) (same r) where_ set rows (λ r' k. k) (λ r' k. (keep r r' k).0)
        (ground arith) in
    let after_set =
      any-update (same r) (same (set r)) where_ set rows (λ r' k. (keep r r' k).1)
        (λ r' k. (keep r r' k).2) (ground arith) in
    ground arith

pub append-IsRows :
    {A : Type 0} (same : A → A → Bool) (allowed : A → Bool) (rows : List A) (row : A)
    → IsRows same allowed rows
    → any (λ r. same r row) rows ≡ false
    → allowed row ≡ true
    → IsRows same allowed (rows ++ (row ∷ []))
append-IsRows same allowed rows row (h, a) k b =
    (distinct-append same rows row h k, all-append allowed rows row a b)

pub update-IsRows :
    {A : Type 0} (same : A → A → Bool) (allowed : A → Bool) (where_ : A → Bool) (set : A → A)
    (rows : List A)
    → Keeps same set
    → ((r : A) → allowed r ≡ true → allowed (set r) ≡ true)
    → IsRows same allowed rows
    → IsRows same allowed (update where_ set rows)
update-IsRows same allowed where_ set rows keep f (h, a) =
    (distinct-update same where_ set rows keep h, all-update allowed where_ set rows f a)

all-weaken :
    {A : Type 0} (p q : A → Bool) (rows : List A)
    → ((r : A) → p r ≡ true → q r ≡ true)
    → all p rows ≡ true
    → all q rows ≡ true
all-weaken p q [] f h = h
all-weaken p q (r ∷ rows) f h = ground (arith, f r, all-weaken p q rows f)

pub weaken-IsRows :
    {A : Type 0} (same : A → A → Bool) (p q : A → Bool) (rows : List A)
    → ((r : A) → p r ≡ true → q r ≡ true)
    → IsRows same p rows
    → IsRows same q rows
weaken-IsRows same p q rows f (h, a) = (h, all-weaken p q rows f a)
