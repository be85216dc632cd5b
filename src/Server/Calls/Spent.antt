-- ===== src/Server/Calls/Spent.antt =====
-- What each call of server/src/repository.rs does to the ceremonies that are completed.
use rs_console.Common.{
  ℕ, ◌≡◌, refl, sym, ◌∙◌, subst, inl, inr, Bool, true, false, not, ◌||◌, List, [], ◌∷◌, ◌++◌, arith,
  Text, ◌==◌, nat_eq, text_eq, bool_eq, all, any, Result, ok, err,
}
use rs_console.Auth.Types.{Time, Uuid, AuthError}
use rs_console.Server.Rows.{CeremonyRow}
use rs_console.Server.Tables.{
  Tables, is_null, update, add_capability, ceremony_row, add_ceremony, add_recovery,
}
use rs_console.Server.Transaction.{Database, transaction}
use rs_console.Server.Ceremonies.{
  consume_ceremony, insert_capability, insert_ceremony, complete_registration,
  complete_authentication,
}
use rs_console.Server.Users.{insert_user, approve_user_with_setup, rotate_all_auth_epochs}
use rs_console.Server.Recoveries.{
  create_recovery, approve_recovery, issue_recovery_setup, break_glass,
}
use rs_console.Server.Sessions.{resume_session, rotate_session_csrf, delete_session}
use rs_console.Server.Calls.{
  StoreCall, failure, step, run, inserts_capability, inserts_ceremony, inserts_user, approves_user,
  rotates_all, registers, logs_in, resumes, rotates_csrf, logs_out, creates_recovery,
  approves_recovery, issues_setup, breaks_glass,
}
use rs_console.Server.Calls.Atomic.{transaction-cases}
use rs_console.Server.Calls.Bodies.{
  log_in-ceremonies, register-ceremonies, rotate-ceremonies, approve_request-ceremonies,
  open_window-ceremonies, issue-ceremonies, approve-ceremonies, seed-ceremonies,
  resume_session-ceremonies, rotate_session_csrf-ceremonies, delete_session-ceremonies,
}

-- What a call does to the ceremonies: nothing, it consumes some, or it adds one with a new id.
pub data Change (cs : List CeremonyRow) : List CeremonyRow → Type 0 where
  kept : Change cs cs
  consumed : (p : CeremonyRow → Bool) (now : Time) → Change cs (update p (consume_ceremony now) cs)
  added : (c : CeremonyRow) → any (λ d. d.id == c.id) cs ≡ false → Change cs (cs ++ (c ∷ []))

-- A ceremony with the id is there, and every one is consumed.
abbrev pub consumed_id : Uuid → List CeremonyRow → Bool
consumed_id id cs = all (λ c. not (c.id == id) || not (is_null c.consumed_at)) cs

abbrev pub IsSpent : Uuid → Tables → Type 0
IsSpent id t = (any (λ c. c.id == id) t.ceremonies ≡ true) × (consumed_id id t.ceremonies ≡ true)

update-present :
    (id : Uuid) (p : CeremonyRow → Bool) (now : Time) (cs : List CeremonyRow)
    → any (λ c. c.id == id) cs ≡ true
    → any (λ c. c.id == id) (update p (consume_ceremony now) cs) ≡ true
update-present id p now [] h = h
update-present id p now (c ∷ cs) h = ground (arith, update-present id p now cs)

update-consumed_id :
    (id : Uuid) (p : CeremonyRow → Bool) (now : Time) (cs : List CeremonyRow)
    → consumed_id id cs ≡ true
    → consumed_id id (update p (consume_ceremony now) cs) ≡ true
update-consumed_id id p now [] h = h
update-consumed_id id p now (c ∷ cs) h = ground (arith, update-consumed_id id p now cs)

append-present :
    (id : Uuid) (d : CeremonyRow) (cs : List CeremonyRow)
    → any (λ c. c.id == id) cs ≡ true
    → any (λ c. c.id == id) (cs ++ (d ∷ [])) ≡ true
append-present id d [] h = cc
append-present id d (c ∷ cs) h = ground (arith, append-present id d cs)

append-consumed_id :
    (id : Uuid) (d : CeremonyRow) (cs : List CeremonyRow)
    → (d.id == id) ≡ false
    → consumed_id id cs ≡ true
    → consumed_id id (cs ++ (d ∷ [])) ≡ true
append-consumed_id id d [] e h = ground arith
append-consumed_id id d (c ∷ cs) e h = ground (arith, append-consumed_id id d cs)

-- An id that is there is not that of a row that is added.
fresh-differs :
    (id : Uuid) (d : CeremonyRow) (cs : List CeremonyRow)
    → any (λ c. c.id == d.id) cs ≡ false
    → any (λ c. c.id == id) cs ≡ true
    → (d.id == id) ≡ false
fresh-differs id d [] f h = cc
fresh-differs id d (c ∷ cs) f h = ground (arith, fresh-differs id d cs)

Change-IsSpent :
    (id : Uuid) (t t' : Tables) (cs : List CeremonyRow)
    → Change t.ceremonies cs
    → t'.ceremonies ≡ cs
    → IsSpent id t
    → IsSpent id t'
Change-IsSpent id t t' _ kept e h = rw e h
Change-IsSpent id t t' _ (consumed p now) e h =
    rw e (update-present id p now t.ceremonies h.0, update-consumed_id id p now t.ceremonies h.1)
Change-IsSpent id t t' _ (added c f) e h = rw e (
  append-present id c t.ceremonies h.0,
  append-consumed_id id c t.ceremonies (fresh-differs id c t.ceremonies f h.0) h.1,
)

failure-state : {A : Type 0} (r : Tables × Result AuthError A) → (failure r).0 ≡ r.0
failure-state (t, ok a) = refl
failure-state (t, err e) = refl

-- What holds of the tables before a transaction and of those that its body makes holds after it.
pub keeps :
    {A : Type 0} (P : Tables → Type 0) (db : Database) (b c : ℕ) (t : Tables)
    (body : Result AuthError (Tables × A))
    → P t
    → ((t' : Tables) (a : A) → body ≡ ok (t', a) → P t')
    → P (failure (transaction db b c t body)).0
keeps P db b c t body p f = elim (transaction-cases db b c t body) [
  | inl e ↦ subst P (sym (failure-state (transaction db b c t body) ∙ e)) p
  | inr (t', a, h, e) ↦ subst P (sym (failure-state (transaction db b c t body) ∙ e)) (f t' a h)
]

same-IsSpent :
    (id : Uuid) (t t' : Tables) → t'.ceremonies ≡ t.ceremonies → IsSpent id t → IsSpent id t'
same-IsSpent id t t' e h = Change-IsSpent id t t' _ kept e h

consumed-IsSpent :
    (id : Uuid) (t t' : Tables) (p : CeremonyRow → Bool) (now : Time)
    → t'.ceremonies ≡ update p (consume_ceremony now) t.ceremonies
    → IsSpent id t
    → IsSpent id t'
consumed-IsSpent id t t' p now e h = Change-IsSpent id t t' _ (consumed p now) e h

failure-IsSpent :
    {A : Type 0} (id : Uuid) (t : Tables) (r : Tables × Result AuthError A)
    → r.0.ceremonies ≡ t.ceremonies
    → IsSpent id t
    → IsSpent id (failure r).0
failure-IsSpent id t (t', ok a) e h = same-IsSpent id t t' e h
failure-IsSpent id t (t', err x) e h = same-IsSpent id t t' e h

-- A completed ceremony stays completed through every call, whether it succeeds or fails.
pub step-IsSpent :
    (id : Uuid) (db : Database) (print : Uuid → Text) (now : Time) (call : StoreCall) (t : Tables)
    → IsSpent id t
    → IsSpent id (step db print now call t).0
unfolding step insert_capability insert_ceremony insert_user approve_user_with_setup
    rotate_all_auth_epochs complete_registration complete_authentication create_recovery
    approve_recovery issue_recovery_setup break_glass add_capability add_ceremony add_recovery
step-IsSpent id db print now (inserts_capability c) t h =
    keeps (IsSpent id) db _ _ t _ h (λ t' a e. same-IsSpent id t t' (ground arith) h)
step-IsSpent id db print now (inserts_ceremony c) t h = keeps (IsSpent id) db _ _ t _ h (λ t' a e.
    Change-IsSpent id t t' (t.ceremonies ++ (ceremony_row c ∷ []))
      (added (ceremony_row c) (ground arith)) (ground arith) h)
step-IsSpent id db print now (inserts_user u e) t h =
    keeps (IsSpent id) db _ _ t _ h
      (λ t' a k. same-IsSpent id t t' (seed-ceremonies db u now e t t' k) h)
step-IsSpent id db print now (approves_user u c o) t h =
    keeps (IsSpent id) db _ _ t _ h
      (λ t' a k. same-IsSpent id t t' (approve-ceremonies db print u c o now t t' k) h)
step-IsSpent id db print now (rotates_all reason) t h =
    keeps (IsSpent id) db _ _ t _ h
      (λ t' n k. consumed-IsSpent id t t' _ now (rotate-ceremonies db now reason t t' n k) h)
step-IsSpent id db print now (registers i j hash c e) t h =
    keeps (IsSpent id) db _ _ t _ h
      (λ t' a k. consumed-IsSpent id t t' _ now (register-ceremonies db i j hash c now e t t' k) h)
step-IsSpent id db print now (logs_in j v s e) t h =
    keeps (IsSpent id) db _ _ t _ h
      (λ t' a k. consumed-IsSpent id t t' _ now (log_in-ceremonies db j v s now e t t' k) h)
step-IsSpent id db print now (resumes hash idle) t h =
    failure-IsSpent id t (resume_session db hash now idle t)
      (resume_session-ceremonies db hash now idle t) h
step-IsSpent id db print now (rotates_csrf hash csrf idle) t h =
    failure-IsSpent id t (rotate_session_csrf db hash csrf now idle t)
      (rotate_session_csrf-ceremonies db hash csrf now idle t) h
step-IsSpent id db print now (logs_out hash) t h =
    failure-IsSpent id t (delete_session db hash t) (delete_session-ceremonies db hash t) h
step-IsSpent id db print now (creates_recovery i u) t h =
    keeps (IsSpent id) db _ _ t _ h (λ t' a e. same-IsSpent id t t' (ground arith) h)
step-IsSpent id db print now (approves_recovery i o) t h =
    keeps (IsSpent id) db _ _ t _ h (λ t' a k.
      let change = approve_request-ceremonies db print i o now t t' k in
      consumed-IsSpent id t t' _ now change.1 h)
step-IsSpent id db print now (issues_setup i c o) t h =
    keeps (IsSpent id) db _ _ t _ h
      (λ t' a k. same-IsSpent id t t' (issue-ceremonies db print i c o now t t' k) h)
step-IsSpent id db print now (breaks_glass i c reason) t h =
    keeps (IsSpent id) db _ _ t _ h (λ t' a k.
      consumed-IsSpent id t t' _ now (open_window-ceremonies db print i c now reason t t' k) h)

pub run-IsSpent :
    (id : Uuid) (print : Uuid → Text) (calls : List (Database × Time × StoreCall)) (t : Tables)
    → IsSpent id t
    → IsSpent id (run print calls t)
unfolding run
run-IsSpent id print [] t h = h
run-IsSpent id print ((db, now, call) ∷ calls) t h =
    run-IsSpent id print calls (step db print now call t).0 (step-IsSpent id db print now call t h)
