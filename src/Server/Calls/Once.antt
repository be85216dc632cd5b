-- ===== src/Server/Calls/Once.antt =====
-- Completing a ceremony of server/src/repository.rs a second time.
use rs_console.Common.{
  ◌≡◌, refl, ◌≢◌, inl, inr, Bool, true, false, Option, none, List, [], ◌∷◌, arith, leb, Text, ◌==◌,
  nat_eq, text_eq, bool_eq, Bool-cases, length, any, find, ok,
}
use rs_console.Auth.Types.{
  Time, Uuid, SecretHash, VerifiedCredential, AuthenticationVerification, SessionRecord, AuditEvent,
}
use rs_console.Server.Rows.{CeremonyRow}
use rs_console.Server.Tables.{Tables, is_null, update, select, affects_one}
use rs_console.Server.Ceremonies.{
  consume_ceremony, is_open, returned_user, register, complete_registration, is_login, log_in,
  complete_authentication,
}
use rs_console.Server.Calls.Spent.{consumed_id, IsSpent, run-IsSpent}
use rs_console.Server.Transaction.{Database}
use rs_console.Server.Calls.{StoreCall, run}
use rs_console.Server.Calls.Bodies.{log_in-ceremonies, register-ceremonies}
use rs_console.Server.Calls.Atomic.{transaction-ok}

-- The primary key of the ceremonies, for one id.
abbrev pub has_key_once : Uuid → List CeremonyRow → Bool
has_key_once id cs = leb (length (select (λ c. c.id == id) cs)) 1

absent-consumed_id :
    (id : Uuid) (p : CeremonyRow → Bool) (now : Time) (cs : List CeremonyRow)
    → length (select (λ c. c.id == id) cs) ≡ 0
    → consumed_id id (update p (consume_ceremony now) cs) ≡ true
absent-consumed_id id p now [] h = refl
absent-consumed_id id p now (c ∷ cs) h = ground (arith, absent-consumed_id id p now cs)

absent-any :
    (id : Uuid) (p : CeremonyRow → Bool) (cs : List CeremonyRow)
    → ((c : CeremonyRow) → p c ≡ true → (c.id == id) ≡ true)
    → length (select (λ c. c.id == id) cs) ≡ 0
    → any p cs ≡ false
absent-any id p [] f h = refl
absent-any id p (c ∷ cs) f h = ground (arith, f c, absent-any id p cs f)

update-spends :
    (id : Uuid) (p : CeremonyRow → Bool) (now : Time) (cs : List CeremonyRow)
    → ((c : CeremonyRow) → p c ≡ true → (c.id == id) ≡ true)
    → has_key_once id cs ≡ true
    → any p cs ≡ true
    → (any (λ c. c.id == id) (update p (consume_ceremony now) cs) ≡ true)
      × (consumed_id id (update p (consume_ceremony now) cs) ≡ true)
update-spends id p now [] f k h = cc
update-spends id p now (c ∷ cs) f k h = elim (Bool-cases (c.id == id)) [
  | inl e ↦ ground (arith, f c, absent-consumed_id id p now cs, absent-any id p cs f)
  | inr e ↦ ground (arith, f c, update-spends id p now cs f)
]

any_of_affects :
    (p : CeremonyRow → Bool) (cs : List CeremonyRow) → affects_one p cs ≡ true → any p cs ≡ true
any_of_affects p [] h = ground arith
any_of_affects p (c ∷ cs) h = ground (arith, any_of_affects p cs)

none-any : (p : CeremonyRow → Bool) (cs : List CeremonyRow) → any p cs ≡ false → find p cs ≡ none
none-any p [] h = refl
none-any p (c ∷ cs) h = ground (arith, none-any p cs)

spent-closed :
    (id : Uuid) (p : CeremonyRow → Bool) (cs : List CeremonyRow)
    → ((c : CeremonyRow) → p c ≡ true → ((c.id == id) ≡ true) × (is_null c.consumed_at ≡ true))
    → consumed_id id cs ≡ true
    → any p cs ≡ false
spent-closed id p [] f h = refl
spent-closed id p (c ∷ cs) f h = ground (arith, f c, spent-closed id p cs f)

log_in-refused :
    (db : Database) (id : Uuid) (v : AuthenticationVerification) (s : SessionRecord) (now : Time)
    (e : AuditEvent) (t t' : Tables)
    → IsSpent id t
    → log_in db id v s now e t ≢ ok (t', tt)
unfolding log_in
log_in-refused db id v s now e t t' (present, spent) h =
    let closed = spent-closed id (is_login db id now) t.ceremonies (λ c k. ground arith) spent in
    let opened : any (is_login db id now) t.ceremonies ≡ true =
      any_of_affects (is_login db id now) t.ceremonies (ground arith) in
    cc

register-refused :
    (db : Database) (i id : Uuid) (hash : Option SecretHash) (c : VerifiedCredential) (now : Time)
    (e : AuditEvent) (t t' : Tables)
    → IsSpent id t
    → register db i id hash c now e t ≢ ok (t', tt)
unfolding register returned_user
register-refused db i id hash c now e t t' (present, spent) h =
    let closed = spent-closed id (is_open id now) t.ceremonies (λ c k. ground arith) spent in
    let missing = none-any (is_open id now) t.ceremonies closed in absurd (ground arith)

log_in-IsSpent :
    (db : Database) (id : Uuid) (v : AuthenticationVerification) (s : SessionRecord) (now : Time)
    (e : AuditEvent) (t t' : Tables)
    → has_key_once id t.ceremonies ≡ true
    → log_in db id v s now e t ≡ ok (t', tt)
    → IsSpent id t'
unfolding log_in
log_in-IsSpent db id v s now e t t' key h =
    let opened : any (is_login db id now) t.ceremonies ≡ true =
      any_of_affects (is_login db id now) t.ceremonies (ground arith) in
    rw (log_in-ceremonies db id v s now e t t' h)
      (update-spends id (is_login db id now) now t.ceremonies (λ c k. ground arith) key opened)

register-IsSpent :
    (db : Database) (i id : Uuid) (hash : Option SecretHash) (c : VerifiedCredential) (now : Time)
    (e : AuditEvent) (t t' : Tables)
    → has_key_once id t.ceremonies ≡ true
    → register db i id hash c now e t ≡ ok (t', tt)
    → IsSpent id t'
unfolding register returned_user
register-IsSpent db i id hash c now e t t' key h =
    elim (Bool-cases (any (is_open id now) t.ceremonies)) [
      | inl opened ↦
          rw (register-ceremonies db i id hash c now e t t' h)
            (update-spends id (is_open id now) now t.ceremonies (λ c k. ground arith) key opened)
      | inr closed ↦
          let missing = none-any (is_open id now) t.ceremonies closed in absurd (ground arith)
    ]

-- Once an authentication ceremony, whose id is that of one row, is completed, it is never completed
-- again: not after any further calls of the store, at any time, by any credential.
pub complete_authentication_once :
    (id : Uuid) (db : Database) (v : AuthenticationVerification) (s : SessionRecord) (now : Time)
    (e : AuditEvent) (t : Tables)
    → has_key_once id t.ceremonies ≡ true
    → (complete_authentication db id v s now e t).1 ≡ ok tt
    → (print : Uuid → Text) (calls : List (Database × Time × StoreCall)) (db' : Database)
      (v' : AuthenticationVerification) (s' : SessionRecord) (now' : Time) (e' : AuditEvent)
    → (complete_authentication db' id v' s' now' e'
        (run print calls (complete_authentication db id v s now e t).0)).1
      ≢ ok tt
unfolding complete_authentication
complete_authentication_once id db v s now e t key done print calls db' v' s' now' e' again =
    log_in-refused db' id v' s' now' e' _ _
      (run-IsSpent id print calls _
        (log_in-IsSpent db id v s now e t _ key (transaction-ok db 692 741 t _ tt done)))
      (transaction-ok db' 692 741 _ _ tt again)

-- Once a registration ceremony, whose id is that of one row, is completed, it is never completed
-- again: not after any further calls of the store, at any time, with any credential.
pub complete_registration_once :
    (id : Uuid) (db : Database) (i : Uuid) (hash : Option SecretHash) (c : VerifiedCredential)
    (now : Time) (e : AuditEvent) (t : Tables)
    → has_key_once id t.ceremonies ≡ true
    → (complete_registration db i id hash c now e t).1 ≡ ok tt
    → (print : Uuid → Text) (calls : List (Database × Time × StoreCall)) (db' : Database)
      (i' : Uuid) (hash' : Option SecretHash) (c' : VerifiedCredential) (now' : Time)
      (e' : AuditEvent)
    → (complete_registration db' i' id hash' c' now' e'
        (run print calls (complete_registration db i id hash c now e t).0)).1
      ≢ ok tt
unfolding complete_registration
complete_registration_once id db i hash c now e t key done print calls db' i' hash' c' now' e'
      again =
    register-refused db' i' id hash' c' now' e' _ _
      (run-IsSpent id print calls _
        (register-IsSpent db i id hash c now e t _ key (transaction-ok db 599 681 t _ tt done)))
      (transaction-ok db' 599 681 _ _ tt again)
