-- ===== src/Server/Calls.antt =====
-- The calls of `AuthStore` that change the tables of server/src/repository.rs, one after another.
pub mod Atomic
pub mod Bodies
pub mod Spent
pub mod Once
pub mod Guards
pub mod Events
pub mod Audited
use rs_console.Common.{Option, none, some, List, [], ◌∷◌, Text, Result, ok, err}
use rs_console.Policy.Ids.{UserId}
use rs_console.Auth.Types.{
  Time, Uuid, SecretHash, User, VerifiedCredential, AuthenticationVerification, Ceremony,
  Capability, SessionRecord, AuditEvent, AuthError,
}
use rs_console.Server.Tables.{Tables}
use rs_console.Server.Transaction.{Database}
use rs_console.Server.Ceremonies.{
  insert_capability, insert_ceremony, complete_registration, complete_authentication,
}
use rs_console.Server.Sessions.{resume_session, rotate_session_csrf, delete_session}
use rs_console.Server.Users.{insert_user, approve_user_with_setup, rotate_all_auth_epochs}
use rs_console.Server.Recoveries.{
  create_recovery, approve_recovery, issue_recovery_setup, break_glass,
}

pub data StoreCall : Type 0 where
  inserts_capability : Capability → StoreCall
  inserts_ceremony : Ceremony → StoreCall
  inserts_user : User → AuditEvent → StoreCall
  approves_user : User → Capability → UserId → StoreCall
  rotates_all : Text → StoreCall
  registers : Uuid → Uuid → Option SecretHash → VerifiedCredential → AuditEvent → StoreCall
  logs_in : Uuid → AuthenticationVerification → SessionRecord → AuditEvent → StoreCall
  resumes : SecretHash → Time → StoreCall
  rotates_csrf : SecretHash → SecretHash → Time → StoreCall
  logs_out : SecretHash → StoreCall
  creates_recovery : Uuid → UserId → StoreCall
  approves_recovery : Uuid → UserId → StoreCall
  issues_setup : Uuid → Capability → UserId → StoreCall
  breaks_glass : Uuid → Capability → Text → StoreCall

-- The error of a call, if it fails.
abbrev pub failure : {A : Type 0} → Tables × Result AuthError A → Tables × Option AuthError
failure (t, ok a) = (t, none)
failure (t, err e) = (t, some e)

-- A call at a time.
unfoldable pub step :
    Database → (Uuid → Text) → Time → StoreCall → Tables → Tables × Option AuthError
step db print now (inserts_capability c) t = failure (insert_capability db c t)
step db print now (inserts_ceremony c) t = failure (insert_ceremony db c t)
step db print now (inserts_user u e) t = failure (insert_user db u now e t)
step db print now (approves_user u c o) t = failure (approve_user_with_setup db print u c o now t)
step db print now (rotates_all reason) t = failure (rotate_all_auth_epochs db now reason t)
step db print now (registers i id hash c e) t =
    failure (complete_registration db i id hash c now e t)
step db print now (logs_in id v s e) t = failure (complete_authentication db id v s now e t)
step db print now (resumes hash idle) t = failure (resume_session db hash now idle t)
step db print now (rotates_csrf hash csrf idle) t =
    failure (rotate_session_csrf db hash csrf now idle t)
step db print now (logs_out hash) t = failure (delete_session db hash t)
step db print now (creates_recovery i u) t = failure (create_recovery db i u now t)
step db print now (approves_recovery i o) t = failure (approve_recovery db print i o now t)
step db print now (issues_setup i c o) t = failure (issue_recovery_setup db print i c o now t)
step db print now (breaks_glass i c reason) t = failure (break_glass db print i c now reason t)

-- A sequence of calls, each with its time and with what the database does during it.
unfoldable pub run : (Uuid → Text) → List (Database × Time × StoreCall) → Tables → Tables
unfolding step
run print [] t = t
run print ((db, now, call) ∷ calls) t = run print calls (step db print now call t).0
