-- ===== src/Server/Store.antt =====
-- `impl AuthStore for PgAuthStore` of server/src/repository.rs, the store that the service of
-- auth/src/lib.rs runs on. Each call of a service meets the same behaviour of the database, and
-- draws its own id where it needs one.
use rs_console.Common.{Text}
use rs_console.Auth.Types.{Uuid}
use rs_console.Auth.Interfaces.{AuthStore}
use rs_console.Server.Tables.{Tables}
use rs_console.Server.Transaction.{Database}
use rs_console.Server.Queries.{
  user_by_id, user_by_handle, credentials_for_user, operator_without_credential, operator_exists,
  operator_recovery_window, find_capability, find_ceremony, pending_recoveries,
}
use rs_console.Server.Ceremonies.{
  insert_capability, insert_ceremony, complete_registration, complete_authentication,
}
use rs_console.Server.Sessions.{resume_session, rotate_session_csrf, delete_session}
use rs_console.Server.Users.{insert_user, approve_user_with_setup, rotate_all_auth_epochs}
use rs_console.Server.Recoveries.{
  create_recovery, approve_recovery, issue_recovery_setup, break_glass,
}

abbrev pub pg_auth_store : Database → (Uuid → Text) → Uuid → AuthStore Tables
pg_auth_store db print id = record {
  user_by_id = user_by_id db;
  user_by_handle = user_by_handle db;
  credentials_for_user = credentials_for_user db;
  operator_without_credential = operator_without_credential db;
  operator_exists = operator_exists db;
  operator_recovery_window = operator_recovery_window db;
  capability = find_capability db;
  insert_capability = insert_capability db;
  insert_user = insert_user db;
  approve_user_with_setup = approve_user_with_setup db print;
  rotate_all_auth_epochs = rotate_all_auth_epochs db;
  insert_ceremony = insert_ceremony db;
  ceremony = find_ceremony db;
  complete_registration = complete_registration db id;
  complete_authentication = complete_authentication db;
  session = resume_session db;
  rotate_session_csrf = rotate_session_csrf db;
  delete_session = delete_session db;
  create_recovery = create_recovery db id;
  pending_recoveries = pending_recoveries db;
  approve_recovery = approve_recovery db print;
  issue_recovery_setup = issue_recovery_setup db print;
  break_glass = break_glass db print;
}
