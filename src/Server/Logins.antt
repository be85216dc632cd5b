-- ===== src/Server/Logins.antt =====
-- A login by the service of auth/src/lib.rs on the store of server/src/repository.rs, and the use of
-- its session.
pub mod Rows
use rs_console.Common.{
  ◌+◌, ◌<◌, ◌≡◌, refl, sym, ap, ◌∙◌, subst, Option, none, some, arith, Text, bytes, ◌==◌, nat_eq,
  text_eq, ==_iff, bool_eq, find, Result, ok,
}
use rs_console.Server.Transaction.{Database}
use rs_console.Auth.Types.{
  Time, Uuid, SecretToken, User, SessionGrant, SessionPrincipal, AuditEvent, AuthError, AuthConfig,
}
use rs_console.Server.Ceremonies.{complete_authentication}
use rs_console.Server.Sessions.{resume_session}
use rs_console.Server.Tables.{Tables}
use rs_console.Auth.Tokens.{Cryptography, hash}
use rs_console.Auth.Interfaces.{CeremonyEngine}
use rs_console.Policy.Canonical.{Json, object, end}
use rs_console.Auth.Service.Login.{
  new_session, finish_authentication, check_csrf, authenticate_session,
}
use rs_console.Server.Writes.Keys.{IsConsistent}
use rs_console.Server.Store.{pg_auth_store}
use rs_console.Auth.Service.Guards.{finish_authentication-ok}
use rs_console.Server.Logins.Rows.{
  IsHealthy, complete_authentication-resume_session, user_by_handle-find, user_of_row-same, find-id,
}

-- The event that a login records.
abbrev login_event : User → AuditEvent
login_event user = record {
  event_type = bytes "session.created";
  actor_user_id = some user.id;
  subject_user_id = some user.id;
  data_value = object end;
}

-- Who a session that a login opened stands for.
abbrev pub logged_in_as :
    Cryptography → AuthConfig → Uuid → SecretToken → Time → User → SessionPrincipal
logged_in_as c config id csrf now user = record {
  session_id = id;
  user = user;
  csrf_hash = hash c csrf;
  absolute_expires_at = now + config.session_absolute_ttl;
}

module _ (c : Cryptography) (db db' : Database) (print : Uuid → Text) (i i' : Uuid)
    (engine : CeremonyEngine) (config : AuthConfig) where
  -- A login on the tables.
  abbrev pub login :
      Uuid
      → SecretToken
      → SecretToken
      → Uuid
      → Json
      → Time
      → Tables
      → Tables × Result AuthError (SessionGrant × User)
  login = finish_authentication c (pg_auth_store db print i) engine config

  -- The session of a login, resumed with the granted tokens.
  pub login-resume_session :
      (id : Uuid) (token csrf : SecretToken) (ceremony_id : Uuid) (response : Json)
      (now now' : Time) (t : Tables) (grant : SessionGrant) (user : User)
      → IsConsistent t
      → IsHealthy db'
      → (login id token csrf ceremony_id response now t).1 ≡ ok (grant, user)
      → now' < now + config.session_idle_ttl
      → now' < now + config.session_absolute_ttl
      → (grant.token ≡ token)
        × (grant.csrf ≡ csrf)
        × ((resume_session db'
              (hash c token)
              now'
              (now' + config.session_idle_ttl)
              (login id token csrf ceremony_id response now t).0).1
            ≡ ok (some (logged_in_as c config id csrf now user)))
  login-resume_session id token csrf ceremony_id response now now' t grant user h healthy logged_in
        idle ends =
      let (
        ceremony, handle, credentials, v, _, _, by_handle, on, _, _, session, completed, state,
        same_token, same_csrf,
      ) =
        finish_authentication-ok c (pg_auth_store db print i) engine config id token csrf
          ceremony_id response now t grant user logged_in in
      let (u, found, named) = user_by_handle-find db t handle user by_handle in
      let (same_id, same_on, same_epoch) = user_of_row-same u user named in
      let s = new_session c config id token csrf user now in
      let by_id : find (λ w. w.id == user.id) t.users ≡ some u =
        subst (λ x. find (λ w. w.id == x) t.users ≡ some u) (sym same_id)
          (find-id handle t.users u h.users.0 found) in
      let e = login_event user in
      let done_ : (complete_authentication db ceremony_id v s now e t).1 ≡ ok tt =
        subst (λ x. (complete_authentication db ceremony_id v x now e t).1 ≡ ok tt) session
          completed in
      let resumed =
        complete_authentication-resume_session db db' ceremony_id v s now now'
          (now' + config.session_idle_ttl) e t u user healthy done_ by_id (sym same_on ∙ on)
          same_epoch named idle ends in
      let after =
        state ∙ ap (λ x. (complete_authentication db ceremony_id v x now e t).0) session in
      (same_token, same_csrf, rw after resumed)

  -- What the service makes of a session that the store resumes.
  pub resume_session-authenticate_session :
      (token : SecretToken) (csrf : Option SecretToken) (now : Time) (t : Tables)
      (p : SessionPrincipal)
      → (resume_session db' (hash c token) now (now + config.session_idle_ttl) t).1 ≡ ok (some p)
      → ((sent : SecretToken) → csrf ≡ some sent → p.csrf_hash ≡ hash c sent)
      → (authenticate_session c (pg_auth_store db' print i') engine config token csrf now t).1
        ≡ ok p
  unfolding authenticate_session check_csrf
  resume_session-authenticate_session token none now t p h same = ground arith
  resume_session-authenticate_session token (some csrf) now t p h same =
      let equal = (==_iff (hash c csrf) p.csrf_hash).1 (sym (same csrf refl)) in ground arith

  -- A login that succeeds on tables that meet the constraints opens a session: the tokens that it
  -- grants are accepted, for its user and under its id, by the next request to a database that does
  -- not fail, until the session is idle for too long or at its absolute end.
  pub finish_authentication-authenticate_session :
      (id : Uuid) (token csrf : SecretToken) (ceremony_id : Uuid) (response : Json)
      (now now' : Time) (t : Tables) (grant : SessionGrant) (user : User)
      → IsConsistent t
      → IsHealthy db'
      → (login id token csrf ceremony_id response now t).1 ≡ ok (grant, user)
      → now' < now + config.session_idle_ttl
      → now' < now + config.session_absolute_ttl
      → (authenticate_session c
          (pg_auth_store db' print i')
          engine
          config
          grant.token
          (some grant.csrf)
          now'
          (login id token csrf ceremony_id response now t).0).1
        ≡ ok (logged_in_as c config id csrf now user)
  finish_authentication-authenticate_session id token csrf ceremony_id response now now' t grant
        user h healthy logged_in idle ends =
      let (same_token, same_csrf, resumed) =
        login-resume_session id token csrf ceremony_id response now now' t grant user h healthy
          logged_in idle ends in
      rw (same_token, same_csrf)
        (resume_session-authenticate_session token (some csrf) now' _ _ resumed
          (λ sent e. ground arith))
