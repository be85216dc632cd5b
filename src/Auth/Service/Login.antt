-- ===== src/Auth/Service/Login.antt =====
-- Logging in and the session that it grants: `start_authentication` to `logout` of `AuthService`.
use rs_console.Common.{
  ◌+◌, Option, none, some, if◌then◌else◌, bytes, ◌==◌, nat_eq, text_eq, bool_eq, Result, ok_or, ok,
  err,
}
use rs_console.Policy.Canonical.{Json, object, end}
use rs_console.Auth.Types.{
  Time, Uuid, SecretToken, User, CeremonyKind, SessionRecord, SessionGrant, SessionPrincipal,
  AuthError, AuthConfig, invalid_state, unauthenticated, forbidden,
}
use rs_console.Auth.Tokens.{Cryptography, hash}
use rs_console.Auth.Interfaces.{CeremonyEngine, Call, reading, lift, ◌>>=◌, AuthStore}
use rs_console.Auth.Service.{enabled_user, new_ceremony}

-- The session of a login, bound to the epoch of its user.
abbrev pub new_session :
    Cryptography → AuthConfig → Uuid → SecretToken → SecretToken → User → Time → SessionRecord
new_session c config id token csrf user now = record {
  id = id;
  user_id = user.id;
  token_hash = hash c token;
  csrf_hash = hash c csrf;
  auth_epoch = user.auth_epoch;
  idle_expires_at = now + config.session_idle_ttl;
  absolute_expires_at = now + config.session_absolute_ttl;
}

module _ {S : Type 0} (c : Cryptography) (stores : AuthStore S) (engine : CeremonyEngine)
    (config : AuthConfig) where
  -- `AuthService::start_authentication`.
  unfoldable pub start_authentication : Uuid → Time → Call S (Uuid × Json)
  start_authentication id now = do
    (challenge, state) ← lift engine.start_authentication
    _ ←
        stores.insert_ceremony
          (new_ceremony config id CeremonyKind.authentication none none state now)
    lift (ok (id, challenge))

  -- `AuthService::finish_authentication`.
  unfoldable pub finish_authentication :
      Uuid → SecretToken → SecretToken → Uuid → Json → Time → Call S (SessionGrant × User)
  finish_authentication session_id token csrf ceremony_id response now = do
    found ← reading (λ s. stores.ceremony s ceremony_id CeremonyKind.authentication now)
    ceremony ← lift (ok_or invalid_state found)
    handle ← lift (engine.authentication_user_handle response)
    found_user ← reading (λ s. stores.user_by_handle s handle)
    user ← lift (ok_or unauthenticated (enabled_user found_user))
    credentials ← reading (λ s. stores.credentials_for_user s user.id)
    verification ← lift (engine.finish_authentication response ceremony.state credentials)
    let session = new_session c config session_id token csrf user now
    _ ← stores.complete_authentication ceremony_id verification session now (record {
      event_type = bytes "session.created";
      actor_user_id = some user.id;
      subject_user_id = some user.id;
      data_value = object end;
    })
    lift (ok (record { token = token; csrf = csrf; session = session }, user))

  -- The check of the token against forgery, where one is given.
  unfoldable pub check_csrf :
      Option SecretToken → SessionPrincipal → Result AuthError SessionPrincipal
  check_csrf none principal = ok principal
  check_csrf (some csrf) principal =
      if hash c csrf == principal.csrf_hash then ok principal else err forbidden

  -- `AuthService::authenticate_session`.
  unfoldable pub authenticate_session :
      SecretToken → Option SecretToken → Time → Call S SessionPrincipal
  authenticate_session token csrf now = do
    found ← stores.session (hash c token) now (now + config.session_idle_ttl)
    principal ← lift (ok_or unauthenticated found)
    lift (check_csrf csrf principal)

  -- `AuthService::issue_session_csrf`.
  unfoldable pub issue_session_csrf :
      SecretToken → SecretToken → Time → Call S (SessionPrincipal × SecretToken)
  issue_session_csrf csrf token now = do
    found ←
        stores.rotate_session_csrf (hash c token) (hash c csrf) now (now + config.session_idle_ttl)
    principal ← lift (ok_or unauthenticated found)
    lift (ok (principal, csrf))

  -- `AuthService::logout`.
  unfoldable pub logout : SecretToken → Call S (Unit {0})
  logout token = stores.delete_session (hash c token)
