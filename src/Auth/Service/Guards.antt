-- ===== src/Auth/Service/Guards.antt =====
-- The guards of `AuthService` (auth/src/lib.rs), over any store and engine.
use rs_console.Common.{
  ◌+◌, ◌≡◌, refl, ◌⊎◌, inl, inr, true, false, none, some, List, arith, Text, bytes, Bool-cases,
  Result-cases, ok, err,
}
use rs_console.Policy.Canonical.{Json, object, end}
use rs_console.Auth.Types.{
  Time, Uuid, SecretToken, User, StoredCredential, AuthenticationVerification, CeremonyKind,
  Ceremony, SessionGrant, SessionPrincipal, AuthError, AuthConfig, invalid_input, conflict,
}
use rs_console.Auth.Tokens.{Cryptography, hash}
use rs_console.Auth.Interfaces.{CeremonyEngine, AuthStore}
use rs_console.Auth.Service.Login.{finish_authentication, check_csrf, authenticate_session}
use rs_console.Auth.Service.Accounts.{valid_contact, approve_user_and_issue_setup}
use rs_console.Policy.Ids.{UserId}
use rs_console.Auth.Trim.{trim}

module _ {S : Type 0} (c : Cryptography) (stores : AuthStore S) (engine : CeremonyEngine)
    (config : AuthConfig) where
  -- A login succeeds only for an open authentication ceremony, an enabled user whose handle the
  -- response carries, and a response that the engine verifies against the state of the ceremony and
  -- that user's credentials; the store has then completed that ceremony with a session of the user's
  -- epoch, which ends the set times after the login and has the hashes of the granted tokens, and
  -- nothing else is done.
  pub finish_authentication-ok :
      (session_id : Uuid) (token csrf : SecretToken) (id : Uuid) (response : Json) (now : Time)
      (s : S) (grant : SessionGrant) (u : User)
      → (finish_authentication c stores engine config session_id token csrf id response now s).1
        ≡ ok (grant, u)
      → (ceremony : Ceremony) × (handle : Uuid) × (credentials : List StoredCredential)
        × (v : AuthenticationVerification) × (stores.ceremony s id CeremonyKind.authentication now
            ≡ ok (some ceremony))
        × (engine.authentication_user_handle response ≡ ok handle)
        × (stores.user_by_handle s handle ≡ ok (some u))
        × (u.enabled ≡ true)
        × (stores.credentials_for_user s u.id ≡ ok credentials)
        × (engine.finish_authentication response ceremony.state credentials ≡ ok v)
        × (grant.session ≡ record {
          id = session_id;
          user_id = u.id;
          token_hash = hash c token;
          csrf_hash = hash c csrf;
          auth_epoch = u.auth_epoch;
          idle_expires_at = now + config.session_idle_ttl;
          absolute_expires_at = now + config.session_absolute_ttl;
        })
        × ((stores.complete_authentication id v grant.session now
              (record {
                event_type = bytes "session.created";
                actor_user_id = some u.id;
                subject_user_id = some u.id;
                data_value = object end;
              })
              s).1
            ≡ ok tt)
        × ((finish_authentication c stores engine config session_id token csrf id response now s).0
            ≡ (stores.complete_authentication id v grant.session now
                (record {
                  event_type = bytes "session.created";
                  actor_user_id = some u.id;
                  subject_user_id = some u.id;
                  data_value = object end;
                })
                s).0)
        × (grant.token ≡ token)
        × (grant.csrf ≡ csrf)
  unfolding finish_authentication
  finish_authentication-ok session_id token csrf id response now s grant u h =
      elim (Result-cases (stores.ceremony s id CeremonyKind.authentication now)) [
        | inr (x, e) ↦ absurd (ground arith)
        | inl (none, e) ↦ absurd (ground arith)
        | inl (some ceremony, e) ↦
            elim (Result-cases (engine.authentication_user_handle response)) [
              | inr (x, e1) ↦ absurd (ground arith)
              | inl (handle, e1) ↦ elim (Result-cases (stores.user_by_handle s handle)) [
                | inr (x, e2) ↦ absurd (ground arith)
                | inl (none, e2) ↦ absurd (ground arith)
                | inl (some w, e2) ↦ elim (Bool-cases w.enabled) [
                  | inr off ↦ absurd (ground arith)
                  | inl on ↦ elim (Result-cases (stores.credentials_for_user s w.id)) [
                    | inr (x, e3) ↦ absurd (ground arith)
                    | inl (credentials, e3) ↦
                        elim (Result-cases
                          (engine.finish_authentication response ceremony.state credentials)) [
                            | inr (x, e4) ↦ absurd (ground arith)
                            | inl (v, e4) ↦ (
                              ceremony,
                              handle,
                              credentials,
                              v,
                              ground arith,
                              ground arith,
                              ground arith,
                              ground arith,
                              ground arith,
                              ground arith,
                              ground arith,
                              ground arith,
                              ground arith,
                              ground arith,
                              ground arith,
                            )
                          ]
                  ]
                ]
              ]
            ]
      ]

  -- A session is authenticated only if the store has it for the token's hash, and with a token
  -- against forgery only if that token's hash is the session's.
  pub authenticate_session-ok :
      (token csrf : SecretToken) (now : Time) (s : S) (p : SessionPrincipal)
      → (authenticate_session c stores engine config token (some csrf) now s).1 ≡ ok p
      → ((stores.session (hash c token) now (now + config.session_idle_ttl) s).1 ≡ ok (some p))
        × (hash c csrf ≡ p.csrf_hash)
  unfolding authenticate_session check_csrf
  authenticate_session-ok token csrf now s p h = ground arith

  -- A new user whose trimmed address or name fails the check, or whose id the store has, is refused
  -- as invalid input or as a conflict, and the store is left as it was.
  pub approve_user_refused :
      (handle id : Uuid) (token : SecretToken) (operator_id user_id : UserId)
      (email display_name : Text) (now : Time) (s : S) (u : User)
      → (valid_contact (trim email) (trim display_name) ≡ false)
        ⊎ (stores.user_by_id s user_id ≡ ok (some u))
      → (x : AuthError) × (approve_user_and_issue_setup c stores config handle id token operator_id
            user_id email display_name now s
          ≡ (s, err x))
        × ((x ≡ invalid_input) ⊎ (x ≡ conflict))
  unfolding approve_user_and_issue_setup
  approve_user_refused handle id token operator_id user_id email display_name now s u (inl h) =
      (invalid_input, ground arith, inl refl)
  approve_user_refused handle id token operator_id user_id email display_name now s u (inr h) =
      elim (Bool-cases (valid_contact (trim email) (trim display_name))) [
        | inl e ↦ (conflict, ground arith, inr refl)
        | inr e ↦ (invalid_input, ground arith, inl refl)
      ]
