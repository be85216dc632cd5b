-- ===== src/Server/Http/Login.antt =====
-- A login over the routes of server/src/http.rs, and the next request with its cookie.
use rs_console.Common.{
  ◌+◌, ◌<◌, ◌≡◌, ap, ◌∙◌, inl, inr, Bool, true, none, some, [], ◌∷◌, arith, ℕ_discrete, Text, bytes,
  Text-discrete, Option-cases, length, all, Result-cases, ok,
}
use rs_console.Server.Http.Responses.{CeremonyFinish, Web, Draws, Response, answer, no_store}
use rs_console.Server.Http.Routes.{
  public_routes, fits, target, respond, handle, serve_target, serve, get,
}
use rs_console.Auth.Interfaces.{CeremonyEngine, AuthStore}
use rs_console.Auth.Types.{
  Time, Uuid, SecretToken, User, SessionGrant, SessionPrincipal, AuthConfig,
}
use rs_console.Server.Http.Public.{
  capability_document, public_document, login_cookie, login_response, public_capabilities,
  login_finish,
}
use rs_console.Server.Http.{
  session_cookie, HeaderMap, split_semicolon, cookie_value, verify_origin_json, session_token,
  or_anonymous, optional_session,
}
use rs_console.Auth.Service.Login.{finish_authentication, authenticate_session}
use rs_console.Auth.Tokens.{token_bytes, parse_token}
use rs_console.Server.Transaction.{Database}
use rs_console.Server.Tables.{Tables}
use rs_console.Server.Writes.Keys.{IsConsistent}
use rs_console.Server.Logins.Rows.{IsHealthy}
use rs_console.Server.Store.{pg_auth_store}
use rs_console.Server.Http.Cookie.{is_url_safe, session_token-login_cookie}
use rs_console.Server.Logins.{
  logged_in_as, login, login-resume_session, resume_session-authenticate_session,
}

module _ {S : Type 0} (w : Web) (stores : AuthStore S) (engine : CeremonyEngine)
    (config : AuthConfig) (browser_origin : Text) where
  login_response-ok :
      (grant : SessionGrant) (user : User) (response : Response)
      → login_response w grant user ≡ ok response
      → response.set_cookie ≡ some (login_cookie w grant.token)
  unfolding login_response
  login_response-ok grant user response h = ground arith

  -- An answer of `login_finish` sets the cookie of the token that the service grants.
  pub login_finish-ok :
      (headers : HeaderMap) (request : CeremonyFinish) (d : Draws) (s : S) (response : Response)
      → (login_finish w stores engine config browser_origin headers request d s).1 ≡ ok response
      → (grant : SessionGrant) × (user : User) × ((finish_authentication w.cryptography stores
            engine config d.id d.token d.csrf request.ceremony_id request.credential d.now s).1
          ≡ ok (grant, user))
        × (response.set_cookie ≡ some (login_cookie w grant.token))
        × ((login_finish w stores engine config browser_origin headers request d s).0
            ≡ (finish_authentication w.cryptography stores engine config d.id d.token d.csrf
                request.ceremony_id request.credential d.now s).0)
  unfolding login_finish
  login_finish-ok headers request d s response h =
      elim (Result-cases (verify_origin_json browser_origin headers)) [
        | inr (x, e) ↦ absurd (ground arith)
        | inl (u, e) ↦
            elim (Result-cases
              (finish_authentication w.cryptography stores engine config d.id d.token d.csrf
                request.ceremony_id request.credential d.now s).1) [
                  | inr (x, k) ↦ absurd (ground arith)
                  | inl ((grant, user), k) ↦ (
                    grant,
                    user,
                    k,
                    login_response-ok grant user response (ground arith),
                    ground arith,
                  )
                ]
      ]

  -- A request whose cookie is that of a session.
  optional_session-ok :
      (headers : HeaderMap) (now : Time) (s : S) (token : SecretToken) (p : SessionPrincipal)
      → session_token w.cryptography headers ≡ ok token
      → (authenticate_session w.cryptography stores engine config token none now s).1 ≡ ok p
      → (optional_session w.cryptography stores engine config headers now s).1 ≡ ok (some p)
  unfolding optional_session session_token or_anonymous
  optional_session-ok headers now s token p sent h =
      elim (Option-cases (cookie_value headers session_cookie)) [
        | inl e ↦ absurd (ground arith)
        | inr (value, e) ↦ elim (Result-cases (parse_token w.cryptography value)) [
          | inr (x, k) ↦ absurd (ground arith)
          | inl (parsed, k) ↦ ground arith
        ]
      ]

  public_capabilities-ok :
      (headers : HeaderMap) (d : Draws) (s : S) (p : SessionPrincipal)
      → (optional_session w.cryptography stores engine config headers d.now s).1 ≡ ok (some p)
      → (public_capabilities w stores engine config browser_origin headers d s).1
        ≡ ok (answer 200 (public_document (some p)))
  unfolding public_capabilities
  public_capabilities-ok headers d s p h = ground arith

  capabilities-served :
      (is_ready : S → Bool) (headers : HeaderMap) (body : Text) (d : Draws) (s : S)
      (p : SessionPrincipal)
      → (optional_session w.cryptography stores engine config headers d.now s).1 ≡ ok (some p)
      → (serve w stores engine config browser_origin is_ready public_routes
          (record {
            method = get;
            path = bytes "v1" ∷ bytes "capabilities" ∷ [];
            headers = headers;
            body = body;
          })
          d
          s).1
        ≡ no_store (answer 200 (public_document (some p)))
  unfolding serve serve_target handle target fits public_routes Text-discrete ℕ_discrete
  capabilities-served is_ready headers body d s p h =
      ap
        (λ r.
          no_store
            (respond
              ((public_capabilities w stores engine config browser_origin headers d s).0, r)).1)
        (public_capabilities-ok headers d s p h)

module _ (w : Web) (db db' : Database) (i i' : Uuid) (engine : CeremonyEngine) (config : AuthConfig)
    (browser_origin : Text) (is_ready : Tables → Bool) where
  -- A browser that logs in over the public routes and sends the name and the value of its cookie
  -- back, up to the first semicolon, is then known as a user with the session of that login, and
  -- `/v1/capabilities` answers with a user's document, until the session is idle for too long or at its absolute end.
  -- (The tables met the constraints before the login, the database does not fail at the second
  -- request, and the text of the token is one that base64 decodes to it, in the URL-safe alphabet.)
  pub login_finish-serve :
      (headers headers' : HeaderMap) (request : CeremonyFinish) (d d' : Draws) (t : Tables)
      (response : Response) (cookie body : Text)
      → IsConsistent t
      → IsHealthy db'
      → (login_finish w
          (pg_auth_store db w.print_uuid i)
          engine
          config
          browser_origin
          headers
          request
          d
          t).1
        ≡ ok response
      → response.set_cookie ≡ some cookie
      → headers'.cookie ≡ some (split_semicolon cookie).0
      → w.cryptography.decode (w.cryptography.encode d.token) ≡ some d.token
      → length d.token ≡ token_bytes
      → all is_url_safe (w.cryptography.encode d.token) ≡ true
      → d'.now < d.now + config.session_idle_ttl
      → d'.now < d.now + config.session_absolute_ttl
      → (user : User) × ((optional_session w.cryptography
            (pg_auth_store db' w.print_uuid i')
            engine
            config
            headers'
            d'.now
            (login_finish w
              (pg_auth_store db w.print_uuid i)
              engine
              config
              browser_origin
              headers
              request
              d
              t).0).1
          ≡ ok (some (logged_in_as w.cryptography config d.id d.csrf d.now user)))
        × ((serve w
              (pg_auth_store db' w.print_uuid i')
              engine
              config
              browser_origin
              is_ready
              public_routes
              (record {
                method = get;
                path = bytes "v1" ∷ bytes "capabilities" ∷ [];
                headers = headers';
                body = body;
              })
              d'
              (login_finish w
                (pg_auth_store db w.print_uuid i)
                engine
                config
                browser_origin
                headers
                request
                d
                t).0).1
            ≡ no_store (
                answer 200 (
                  capability_document (bytes "user") (
                    bytes "session.logout"
                    ∷ bytes "profile.read_self"
                    ∷ bytes "recovery.request_self"
                    ∷ []))))
  unfolding public_document
  login_finish-serve headers headers' request d d' t response cookie body h healthy logged_in set
        sent decodes long safe idle ends =
      let stores = pg_auth_store db w.print_uuid i in
      let (grant, user, granted, cookie_set, after) =
        login_finish-ok w stores engine config browser_origin headers request d t response
          logged_in in
      let (same_token, same_csrf, resumed) =
        login-resume_session w.cryptography db db' w.print_uuid i i' engine config d.id d.token
          d.csrf request.ceremony_id request.credential d.now d'.now t grant user h healthy granted
          idle ends in
      let same_cookie : cookie ≡ login_cookie w d.token = ground arith in
      let holder =
        session_token-login_cookie w d.token headers' decodes long safe
          (sent ∙ ap (λ x. some (split_semicolon x).0) same_cookie) in
      let authenticated =
        resume_session-authenticate_session w.cryptography db db' w.print_uuid i i' engine config
          d.token none d'.now _ _ resumed (λ sent e. absurd (ground arith)) in
      let state =
        (login w.cryptography db db' w.print_uuid i i' engine config d.id d.token d.csrf
          request.ceremony_id request.credential d.now t).0 in
      let known : (optional_session w.cryptography (pg_auth_store db' w.print_uuid i') engine config
            headers' d'.now state).1
          ≡ ok (some (logged_in_as w.cryptography config d.id d.csrf d.now user)) =
        optional_session-ok w (pg_auth_store db' w.print_uuid i') engine config browser_origin
          headers' d'.now state d.token _ holder authenticated in
      (
        user,
        rw after known,
        rw after (
            capabilities-served w (pg_auth_store db' w.print_uuid i') engine config browser_origin
              is_ready headers' body d' state _ known),
      )
