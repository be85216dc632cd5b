-- ===== src/Tests/Browser.antt =====
-- A login over the routes of server/src/http.rs and the next request, at a concrete browser.
use rs_console.Common.{◌≡◌, refl, true, none, some, [], ◌∷◌, arith, bytes, ok}
use rs_console.Server.Http.Routes.{public_routes, serve, get}
use rs_console.Tests.Routes.{web, console}
use rs_console.Tests.Service.{plain_text, engine, store, service_run, request}
use rs_console.Server.Http.Responses.{CeremonyFinish, Draws, Response, json, answer, no_store}
use rs_console.Server.Http.{HeaderMap, split_semicolon, verify_origin_json, optional_session}
use rs_console.Server.Tables.{Tables}
use rs_console.Server.Http.Public.{capability_document, login_cookie, login_response, login_finish}
use rs_console.Auth.Types.{User, default_config}
use rs_console.Tests.Database.{healthy, print_uuid, hash_a, hash_b, tables}
use rs_console.Policy.Canonical.{null, bool, number, string}
use rs_console.Server.Names.{role_name}
use rs_console.Auth.Tokens.{expose}
use rs_console.Server.Store.{pg_auth_store}
use rs_console.Server.Logins.{logged_in_as}
use rs_console.Server.Http.Login.{login_finish-serve}
use rs_console.Tests.Histories.{tables-IsConsistent}

abbrev finish : CeremonyFinish
finish = record { ceremony_id = 11; credential = null; ceremony_kind = none }

abbrev login_draws : Draws
login_draws = record {
  guarded_at = 10;
  now = 10;
  id = 32;
  handle = 72;
  token = hash_b;
  csrf = hash_a;
}

abbrev logged_in : Response
logged_in = record {
  code = 200;
  body = json (
      (bytes "schema_version", number (bytes "1"))
      ∷ (bytes "authenticated", bool true)
      ∷ (bytes "role", string (bytes "user"))
      ∷ (bytes "csrf_token", string hash_a)
      ∷ (bytes "absolute_expires_at", string (bytes "now"))
      ∷ []);
  set_cookie = some (login_cookie web hash_b);
  cache_control = none;
}

-- What the browser sends next.
abbrev next_headers : HeaderMap
next_headers = record request { cookie = some (split_semicolon (login_cookie web hash_b)).0 }

abbrev after_login : Tables
after_login =
    (login_finish web store engine default_config console request finish login_draws tables).0

login_finish-serve_example :
    (user : User) × ((optional_session plain_text
        (pg_auth_store healthy print_uuid 71)
        engine
        default_config
        next_headers
        12
        after_login).1
      ≡ ok (some (logged_in_as plain_text default_config 32 hash_a 10 user)))
    × ((serve web
          (pg_auth_store healthy print_uuid 71)
          engine
          default_config
          console
          (λ s. true)
          public_routes
          (record {
            method = get;
            path = bytes "v1" ∷ bytes "capabilities" ∷ [];
            headers = next_headers;
            body = [];
          })
          (record login_draws { now = 12 })
          after_login).1
        ≡ no_store (
            answer 200 (
              capability_document (bytes "user") (
                bytes "session.logout"
                ∷ bytes "profile.read_self"
                ∷ bytes "recovery.request_self"
                ∷ []))))
unfolding service_run login_finish verify_origin_json login_response role_name expose
login_finish-serve_example =
    login_finish-serve web healthy healthy 70 71 engine default_config console (λ s. true) request
      next_headers finish login_draws (record login_draws { now = 12 }) tables logged_in
      (login_cookie web hash_b) [] tables-IsConsistent ((λ line. refl), (λ line. refl)) refl refl
      refl refl refl refl (omega arith) (omega arith)
