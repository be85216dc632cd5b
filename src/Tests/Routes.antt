-- ===== src/Tests/Routes.antt =====
-- The theorems on the routers of server/src/http.rs at concrete requests.
use rs_console.Common.{
  ◌≡◌, refl, inr, true, false, none, some, [], ◌∷◌, arith, ℕ_discrete, if◌then◌else◌, Text, bytes,
  ◌==◌, Text-discrete, nat_eq, text_eq, bool_eq, ok, err,
}
use rs_console.Server.Http.Routes.{
  public_routes, private_routes, fits, target, Request, handle, serve_target, serve, post,
  logout_endpoint, approve_recovery_endpoint,
}
use rs_console.Server.Http.Responses.{Web, Draws, no_store}
use rs_console.Server.Http.Answers.{RejectsBodies}
use rs_console.Server.Http.Absent.{is_operators, is_bootstrap, public_routes-absent}
use rs_console.Server.Http.{
  strip_prefix, split_semicolon, find_cookie, cookie_value, verify_origin_json, session_token,
  session_and_csrf, operator_tokens, require_operator, operator_guard,
}
use rs_console.Server.Http.Origin.{IsRefused, serve-IsRefused}
use rs_console.Tests.Database.{print_uuid, hash_a, hash_b, two_sessions}
use rs_console.Tests.Service.{plain_text, engine, store, service_run, request}
use rs_console.Auth.Types.{Role, SessionPrincipal, AuthError, default_config}
use rs_console.Server.Http.Public.{login_cookie}
use rs_console.Server.Http.Private.{post_approval}
use rs_console.Auth.Tokens.{parse_token}
use rs_console.Server.Http.Cookie.{session_token-login_cookie}
use rs_console.Server.Http.Operators.{private_routes-IsGuarded}
use rs_console.Auth.Service.Accounts.{approve_pending_recovery}

-- Bodies are all rejected, and the only id that is read is 41.
abbrev pub web : Web
web = record {
  cryptography = plain_text;
  print_uuid = print_uuid;
  parse_uuid = λ text. if text == bytes "41" then some 41 else none;
  print_time = λ time. bytes "now";
  header_value = λ text. true;
  read_ceremony_finish = λ headers body. err 422;
  read_setup_start = λ headers body. err 422;
  read_recovery_request = λ headers body. err 415;
  read_recovery_setup = λ headers body. err 422;
  read_approve_user = λ headers body. err 422;
}

abbrev pub console : Text
console = bytes "https://console.example"

abbrev draws : Draws
draws = record { guarded_at = 10; now = 10; id = 71; handle = 72; token = hash_a; csrf = hash_b }

-- The operator approves the recovery of a user.
abbrev approval : Request
approval = record {
  method = post;
  path = bytes "v1" ∷ bytes "operator" ∷ bytes "recoveries" ∷ bytes "41" ∷ bytes "approve" ∷ [];
  headers = request;
  body = [];
}

abbrev foreign_approval : Request
foreign_approval = record approval {
  headers = record request { origin = some (bytes "https://evil.example") };
}

web-RejectsBodies : RejectsBodies web
web-RejectsBodies = (
  λ headers body code e. ground arith,
  λ headers body code e. ground arith,
  λ headers body code e. ground arith,
  λ headers body code e. ground arith,
  λ headers body code e. ground arith,
)

public_routes-absent_example :
    (is_operators logout_endpoint ≡ false) × (is_bootstrap logout_endpoint ≡ false)
unfolding public_routes target fits Text-discrete ℕ_discrete
public_routes-absent_example =
    public_routes-absent post (bytes "v1" ∷ bytes "auth" ∷ bytes "logout" ∷ []) logout_endpoint []
      refl

private_routes-IsGuarded_example :
    (p : SessionPrincipal) × ((operator_guard plain_text store engine default_config request true 10
        two_sessions).1
      ≡ ok p)
    × (p.user.role ≡ Role.operator)
unfolding service_run serve serve_target handle no_store target fits private_routes is_operators
    approve_pending_recovery post_approval operator_guard operator_tokens session_and_csrf
    session_token cookie_value split_semicolon find_cookie strip_prefix parse_token require_operator
    verify_origin_json
private_routes-IsGuarded_example =
    private_routes-IsGuarded web store engine default_config console (λ s. true) approval draws
      two_sessions approve_recovery_endpoint (bytes "41") web-RejectsBodies refl refl (omega arith)

serve-IsRefused_example : IsRefused two_sessions (
    serve web store engine default_config console
      (λ s. true)
      private_routes
      foreign_approval
      draws
      two_sessions)
unfolding verify_origin_json Text-discrete ℕ_discrete
serve-IsRefused_example =
    serve-IsRefused web store engine default_config console (λ s. true) private_routes
      foreign_approval draws two_sessions AuthError.forbidden web-RejectsBodies (inr refl) refl refl

session_token-login_cookie_example :
    session_token plain_text
      (record request { cookie = some (split_semicolon (login_cookie web hash_a)).0 })
    ≡ ok hash_a
session_token-login_cookie_example =
    session_token-login_cookie web hash_a
      (record request { cookie = some (split_semicolon (login_cookie web hash_a)).0 }) refl refl
      refl refl
