-- ===== src/Server/Http/Guarded.antt =====
-- Who passes the guard of an operator's requests.
use rs_console.Common.{
  ◌+◌, ◌≡◌, ◌↔◌, inl, inr, true, some, arith, Text, bytes, Option-cases, Result-cases, ok,
}
use rs_console.Auth.Types.{Time, SecretToken, Role, SessionPrincipal, AuthConfig}
use rs_console.Auth.Tokens.{Cryptography, hash}
use rs_console.Auth.Interfaces.{CeremonyEngine, AuthStore}
use rs_console.Auth.Service.Login.{check_csrf, authenticate_session}
use rs_console.Server.Http.{
  HeaderMap, verify_origin_json, session_and_csrf, operator_tokens, require_operator,
  operator_guard,
}

module _ {S : Type 0} (c : Cryptography) (stores : AuthStore S) (engine : CeremonyEngine)
    (config : AuthConfig) where
  -- A request that changes something passes as an operator's only if its cookie and its header hold
  -- two tokens, the store has a session for the first whose user is an operator, and the second has
  -- the hash that the session keeps.
  pub operator_guard-ok :
      (headers : HeaderMap) (now : Time) (s : S) (p : SessionPrincipal)
      → (operator_guard c stores engine config headers true now s).1 ≡ ok p
      → (token : SecretToken) × (csrf : SecretToken) × (session_and_csrf c headers
          ≡ ok (token, csrf))
        × ((stores.session (hash c token) now (now + config.session_idle_ttl) s).1 ≡ ok (some p))
        × (hash c csrf ≡ p.csrf_hash)
        × (p.user.role ≡ Role.operator)
  unfolding operator_guard operator_tokens authenticate_session check_csrf require_operator
  operator_guard-ok headers now s p h = elim (Result-cases (session_and_csrf c headers)) [
    | inr (x, e) ↦ absurd (ground arith)
    | inl ((token, csrf), e) ↦ (token, csrf, ground arith, ground arith, ground arith, ground arith)
  ]

-- A request passes the check of its origin exactly when it comes from the browser's origin and its
-- content type is JSON's.
pub verify_origin_json_iff :
    (browser_origin : Text) (headers : HeaderMap)
    → (verify_origin_json browser_origin headers ≡ ok tt) ↔ (
        (headers.origin ≡ some browser_origin)
        × (headers.content_type ≡ some (bytes "application/json")))
unfolding verify_origin_json
verify_origin_json_iff browser_origin headers = elim (Option-cases headers.origin) [
  | inl e ↦ (λ h. absurd (ground arith), λ h. absurd (ground arith))
  | inr (o, e) ↦ elim (Option-cases headers.content_type) [
    | inl k ↦ (λ h. absurd (ground arith), λ h. absurd (ground arith))
    | inr (content, k) ↦ (λ h. (ground arith, ground arith), λ h. ground arith)
  ]
]
