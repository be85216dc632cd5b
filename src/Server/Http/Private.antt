-- ===== src/Server/Http/Private.antt =====
-- The handlers of the private routes of server/src/http.rs.
use rs_console.Common.{
  true, false, Option, none, some, List, [], ◌∷◌, ◌++◌, Text, bytes, Result, ok, err,
}
use rs_console.Policy.Canonical.{Json, Items, null, number, string, array, nil, cons}
use rs_console.Auth.Types.{
  Time, Uuid, SecretToken, CeremonyKind, RecoveryRequest, AuthError, AuthConfig, invalid_input,
}
use rs_console.Auth.Tokens.{expose}
use rs_console.Auth.Interfaces.{CeremonyEngine, Call, lift, ◌>>=◌, AuthStore}
use rs_console.Auth.Service.{kind_text, start_operator_bootstrap, finish_registration}
use rs_console.Auth.Service.Accounts.{
  list_recoveries, approve_pending_recovery, issue_setup, approve_user_and_issue_setup,
}
use rs_console.Server.Http.{HeaderMap, verify_origin_json, operator_guard}
use rs_console.Server.Http.Responses.{
  CeremonyFinish, RecoverySetupBody, ApproveUserBody, Web, Draws, Response, json, answer,
  no_content,
}
use rs_console.Server.Http.Public.{capability_document, read_user_id}

-- `Option<DateTime>` in JSON.
abbrev pub time_value : Web → Option Time → Json
time_value w none = null
time_value w (some time) = string (w.print_time time)

-- `Serialize for RecoveryRequest`.
abbrev pub recovery_value : Web → RecoveryRequest → Json
recovery_value w r = json (
    (bytes "id", string (w.print_uuid r.id))
    ∷ (bytes "user_id", string r.user_id)
    ∷ (bytes "requested_at", string (w.print_time r.requested_at))
    ∷ (bytes "approved_at", time_value w r.approved_at)
    ∷ [])

abbrev pub recovery_values : Web → List RecoveryRequest → Items
recovery_values w [] = nil
recovery_values w (r ∷ rs) = cons (recovery_value w r) (recovery_values w rs)

-- The setup token as the fragment of a link.
unfoldable pub setup_document : Web → SecretToken → Json
unfolding expose
setup_document w token = json (
    (bytes "setup_fragment", string (bytes "#setup=" ++ expose w.cryptography token))
    ∷ (bytes "expires_in_seconds", number (bytes "900"))
    ∷ [])

abbrev pub operator_document : Json
operator_document = capability_document (bytes "operator") (
    bytes "platform.read"
    ∷ bytes "user.approve"
    ∷ bytes "recovery.list"
    ∷ bytes "recovery.approve"
    ∷ bytes "recovery.setup_issue"
    ∷ [])

-- The kind of the ceremony that a bootstrap ends.
unfoldable pub bootstrap_kind : Option CeremonyKind → Result AuthError CeremonyKind
bootstrap_kind none = ok CeremonyKind.operator_bootstrap
bootstrap_kind (some CeremonyKind.operator_bootstrap) = ok CeremonyKind.operator_bootstrap
bootstrap_kind (some CeremonyKind.operator_recovery) = ok CeremonyKind.operator_recovery
bootstrap_kind (some CeremonyKind.registration) = err invalid_input
bootstrap_kind (some CeremonyKind.authentication) = err invalid_input

module _ {S : Type 0} (w : Web) (stores : AuthStore S) (engine : CeremonyEngine)
    (config : AuthConfig) (browser_origin : Text) where
  -- `operator_bootstrap_start`.
  unfoldable pub operator_bootstrap_start : HeaderMap → Draws → Call S Response
  operator_bootstrap_start headers d = do
    _ ← lift (verify_origin_json browser_origin headers)
    (id, public_key, kind) ← start_operator_bootstrap w.cryptography stores engine config d.id d.now
    lift (
        ok (
          answer 200 (
            json (
              (bytes "ceremony_id", string (w.print_uuid id))
              ∷ (bytes "ceremony_kind", string (kind_text kind))
              ∷ (bytes "public_key", public_key)
              ∷ []))))

  -- `operator_bootstrap_finish`.
  unfoldable pub operator_bootstrap_finish : HeaderMap → CeremonyFinish → Draws → Call S Response
  operator_bootstrap_finish headers request d = do
    _ ← lift (verify_origin_json browser_origin headers)
    kind ← lift (bootstrap_kind request.ceremony_kind)
    _ ←
        finish_registration w.cryptography stores engine config request.ceremony_id kind
          request.credential d.now
    lift (ok no_content)

  -- `pending_recoveries`.
  unfoldable pub get_recoveries : HeaderMap → Draws → Call S Response
  get_recoveries headers d = do
    _ ← operator_guard w.cryptography stores engine config headers false d.guarded_at
    recoveries ← list_recoveries w.cryptography stores config
    lift (
        ok (
          answer 200 (
            json (
              (bytes "schema_version", number (bytes "1"))
              ∷ (bytes "recoveries", array (recovery_values w recoveries))
              ∷ []))))

  -- `approve_recovery`.
  unfoldable pub post_approval : Uuid → HeaderMap → Draws → Call S Response
  post_approval id headers d = do
    _ ← lift (verify_origin_json browser_origin headers)
    principal ← operator_guard w.cryptography stores engine config headers true d.guarded_at
    _ ← approve_pending_recovery w.cryptography stores config id principal.user.id d.now
    lift (ok no_content)

  -- `issue_recovery_setup`.
  unfoldable pub post_recovery_setup :
      Uuid → HeaderMap → RecoverySetupBody → Draws → Call S Response
  post_recovery_setup id headers request d = do
    _ ← lift (verify_origin_json browser_origin headers)
    principal ← operator_guard w.cryptography stores engine config headers true d.guarded_at
    user_id ← lift (read_user_id w stores engine config browser_origin request.user_id)
    token ← issue_setup w.cryptography stores config d.id d.token id principal.user.id user_id d.now
    lift (ok (answer 200 (setup_document w token)))

  -- `approve_user`.
  unfoldable pub post_user : HeaderMap → ApproveUserBody → Draws → Call S Response
  post_user headers request d = do
    _ ← lift (verify_origin_json browser_origin headers)
    principal ← operator_guard w.cryptography stores engine config headers true d.guarded_at
    user_id ← lift (read_user_id w stores engine config browser_origin request.user_id)
    token ←
        approve_user_and_issue_setup w.cryptography stores config d.handle d.id d.token
          principal.user.id user_id request.email request.display_name d.now
    lift (ok (answer 200 (setup_document w token)))

  -- `operator_capabilities`.
  unfoldable pub operator_capabilities : HeaderMap → Draws → Call S Response
  operator_capabilities headers d = do
    _ ← operator_guard w.cryptography stores engine config headers false d.guarded_at
    lift (ok (answer 200 operator_document))
