-- ===== src/Auth/Tokens.antt =====
-- `SecretToken` and `SecretHash` of auth/src/lib.rs. The base64 alphabet and SHA-256 are parameters.
use rs_console.Common.{
  ℕ, Option, none, some, if◌then◌else◌, Text, ◌==◌, nat_eq, text_eq, bool_eq, length, Result, ok,
  err,
}
use rs_console.Auth.Types.{SecretToken, SecretHash, AuthError, invalid_token, store_failed}

-- `URL_SAFE_NO_PAD` of base64 (`decode` is `none` where it fails) and `Sha256::digest` of sha2.
pub record Cryptography : Type 0 where
  pub decode : Text → Option Text
  pub encode : Text → Text
  pub sha256 : Text → Text

abbrev pub token_bytes : ℕ
token_bytes = 32

module _ (c : Cryptography) where
  -- `SecretToken::parse`.
  unfoldable pub parse_token : Text → Result AuthError SecretToken
  parse_token value = elim (c.decode value) [
    | none ↦ err invalid_token
    | some decoded ↦ if length decoded == token_bytes then ok decoded else err invalid_token
  ]

  -- `SecretToken::expose`.
  unfoldable pub expose : SecretToken → Text
  expose token = c.encode token

  -- `SecretToken::hash`.
  unfoldable pub hash : SecretToken → SecretHash
  hash token = c.sha256 token

-- `SecretHash::from_slice`.
unfoldable pub from_slice : Text → Result AuthError SecretHash
from_slice value = if length value == 32 then ok value else err store_failed
