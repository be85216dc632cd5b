-- ===== src/Server/Http/Cookie.antt =====
-- The session cookie of server/src/http.rs, set and read back.
use rs_console.Common.{
  ℕ, ◌≡◌, refl, ap, ◌∙◌, inl, inr, Bool, true, not, ◌&&◌, ◌||◌, some, [], ◌∷◌, ◌++◌, arith,
  ℕ_discrete, leb, Text, bytes, ◌==◌, nat_eq, text_eq, bool_eq, Option-cases, length, all, ok,
}
use rs_console.Auth.Trim.Visible.{is_visible, trim-visible}
use rs_console.Server.Http.{
  session_cookie, HeaderMap, strip_prefix, split_semicolon, find_cookie, cookie_value,
  session_token,
}
use rs_console.Server.Http.Responses.{Web}
use rs_console.Auth.Types.{SecretToken}
use rs_console.Auth.Tokens.{Cryptography, token_bytes, parse_token, expose}
use rs_console.Server.Http.Public.{cookie_attributes, login_cookie}
use rs_console.Auth.Trim.{trim}

-- The alphabet of `URL_SAFE_NO_PAD`.
abbrev pub is_url_safe : ℕ → Bool
is_url_safe x =
    leb 48 x && leb x 57 || leb 65 x && leb x 90 || leb 97 x && leb x 122 || x == 45 || x == 95

-- A byte that stays in its piece and that trimming leaves.
abbrev pub is_plain : ℕ → Bool
is_plain x = is_visible x && not (x == 59)

split_semicolon-plain :
    (a b : Text) → all is_plain a ≡ true → (split_semicolon (a ++ (59 ∷ b))).0 ≡ a
unfolding split_semicolon ℕ_discrete
split_semicolon-plain [] b h = refl
split_semicolon-plain (x ∷ a) b h = ground (arith, split_semicolon-plain a b)

split_semicolon_whole : (a : Text) → all is_plain a ≡ true → split_semicolon a ≡ (a, [])
unfolding split_semicolon
split_semicolon_whole [] h = refl
split_semicolon_whole (x ∷ a) h = ground (arith, split_semicolon_whole a)

strip_prefix-append : (p s : Text) → strip_prefix p (p ++ s) ≡ some s
unfolding strip_prefix
strip_prefix-append [] s = refl
strip_prefix-append (x ∷ p) s = ground (arith, strip_prefix-append p s)

plain-visible : (s : Text) → all is_plain s ≡ true → all is_visible s ≡ true
plain-visible [] h = refl
plain-visible (x ∷ s) h = ground (arith, plain-visible s)

safe-plain : (s : Text) → all is_url_safe s ≡ true → all is_plain s ≡ true
safe-plain [] h = refl
safe-plain (x ∷ s) h = ground (arith, safe-plain s)

all-append :
    (p s : Text) → all is_plain p ≡ true → all is_plain s ≡ true → all is_plain (p ++ s) ≡ true
all-append [] s h k = k
all-append (x ∷ p) s h k = ground (arith, all-append p s)

find_cookie_one :
    (name piece value : Text)
    → trim piece ≡ piece
    → strip_prefix name piece ≡ some (b'=' ∷ value)
    → strip_prefix (bytes "=") (b'=' ∷ value) ≡ some value
    → find_cookie name (piece ∷ []) ≡ some value
unfolding find_cookie
find_cookie_one name piece value trimmed named valued =
    elim (Option-cases (strip_prefix name (trim piece))) [
      | inl e ↦ absurd (ground arith)
      | inr (after, e) ↦ ground arith
    ]

cookie_value-find :
    (headers : HeaderMap) (name text value : Text)
    → headers.cookie ≡ some text
    → split_semicolon text ≡ (text, [])
    → find_cookie name (text ∷ []) ≡ some value
    → cookie_value headers name ≡ some value
unfolding cookie_value
cookie_value-find headers name text value sent whole named = ground arith

session_token-parse :
    (c : Cryptography) (headers : HeaderMap) (value : Text)
    → cookie_value headers session_cookie ≡ some value
    → session_token c headers ≡ parse_token c value
unfolding session_token
session_token-parse c headers value e = ground arith

module _ (w : Web) (token : SecretToken) where
  -- The name and the value of the session cookie.
  abbrev pair : Text
  pair = session_cookie ++ (b'=' ∷ expose w.cryptography token)

  pair-plain : all is_url_safe (expose w.cryptography token) ≡ true → all is_plain pair ≡ true
  unfolding ℕ_discrete
  pair-plain safe =
      all-append session_cookie (b'=' ∷ expose w.cryptography token) refl
        (safe-plain (expose w.cryptography token) safe)

  login_cookie-pair : login_cookie w token ≡ pair ++ cookie_attributes
  unfolding login_cookie
  login_cookie-pair = refl

  find_cookie-pair :
      all is_plain pair ≡ true
      → find_cookie session_cookie (pair ∷ []) ≡ some (expose w.cryptography token)
  find_cookie-pair plain =
      find_cookie_one session_cookie pair (expose w.cryptography token)
        (trim-visible pair (plain-visible pair plain))
        (strip_prefix-append session_cookie (b'=' ∷ expose w.cryptography token))
        (strip_prefix-append (bytes "=") (expose w.cryptography token))

  -- A browser that keeps the name and the value of the cookie that a login sets, which end at the
  -- first semicolon, and sends them back, is read as the holder of the token of that login. (The
  -- text of the token is one that base64 decodes to it, in the URL-safe alphabet.)
  pub session_token-login_cookie :
      (headers : HeaderMap)
      → w.cryptography.decode (w.cryptography.encode token) ≡ some token
      → length token ≡ token_bytes
      → all is_url_safe (w.cryptography.encode token) ≡ true
      → headers.cookie ≡ some (split_semicolon (login_cookie w token)).0
      → session_token w.cryptography headers ≡ ok token
  unfolding parse_token expose
  session_token-login_cookie headers decodes long safe sent =
      let plain = pair-plain safe in
      let first : (split_semicolon (login_cookie w token)).0 ≡ pair =
        ap (λ t. (split_semicolon t).0) login_cookie-pair
        ∙ split_semicolon-plain pair (bytes " Path=/; Secure; HttpOnly; SameSite=Strict") plain in
      let value =
        cookie_value-find headers session_cookie pair (expose w.cryptography token)
          (sent ∙ ap some first) (split_semicolon_whole pair plain) (find_cookie-pair plain) in
      session_token-parse w.cryptography headers (expose w.cryptography token) value ∙ ground arith
