-- ===== src/Server/Auth.antt =====
-- internal/server/auth.go, and the settings and roles of internal/server/oidc.go. SHA-256 is a
-- parameter, and so is the session that a request's cookie carries.
pub mod Granting
pub mod Loading
use hsm_doctor.Base.{
  ℕ, ◌+◌, String, Bool, true, false, not, Option, none, some, List, [], ◌∷◌, ◌&&◌, ◌||◌, ◌==◌, ltb,
  if◌then◌else◌, any,
}
use hsm_doctor.Base.Text.Parts.{byte_length, cut_prefix}
use text.Mathlib.Text.{starts_with}

pub record OidcConfig : Type 0 where
  pub issuer : String
  pub client_id : String
  pub client_secret : String
  pub redirect_url : String
  pub groups_claim : String
  pub admin_groups : List String
  pub cookie_key : String

pub record AuthToken : Type 0 where
  pub name : String
  pub token : String
  pub role : String

pub record AuthConfig : Type 0 where
  pub tokens : List AuthToken
  pub oidc : Option OidcConfig

pub data Error : Type 0 where
  no_method : Error
  empty_token : ℕ → Error
  short_token : ℕ → String → Error
  invalid_role : ℕ → String → String → Error
  missing : String → Error

abbrev pub role_admin : String
role_admin = "admin"

abbrev pub role_viewer : String
role_viewer = "viewer"

unfoldable pub validate_oidc : OidcConfig → Option Error
validate_oidc c =
    if c.issuer == ""
    then some (missing "issuer")
    else if c.client_id == ""
    then some (missing "client_id")
    else if c.redirect_url == ""
    then some (missing "redirect_url")
    else none

abbrev pub groups_claim_of : OidcConfig → String
groups_claim_of c = if not (c.groups_claim == "") then c.groups_claim else "groups"

-- The check of one token, which is the `n`th.
unfoldable pub token_error : ℕ → AuthToken → Option Error
token_error n t =
    if t.token == ""
    then some (empty_token n)
    else if ltb (byte_length t.token) 16
    then some (short_token n t.name)
    else if not (t.role == role_admin) && not (t.role == role_viewer)
    then some (invalid_role n t.name t.role)
    else none

unfoldable pub tokens_error : ℕ → List AuthToken → Option Error
tokens_error n [] = none
tokens_error n (t ∷ rest) =
    let later = tokens_error (n + 1) rest in
    elim (token_error n t) [ none ↦ later | some e ↦ some e ]

abbrev pub no_tokens : List AuthToken → Bool
no_tokens [] = true
no_tokens (t ∷ rest) = false

abbrev pub oidc_error : Option OidcConfig → Option Error
oidc_error none = none
oidc_error (some c) = validate_oidc c

abbrev pub no_oidc : Option OidcConfig → Bool
no_oidc none = true
no_oidc (some c) = false

-- What `LoadAuthConfig` says of a document once it is decoded.
unfoldable pub load_auth_error : AuthConfig → Option Error
load_auth_error cfg =
    if no_tokens cfg.tokens && no_oidc cfg.oidc
    then some no_method
    else elim (tokens_error 1 cfg.tokens) [ none ↦ oidc_error cfg.oidc | some e ↦ some e ]

-- A claim of a token as the JSON decoder gives it: a text, a list, of which an entry that is no
-- text is `none`, or something else.
pub data Claim : Type 0 where
  plain : String → Claim
  values : List (Option String) → Claim
  other : Claim

abbrev texts : List (Option String) → List String
texts [] = []
texts (some s ∷ rest) = s ∷ texts rest
texts (none ∷ rest) = texts rest

abbrev pub string_slice : Option Claim → List String
string_slice none = []
string_slice (some (plain s)) = s ∷ []
string_slice (some (values l)) = texts l
string_slice (some other) = []

-- `claims` is `none` where the claims cannot be read.
unfoldable pub role_from_claims : OidcConfig → Option (String → Option Claim) → String
role_from_claims cfg none = role_viewer
role_from_claims cfg (some claims) =
    if any (λ g. any (λ admin. g == admin) cfg.admin_groups)
      (string_slice (claims (groups_claim_of cfg)))
    then role_admin
    else role_viewer

-- The path, the method and the `Authorization` header of a request.
pub record Request : Type 0 where
  pub path : String
  pub method : String
  pub authorization : String

-- The handler is called, or the middleware answers with a status.
pub data Verdict : Type 0 where
  passed : Verdict
  refused : ℕ → Verdict

abbrev pub is_protected : String → Bool
is_protected path = starts_with path "/api/" || path == "/metrics"

abbrev pub is_exempt : String → Bool
is_exempt path = starts_with path "/api/v1/ingest/" || path == "/api/v1/info"

abbrev pub decide : String → String → Verdict
decide role method =
    if role == role_admin
    then passed
    else if role == role_viewer
    then if method == "GET" || method == "HEAD" then passed else refused 403
    else refused 401

-- `digest` is SHA-256, and equality of digests the comparison in constant time.
module _ (digest : String → String) where
  -- The role of the last token that matches, after `role`.
  unfoldable pub role_after : String → String → List AuthToken → String
  role_after presented role [] = role
  role_after presented role (t ∷ rest) =
      role_after presented (if digest presented == digest t.token then t.role else role) rest

  unfoldable pub role_for : AuthConfig → String → String
  role_for c presented = role_after presented "" c.tokens

  abbrev pub token_role : AuthConfig → Option String → String
  token_role c none = ""
  token_role c (some token) = if not (token == "") then role_for c token else ""

  -- `session` is the role of the request's session, where single sign-on is on and there is one.
  unfoldable pub caller_role : AuthConfig → Option String → Request → String
  caller_role c session r =
      let role : String = elim session [ none ↦ "" | some s ↦ s ] in
      if role == "" then token_role c (cut_prefix r.authorization "Bearer ") else role

  unfoldable pub authorize : Option AuthConfig → Option String → Request → Verdict
  authorize none session r = passed
  authorize (some c) session r =
      if not (is_protected r.path) || is_exempt r.path
      then passed
      else decide (caller_role c session r) r.method
