-- ===== src/Server/Auth/Loading.antt =====
-- internal/server/auth.go: which configurations `LoadAuthConfig` accepts.
use hsm_doctor.Base.{◌≤◌, ◌≡◌, ◌≢◌, ◌⊎◌, Option, none, some}
use hsm_doctor.Base.Text.Parts.{byte_length}
use hsm_doctor.Server.Auth.{OidcConfig, AuthToken}

-- At least 16 bytes, and one of the roles.
abbrev pub IsToken : AuthToken → Type 0
IsToken t = (16 ≤ byte_length t.token) × ((t.role ≡ "admin") ⊎ (t.role ≡ "viewer"))

abbrev pub IsOidc : Option OidcConfig → Type 0
IsOidc none = Unit
IsOidc (some c) = (c.issuer ≢ "") × (c.client_id ≢ "") × (c.redirect_url ≢ "")
