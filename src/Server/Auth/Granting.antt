-- ===== src/Server/Auth/Granting.antt =====
-- internal/server/auth.go: which requests reach the handlers.
use hsm_doctor.Base.{
  String, ◌≡◌, refl, sym, ◌≢◌, ◌⊎◌, inl, inr, ◌↔◌, true, false, Option, none, some, List, [], ◌∷◌,
  ◌==◌, Any, arith, eq_iff, Bool-cases,
}
use hsm_doctor.Base.Text.Parts.{cut_prefix}
use hsm_doctor.Server.Auth.{
  AuthToken, AuthConfig, Request, passed, refused, is_protected, is_exempt, decide, role_after,
  role_for, token_role, caller_role, authorize,
}

-- What a role may do with a method.
abbrev pub Allows : String → String → Type 0
Allows role method = (role ≡ "admin") ⊎ (role ≡ "viewer") × ((method ≡ "GET") ⊎ (method ≡ "HEAD"))

decide_iff : (role method : String) → (decide role method ≡ passed) ↔ Allows role method
decide_iff role method =
    ground
      (arith, eq_iff role "admin", eq_iff role "viewer", eq_iff method "GET", eq_iff method "HEAD")

decide-unknown_iff :
    (role method : String)
    → (decide role method ≡ refused 401) ↔ ((role ≢ "admin") × (role ≢ "viewer"))
decide-unknown_iff role method = ground (arith, eq_iff role "admin", eq_iff role "viewer")

decide-forbidden_iff :
    (role method : String)
    → (decide role method ≡ refused 403)
      ↔ ((role ≡ "viewer") × (method ≢ "GET") × (method ≢ "HEAD"))
decide-forbidden_iff role method = (
  λ e.
      ground (
        arith,
        eq_iff role "admin",
        eq_iff role "viewer",
        eq_iff method "GET",
        eq_iff method "HEAD",
      ),
  λ (v, g, h). rw v (ground (arith, eq_iff method "GET", eq_iff method "HEAD")),
)

module _ (digest : String → String) where
  -- The role is that of the session, or of a token with the digest of the bearer token.
  abbrev pub Speaks : AuthConfig → Option String → Request → String → Type 0
  Speaks c session r role =
      (session ≡ some role)
      ⊎ (token : String) × (cut_prefix r.authorization "Bearer " ≡ some token)
        × (token ≢ "")
        × Any (λ (t : AuthToken). (digest token ≡ digest t.token) × (t.role ≡ role)) c.tokens

  role_after_cases :
      (presented role found : String) (tokens : List AuthToken)
      → role_after digest presented role tokens ≡ found
      → (role ≡ found)
        ⊎ Any (λ (t : AuthToken). (digest presented ≡ digest t.token) × (t.role ≡ found)) tokens
  unfolding role_after
  role_after_cases presented role found [] h = inl h
  role_after_cases presented role found (t ∷ rest) h =
      elim (Bool-cases (digest presented == digest t.token)) [
        | inl e ↦ elim (role_after_cases presented t.role found rest (ground arith)) [
          | inl p ↦ inr (inl ((eq_iff (digest presented) (digest t.token)).0 e, p))
          | inr a ↦ inr (inr a)
        ]
        | inr e ↦ elim (role_after_cases presented role found rest (ground arith)) [
          | inl p ↦ inl p
          | inr a ↦ inr (inr a)
        ]
      ]

  token_role_cases :
      (c : AuthConfig) (bearer : Option String) (role : String)
      → token_role digest c bearer ≡ role
      → role ≢ ""
      → (token : String) × (bearer ≡ some token)
        × (token ≢ "")
        × Any (λ (t : AuthToken). (digest token ≡ digest t.token) × (t.role ≡ role)) c.tokens
  unfolding role_for
  token_role_cases c none role h n = absurd (n (sym h))
  token_role_cases c (some token) role h n = elim (Bool-cases (token == "")) [
    | inl p ↦ absurd (n (ground arith))
    | inr p ↦ elim (role_after_cases token "" role c.tokens (ground arith)) [
      | inl q ↦ absurd (n (sym q))
      | inr a ↦ (token, refl, λ q. ground (arith, eq_iff token ""), a)
    ]
  ]

  caller_role_cases :
      (c : AuthConfig) (session : Option String) (r : Request) (role : String)
      → caller_role digest c session r ≡ role
      → role ≢ ""
      → Speaks c session r role
  unfolding caller_role
  caller_role_cases c none r role h n = inr (token_role_cases c _ role h n)
  caller_role_cases c (some s) r role h n = elim (Bool-cases (s == "")) [
    | inl e ↦ inr (token_role_cases c _ role (ground arith) n)
    | inr e ↦ inl (ground arith)
  ]

  Allows-named : (role method : String) → Allows role method → role ≢ ""
  Allows-named role method (inl e) p = cc
  Allows-named role method (inr (e, _)) p = cc

  -- With authentication on, a request for a protected path that is not exempt passes only where the
  -- session's role, or that of a token with the digest of a bearer token that is not empty, allows
  -- the method: `admin` all of them, `viewer` GET and HEAD.
  pub authorize-safe :
      (c : AuthConfig) (session : Option String) (r : Request)
      → is_protected r.path ≡ true
      → is_exempt r.path ≡ false
      → authorize digest (some c) session r ≡ passed
      → (role : String) × Speaks c session r role × Allows role r.method
  unfolding authorize
  authorize-safe c session r p x h =
      let role = caller_role digest c session r in
      let a = (decide_iff role r.method).0 (ground arith) in
      (role, caller_role_cases c session r role refl (Allows-named role r.method a), a)

  -- With authentication on, a request for a protected path that is not exempt is answered with 401
  -- where neither the session nor the bearer token gives it one of the two roles, and with 403 where
  -- it is a viewer's and neither GET nor HEAD; without authentication every request passes.
  pub authorize-refused :
      (c : AuthConfig) (session : Option String) (r : Request)
      → is_protected r.path ≡ true
      → is_exempt r.path ≡ false
      → let role = caller_role digest c session r in
        ((authorize digest (some c) session r ≡ refused 401)
          ↔ ((role ≢ "admin") × (role ≢ "viewer")))
        × ((authorize digest (some c) session r ≡ refused 403)
            ↔ ((role ≡ "viewer") × (r.method ≢ "GET") × (r.method ≢ "HEAD")))
        × (authorize digest none session r ≡ passed)
  unfolding authorize
  authorize-refused c session r p x =
      let role = caller_role digest c session r in
      rw (p, x) (decide-unknown_iff role r.method, decide-forbidden_iff role r.method, refl)
