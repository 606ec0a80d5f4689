-- ===== src/Server/Session.antt =====
-- internal/server/oidc.go: the signed cookie of a session. Base64, the HMAC under the server's key and
-- JSON are parameters.
use mathlib.Core.Path.{subst}
use hsm_doctor.Base.{
  ◌≡◌, refl, ap, ◌∙◌, String, true, false, Option, none, some, ◌==◌, eqb, arith, eq_iff,
  if◌then◌else◌, Bool-cases, inl, inr, Option-cases, ◌&&◌,
}
use hsm_doctor.Base.Int.{ℤ, leb_ℤ, ltb_ℤ}
use hsm_doctor.Base.Text.{◌+++◌}
use hsm_doctor.Base.Text.Parts.{cut_at}
use text.Mathlib.TextLemmas.{nil-append, cons-append}
use Prim.Native.Char.{code}

pub record Session : Type 0 where
  pub subject : String
  pub role : String
  pub expiry : ℤ

module _ (encode : String → String) (decode : String → Option String) (mac : String → String) where
  unfoldable pub sign : String → String
  sign value = encode value +++ "." +++ encode (mac value)

  abbrev pub checked : Option String → Option String → Option String
  checked none m = none
  checked (some value) none = none
  checked (some value) (some m) = if m == mac value then some value else none

  -- `splitDot` cuts at the first dot.
  unfoldable pub unsign : String → Option String
  unsign cookie = elim (cut_at b'.' cookie) [
    | none ↦ none
    | some (value, m) ↦ checked (decode value) (decode m)
  ]

  module _ (parse : String → Option Session) where
    abbrev pub current : ℤ → Option Session → Option Session
    current now none = none
    current now (some s) = if leb_ℤ s.expiry now then none else some s

    abbrev pub parsed : Option String → Option Session
    parsed none = none
    parsed (some raw) = parse raw

    abbrev unsigned : Option String → Option String
    unsigned none = none
    unsigned (some cookie) = unsign cookie

    -- `cookie` is the session cookie of the request, `now` the clock in seconds.
    unfoldable pub session_from_request : ℤ → Option String → Option Session
    session_from_request now cookie = current now (parsed (unsigned cookie))

cut_at-here :
    (dot t : String)
    → (elim dot [ String.[] ↦ false | String.◌∷◌ c s ↦ eqb (code c) b'.' && s == "" ]) ≡ true
    → cut_at b'.' (dot +++ t) ≡ some ("", t)
unfolding cut_at
cut_at-here String.[] t e = cc
cut_at-here (String.◌∷◌ c s) t e =
    let p : s ≡ "" = ground (arith, eq_iff s "") in
    let q : eqb (code c) b'.' ≡ true = ground arith in
    rw (cons-append c s t, q, p, nil-append t) refl

cut_at-append : (s t : String) → cut_at b'.' s ≡ none → cut_at b'.' (s +++ "." +++ t) ≡ some (s, t)
unfolding cut_at
cut_at-append String.[] t e = rw (nil-append ("." +++ t)) (cut_at-here "." t refl)
cut_at-append (String.◌∷◌ c s) t e = elim (Bool-cases (eqb (code c) b'.')) [
  | inl p ↦ ground arith
  | inr p ↦ elim (Option-cases (cut_at b'.' s)) [
    | inl n ↦ rw (cons-append c s ("." +++ t), p, cut_at-append s t n) refl
    | inr ((a, b), n) ↦ ground arith
  ]
]

module _ (encode : String → String) (decode : String → Option String) (mac : String → String) where
  -- Where Base64 gives the value and its MAC back, and writes no dot for the value, `unsign` gives back
  -- what `sign` signed.
  pub unsign-sign :
      (value : String)
      → decode (encode value) ≡ some value
      → decode (encode (mac value)) ≡ some (mac value)
      → cut_at b'.' (encode value) ≡ none
      → unsign encode decode mac (sign encode decode mac value) ≡ some value
  unfolding unsign sign
  unsign-sign value d e n =
      rw
        (
          unsign,
          cut_at-append (encode value) (encode (mac value)) n,
          d,
          e,
          (eq_iff (mac value) (mac value)).1 refl,
        )
        refl

  checked-some :
      (value m : Option String) (raw : String)
      → checked encode decode mac value m ≡ some raw
      → (value ≡ some raw) × (m ≡ some (mac raw))
  checked-some none m raw h = cc
  checked-some (some value) none raw h = cc
  checked-some (some value) (some m) raw h = elim (Bool-cases (m == mac value)) [
    | inr e ↦ absurd (ground arith)
    | inl e ↦
        let q : value ≡ raw = ground arith in
        (ap some q, ap some ((eq_iff m (mac value)).0 e ∙ ap mac q))
  ]

  unsign-some :
      (c raw : String)
      → unsign encode decode mac c ≡ some raw
      → (value : String) × (m : String) × (cut_at b'.' c ≡ some (value, m))
        × (decode value ≡ some raw)
        × (decode m ≡ some (mac raw))
  unfolding unsign
  unsign-some c raw h = elim (Option-cases (cut_at b'.' c)) [
    | inl e ↦ absurd (ground arith)
    | inr ((value, m), e) ↦
        let (d, d') = checked-some (decode value) (decode m) raw (ground arith) in
        (value, m, e, d, d')
  ]

  module _ (parse : String → Option Session) where
    current-some :
        (now : ℤ) (o : Option Session) (s : Session)
        → current encode decode mac parse now o ≡ some s
        → (ltb_ℤ now s.expiry ≡ true) × (o ≡ some s)
    current-some now none s h = cc
    current-some now (some t) s h = elim (Bool-cases (leb_ℤ t.expiry now)) [
      | inl e ↦ absurd (ground arith)
      | inr e ↦
          let q : t ≡ s = ground arith in
          (subst (λ x. ltb_ℤ now x.expiry ≡ true) q (ground arith), ap some q)
    ]

    parsed-some :
        (o : Option String) (s : Session)
        → parsed encode decode mac parse o ≡ some s
        → (raw : String) × (o ≡ some raw) × (parse raw ≡ some s)
    parsed-some none s h = cc
    parsed-some (some raw) s h = (raw, refl, h)

    -- A session is taken only from a cookie that carries a value with its MAC, and only before it
    -- expires.
    pub session_from_request-safe :
        (now : ℤ) (cookie : Option String) (s : Session)
        → session_from_request encode decode mac parse now cookie ≡ some s
        → (ltb_ℤ now s.expiry ≡ true)
          × (c : String) × (value : String) × (m : String) × (raw : String) × (cookie ≡ some c)
          × (cut_at b'.' c ≡ some (value, m))
          × (decode value ≡ some raw)
          × (decode m ≡ some (mac raw))
          × (parse raw ≡ some s)
    unfolding session_from_request
    session_from_request-safe now none s h = cc
    session_from_request-safe now (some c) s h =
        let (x, y) =
          current-some now (parsed encode decode mac parse (unsign encode decode mac c)) s h in
        let (raw, z, p) = parsed-some (unsign encode decode mac c) s y in
        let (value, m, a, b, d) = unsign-some c raw z in (x, c, value, m, raw, refl, a, b, d, p)
