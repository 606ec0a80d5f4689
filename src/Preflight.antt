-- ===== src/Preflight.antt =====
-- internal/preflight/preflight.go: is a token ready to make a key and to sign? The client and the
-- smoke test of internal/funtest, which drive the token, are parameters.
pub mod Clear
pub mod Ready
pub mod Reasons
use hsm_doctor.Base.{
  ℕ, String, Bool, true, false, not, Option, none, some, List, [], ◌∷◌, ◌++◌, ◌==◌, eqb, ltb,
  if◌then◌else◌, length, map, keep,
}
use hsm_doctor.Base.Int.{ℤ, pos, wrap64, ltb_ℤ}
use hsm_doctor.Base.Dict.{Dict, lookup, insert, or_zero, nat_eq}
use hsm_doctor.Base.Text.{◌+++◌, decimal, decimal_ℤ}
use hsm_doctor.Base.Clock.{Format}
use hsm_doctor.Base.Fallible.{Fallible, done, failed, ◌>>=◌}
use hsm_doctor.Inventory.{TokenInfo, SlotInfo, Mechanism, session_capacity}
use hsm_doctor.Doctor.{StepStatus, step_counts}

pub data Level : Type 0 where
  ok warn fail : Level

pub record Check : Type 0 where
  pub name : String
  pub level : Level
  pub detail : String

pub record Result : Type 0 where
  pub slot : ℕ
  pub token : String
  pub ready : Bool
  pub verdict : String
  pub checks : List Check
  pub reasons : List String

-- internal/vendors/vendor.go: the parts of `Info` that a preflight reads
pub record HaMember : Type 0 where
  pub name : String
  pub status : String
  pub up : Bool

pub record HaStatus : Type 0 where
  pub group : String
  pub in_sync : Option Bool
  pub members : List HaMember

pub record TamperStatus : Type 0 where
  pub tampered : Bool
  pub detail : String

pub record VendorInfo : Type 0 where
  pub ha : Option HaStatus
  pub tamper : Option TamperStatus

pub record Options : Type 0 where
  pub required_mechanisms : List ℕ
  pub probe : Bool
  pub min_free_sessions : ℤ
  pub vendor : Option VendorInfo

-- What the run asks of the module: its slots, a session that is closed again, the mechanisms of a
-- slot, and the statuses of the steps of the `sign-verify` profile.
pub record Client : Type 0 where
  pub slots : Fallible (List SlotInfo)
  pub open_session : ℕ → String → Fallible (Unit {0})
  pub mechanisms : ℕ → Fallible (List Mechanism)
  pub mechanism_name : ℕ → String
  pub smoke_test : ℕ → String → Fallible (List StepStatus)

unfoldable pub add : String → Level → String → Result → Result
add name fail detail r = record r {
  checks = r.checks ++ record { name = name; level = fail; detail = detail } ∷ [];
  reasons = r.reasons ++ detail ∷ [];
}
add name level detail r = record r {
  checks = r.checks ++ record { name = name; level = level; detail = detail } ∷ [];
}

pub join_from : Bool → List String → String → String
join_from later [] out = out
join_from later (v ∷ rest) out = join_from true rest ((if later then out +++ ", " else out) +++ v)

unfoldable pub join : List String → String
unfolding join_from
join s = join_from false s ""

-- The loop over the slots, which stops at the first with the number.
unfoldable pub find_token : ℕ → List SlotInfo → Option TokenInfo
find_token slot [] = none
find_token slot (s ∷ rest) = if eqb s.id slot then s.token else find_token slot rest

unfoldable pub check_token : Format → ℕ → Option TokenInfo → Result → Result
check_token fmt slot none r = add "token" fail ("no token present in slot " +++ decimal slot) r
check_token fmt slot (some t) r =
    if not t.initialized
    then add "token" fail "token is not initialized" (record r { token = t.label })
    else add "token" ok (fmt.quote t.label +++ " present and initialized")
        (record r { token = t.label })

abbrev pub login_result : Fallible (Unit {0}) → Result → Result
login_result (failed e) r = add "login" fail ("user login failed: " +++ e) r
login_result (done u) r = add "login" ok "user login succeeded" r

unfoldable pub check_login : Client → ℕ → String → Option TokenInfo → Result → Result
check_login c slot pin none r = r
check_login c slot pin (some t) r =
    if not (pin == "")
    then login_result (c.open_session slot pin) r
    else if t.login_required
    then add "login" fail "token requires login but no PIN was provided" r
    else add "login" warn "no PIN provided; login not verified" r

-- The set `present`.
pub present : Dict ℕ Bool → List Mechanism → Dict ℕ Bool
present s [] = s
present s (m ∷ ms) = present (insert m.code true s) ms

unfoldable pub missing : (ℕ → String) → Dict ℕ Bool → List ℕ → List String
missing name s [] = []
missing name s (code ∷ rest) =
    let more = missing name s rest in
    if not (or_zero false (lookup code s)) then name code ∷ more else more

unfoldable pub mechanisms_result :
    (ℕ → String) → List ℕ → Fallible (List Mechanism) → Result → Result
mechanisms_result name required (failed e) r =
    add "mechanisms" warn ("could not list mechanisms: " +++ e) r
mechanisms_result name required (done ms) r =
    let gone = missing name (present [] ms) required in
    if ltb 0 (length gone)
    then add "mechanisms" fail ("missing required mechanism(s): " +++ join gone) r
    else add "mechanisms" ok
        ("all " +++ decimal (length required) +++ " required mechanism(s) available") r

unfoldable pub check_mechanisms : Client → ℕ → List ℕ → Option TokenInfo → Result → Result
check_mechanisms c slot required none r = r
check_mechanisms c slot required (some t) r =
    if ltb 0 (length required)
    then mechanisms_result c.mechanism_name required (c.mechanisms slot) r
    else r

-- `int(free)` reads the 64 bits of the count as a signed number.
unfoldable pub sessions_result : ℤ → ℕ × Bool → Result → Result
sessions_result need (free, false) r = add "sessions" warn "token does not report a session limit" r
sessions_result need (free, true) r =
    if ltb_ℤ (wrap64 (pos free)) need
    then add "sessions" fail
        ("only " +++ decimal free +++ " free session(s), need " +++ decimal_ℤ need) r
    else add "sessions" ok (decimal free +++ " free session(s) available") r

unfoldable pub check_sessions : ℤ → Option TokenInfo → Result → Result
check_sessions need none r = r
check_sessions need (some t) r =
    if ltb_ℤ (pos 0) need then sessions_result need (session_capacity t) r else r

unfoldable pub probe_result : Fallible (List StepStatus) → Result → Result
probe_result (failed e) r = add "probe" fail ("smoke test could not run: " +++ e) r
probe_result (done steps) r =
    if ltb 0 (step_counts steps).failed
    then add "probe" fail (decimal (step_counts steps).failed +++ " smoke-test step(s) failed") r
    else add "probe" ok "key generation and signing succeeded" r

unfoldable pub check_probe : Client → ℕ → String → Bool → Option TokenInfo → Result → Result
check_probe c slot pin probe none r = r
check_probe c slot pin probe (some t) r =
    if probe then probe_result (c.smoke_test slot pin) r else r

unfoldable pub check_tamper : Option TamperStatus → Result → Result
check_tamper none r = r
check_tamper (some t) r =
    if t.tampered
    then add "tamper" fail
        (if not (t.detail == "") then t.detail else "device reports a tamper condition") r
    else r

abbrev pub out_of_sync : Option Bool → Bool
out_of_sync none = false
out_of_sync (some b) = not b

unfoldable pub check_ha : Option HaStatus → Result → Result
check_ha none r = r
check_ha (some ha) r =
    let down = map (λ m. m.name) (keep (λ m. not m.up) ha.members) in
    if ltb 0 (length down)
    then add "ha" fail ("HA member(s) unavailable: " +++ join down) r
    else if out_of_sync ha.in_sync
    then add "ha" fail "HA group is not in sync" r
    else if ltb 0 (length ha.members)
    then add "ha" ok ("all " +++ decimal (length ha.members) +++ " HA member(s) up") r
    else r

unfoldable pub check_vendor : Option VendorInfo → Result → Result
check_vendor none r = r
check_vendor (some v) r = check_ha v.ha (check_tamper v.tamper r)

unfoldable pub finalize : Result → Result
finalize r =
    let ready = eqb (length r.reasons) 0 in
    record r { ready = ready; verdict = if ready then "ready" else "postpone" }

abbrev pub no_result : ℕ → Result
no_result slot = record {
  slot = slot;
  token = "";
  ready = false;
  verdict = "postpone";
  checks = [];
  reasons = [];
}

-- What follows once the token of the slot is known.
unfoldable pub run_checks : Format → Client → ℕ → String → Options → Option TokenInfo → Result
run_checks fmt c slot pin opts token = finalize (
    check_vendor opts.vendor (
      check_probe c slot pin opts.probe token (
        check_sessions opts.min_free_sessions token (
          check_mechanisms c slot opts.required_mechanisms token
            (check_login c slot pin token (check_token fmt slot token (no_result slot)))))))

unfoldable pub run : Format → Client → ℕ → String → Options → Fallible Result
run fmt c slot pin opts = do
  slots ← c.slots
  done (run_checks fmt c slot pin opts (find_token slot slots))
