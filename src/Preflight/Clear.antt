-- ===== src/Preflight/Clear.antt =====
-- internal/preflight: whether each check leaves the reasons empty.
use hsm_doctor.Base.{
  ℕ, ◌≡◌, refl, String, Bool, true, false, not, Option, none, some, List, [], ◌∷◌, ◌&&◌, ◌||◌, ◌==◌,
  eqb, if◌then◌else◌, length, map, keep, any, all, arith, length-append,
}
use hsm_doctor.Base.Int.{ℤ, pos, wrap64, ltb_ℤ}
use hsm_doctor.Base.Dict.{Dict, lookup, insert, or_zero, nat_eq, lookup-insert}
use hsm_doctor.Base.Clock.{Format}
use hsm_doctor.Base.Fallible.{Fallible, done, failed}
use hsm_doctor.Inventory.{TokenInfo, Mechanism, session_capacity}
use hsm_doctor.Doctor.{StepStatus, step_counts}
use hsm_doctor.Preflight.{
  ok, warn, fail, Result, HaMember, HaStatus, TamperStatus, VendorInfo, Client, add, check_token,
  login_result, check_login, present, missing, mechanisms_result, check_mechanisms, sessions_result,
  check_sessions, probe_result, check_probe, check_tamper, out_of_sync, check_ha, check_vendor,
}

abbrev pub clear : Result → Bool
clear r = eqb (length r.reasons) 0

add_fail-clear : (name d : String) (r : Result) → clear (add name fail d r) ≡ false
unfolding add
add_fail-clear name d r = ground (arith, length-append r.reasons (d ∷ []))

add_warn-clear : (name d : String) (r : Result) → clear (add name warn d r) ≡ clear r
unfolding add
add_warn-clear name d r = refl

add_ok-clear : (name d : String) (r : Result) → clear (add name ok d r) ≡ clear r
unfolding add
add_ok-clear name d r = refl

ruleset adding = (arith, add_fail-clear, add_warn-clear, add_ok-clear)

-- No token is there, or it is not initialized.
abbrev pub token_clear : Option TokenInfo → Bool
token_clear none = false
token_clear (some t) = t.initialized

pub check_token-clear :
    (fmt : Format) (slot : ℕ) (token : Option TokenInfo) (r : Result)
    → clear (check_token fmt slot token r) ≡ (clear r && token_clear token)
unfolding check_token
check_token-clear fmt slot none r = grind adding
check_token-clear fmt slot (some t) r = grind adding

abbrev pub succeeds : {A : Type 0} → Fallible A → Bool
succeeds (done a) = true
succeeds (failed e) = false

-- A PIN that is given opens a session; without one, the token does not want a login.
abbrev pub login_clear : Client → ℕ → String → TokenInfo → Bool
login_clear c slot pin t =
    if pin == "" then not t.login_required else succeeds (c.open_session slot pin)

login_result-clear :
    (o : Fallible (Unit {0})) (r : Result) → clear (login_result o r) ≡ (clear r && succeeds o)
login_result-clear (done u) r = grind adding
login_result-clear (failed e) r = grind adding

pub check_login-clear :
    (c : Client) (slot : ℕ) (pin : String) (t : TokenInfo) (r : Result)
    → clear (check_login c slot pin (some t) r) ≡ (clear r && login_clear c slot pin t)
unfolding check_login
check_login-clear c slot pin t r = grind (adding, login_result-clear)

abbrev pub lists : List Mechanism → ℕ → Bool
lists ms code = any (λ m. eqb m.code code) ms

present-lists :
    (s : Dict ℕ Bool) (ms : List Mechanism) (code : ℕ)
    → or_zero false (lookup code (present s ms)) ≡ (or_zero false (lookup code s) || lists ms code)
unfolding present
present-lists s [] code = ground arith
present-lists s (m ∷ ms) code =
    ground (arith, present-lists (insert m.code true s) ms code, lookup-insert m.code code true s)

missing-none :
    (name : ℕ → String) (ms : List Mechanism) (required : List ℕ)
    → eqb (length (missing name (present [] ms) required)) 0 ≡ all (lists ms) required
unfolding missing lookup
missing-none name ms [] = refl
missing-none name ms (code ∷ rest) =
    ground (arith, missing-none name ms rest, present-lists [] ms code)

-- Each required mechanism is listed; a list that cannot be read does not count against the token.
abbrev pub mechanisms_clear : List ℕ → Fallible (List Mechanism) → Bool
mechanisms_clear required (failed e) = true
mechanisms_clear required (done ms) = all (lists ms) required

mechanisms_result-clear :
    (name : ℕ → String) (required : List ℕ) (o : Fallible (List Mechanism)) (r : Result)
    → clear (mechanisms_result name required o r) ≡ (clear r && mechanisms_clear required o)
unfolding mechanisms_result
mechanisms_result-clear name required (failed e) r = grind adding
mechanisms_result-clear name required (done ms) r = grind (adding, missing-none name ms required)

mechanisms_clear-nil : (o : Fallible (List Mechanism)) → mechanisms_clear [] o ≡ true
mechanisms_clear-nil (failed e) = refl
mechanisms_clear-nil (done ms) = refl

pub check_mechanisms-clear :
    (c : Client) (slot : ℕ) (required : List ℕ) (t : TokenInfo) (r : Result)
    → clear (check_mechanisms c slot required (some t) r)
      ≡ (clear r && mechanisms_clear required (c.mechanisms slot))
unfolding check_mechanisms
check_mechanisms-clear c slot [] t r = ground (arith, mechanisms_clear-nil (c.mechanisms slot))
check_mechanisms-clear c slot (code ∷ rest) t r =
    ground (arith, mechanisms_result-clear c.mechanism_name (code ∷ rest) (c.mechanisms slot) r)

-- Room for the sessions wanted, where some are wanted and the token tells how many are free.
abbrev pub room : ℤ → ℕ × Bool → Bool
room need (free, known) = not known || not (ltb_ℤ (wrap64 (pos free)) need)

abbrev pub sessions_clear : ℤ → TokenInfo → Bool
sessions_clear need t = not (ltb_ℤ (pos 0) need) || room need (session_capacity t)

sessions_result-clear :
    (need : ℤ) (p : ℕ × Bool) (r : Result)
    → clear (sessions_result need p r) ≡ (clear r && room need p)
unfolding sessions_result
sessions_result-clear need (free, false) r = grind adding
sessions_result-clear need (free, true) r = grind adding

pub check_sessions-clear :
    (need : ℤ) (t : TokenInfo) (r : Result)
    → clear (check_sessions need (some t) r) ≡ (clear r && sessions_clear need t)
unfolding check_sessions
check_sessions-clear need t r = ground (arith, sessions_result-clear need (session_capacity t) r)

abbrev pub steps_clear : Fallible (List StepStatus) → Bool
steps_clear (failed e) = false
steps_clear (done steps) = eqb (step_counts steps).failed 0

probe_result-clear :
    (o : Fallible (List StepStatus)) (r : Result)
    → clear (probe_result o r) ≡ (clear r && steps_clear o)
unfolding probe_result
probe_result-clear (failed e) r = grind adding
probe_result-clear (done steps) r = grind adding

abbrev pub probe_clear : Client → ℕ → String → Bool → Bool
probe_clear c slot pin probe = not probe || steps_clear (c.smoke_test slot pin)

pub check_probe-clear :
    (c : Client) (slot : ℕ) (pin : String) (probe : Bool) (t : TokenInfo) (r : Result)
    → clear (check_probe c slot pin probe (some t) r) ≡ (clear r && probe_clear c slot pin probe)
unfolding check_probe
check_probe-clear c slot pin probe t r =
    ground (arith, probe_result-clear (c.smoke_test slot pin) r)

abbrev pub tamper_clear : Option TamperStatus → Bool
tamper_clear none = true
tamper_clear (some t) = not t.tampered

pub check_tamper-clear :
    (o : Option TamperStatus) (r : Result) → clear (check_tamper o r) ≡ (clear r && tamper_clear o)
unfolding check_tamper
check_tamper-clear none r = ground arith
check_tamper-clear (some t) r = grind adding

-- Each member is up, and the group is not known to be out of sync.
abbrev pub ha_clear : Option HaStatus → Bool
ha_clear none = true
ha_clear (some ha) = all (λ m. m.up) ha.members && not (out_of_sync ha.in_sync)

down-none :
    (ms : List HaMember)
    → eqb (length (map (λ (m : HaMember). m.name) (keep (λ m. not m.up) ms))) 0 ≡ all (λ m. m.up) ms
down-none [] = refl
down-none (m ∷ ms) = ground (arith, down-none ms)

pub check_ha-clear :
    (o : Option HaStatus) (r : Result) → clear (check_ha o r) ≡ (clear r && ha_clear o)
unfolding check_ha
check_ha-clear none r = ground arith
check_ha-clear (some ha) r = grind (adding, down-none ha.members)

abbrev pub vendor_clear : Option VendorInfo → Bool
vendor_clear none = true
vendor_clear (some v) = tamper_clear v.tamper && ha_clear v.ha

pub check_vendor-clear :
    (o : Option VendorInfo) (r : Result) → clear (check_vendor o r) ≡ (clear r && vendor_clear o)
unfolding check_vendor
check_vendor-clear none r = ground arith
check_vendor-clear (some v) r =
    ground (arith, check_tamper-clear v.tamper r, check_ha-clear v.ha (check_tamper v.tamper r))
