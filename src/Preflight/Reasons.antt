-- ===== src/Preflight/Reasons.antt =====
-- internal/preflight: the reasons of a result against its checks.
use mathlib.Core.Path.{subst}
use mathlib.Core.List.{append-nil, map-append}
use hsm_doctor.Base.{
  ℕ, suc, ◌≡◌, refl, ◌∙◌, ap, String, Bool, true, false, Option, none, some, List, [], ◌∷◌, ◌++◌,
  map, keep, arith, keep-append, eqb, length,
}
use hsm_doctor.Base.Int.{ℤ}
use hsm_doctor.Base.Clock.{Format}
use hsm_doctor.Base.Fallible.{Fallible, done, failed, >>=-eq-done}
use hsm_doctor.Inventory.{TokenInfo, Mechanism}
use hsm_doctor.Doctor.{StepStatus}
use hsm_doctor.Preflight.{
  Level, ok, warn, fail, Check, Result, HaStatus, TamperStatus, VendorInfo, Options, Client, add,
  find_token, check_token, login_result, check_login, mechanisms_result, check_mechanisms,
  sessions_result, check_sessions, probe_result, check_probe, check_tamper, check_ha, check_vendor,
  finalize, no_result, run_checks, run,
}

abbrev pub is_fail : Check → Bool
is_fail c = elim c.level [ fail ↦ true | _ ↦ false ]

abbrev pub failures : List Check → List String
failures cs = map (λ (c : Check). c.detail) (keep is_fail cs)

failures-append : (cs ds : List Check) → failures (cs ++ ds) ≡ failures cs ++ failures ds
failures-append cs ds =
    ap (map (λ (c : Check). c.detail)) (keep-append is_fail cs ds) ∙ map-append _ _ _

abbrev pub IsFaithful : Result → Type 0
IsFaithful r = r.reasons ≡ failures r.checks

add-IsFaithful :
    (name : String) (l : Level) (d : String) (r : Result)
    → IsFaithful r
    → IsFaithful (add name l d r)
unfolding add
add-IsFaithful name ok d r h =
    let c : Check = record { name = name; level = ok; detail = d } in
    ground (arith, failures-append r.checks (c ∷ []), append-nil (failures r.checks))
add-IsFaithful name warn d r h =
    let c : Check = record { name = name; level = warn; detail = d } in
    ground (arith, failures-append r.checks (c ∷ []), append-nil (failures r.checks))
add-IsFaithful name fail d r h =
    let c : Check = record { name = name; level = fail; detail = d } in
    ground (arith, failures-append r.checks (c ∷ []))

check_token-IsFaithful :
    (fmt : Format) (slot : ℕ) (o : Option TokenInfo) (r : Result)
    → IsFaithful r
    → IsFaithful (check_token fmt slot o r)
unfolding check_token
check_token-IsFaithful fmt slot none r h = add-IsFaithful _ _ _ r h
check_token-IsFaithful fmt slot (some t) r h = grind (arith, add-IsFaithful)

login_result-IsFaithful :
    (o : Fallible (Unit {0})) (r : Result) → IsFaithful r → IsFaithful (login_result o r)
login_result-IsFaithful (done u) r h = add-IsFaithful _ _ _ r h
login_result-IsFaithful (failed e) r h = add-IsFaithful _ _ _ r h

check_login-IsFaithful :
    (c : Client) (slot : ℕ) (pin : String) (o : Option TokenInfo) (r : Result)
    → IsFaithful r
    → IsFaithful (check_login c slot pin o r)
unfolding check_login
check_login-IsFaithful c slot pin none r h = h
check_login-IsFaithful c slot pin (some t) r h =
    grind (arith, add-IsFaithful, login_result-IsFaithful)

mechanisms_result-IsFaithful :
    (name : ℕ → String) (required : List ℕ) (o : Fallible (List Mechanism)) (r : Result)
    → IsFaithful r
    → IsFaithful (mechanisms_result name required o r)
unfolding mechanisms_result
mechanisms_result-IsFaithful name required (failed e) r h = add-IsFaithful _ _ _ r h
mechanisms_result-IsFaithful name required (done ms) r h = grind (arith, add-IsFaithful)

check_mechanisms-IsFaithful :
    (c : Client) (slot : ℕ) (required : List ℕ) (o : Option TokenInfo) (r : Result)
    → IsFaithful r
    → IsFaithful (check_mechanisms c slot required o r)
unfolding check_mechanisms
check_mechanisms-IsFaithful c slot required none r h = h
check_mechanisms-IsFaithful c slot required (some t) r h =
    grind (arith, mechanisms_result-IsFaithful)

sessions_result-IsFaithful :
    (need : ℤ) (p : ℕ × Bool) (r : Result) → IsFaithful r → IsFaithful (sessions_result need p r)
unfolding sessions_result
sessions_result-IsFaithful need (free, false) r h = add-IsFaithful _ _ _ r h
sessions_result-IsFaithful need (free, true) r h = grind (arith, add-IsFaithful)

check_sessions-IsFaithful :
    (need : ℤ) (o : Option TokenInfo) (r : Result)
    → IsFaithful r
    → IsFaithful (check_sessions need o r)
unfolding check_sessions
check_sessions-IsFaithful need none r h = h
check_sessions-IsFaithful need (some t) r h = grind (arith, sessions_result-IsFaithful)

probe_result-IsFaithful :
    (o : Fallible (List StepStatus)) (r : Result) → IsFaithful r → IsFaithful (probe_result o r)
unfolding probe_result
probe_result-IsFaithful (failed e) r h = add-IsFaithful _ _ _ r h
probe_result-IsFaithful (done steps) r h = grind (arith, add-IsFaithful)

check_probe-IsFaithful :
    (c : Client) (slot : ℕ) (pin : String) (probe : Bool) (o : Option TokenInfo) (r : Result)
    → IsFaithful r
    → IsFaithful (check_probe c slot pin probe o r)
unfolding check_probe
check_probe-IsFaithful c slot pin probe none r h = h
check_probe-IsFaithful c slot pin probe (some t) r h = grind (arith, probe_result-IsFaithful)

check_tamper-IsFaithful :
    (o : Option TamperStatus) (r : Result) → IsFaithful r → IsFaithful (check_tamper o r)
unfolding check_tamper
check_tamper-IsFaithful none r h = h
check_tamper-IsFaithful (some t) r h = grind (arith, add-IsFaithful)

check_ha-IsFaithful : (o : Option HaStatus) (r : Result) → IsFaithful r → IsFaithful (check_ha o r)
unfolding check_ha
check_ha-IsFaithful none r h = h
check_ha-IsFaithful (some ha) r h = grind (arith, add-IsFaithful)

check_vendor-IsFaithful :
    (o : Option VendorInfo) (r : Result) → IsFaithful r → IsFaithful (check_vendor o r)
unfolding check_vendor
check_vendor-IsFaithful none r h = h
check_vendor-IsFaithful (some v) r h =
    check_ha-IsFaithful v.ha _ (check_tamper-IsFaithful v.tamper r h)

run_checks-IsFaithful :
    (fmt : Format) (c : Client) (slot : ℕ) (pin : String) (opts : Options) (o : Option TokenInfo)
    → IsFaithful (run_checks fmt c slot pin opts o)
unfolding run_checks finalize
run_checks-IsFaithful fmt c slot pin opts o = check_vendor-IsFaithful opts.vendor _ (
    check_probe-IsFaithful c slot pin opts.probe o _ (
      check_sessions-IsFaithful opts.min_free_sessions o _ (
        check_mechanisms-IsFaithful c slot opts.required_mechanisms o _ (
          check_login-IsFaithful c slot pin o _
            (check_token-IsFaithful fmt slot o (no_result slot) refl)))))

length-map {ℓ κ} : {A : Type ℓ} {B : Type κ} (f : A → B) (l : List A) → length (map f l) ≡ length l
length-map f [] = refl
length-map f (x ∷ l) = ap suc (length-map f l)

abbrev pub IsJudged : Result → Type 0
IsJudged r = (r.reasons ≡ failures r.checks) × (r.ready ≡ eqb (length (keep is_fail r.checks)) 0)

run_checks-IsJudged :
    (fmt : Format) (c : Client) (slot : ℕ) (pin : String) (opts : Options) (o : Option TokenInfo)
    → IsJudged (run_checks fmt c slot pin opts o)
unfolding run_checks finalize
run_checks-IsJudged fmt c slot pin opts o =
    let r = run_checks fmt c slot pin opts o in
    let h = run_checks-IsFaithful fmt c slot pin opts o in
    (
      h,
      ap (λ l. eqb l 0)
          (ap length h ∙ length-map (λ (c : Check). c.detail) (keep is_fail r.checks)),
    )

-- The reasons of a result are the details of the checks that failed, in order, and it is ready
-- exactly when no check failed; in particular a warning never postpones.
pub run-reasons :
    (fmt : Format) (c : Client) (slot : ℕ) (pin : String) (opts : Options) {r : Result}
    → run fmt c slot pin opts ≡ done r
    → (r.reasons ≡ failures r.checks) × (r.ready ≡ eqb (length (keep is_fail r.checks)) 0)
unfolding run
run-reasons fmt c slot pin opts {r} h =
    let (slots, _, e) = >>=-eq-done c.slots _ h in
    let q : run_checks fmt c slot pin opts (find_token slot slots) ≡ r = cc in
    subst IsJudged q (run_checks-IsJudged fmt c slot pin opts (find_token slot slots))
