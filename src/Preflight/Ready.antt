-- ===== src/Preflight/Ready.antt =====
-- internal/preflight: what decides the verdict.
use hsm_doctor.Base.{
  ℕ, ◌≡◌, ap, String, Bool, false, Option, none, some, List, ◌&&◌, if◌then◌else◌, arith,
}
use hsm_doctor.Base.Dict.{nat_eq}
use hsm_doctor.Base.Clock.{Format}
use hsm_doctor.Base.Fallible.{done}
use hsm_doctor.Inventory.{TokenInfo, SlotInfo}
use hsm_doctor.Preflight.{
  Result, Options, Client, find_token, check_token, check_login, check_mechanisms, check_sessions,
  check_probe, finalize, no_result, run_checks, run,
}
use hsm_doctor.Preflight.Clear.{
  login_clear, mechanisms_clear, sessions_clear, probe_clear, vendor_clear, check_login-clear,
  check_mechanisms-clear, check_probe-clear, check_sessions-clear, check_token-clear,
  check_vendor-clear,
}

-- The token of the slot is there and initialized, logs in, lists the required mechanisms, has room
-- for the sessions, passes the smoke test, and its appliance is neither tampered with nor degraded.
abbrev pub is_ready : Client → ℕ → String → Options → Option TokenInfo → Bool
is_ready c slot pin opts none = false
is_ready c slot pin opts (some t) =
    t.initialized
    && login_clear c slot pin t
    && mechanisms_clear opts.required_mechanisms (c.mechanisms slot)
    && sessions_clear opts.min_free_sessions t
    && probe_clear c slot pin opts.probe
    && vendor_clear opts.vendor

module _ (fmt : Format) (c : Client) (slot : ℕ) (pin : String) (opts : Options) where
  run_checks-absent : (run_checks fmt c slot pin opts none).ready ≡ false
  unfolding run_checks finalize check_login check_mechanisms check_sessions check_probe
  run_checks-absent =
      let r = check_token fmt slot none (no_result slot) in
      ground
        (arith, check_token-clear fmt slot none (no_result slot), check_vendor-clear opts.vendor r)

  run_checks-present :
      (t : TokenInfo)
      → (run_checks fmt c slot pin opts (some t)).ready ≡ is_ready c slot pin opts (some t)
  unfolding run_checks finalize
  run_checks-present t =
      let r = check_token fmt slot (some t) (no_result slot) in
      let s = check_login c slot pin (some t) r in
      let u = check_mechanisms c slot opts.required_mechanisms (some t) s in
      let v = check_sessions opts.min_free_sessions (some t) u in
      ground (
        arith,
        check_token-clear fmt slot (some t) (no_result slot),
        check_login-clear c slot pin t r,
        check_mechanisms-clear c slot opts.required_mechanisms t s,
        check_sessions-clear opts.min_free_sessions t u,
        check_probe-clear c slot pin opts.probe t v,
        check_vendor-clear opts.vendor (check_probe c slot pin opts.probe (some t) v),
      )

  run_checks-ready :
      (o : Option TokenInfo) → (run_checks fmt c slot pin opts o).ready ≡ is_ready c slot pin opts o
  run_checks-ready none = run_checks-absent
  run_checks-ready (some t) = run_checks-present t

-- Where the module lists its slots, the run returns a result, which is ready exactly when the first
-- token of the slot is there and initialized, logs in with the PIN or needs none, lists each
-- required mechanism if its list can be read, has room for the sessions if it tells, passes the
-- smoke test if one is wanted, and no appliance reports a tamper condition, a member that is down or
-- a group out of sync; and the verdict is "ready" exactly then, and "postpone" otherwise.
pub run-ready :
    (fmt : Format) (c : Client) (slot : ℕ) (pin : String) (opts : Options) (slots : List SlotInfo)
    → c.slots ≡ done slots
    → (r : Result) × (run fmt c slot pin opts ≡ done r)
      × (r.ready ≡ is_ready c slot pin opts (find_token slot slots))
      × (r.verdict
          ≡ (if is_ready c slot pin opts (find_token slot slots) then "ready" else "postpone"))
unfolding run run_checks finalize
run-ready fmt c slot pin opts slots h =
    let r = run_checks fmt c slot pin opts (find_token slot slots) in
    let e = run_checks-ready fmt c slot pin opts (find_token slot slots) in
    (r, rw h, e, ap (λ b. if b then "ready" else "postpone") e)
