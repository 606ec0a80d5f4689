-- ===== src/Agent/Slots.antt =====
-- internal/agent/agent.go: one failing slot does not keep the others from being reported.
use hsm_doctor.Base.{
  ℕ, ◌+◌, ◌≡◌, refl, sym, ap, inl, inr, ◌↔◌, List, [], ◌∷◌, length, Any, arith, Elem,
}
use hsm_doctor.Base.Fallible.{Fallible, done, Fallible-cases}
use hsm_doctor.Server.Records.{Report}
use hsm_doctor.Agent.{scan_slots}

-- Each slot is reported or has an error, and a report is in the result just where it is that of one of
-- the slots, whatever happened to the others.
pub scan_slots-Elem_iff :
    (scan : ℕ → Fallible Report) (ids : List ℕ) (rep : Report)
    → let (reports, errs) = scan_slots scan ids in
      (length reports + length errs ≡ length ids)
      × (Elem rep reports ↔ Any (λ id. scan id ≡ done rep) ids)
unfolding scan_slots
scan_slots-Elem_iff scan [] rep = (refl, (λ h. h, λ h. h))
scan_slots-Elem_iff scan (id ∷ ids) rep =
    let (n, (to, from)) = scan_slots-Elem_iff scan ids rep in
    elim (Fallible-cases (scan id)) [
      | inl (r, e) ↦
          rw (scan_slots, e)
            (
              omega arith,
              (
                elim [ inl q ↦ inl (ap done (sym q)) | inr a ↦ inr (to a) ],
                elim [ inl q ↦ inl (ground arith) | inr a ↦ inr (from a) ],
              ),
            )
      | inr (m, e) ↦
          rw (scan_slots, e) (omega arith, (λ a. inr (to a), elim [ inl q ↦ cc | inr a ↦ from a ]))
    ]
