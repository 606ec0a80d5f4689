-- ===== src/Agent/Vendor.antt =====
-- internal/server/api.go and internal/agent/agent.go: the findings of a vendor's appliance.
use hsm_doctor.Base.{
  ℕ, zero, suc, ◌+◌, ◌≤◌, ◌≡◌, refl, inl, inr, some, List, [], ◌∷◌, ◌++◌, leb, length,
  length-append, arith, Bool-cases,
}
use hsm_doctor.Base.Sort.Length.{length-sort_by}
use hsm_doctor.Inventory.{Inventory}
use hsm_doctor.Policy.Evaluate.{Finding, Result, add_findings, sort_findings}
use hsm_doctor.Store.{take}
use hsm_doctor.Agent.{seen_findings, with_vendor}

length-take_all : {A : Type 0} (n : ℕ) (xs : List A) → n ≤ length xs → length (take n xs) ≡ n
unfolding take
length-take_all zero xs h = refl
length-take_all (suc n) [] h = absurd (omega arith)
length-take_all (suc n) (x ∷ xs) h = omega (arith, length-take_all n xs (omega arith))

length-sort_findings : (fs : List Finding) → length (sort_findings fs) ≡ length fs
unfolding sort_findings
length-sort_findings fs = length-sort_by _ fs

-- With a vendor's findings the report has the score of the merged result, but lists fewer findings
-- than it: as many fewer as the vendor reported.
pub with_vendor-short :
    (capacity : ℕ) (extra : List Finding) (inv : Inventory) (res : Result)
    → let (rep, res') = with_vendor capacity (some extra) inv res in
      (rep.score ≡ res'.score) × (length rep.findings + length extra ≡ length res'.findings)
unfolding with_vendor seen_findings add_findings
with_vendor-short capacity [] inv res = (refl, omega arith)
with_vendor-short capacity (f ∷ extra) inv res =
    let merged = sort_findings (res.findings ++ f ∷ extra) in
    let n : length merged ≡ length res.findings + length (f ∷ extra) = omega (
      arith,
      length-sort_findings (res.findings ++ f ∷ extra),
      length-append res.findings (f ∷ extra),
    ) in
    let m = length-take_all (length res.findings) merged (omega arith) in
    elim (Bool-cases (leb (length res.findings + length (f ∷ extra)) capacity)) [
      | inl e ↦ (refl, rw (seen_findings, e) (omega arith))
      | inr e ↦ (refl, rw (seen_findings, e) (omega arith))
    ]
