-- ===== src/Agent.antt =====
-- internal/agent/agent.go, and `ScanSlot` of internal/server/api.go: scanning the slots of a module,
-- and what a vendor's appliance adds to a report. The scan of one slot is a parameter.
pub mod Vendor
pub mod Slots
use hsm_doctor.Base.{
  ℕ, zero, suc, ◌+◌, String, Bool, false, Option, none, some, List, [], ◌∷◌, ◌&&◌, leb,
  if◌then◌else◌, keep, length, map,
}
use hsm_doctor.Base.Text.{◌+++◌, decimal}
use hsm_doctor.Base.Fallible.{Fallible, done, failed}
use hsm_doctor.Inventory.{Inventory, SlotInfo, TokenInfo, count}
use hsm_doctor.Policy.Evaluate.{Finding, Result, add_findings}
use hsm_doctor.Server.Records.{Report}
use hsm_doctor.Store.{take}

-- `report.New`, without the parts that render. The report's findings are the result's own slice.
abbrev pub new_report : Inventory → Result → Report
new_report inv res = record {
  inventory = some inv;
  score = res.score;
  counts = count inv;
  findings = res.findings;
}

-- The slice of findings after the result's was appended to and sorted in place: the report keeps its
-- length, and where the array had room for the new findings it is the same array.
unfoldable pub seen_findings : ℕ → List Finding → List Finding → List Finding → List Finding
seen_findings capacity old [] merged = old
seen_findings capacity old (f ∷ extra) merged =
    if leb (length old + length (f ∷ extra)) capacity then take (length old) merged else old

-- `capacity` is that of the slice of findings, `extra` the findings of the vendor where there is one.
unfoldable pub with_vendor : ℕ → Option (List Finding) → Inventory → Result → Report × Result
with_vendor capacity none inv res = (new_report inv res, res)
with_vendor capacity (some extra) inv res =
    let res' = add_findings res extra in
    (
      record (new_report inv res) {
        findings = seen_findings capacity res.findings extra res'.findings;
        score = res'.score;
      },
      res',
    )

abbrev is_initialized : Option TokenInfo → Bool
is_initialized none = false
is_initialized (some t) = t.initialized

-- The slots that hold an initialized token.
unfoldable pub token_slots : List SlotInfo → List ℕ
token_slots slots =
    map (λ (s : SlotInfo). s.id)
      (keep (λ (s : SlotInfo). s.token_present && is_initialized s.token) slots)

module _ (scan : ℕ → Fallible Report) where
  -- The reports and the errors, each in the order of the slots.
  unfoldable pub scan_slots : List ℕ → List Report × List String
  scan_slots [] = ([], [])
  scan_slots (id ∷ rest) =
      let (reports, errs) = scan_slots rest in
      elim (scan id) [
        | done rep ↦ (rep ∷ reports, errs)
        | failed e ↦ (reports, ("scanning slot " +++ decimal id +++ ": " +++ e) ∷ errs)
      ]

  -- `slot` is the one asked for, where one is; `opened` is whether the module opens, `slots` its list.
  unfoldable pub collect_reports :
      Option ℕ → Fallible (Unit {0}) → Fallible (List SlotInfo) → List Report × List String
  collect_reports slot (failed e) slots = ([], e ∷ [])
  collect_reports (some id) (done _) slots = scan_slots (id ∷ [])
  collect_reports none (done _) (failed e) = ([], e ∷ [])
  collect_reports none (done _) (done slots) = scan_slots (token_slots slots)
