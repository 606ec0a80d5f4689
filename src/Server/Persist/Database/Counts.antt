-- ===== src/Server/Persist/Database/Counts.antt =====
-- internal/server/history.go: the record that is made of a report.
use hsm_doctor.Base.{ℕ, String, ◌≡◌, refl, ap, ◌∙◌, List, [], ◌∷◌, arith}
use hsm_doctor.Base.Clock.{Time}
use hsm_doctor.Inventory.{Inventory}
use hsm_doctor.Store.{ScanRecord}
use hsm_doctor.Server.Records.{Report, scan_of}
use hsm_doctor.Base.{◌+◌, total}
use hsm_doctor.Base.Int.{ℤ}
use hsm_doctor.Policy.Severity.{Severity, critical, high, medium, low, info, unknown}
use hsm_doctor.Policy.Evaluate.{Finding}
use hsm_doctor.Server.Records.{counted, count_findings}

-- How many of the findings have a severity that the indicator counts.
abbrev pub how_many : (Severity → ℕ) → List Finding → ℕ
how_many ind fs = total (λ f. ind f.severity) fs

abbrev pub is_critical : Severity → ℕ
is_critical critical = 1
is_critical _ = 0

abbrev pub is_high : Severity → ℕ
is_high high = 1
is_high _ = 0

abbrev pub is_medium : Severity → ℕ
is_medium medium = 1
is_medium _ = 0

abbrev pub is_low : Severity → ℕ
is_low low = 1
is_low _ = 0

-- The scan is that of the report, under the module's id.
abbrev pub IsScanOf : ℕ → Inventory → Report → String → ℕ → ScanRecord → Type 0
IsScanOf hsm_id inv rep blob id scan =
    (scan.id ≡ id)
    × (scan.hsm_id ≡ hsm_id)
    × (scan.taken_at ≡ inv.scanned_at)
    × (scan.score ≡ rep.score)
    × (scan.report ≡ blob)
    × (scan.private_keys ≡ rep.counts.private_keys)
    × (scan.public_keys ≡ rep.counts.public_keys)
    × (scan.secret_keys ≡ rep.counts.secret_keys)
    × (scan.certificates ≡ rep.counts.certificates)
    × (scan.critical ≡ how_many is_critical rep.findings)
    × (scan.high ≡ how_many is_high rep.findings)
    × (scan.medium ≡ how_many is_medium rep.findings)
    × (scan.low ≡ how_many is_low rep.findings)

-- A number of the record that the loop over the findings counts.
module _ (field : ScanRecord → ℕ) (ind : Severity → ℕ)
    (step : (v : Severity) (r : ScanRecord) → field (counted v r) ≡ field r + ind v) where
  count_findings-field :
      (fs : List Finding) (r : ScanRecord) → field (count_findings r fs) ≡ field r + how_many ind fs
  unfolding count_findings
  count_findings-field [] r = omega arith
  count_findings-field (f ∷ fs) r =
      omega (arith, count_findings-field fs (counted f.severity r), step f.severity r)

  count_findings-zero :
      (fs : List Finding) (r : ScanRecord)
      → field r ≡ 0
      → field (count_findings r fs) ≡ how_many ind fs
  count_findings-zero fs r z = omega (arith, count_findings-field fs r, z)

-- The rest of the record, which it leaves.
abbrev Rest : Type 0
Rest = ℕ × Time × ℤ × String × ℕ × ℕ × ℕ × ℕ

abbrev rest : ScanRecord → Rest
rest r = (
  r.hsm_id, r.taken_at, r.score, r.report, r.private_keys, r.public_keys, r.secret_keys,
  r.certificates,
)

counted-rest : (v : Severity) (r : ScanRecord) → rest (counted v r) ≡ rest r
counted-rest critical r = refl
counted-rest high r = refl
counted-rest medium r = refl
counted-rest low r = refl
counted-rest info r = refl
counted-rest (unknown s) r = refl

count_findings-rest : (fs : List Finding) (r : ScanRecord) → rest (count_findings r fs) ≡ rest r
unfolding count_findings
count_findings-rest [] r = refl
count_findings-rest (f ∷ fs) r =
    count_findings-rest fs (counted f.severity r) ∙ counted-rest f.severity r

counted-critical :
    (v : Severity) (r : ScanRecord) → (counted v r).critical ≡ r.critical + is_critical v
counted-critical critical r = refl
counted-critical high r = omega arith
counted-critical medium r = omega arith
counted-critical low r = omega arith
counted-critical info r = omega arith
counted-critical (unknown s) r = omega arith

counted-high : (v : Severity) (r : ScanRecord) → (counted v r).high ≡ r.high + is_high v
counted-high critical r = omega arith
counted-high high r = refl
counted-high medium r = omega arith
counted-high low r = omega arith
counted-high info r = omega arith
counted-high (unknown s) r = omega arith

counted-medium : (v : Severity) (r : ScanRecord) → (counted v r).medium ≡ r.medium + is_medium v
counted-medium critical r = omega arith
counted-medium high r = omega arith
counted-medium medium r = refl
counted-medium low r = omega arith
counted-medium info r = omega arith
counted-medium (unknown s) r = omega arith

counted-low : (v : Severity) (r : ScanRecord) → (counted v r).low ≡ r.low + is_low v
counted-low critical r = omega arith
counted-low high r = omega arith
counted-low medium r = omega arith
counted-low low r = refl
counted-low info r = omega arith
counted-low (unknown s) r = omega arith

pub scan_of-IsScanOf :
    (hsm_id : ℕ) (inv : Inventory) (rep : Report) (blob : String) (id : ℕ)
    → IsScanOf hsm_id inv rep blob id (record (scan_of hsm_id inv rep blob) { id = id })
scan_of-IsScanOf hsm_id inv rep blob id =
    let same = count_findings-rest rep.findings _ in
    (
      refl,
      ap (λ (x : Rest). x.0) same,
      ap (λ (x : Rest). x.1) same,
      ap (λ (x : Rest). x.2) same,
      ap (λ (x : Rest). x.3) same,
      ap (λ (x : Rest). x.4) same,
      ap (λ (x : Rest). x.5) same,
      ap (λ (x : Rest). x.6) same,
      ap (λ (x : Rest). x.7) same,
      count_findings-zero (λ r. r.critical) is_critical counted-critical rep.findings _ refl,
      count_findings-zero (λ r. r.high) is_high counted-high rep.findings _ refl,
      count_findings-zero (λ r. r.medium) is_medium counted-medium rep.findings _ refl,
      count_findings-zero (λ r. r.low) is_low counted-low rep.findings _ refl,
    )
