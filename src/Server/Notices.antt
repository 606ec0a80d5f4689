-- ===== src/Server/Notices.antt =====
-- internal/server/history.go: what the notifier is told of a scan.
use hsm_doctor.Base.{ℕ, String, Option, none, some, List, [], ◌∷◌, ◌++◌, map}
use hsm_doctor.Base.Int.{pos}
use hsm_doctor.Base.Text.{◌+++◌}
use hsm_doctor.Base.Clock.{Time, Format}
use hsm_doctor.Inventory.{Inventory, TokenInfo}
use hsm_doctor.Certs.{Entry, ok, expiring, expired, classify}
use hsm_doctor.Notify.{Config, Mail, CertInfo, max_warn_days}
use hsm_doctor.Notify.Expiry.{Mark, notify_cert_expiry}
use hsm_doctor.Snapshot.{Diff, FieldChange}

unfoldable pub notices : List Entry → List CertInfo
notices [] = []
notices (e ∷ rest) = elim e.status [
  | ok ↦ notices rest
  | expiring ↦ notice e ∷ notices rest
  | expired ↦ notice e ∷ notices rest
]
  where
    notice : Entry → CertInfo
    notice e = record {
      label = e.label;
      subject = e.subject;
      days_left = e.days_left;
      not_after = e.not_after;
    }

abbrev pub token_label : Option TokenInfo → String
token_label none = "(no token)"
token_label (some t) = t.label

abbrev pub remind_of :
    {S : Type 0}
    → Mark S
    → Format
    → Config
    → ℕ
    → String
    → List CertInfo
    → S
    → List Mail × S × Option Config
remind_of mark fmt cfg hsm_id label [] s = ([], s, some cfg)
remind_of mark fmt cfg hsm_id label (c ∷ rest) s =
    notify_cert_expiry mark fmt (some cfg) (pos hsm_id) label (c ∷ rest) s

-- `notifyCertExpiry` of the server, with the notifier's configuration after it.
unfoldable pub notify_expiry :
    {S : Type 0}
    → Mark S
    → Format
    → Time
    → ℕ
    → Inventory
    → Option Config
    → S
    → List Mail × S × Option Config
notify_expiry mark fmt now hsm_id inv none s = ([], s, none)
notify_expiry mark fmt now hsm_id inv (some cfg) s =
    remind_of mark fmt cfg hsm_id (token_label inv.slot.token)
      (notices (classify fmt inv now (max_warn_days (some cfg)))) s

unfoldable pub drift_summary : Diff → List String
drift_summary d =
    map (λ (c : FieldChange). c.field +++ " changed " +++ c.old +++ " -> " +++ c.new)
      d.token_changes
    ++ map (λ m. "mechanism " +++ m +++ " now available") d.mechanisms_added
    ++ map (λ m. "mechanism " +++ m +++ " no longer available") d.mechanisms_removed
    ++ map (λ o. o +++ " added") d.objects_added
    ++ map (λ o. o +++ " removed") d.objects_removed
    ++ map
        (λ (c : FieldChange).
          c.object +++ ": " +++ c.field +++ " changed " +++ c.old +++ " -> " +++ c.new)
        d.object_changes
