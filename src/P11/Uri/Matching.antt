-- ===== src/P11/Uri/Matching.antt =====
-- internal/p11/uri.go: the slot that a URI names.
use hsm_doctor.Base.{String, ◌≡◌, ◌⊎◌, true, some}
use hsm_doctor.Inventory.{SlotInfo, TokenInfo}
use hsm_doctor.P11.Uri.{Uri}

abbrev pub Agrees : String → String → Type 0
Agrees wanted value = (wanted ≡ "") ⊎ (value ≡ wanted)

-- Each attribute that the URI gives is the token's.
abbrev pub Fits : Uri → TokenInfo → Type 0
Fits u t =
    Agrees u.token t.label
    × Agrees u.serial t.serial_number
    × Agrees u.manufacturer t.manufacturer
    × Agrees u.model t.model

abbrev pub Matches : Uri → SlotInfo → Type 0
Matches u s = (s.token_present ≡ true) × (t : TokenInfo) × (s.token ≡ some t) × Fits u t
