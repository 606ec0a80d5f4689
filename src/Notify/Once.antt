-- ===== src/Notify/Once.antt =====
-- internal/notify/notifier.go: a reminder is sent once for each certificate and threshold.
use mathlib.Core.Path.{subst}
use mathlib.Core.List.{append-nil}
use hsm_doctor.Base.{
  ◌≡◌, refl, sym, ap, ◌∙◌, inl, inr, String, Bool, true, not, Option, none, some, List, [], ◌∷◌,
  ◌++◌, if◌then◌else◌, All-map, ◌||◌, arith, All, Bool-cases, length, ltb, ◌==◌, eq_iff, ◌&&◌,
}
use hsm_doctor.Base.Int.{ℤ, pos, eq_ℤ, eq_ℤ_iff}
use hsm_doctor.Base.Sort.{sort_by, sort_by-append}
use hsm_doctor.Base.Sort.Length.{length-sort_by}
use hsm_doctor.Base.Clock.{Format}
use hsm_doctor.Base.Fallible.{done}
use hsm_doctor.Notify.{Config, CertInfo, enabled, warn_days}
use hsm_doctor.Notify.Thresholds.{above, above-IsOrder}
use hsm_doctor.Notify.Expiry.{
  Entry, Mark, descending, crossed_threshold, reminder, entry_of, remind, remind_all, sorted_config,
  notify_cert_expiry,
}

abbrev pub same_entry : Entry → Entry → Bool
same_entry d e =
    eq_ℤ d.hsm_id e.hsm_id && d.kind == e.kind && d.ref == e.ref && eq_ℤ d.threshold e.threshold

-- A ledger that does not fail: it tells whether the entry is new, and records it.
pub record Ledger (L : Type 0) : Type 0 where
  pub mark : Mark L
  pub has : Entry → L → Bool
  pub mark_result : (e : Entry) (s : L) → (mark e s).0 ≡ done (not (has e s))
  pub mark_has : (d e : Entry) (s : L) → has d (mark e s).1 ≡ (same_entry d e || has d s)

same_entry_refl : (e : Entry) → same_entry e e ≡ true
same_entry_refl e = ground (
  arith,
  eq_ℤ_iff e.hsm_id e.hsm_id,
  eq_ℤ_iff e.threshold e.threshold,
  eq_iff e.kind e.kind,
  eq_iff e.ref e.ref,
)

module _ {L : Type 0} (ledger : Ledger L) (fmt : Format) (cfg : Config) (hsm_id : ℤ)
    (hsm_label : String) where
  abbrev entry : CertInfo → ℤ → Entry
  entry c b = entry_of ledger.mark fmt cfg hsm_id hsm_label c b

  -- No threshold is crossed, or the one that is crossed is in the ledger.
  abbrev Noted : L → CertInfo → Option ℤ → Type 0
  Noted s c none = Unit
  Noted s c (some b) = ledger.has (entry c b) s ≡ true

  abbrev Recorded : List ℤ → L → CertInfo → Type 0
  Recorded ts s c = Noted s c (crossed_threshold c.days_left ts)

  remind_has :
      (d : Entry) (c : CertInfo) (o : Option ℤ) (s : L)
      → ledger.has d s ≡ true
      → ledger.has d (remind ledger.mark fmt cfg hsm_id hsm_label c o s).1 ≡ true
  unfolding remind
  remind_has d c none s h = h
  remind_has d c (some b) s h = ground (arith, ledger.mark_has d (entry c b) s)

  -- The ledger only grows.
  remind_all_has :
      (d : Entry) (ts : List ℤ) (cs : List CertInfo) (s : L)
      → ledger.has d s ≡ true
      → ledger.has d (remind_all ledger.mark fmt cfg hsm_id hsm_label ts cs s).1 ≡ true
  unfolding remind_all
  remind_all_has d ts [] s h = h
  remind_all_has d ts (c ∷ cs) s h =
      remind_all_has d ts cs _ (remind_has d c (crossed_threshold c.days_left ts) s h)

  -- What one certificate sends: a reminder if it crosses a threshold that is not recorded yet.
  remind_sends :
      (c : CertInfo) (b : ℤ) (s : L)
      → (remind ledger.mark fmt cfg hsm_id hsm_label c (some b) s).0
        ≡ (if ledger.has (entry c b) s then [] else reminder fmt cfg hsm_label c ∷ [])
  unfolding remind
  remind_sends c b s = ground (arith, ledger.mark_result (entry c b) s)

  remind_quiet :
      (c : CertInfo) (o : Option ℤ) (s : L)
      → Noted s c o
      → (remind ledger.mark fmt cfg hsm_id hsm_label c o s).0 ≡ []
  unfolding remind
  remind_quiet c none s h = refl
  remind_quiet c (some b) s h = remind_sends c b s ∙ rw h

  remind-Noted :
      (c : CertInfo) (o : Option ℤ) (s : L)
      → Noted (remind ledger.mark fmt cfg hsm_id hsm_label c o s).1 c o
  unfolding remind
  remind-Noted c none s = tt
  remind-Noted c (some b) s =
      ground (arith, ledger.mark_has (entry c b) (entry c b) s, same_entry_refl (entry c b))

  module _ (ts : List ℤ) where
    Noted-grows :
        (c : CertInfo) (o : Option ℤ) (cs : List CertInfo) (s : L)
        → Noted s c o
        → Noted (remind_all ledger.mark fmt cfg hsm_id hsm_label ts cs s).1 c o
    Noted-grows c none cs s h = tt
    Noted-grows c (some b) cs s h = remind_all_has (entry c b) ts cs s h

    remind_all-Recorded :
        (cs : List CertInfo) (s : L)
        → All (Recorded ts (remind_all ledger.mark fmt cfg hsm_id hsm_label ts cs s).1) cs
    unfolding remind_all
    remind_all-Recorded [] s = tt
    remind_all-Recorded (c ∷ cs) s =
        let o = crossed_threshold c.days_left ts in
        let s' = (remind ledger.mark fmt cfg hsm_id hsm_label c o s).1 in
        (Noted-grows c o cs s' (remind-Noted c o s), remind_all-Recorded cs s')

    Noted-step :
        (d c : CertInfo) (o p : Option ℤ) (s : L)
        → Noted s d p
        → Noted (remind ledger.mark fmt cfg hsm_id hsm_label c o s).1 d p
    Noted-step d c o none s h = tt
    Noted-step d c o (some b) s h = remind_has (entry d b) c o s h

    remind_all-quiet :
        (cs : List CertInfo) (s : L)
        → All (Recorded ts s) cs
        → (remind_all ledger.mark fmt cfg hsm_id hsm_label ts cs s).0 ≡ []
    unfolding remind_all
    remind_all-quiet [] s h = refl
    remind_all-quiet (c ∷ cs) s (h, hs) =
        let o = crossed_threshold c.days_left ts in
        let s' = (remind ledger.mark fmt cfg hsm_id hsm_label c o s).1 in
        let q = remind_quiet c o s h in
        let later = All-map cs (λ d. Noted-step d c o (crossed_threshold d.days_left ts) s) hs in
        let q' = remind_all-quiet cs s' later in λ i. q i ++ q' i

-- Sorting the thresholds again changes nothing.
descending-descending : (ws : List ℤ) → descending (descending ws) ≡ descending ws
unfolding descending
descending-descending ws =
    ap descending (sym (append-nil (descending ws)))
    ∙ sort_by-append above-IsOrder ws []
    ∙ ap descending (append-nil ws)

abbrev days_or_default : List ℤ → List ℤ
days_or_default ws = if ltb 0 (length ws) then ws else pos 30 ∷ pos 14 ∷ pos 1 ∷ []

descending-nil : descending [] ≡ []
unfolding descending sort_by
descending-nil = refl

sorted_days_or_default :
    (ws : List ℤ) → descending (days_or_default (descending ws)) ≡ descending (days_or_default ws)
unfolding descending
sorted_days_or_default [] = ap (λ ws. descending (days_or_default ws)) descending-nil
sorted_days_or_default (w ∷ ws) =
    let same : days_or_default (descending (w ∷ ws)) ≡ descending (w ∷ ws) =
      ground (arith, length-sort_by above (w ∷ ws)) in
    let whole : w ∷ ws ≡ days_or_default (w ∷ ws) = ground arith in
    ap descending same ∙ descending-descending (w ∷ ws) ∙ ap descending whole

sorted_days :
    (cfg : Config) → descending (warn_days (sorted_config cfg)) ≡ descending (warn_days cfg)
unfolding warn_days sorted_config
sorted_days cfg = sorted_days_or_default cfg.cert_warn_days

-- With a ledger that does not fail, a second call for the same certificates, whatever thresholds
-- they have crossed, sends nothing: with the configuration and the ledger as the first call leaves
-- them.
pub notify_cert_expiry-once :
    {L : Type 0} (ledger : Ledger L) (fmt : Format) (cfg : Config) (hsm_id : ℤ) (label : String)
    (certs : List CertInfo) (s : L)
    → let (mails, s', cfg') = notify_cert_expiry ledger.mark fmt (some cfg) hsm_id label certs s in
      (notify_cert_expiry ledger.mark fmt cfg' hsm_id label certs s').0 ≡ []
unfolding notify_cert_expiry sorted_config
notify_cert_expiry-once ledger fmt cfg hsm_id label certs s =
    let ts = descending (warn_days cfg) in
    let s' = (remind_all ledger.mark fmt cfg hsm_id label ts certs s).1 in
    let recorded =
      subst (λ us. All (Recorded ledger fmt cfg hsm_id label us s') certs) (sym (sorted_days cfg))
        (remind_all-Recorded ledger fmt cfg hsm_id label ts certs s) in
    let quiet = remind_all-quiet ledger fmt (sorted_config cfg) hsm_id label _ certs s' recorded in
    elim (Bool-cases (enabled cfg.cert_expiry)) [
      | inl e ↦ rw (e, notify_cert_expiry) (rw e quiet)
      | inr e ↦ rw (e, notify_cert_expiry) (rw e)
    ]
