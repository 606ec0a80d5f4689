-- ===== src/Trace/Effects/Pending.antt =====
-- internal/trace/analyze.go: what the map from sessions holds after a trace, said of the events
-- directly: the sequence number that was put last and not taken away since.
use mathlib.Core.Logic.{◌≢◌}
use hsm_doctor.Base.{ℕ, ◌≡◌, ◌↔◌, ◌⊎◌, inl, inr, some, List, [], ◌∷◌, arith, All, Elem}
use hsm_doctor.Base.Dict.{Dict, lookup, lookup-insert, lookup-erase, nat_eq, values}
use hsm_doctor.Base.Dict.Unique.{IsUnique, insert-IsUnique, erase-IsUnique, values-Elem_iff}
use hsm_doctor.Trace.Event.{Event}
use hsm_doctor.Trace.Effects.{Effect, put, drop_key, reset, leave, act, run}

-- The effect leaves the entry of `k` alone.
abbrev pub IsSilent : ℕ → Effect → Type 0
IsSilent k (put j v) = j ≢ k
IsSilent k (drop_key j) = j ≢ k
IsSilent k reset = ⊥
IsSilent k leave = Unit

act_iff :
    (x : Effect) (m : Dict ℕ ℕ) (k v : ℕ)
    → (lookup k (act x m) ≡ some v) ↔ ((x ≡ put k v) ⊎ (lookup k m ≡ some v) × IsSilent k x)
unfolding act lookup
act_iff (put j w) m k v = ground (arith, lookup-insert j k w m)
act_iff (drop_key j) m k v = ground (arith, lookup-erase j k m)
act_iff reset m k v = ground arith
act_iff leave m k v = (λ e. inr (e, tt), elim [ inl p ↦ cc | inr h ↦ h.0 ])

module _ (effect : Event → Effect) where
  abbrev pub IsQuiet : ℕ → List Event → Type 0
  IsQuiet k = All (λ e. IsSilent k (effect e))

  -- Some event puts `v` under `k`, and no later event touches `k`.
  abbrev pub IsPending : ℕ → ℕ → List Event → Type 0
  IsPending k v [] = ⊥
  IsPending k v (e ∷ es) = (effect e ≡ put k v) × IsQuiet k es ⊎ IsPending k v es

  run_iff :
      (k v : ℕ) (m : Dict ℕ ℕ) (es : List Event)
      → (lookup k (run effect m es) ≡ some v)
        ↔ ((lookup k m ≡ some v) × IsQuiet k es ⊎ IsPending k v es)
  unfolding run
  run_iff k v m [] = (λ h. inl (h, tt), elim [ inl h ↦ h.0 | inr n ↦ absurd n ])
  run_iff k v m (e ∷ es) =
      let (to, from) = run_iff k v (act (effect e) m) es in
      let (to', from') = act_iff (effect e) m k v in
      (
        λ h. elim (to h) [
          | inl (now, quiet) ↦ elim (to' now) [
            | inl p ↦ inr (inl (p, quiet))
            | inr (old, silent) ↦ inl (old, (silent, quiet))
          ]
          | inr later ↦ inr (inr later)
        ],
        elim [
          | inl (old, (silent, quiet)) ↦ from (inl (from' (inr (old, silent)), quiet))
          | inr h ↦ elim h [
            | inl (p, quiet) ↦ from (inl (from' (inl p), quiet))
            | inr later ↦ from (inr later)
          ]
        ],
      )

  act-IsUnique : (x : Effect) (m : Dict ℕ ℕ) → IsUnique m → IsUnique (act x m)
  unfolding act
  act-IsUnique (put k v) m u = insert-IsUnique k v m u
  act-IsUnique (drop_key k) m u = erase-IsUnique k m u
  act-IsUnique reset m u = tt
  act-IsUnique leave m u = u

  run-IsUnique : (m : Dict ℕ ℕ) (es : List Event) → IsUnique m → IsUnique (run effect m es)
  unfolding run
  run-IsUnique m [] u = u
  run-IsUnique m (e ∷ es) u = run-IsUnique (act (effect e) m) es (act-IsUnique (effect e) m u)

  pub run-values_iff :
      (es : List Event) (v : ℕ) → Elem v (values (run effect [] es)) ↔ ((k : ℕ) × IsPending k v es)
  unfolding lookup
  run-values_iff es v =
      let (to, from) = values-Elem_iff (run effect [] es) v (run-IsUnique [] es tt) in
      (
        λ m.
            let (k, found) = to m in
            (k, elim ((run_iff k v [] es).0 found) [ inl h ↦ cc (h.0) | inr p ↦ p ]),
        λ (k, p). from (k, (run_iff k v [] es).1 (inr p)),
      )
