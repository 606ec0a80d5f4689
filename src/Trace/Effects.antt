-- ===== src/Trace/Effects.antt =====
-- internal/trace/analyze.go: the loops that keep a map from sessions to sequence numbers. Each event
-- has one effect on the map.
pub mod Pending
use hsm_doctor.Base.{ℕ, List, [], ◌∷◌}
use hsm_doctor.Base.Dict.{Dict, insert, erase, nat_eq}
use hsm_doctor.Trace.Event.{Event}

pub data Effect : Type 0 where
  put : ℕ → ℕ → Effect
  drop_key : ℕ → Effect
  reset : Effect
  leave : Effect

pub act : Effect → Dict ℕ ℕ → Dict ℕ ℕ
act (put k v) m = insert k v m
act (drop_key k) m = erase k m
act reset m = []
act leave m = m

-- The loop over the events, from a map.
unfoldable pub run : (Event → Effect) → Dict ℕ ℕ → List Event → Dict ℕ ℕ
unfolding act
run effect m [] = m
run effect m (e ∷ es) = run effect (act (effect e) m) es
