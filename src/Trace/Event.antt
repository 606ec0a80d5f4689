-- ===== src/Trace/Event.antt =====
-- internal/trace/event.go: one recorded call.
use hsm_doctor.Base.{ℕ, String, Bool, Option, none, some, List, eqb}
use hsm_doctor.Base.Int.{ℤ}
use hsm_doctor.Base.Clock.{Time, Duration}

pub record Event : Type 0 where
  pub seq : ℕ
  pub ts : Time
  pub function : String
  pub thread : ℤ
  pub session : Option ℕ
  pub slot : Option ℕ
  pub object : Option ℕ
  pub label : String
  pub key_id : String
  pub mechanism : String
  pub data_len : Option ℤ
  pub out_len : Option ℤ
  pub rv : ℕ
  pub rv_name : String
  pub duration_ns : ℤ
  pub attrs : List String

abbrev pub duration : Event → Duration
duration e = e.duration_ns

abbrev pub is_ok : Event → Bool
is_ok e = eqb e.rv 0

-- The session of a call, 0 where it carries none.
abbrev pub session_or_zero : Event → ℕ
session_or_zero e = elim e.session [ none ↦ 0 | some s ↦ s ]
