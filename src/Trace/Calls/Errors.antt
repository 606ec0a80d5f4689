-- ===== src/Trace/Calls/Errors.antt =====
-- internal/trace/analyze.go: the return codes of failed calls.
use hsm_doctor.Base.{
  ℕ, ◌+◌, ◌<◌, String, ◌≡◌, refl, ◌↔◌, Bool, not, none, some, List, [], ◌∷◌, ◌&&◌, ◌==◌, arith,
  Elem, map-Elem_iff, eq_iff, if◌then◌else◌, tally,
}
use hsm_doctor.Base.Sort.{by_rank, sort_by, sort_by-Any_iff}
use hsm_doctor.Base.Dict.{lookup, lookup-insert, string_eq, keys, or_zero}
use hsm_doctor.Base.Dict.Unique.{keys-Elem_iff}
use hsm_doctor.Trace.Event.{Event, is_ok}
use hsm_doctor.Trace.Report.{Finding}
use hsm_doctor.Trace.Calls.{
  ErrorState, error_step, error_loop, first_of, error_finding, no_errors, check_errors,
}

-- A failed call with this return code.
abbrev pub fails_with : String → Event → Bool
fails_with name e = not (is_ok e) && e.rv_name == name

-- The sequence number of the first such call.
abbrev pub first_failure : String → List Event → ℕ
first_failure name [] = 0
first_failure name (e ∷ es) = if fails_with name e then e.seq else first_failure name es

module _ (name : String) where
  error_step-count :
      (s : ErrorState) (e : Event)
      → lookup name (error_step s e).counts ≡ (
          if fails_with name e
          then some (or_zero 0 (lookup name s.counts) + 1)
          else lookup name s.counts)
  unfolding error_step
  error_step-count s e = ground (
    arith,
    lookup-insert e.rv_name name (or_zero 0 (lookup e.rv_name s.counts) + 1) s.counts,
    eq_iff e.rv_name name,
  )

  error_step-first :
      (s : ErrorState) (e : Event)
      → lookup name (error_step s e).first_seq ≡ (
          if fails_with name e
          then some (or_zero e.seq (lookup name s.first_seq))
          else lookup name s.first_seq)
  unfolding error_step
  error_step-first s e =
      ground (arith, lookup-insert e.rv_name name e.seq s.first_seq, eq_iff e.rv_name name)

  error_loop-count :
      (s : ErrorState) (es : List Event)
      → or_zero 0 (lookup name (error_loop s es).counts)
        ≡ or_zero 0 (lookup name s.counts) + tally (fails_with name) es
  unfolding error_loop
  error_loop-count s [] = omega arith
  error_loop-count s (e ∷ es) =
      ground (arith, error_loop-count (error_step s e) es, error_step-count s e)

  error_loop-none :
      (s : ErrorState) (es : List Event)
      → (lookup name (error_loop s es).counts ≡ none)
        ↔ ((lookup name s.counts ≡ none) × (tally (fails_with name) es ≡ 0))
  unfolding error_loop
  error_loop-none s [] = ground arith
  error_loop-none s (e ∷ es) =
      ground (arith, error_loop-none (error_step s e) es, error_step-count s e)

  error_loop-first :
      (s : ErrorState) (es : List Event)
      → first_of (error_loop s es) name ≡ or_zero (first_failure name es) (lookup name s.first_seq)
  unfolding error_loop
  error_loop-first s [] = refl
  error_loop-first s (e ∷ es) =
      ground (arith, error_loop-first (error_step s e) es, error_step-first s e)

module _ (es : List Event) (name : String) where
  abbrev counted : ErrorState
  counted = error_loop no_errors es

  count_eq : or_zero 0 (lookup name counted.counts) ≡ tally (fails_with name) es
  unfolding lookup
  count_eq = omega (arith, error_loop-count name no_errors es)

  first_eq : first_of counted name ≡ first_failure name es
  unfolding lookup
  first_eq = error_loop-first name no_errors es

  listed_iff : Elem name (keys counted.counts) ↔ (0 < tally (fails_with name) es)
  unfolding lookup
  listed_iff =
      let (to, from) = keys-Elem_iff counted.counts name in
      let none_iff = error_loop-none name no_errors es in
      (λ m. let h = to m in ground (arith, none_iff), λ h. from (λ p. ground (arith, none_iff)))

-- The finding for a return code, from the calls that failed with it.
abbrev pub failure_finding : String → List Event → Finding
failure_finding name es = error_finding name (tally (fails_with name) es) (first_failure name es)

-- An error is reported exactly for each return code that some call failed with: with the number of
-- the calls that failed with it, and the sequence number of the first of them.
pub check_errors_iff :
    (es : List Event) (g : Finding)
    → Elem g (check_errors es)
      ↔ ((name : String) × (0 < tally (fails_with name) es) × (g ≡ failure_finding name es))
unfolding check_errors
check_errors_iff es g =
    let s = error_loop no_errors es in
    let order = by_rank (first_of s) in
    let (to, from) =
      map-Elem_iff (λ name. error_finding name (or_zero 0 (lookup name s.counts)) (first_of s name))
        g (sort_by order (keys s.counts)) in
    (
      λ m.
          let (name, n, e) = to m in
          let listed = (sort_by-Any_iff order (λ x. name ≡ x) (keys s.counts)).0 n in
          (name, (listed_iff es name).0 listed, cc (e, count_eq es name, first_eq es name)),
      λ (name, h, e).
          let listed = (listed_iff es name).1 h in
          let n = (sort_by-Any_iff order (λ x. name ≡ x) (keys s.counts)).1 listed in
          from (name, n, cc (e, count_eq es name, first_eq es name)),
    )
