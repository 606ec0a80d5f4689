-- ===== src/Trace/Coverage/Partition.antt =====
-- internal/trace/coverage.go: what is exercised, what is missing, and that nothing is both.
use mathlib.Core.Path.{subst}
use hsm_doctor.Base.{
  ℕ, ◌+◌, ◌<◌, String, ◌≡◌, refl, sym, ◌∙◌, inl, inr, ◌↔◌, true, false, not, List, [], ◌∷◌, ◌==◌,
  eqb, Any, length, tally, all_iff, Elem-All, arith, eq_iff, Bool-cases, Elem,
}
use hsm_doctor.Base.Sort.{sort_by-Any_iff}
use hsm_doctor.Base.Sort.Length.{length-sort_by}
use hsm_doctor.Base.Text.{str_lt}
use hsm_doctor.Base.Dict.{Dict, lookup, insert, lookup-insert, or_zero, string_eq}
use hsm_doctor.Trace.Event.{Event}
use hsm_doctor.Trace.Coverage.{
  FuncCoverage, recordable_functions, count_calls, exercised, never_called, by_function,
  coverage_of,
}

abbrev pub calls_of : String → List Event → ℕ
calls_of fn events = tally (λ (e : Event). e.function == fn) events

count_calls-lookup :
    (fn : String) (m : Dict String ℕ) (events : List Event)
    → (fn == "") ≡ false
    → or_zero 0 (lookup fn (count_calls m events)) ≡ or_zero 0 (lookup fn m) + calls_of fn events
unfolding count_calls
count_calls-lookup fn m [] n = omega arith
count_calls-lookup fn m (e ∷ es) n = elim (Bool-cases (e.function == "")) [
  | inl p ↦
      let q : (e.function == fn) ≡ false =
        ground (arith, eq_iff e.function "", eq_iff e.function fn, eq_iff fn "") in
      rw (count_calls, p) (ground (arith, count_calls-lookup fn m es n))
  | inr p ↦
      let m' = insert e.function (or_zero 0 (lookup e.function m) + 1) m in
      rw (count_calls, p)
        (ground (
          arith,
          count_calls-lookup fn m' es n,
          lookup-insert e.function fn (or_zero 0 (lookup e.function m) + 1) m,
          eq_iff e.function fn,
        ))
]

length-exercised :
    (m : Dict String ℕ) (fns : List String)
    → length (exercised m fns) + length (never_called m fns) ≡ length fns
unfolding exercised never_called
length-exercised m [] = refl
length-exercised m (fn ∷ fns) = ground (arith, length-exercised m fns)

-- The functions that are exercised and those that are missing are together the recordable ones.
pub coverage_of-total :
    (events : List Event) → let c = coverage_of events in c.covered + length c.missing ≡ c.total
unfolding coverage_of
coverage_of-total events =
    let m = count_calls [] events in
    omega (
      arith,
      length-exercised m recordable_functions,
      length-sort_by by_function (exercised m recordable_functions),
      length-sort_by str_lt (never_called m recordable_functions),
    )

exercised-Any_iff :
    (m : Dict String ℕ) (fns : List String) (fn : String) (n : ℕ)
    → Any (λ (f : FuncCoverage). (f.function ≡ fn) × (f.calls ≡ n)) (exercised m fns)
      ↔ (Elem fn fns × (or_zero 0 (lookup fn m) ≡ n) × (0 < n))
unfolding exercised
exercised-Any_iff m [] fn n = (λ h. absurd h, λ (h, _, _). absurd h)
exercised-Any_iff m (g ∷ fns) fn n =
    let (to, from) = exercised-Any_iff m fns fn n in
    elim (Bool-cases (eqb (or_zero 0 (lookup g m)) 0)) [
      | inl e ↦
          rw (exercised, e)
            (
              λ h. let (a, b, c) = to h in (inr a, b, c),
              λ (a, b, c). elim a [
                | inl q ↦
                    let b' : or_zero 0 (lookup g m) ≡ n =
                      subst (λ x. or_zero 0 (lookup x m) ≡ n) q b in
                    absurd (ground arith)
                | inr a ↦ from (a, b, c)
              ],
            )
      | inr e ↦
          rw (exercised, e)
            (
              elim [
                | inl (p, q) ↦
                    (inl (sym p), subst (λ x. or_zero 0 (lookup x m) ≡ n) p q, ground arith)
                | inr h ↦ let (a, b, c) = to h in (inr a, b, c)
              ],
              λ (a, b, c). elim a [
                | inl q ↦ inl (sym q, subst (λ x. or_zero 0 (lookup x m) ≡ n) q b)
                | inr a ↦ inr (from (a, b, c))
              ],
            )
    ]

named_functions : (fn : String) → Elem fn recordable_functions → (fn == "") ≡ false
named_functions fn h =
    let a = (all_iff (λ (f : String). not (f == "")) recordable_functions).0 refl in
    let n = Elem-All (λ f. not (f == "") ≡ true) fn recordable_functions a h in ground arith

-- A function is listed as exercised with a number of calls just where it is recordable, the trace has
-- this many calls of it, and there is one.
pub coverage_of-exercise_iff :
    (events : List Event) (fn : String) (n : ℕ)
    → Any (λ (f : FuncCoverage). (f.function ≡ fn) × (f.calls ≡ n)) (coverage_of events).exercise
      ↔ (Elem fn recordable_functions × (calls_of fn events ≡ n) × (0 < n))
unfolding coverage_of lookup
coverage_of-exercise_iff events fn n =
    let m = count_calls [] events in
    let (a, b) =
      sort_by-Any_iff by_function (λ (f : FuncCoverage). (f.function ≡ fn) × (f.calls ≡ n))
        (exercised m recordable_functions) in
    let (to, from) = exercised-Any_iff m recordable_functions fn n in
    let same : Elem fn recordable_functions → or_zero 0 (lookup fn m) ≡ calls_of fn events =
      λ h. let k = count_calls-lookup fn [] events (named_functions fn h) in ground arith in
    (
      λ h. let (x, y, z) = to (a h) in (x, sym (same x) ∙ y, z),
      λ (x, y, z). b (from (x, same x ∙ y, z)),
    )
