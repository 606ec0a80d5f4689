-- ===== src/Trace/Calls/Stats.antt =====
-- internal/trace/analyze.go: the statistics per function.
use hsm_doctor.Base.{
  ◌+◌, ◌<◌, String, ◌≡◌, refl, ◌↔◌, ◌∙◌, sym, Bool, true, not, none, some, List, [], ◌∷◌, ◌&&◌,
  ◌==◌, arith, Elem, eq_iff, if◌then◌else◌, tally, total, length, All, ap,
}
use mathlib.Core.Path.{subst}
use hsm_doctor.Base.Int.{◌≤ℤ◌}
use hsm_doctor.Base.Text.Order.{str_lt-IsOrder}
use hsm_doctor.Base.Sort.{IsOrder, IsSorted, sort_by-IsSorted, sort_by-Any_iff, sort_by-total}
use hsm_doctor.Base.Dict.{Dict, lookup, insert, lookup-insert, string_eq, values, or_zero}
use hsm_doctor.Base.Dict.Unique.{IsUnique, insert-IsUnique, insert-total, values-Elem_iff}
use hsm_doctor.Trace.Event.{Event, is_ok}
use hsm_doctor.Trace.Report.{FuncStat}
use hsm_doctor.Trace.Calls.{no_calls, add_call, stats_loop, busier, function_stats}

abbrev pub calls_of : String → Event → Bool
calls_of f e = e.function == f

-- The statistics of one function, from its own events alone.
abbrev pub stat_from : FuncStat → String → List Event → FuncStat
stat_from s f [] = s
stat_from s f (e ∷ es) = stat_from (if calls_of f e then add_call s e else s) f es

module _ (f : String) where
  stats_step :
      (m : Dict String FuncStat) (e : Event)
      → or_zero (no_calls f) (
          lookup f (
            insert e.function (add_call (or_zero (no_calls e.function) (lookup e.function m)) e) m))
        ≡ (let s = or_zero (no_calls f) (lookup f m) in if calls_of f e then add_call s e else s)
  stats_step m e =
      let s = add_call (or_zero (no_calls e.function) (lookup e.function m)) e in
      ground (arith, lookup-insert e.function f s m, eq_iff e.function f)

  stats_loop-lookup :
      (m : Dict String FuncStat) (es : List Event)
      → or_zero (no_calls f) (lookup f (stats_loop m es))
        ≡ stat_from (or_zero (no_calls f) (lookup f m)) f es
  unfolding stats_loop
  stats_loop-lookup m [] = refl
  stats_loop-lookup m (e ∷ es) =
      let s = add_call (or_zero (no_calls e.function) (lookup e.function m)) e in
      stats_loop-lookup (insert e.function s m) es ∙ ap (λ x. stat_from x f es) (stats_step m e)

  stats_loop-none :
      (m : Dict String FuncStat) (es : List Event)
      → (lookup f (stats_loop m es) ≡ none) ↔ ((lookup f m ≡ none) × (tally (calls_of f) es ≡ 0))
  unfolding stats_loop
  stats_loop-none m [] = ground arith
  stats_loop-none m (e ∷ es) =
      let s = add_call (or_zero (no_calls e.function) (lookup e.function m)) e in
      ground (
        arith,
        stats_loop-none (insert e.function s m) es,
        lookup-insert e.function f s m,
        eq_iff e.function f,
      )

  stat_from-calls :
      (s : FuncStat) (es : List Event) → (stat_from s f es).calls ≡ s.calls + tally (calls_of f) es
  unfolding add_call
  stat_from-calls s [] = omega arith
  stat_from-calls s (e ∷ es) =
      ground (arith, stat_from-calls (if calls_of f e then add_call s e else s) es)

  stat_from-errors :
      (s : FuncStat) (es : List Event)
      → (stat_from s f es).errors ≡ s.errors + tally (λ e. calls_of f e && not (is_ok e)) es
  unfolding add_call
  stat_from-errors s [] = omega arith
  stat_from-errors s (e ∷ es) =
      ground (arith, stat_from-errors (if calls_of f e then add_call s e else s) es)

  stat_from-function : (s : FuncStat) (es : List Event) → (stat_from s f es).function ≡ s.function
  unfolding add_call
  stat_from-function s [] = refl
  stat_from-function s (e ∷ es) =
      ground (arith, stat_from-function (if calls_of f e then add_call s e else s) es)

  stat_from-max_mono : (s : FuncStat) (es : List Event) → s.max_ns ≤ℤ (stat_from s f es).max_ns
  unfolding add_call
  stat_from-max_mono s [] = omega arith
  stat_from-max_mono s (e ∷ es) =
      ground (arith, stat_from-max_mono (if calls_of f e then add_call s e else s) es)

  -- No call of the function took longer than the maximum.
  stat_from-max :
      (s : FuncStat) (es : List Event)
      → All (λ e. calls_of f e ≡ true → e.duration_ns ≤ℤ (stat_from s f es).max_ns) es
  unfolding add_call
  stat_from-max s [] = tt
  stat_from-max s (e ∷ es) =
      let s' = if calls_of f e then add_call s e else s in
      (λ h. ground (arith, stat_from-max_mono s' es), stat_from-max s' es)

stats_loop-IsUnique :
    (m : Dict String FuncStat) (es : List Event) → IsUnique m → IsUnique (stats_loop m es)
unfolding stats_loop
stats_loop-IsUnique m [] u = u
stats_loop-IsUnique m (e ∷ es) u =
    let v = add_call (or_zero (no_calls e.function) (lookup e.function m)) e in
    stats_loop-IsUnique (insert e.function v m) es (insert-IsUnique e.function v m u)

stats_loop-total :
    (m : Dict String FuncStat) (es : List Event)
    → total (λ s. s.calls) (values (stats_loop m es)) ≡ total (λ s. s.calls) (values m) + length es
unfolding stats_loop add_call
stats_loop-total m [] = omega arith
stats_loop-total m (e ∷ es) =
    let old = or_zero (no_calls e.function) (lookup e.function m) in
    let m' = insert e.function (add_call old e) m in
    omega (
      arith,
      stats_loop-total m' es,
      insert-total (λ s. s.calls) (no_calls e.function) e.function (add_call old e) m refl,
    )

-- The statistics of a function, from its own calls.
abbrev pub stat_of : String → List Event → FuncStat
stat_of f es = stat_from (no_calls f) f es

-- A function was called, and `s` is its entry.
abbrev IsEntry : List Event → FuncStat → String → Type 0
IsEntry es s f = (0 < tally (calls_of f) es) × (s ≡ stat_of f es)

IsEntry-iff :
    (es : List Event) (s : FuncStat) (f : String)
    → (lookup f (stats_loop [] es) ≡ some s) ↔ IsEntry es s f
unfolding lookup
IsEntry-iff es s f = ground (arith, stats_loop-lookup f [] es, stats_loop-none f [] es)

-- The statistics have an entry exactly for each function that was called, made from its own calls
-- in their order.
pub function_stats_iff :
    (es : List Event) (s : FuncStat)
    → Elem s (function_stats es)
      ↔ ((0 < tally (calls_of s.function) es) × (s ≡ stat_of s.function es))
unfolding function_stats
function_stats_iff es s =
    let m = stats_loop [] es in
    let (to, from) = values-Elem_iff m s (stats_loop-IsUnique [] es tt) in
    let (unsort, resort) = sort_by-Any_iff busier (λ x. s ≡ x) (values m) in
    (
      λ n.
          let (f, found) = to (unsort n) in
          let entry = (IsEntry-iff es s f).0 found in
          let name : f ≡ s.function =
            sym
              (ap (λ (x : FuncStat). x.function) entry.1 ∙ stat_from-function f (no_calls f) es) in
          subst (IsEntry es s) name entry,
      λ h. resort (from (s.function, (IsEntry-iff es s s.function).1 h)),
    )

-- An entry's calls and errors are the number of calls of its function and of those that failed, and
-- its maximum is at least the duration of each of them.
pub function_stats-counts :
    (es : List Event) (s : FuncStat)
    → Elem s (function_stats es)
    → (s.calls ≡ tally (calls_of s.function) es)
      × (s.errors ≡ tally (λ e. calls_of s.function e && not (is_ok e)) es)
      × All (λ e. calls_of s.function e ≡ true → e.duration_ns ≤ℤ s.max_ns) es
function_stats-counts es s h =
    let f = s.function in
    let (called, e) = (function_stats_iff es s).0 h in
    (
      ap (λ (x : FuncStat). x.calls) e ∙ stat_from-calls f (no_calls f) es ∙ omega arith,
      ap (λ (x : FuncStat). x.errors) e ∙ stat_from-errors f (no_calls f) es ∙ omega arith,
      subst (λ (x : FuncStat). All (λ e. calls_of f e ≡ true → e.duration_ns ≤ℤ x.max_ns) es)
          (sym e) (stat_from-max f (no_calls f) es),
    )

-- Every event is counted once: the calls of all entries add up to the number of events.
pub function_stats-total : (es : List Event) → total (λ s. s.calls) (function_stats es) ≡ length es
unfolding function_stats
function_stats-total es =
    sort_by-total busier (λ s. s.calls) (values (stats_loop [] es))
    ∙ omega (arith, stats_loop-total [] es)

busier-IsOrder : IsOrder busier
busier-IsOrder = record {
  asymm = λ a b h. ground (arith, str_lt-IsOrder.asymm a.function b.function);
  trans = λ a b c h k. ground (arith, str_lt-IsOrder.trans a.function b.function c.function);
}

-- The statistics are sorted: no later entry has a larger total time, and of entries with one total
-- no later one has a name that comes before.
pub function_stats-IsSorted : (es : List Event) → IsSorted busier (function_stats es)
unfolding function_stats
function_stats-IsSorted es = sort_by-IsSorted busier-IsOrder (values (stats_loop [] es))
