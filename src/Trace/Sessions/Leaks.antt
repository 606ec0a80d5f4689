-- ===== src/Trace/Sessions/Leaks.antt =====
-- internal/trace/analyze.go: sessions that are never closed, and operations that are never ended.
use hsm_doctor.Base.{
  ℕ, String, ◌≡◌, ◌≢◌, refl, ◌↔◌, ◌⊎◌, inl, inr, Bool, true, false, ◌&&◌, ◌||◌, ◌==◌, eqb, eq_iff,
  none, some, List, [], ◌∷◌, arith, map, All, Any, Any-map, Elem, map-Elem_iff, Elem-append_iff,
  if◌then◌else◌, Bool-cases,
}
use hsm_doctor.Base.Sort.{
  IsSorted, by_rank, by_rank-IsOrder, sort_by, sort_by-IsSorted, sort_by-Any_iff, map-IsSorted,
}
use hsm_doctor.Base.Dict.{values}
use hsm_doctor.Trace.Event.{Event, session_or_zero}
use hsm_doctor.Trace.Effects.{Effect, put, run}
use hsm_doctor.Trace.Effects.Pending.{IsSilent, IsQuiet, IsPending, run-values_iff}
use hsm_doctor.Trace.Report.{Finding, one_of}
use hsm_doctor.Trace.Sessions.{
  session_effect, closed_all, ascending, leak, check_session_leaks, OperationPair, operation_pairs,
  pair_effect, dangling, check_pair, check_pairs, check_operation_pairs,
}

-- The sequence number that a finding points at.
abbrev pub first_seq : Finding → ℕ
first_seq f = elim f.seqs [ [] ↦ 0 | s ∷ rest ↦ s ]

module _ (effect : Event → Effect) (report : ℕ → Finding) (es : List Event) (g : Finding) where
  -- A finding reports a sequence number that is still pending at the end of the trace.
  abbrev pub IsReported : Type 0
  IsReported = (seq : ℕ) × (g ≡ report seq) × ((k : ℕ) × IsPending effect k seq es)

  reported_iff : Elem g (map report (sort_by ascending (values (run effect [] es)))) ↔ IsReported
  reported_iff =
      let l = values (run effect [] es) in
      let (to, from) = map-Elem_iff report g (sort_by ascending l) in
      (
        λ m.
            let (seq, n, e) = to m in
            (
              seq,
              e,
              (run-values_iff effect es seq).0 ((sort_by-Any_iff ascending (λ x. seq ≡ x) l).0 n),
            ),
        λ (seq, e, p). from (
          seq,
          (sort_by-Any_iff ascending (λ x. seq ≡ x) l).1 ((run-values_iff effect es seq).1 p),
          e,
        ),
      )

-- Some event satisfies `begins`, and no later event satisfies `ends`.
abbrev pub IsLeft : (Event → Type 0) → (Event → Bool) → List Event → Type 0
IsLeft begins ends [] = ⊥
IsLeft begins ends (e ∷ es) = begins e × All (λ x. ends x ≡ false) es ⊎ IsLeft begins ends es

module _ (effect : Event → Effect) (k seq : ℕ) (begins : Event → Type 0) (ends : Event → Bool)
    (begins_iff : (e : Event) → (effect e ≡ put k seq) ↔ begins e)
    (ends_iff : (e : Event) → IsSilent k (effect e) ↔ (ends e ≡ false)) where
  IsQuiet-iff : (es : List Event) → IsQuiet effect k es ↔ All (λ x. ends x ≡ false) es
  IsQuiet-iff [] = (λ h. h, λ h. h)
  IsQuiet-iff (e ∷ es) =
      let (to, from) = IsQuiet-iff es in
      let (to', from') = ends_iff e in (λ (p, h). (to' p, to h), λ (p, h). (from' p, from h))

  IsPending-IsLeft_iff : (es : List Event) → IsPending effect k seq es ↔ IsLeft begins ends es
  IsPending-IsLeft_iff [] = (λ n. n, λ n. n)
  IsPending-IsLeft_iff (e ∷ es) =
      let (to, from) = IsPending-IsLeft_iff es in
      let (to', from') = begins_iff e in
      let (quiet, quiet') = IsQuiet-iff es in
      (
        elim [ inl (p, q) ↦ inl (to' p, quiet q) | inr h ↦ inr (to h) ],
        elim [ inl (p, q) ↦ inl (from' p, quiet' q) | inr h ↦ inr (from h) ],
      )

-- The event opens session `k` and is the call number `seq`.
abbrev pub Opens : ℕ → ℕ → Event → Type 0
Opens k seq e = (e.function ≡ "C_OpenSession") × (e.rv ≡ 0) × (e.session ≡ some k) × (e.seq ≡ seq)

abbrev pub in_session : ℕ → Event → Bool
in_session k e = elim e.session [ none ↦ false | some s ↦ eqb s k ]

-- The event opens session `k` again, closes it, or closes all sessions.
abbrev pub closes : ℕ → Event → Bool
closes k e =
    in_session k e
      && (e.function == "C_CloseSession" || e.function == "C_OpenSession" && eqb e.rv 0)
    || e.function == "C_CloseAllSessions"

session_effect-Opens : (k seq : ℕ) (e : Event) → (session_effect e ≡ put k seq) ↔ Opens k seq e
unfolding session_effect
session_effect-Opens k seq e = ground (
  arith,
  eq_iff e.function "C_OpenSession",
  eq_iff e.function "C_CloseSession",
  eq_iff e.function "C_CloseAllSessions",
)

names_apart :
    (f : String)
    → (f == "C_CloseAllSessions") ≡ true
    → ((f == "C_OpenSession") ≡ false) × ((f == "C_CloseSession") ≡ false)
names_apart f h = rw ((eq_iff f "C_CloseAllSessions").0 h) (refl, refl)

opening_apart : (f : String) → (f == "C_OpenSession") ≡ true → (f == "C_CloseSession") ≡ false
opening_apart f h = rw ((eq_iff f "C_OpenSession").0 h) refl

session_effect-closes : (k : ℕ) (e : Event) → IsSilent k (session_effect e) ↔ (closes k e ≡ false)
unfolding session_effect
session_effect-closes k e = ground (
  arith,
  eq_iff e.function "C_OpenSession",
  eq_iff e.function "C_CloseSession",
  names_apart e.function,
  opening_apart e.function,
)

-- Session `k`, which call number `seq` opened, is still open at the end of the trace.
abbrev pub StaysOpen : ℕ → ℕ → List Event → Type 0
StaysOpen k seq = IsLeft (Opens k seq) (closes k)

StaysOpen-iff :
    (k seq : ℕ) (es : List Event) → IsPending session_effect k seq es ↔ StaysOpen k seq es
StaysOpen-iff k seq es =
    IsPending-IsLeft_iff session_effect k seq (Opens k seq) (closes k) (session_effect-Opens k seq)
      (session_effect-closes k) es

pub check_session_leaks_iff :
    (es : List Event) (g : Finding)
    → closed_all es ≡ false
    → Elem g (check_session_leaks es)
      ↔ ((seq : ℕ) × (g ≡ leak seq) × ((k : ℕ) × StaysOpen k seq es))
unfolding check_session_leaks
check_session_leaks_iff es g h =
    let (to, from) = reported_iff session_effect leak es g in
    rw h (
      λ m. let (seq, e, (k, p)) = to m in (seq, e, (k, (StaysOpen-iff k seq es).0 p)),
      λ (seq, e, (k, p)). from (seq, e, (k, (StaysOpen-iff k seq es).1 p)),
    )

-- The leaks are reported in the order of their sequence numbers.
pub check_session_leaks-IsSorted :
    (es : List Event) → IsSorted (by_rank first_seq) (check_session_leaks es)
unfolding check_session_leaks
check_session_leaks-IsSorted es =
    elim (closed_all es)
      as (λ b.
        IsSorted (by_rank first_seq)
          (if b then [] else map leak (sort_by ascending (values (run session_effect [] es))))) [
            | true ↦ tt
            | false ↦ map-IsSorted leak first_seq _ (sort_by-IsSorted (by_rank-IsOrder _) _)
          ]

closed_all-none :
    (es : List Event) → (closed_all es ≡ false) ↔ All (λ e. e.function ≢ "C_CloseAllSessions") es
unfolding closed_all
closed_all-none [] = (λ h. tt, λ h. refl)
closed_all-none (e ∷ es) =
    ground (arith, eq_iff e.function "C_CloseAllSessions", closed_all-none es)

-- In every trace, a finding is reported exactly when no event at all is a C_CloseAllSessions, whether
-- before or after the session's opening, and it is the leak of a session that a call opened
-- successfully and no later call closed or opened again.
pub check_session_leaks-Elem_iff :
    (es : List Event) (g : Finding)
    → Elem g (check_session_leaks es) ↔ (
        All (λ e. e.function ≢ "C_CloseAllSessions") es
        × ((seq : ℕ) × (g ≡ leak seq) × ((k : ℕ) × StaysOpen k seq es)))
unfolding check_session_leaks
check_session_leaks-Elem_iff es g =
    let (to, from) = closed_all-none es in
    elim (Bool-cases (closed_all es)) [
      | inl h ↦ rw h (λ m. absurd m, λ (none_closes, _). let f = from none_closes in absurd cc)
      | inr h ↦
          let (to', from') = check_session_leaks_iff es g h in
          (λ m. (to h, to' m), λ (_, leaks). from' leaks)
    ]

check_pairs-Elem_iff :
    (es : List Event) (g : Finding) (ps : List OperationPair)
    → Elem g (check_pairs es ps) ↔ Any (λ p. IsReported (pair_effect p) (dangling p) es g) ps
unfolding check_pairs check_pair
check_pairs-Elem_iff es g [] = (λ n. n, λ n. n)
check_pairs-Elem_iff es g (p ∷ ps) =
    let (to, from) = reported_iff (pair_effect p) (dangling p) es g in
    let (to', from') = check_pairs-Elem_iff es g ps in
    let (split, join) = Elem-append_iff g (check_pair es p) (check_pairs es ps) in
    (
      λ m. elim (split m) [ inl h ↦ inl (to h) | inr h ↦ inr (to' h) ],
      elim [ inl h ↦ join (inl (from h)) | inr h ↦ join (inr (from' h)) ],
    )

-- The event begins the operation of the pair on session `k`, successfully, as call number `seq`.
abbrev pub Begins : OperationPair → ℕ → ℕ → Event → Type 0
Begins p k seq e = (e.function ≡ p.init_fn) × (e.rv ≡ 0) × (session_or_zero e ≡ k) × (e.seq ≡ seq)

-- The event ends the operation of the pair on session `k`, or begins it again.
abbrev pub ends : OperationPair → ℕ → Event → Bool
ends p k e =
    eqb (session_or_zero e) k && (one_of p.ops e.function || e.function == p.init_fn && eqb e.rv 0)

pair_effect-Begins :
    (p : OperationPair) (k seq : ℕ) (e : Event) → (pair_effect p e ≡ put k seq) ↔ Begins p k seq e
unfolding pair_effect
pair_effect-Begins p k seq e = ground (arith, eq_iff e.function p.init_fn)

pair_effect-ends :
    (p : OperationPair) (k : ℕ) (e : Event) → IsSilent k (pair_effect p e) ↔ (ends p k e ≡ false)
unfolding pair_effect
pair_effect-ends p k e = ground (arith, eq_iff e.function p.init_fn)

-- A finding reports an operation of the pair that is begun and not ended by the end of the trace.
abbrev pub IsDangling : List Event → Finding → OperationPair → Type 0
IsDangling es g p =
    (seq : ℕ) × (g ≡ dangling p seq) × ((k : ℕ) × IsLeft (Begins p k seq) (ends p k) es)

IsDangling-iff :
    (es : List Event) (g : Finding) (p : OperationPair)
    → IsReported (pair_effect p) (dangling p) es g ↔ IsDangling es g p
IsDangling-iff es g p =
    let left : (k seq : ℕ)
        → IsPending (pair_effect p) k seq es ↔ IsLeft (Begins p k seq) (ends p k) es =
      λ k seq.
        IsPending-IsLeft_iff (pair_effect p) k seq (Begins p k seq) (ends p k)
          (pair_effect-Begins p k seq) (pair_effect-ends p k) es in
    (
      λ (seq, e, (k, h)). (seq, e, (k, (left k seq).0 h)),
      λ (seq, e, (k, h)). (seq, e, (k, (left k seq).1 h)),
    )

-- An operation leak is reported exactly for each pair of functions and each session on which a
-- call began the operation successfully and no later call ended it or began it again, under the
-- number of that call; a call without a session counts for session 0.
pub check_operation_pairs_iff :
    (es : List Event) (g : Finding)
    → Elem g (check_operation_pairs es) ↔ Any (IsDangling es g) operation_pairs
unfolding check_operation_pairs
check_operation_pairs_iff es g =
    let (to, from) = check_pairs-Elem_iff es g operation_pairs in
    (
      λ m. Any-map operation_pairs (λ p. (IsDangling-iff es g p).0) (to m),
      λ h. from (Any-map operation_pairs (λ p. (IsDangling-iff es g p).1) h),
    )
