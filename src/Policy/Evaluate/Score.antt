-- ===== src/Policy/Evaluate/Score.antt =====
-- internal/policy/eval.go: the health score, in 64 bits.
use hsm_doctor.Base.{
  ℕ, ◌+◌, ◌-◌, ◌^◌, ◌≤◌, ◌≡◌, refl, ap, ◌∙◌, List, [], ◌∷◌, arith, total, if◌then◌else◌,
}
use hsm_doctor.Base.Int.{
  ℤ, pos, pos_part, neg_part, IsInt64, ◌-ℤ◌, -ℤ_parts, eq_of_parts, wrap64, wrap64-eq, ltb_ℤ,
}
use hsm_doctor.Base.Clock.{Time, Format}
use hsm_doctor.Inventory.{Inventory}
use hsm_doctor.Policy.Severity.{
  Severity, Scoring, critical, high, medium, low, info, unknown, penalty,
}
use hsm_doctor.Policy.Condition.{Config, scoring_of}
use hsm_doctor.Policy.Evaluate.{Finding, subtract, score_of, evaluate}

-- No penalty is negative.
pub record IsPenal (s : Scoring) : Type 0 where
  pub critical : neg_part s.critical ≡ 0
  pub high : neg_part s.high ≡ 0
  pub medium : neg_part s.medium ≡ 0
  pub low : neg_part s.low ≡ 0

-- What a finding costs, where no penalty is negative.
abbrev pub cost : Scoring → Finding → ℕ
cost s f = pos_part (penalty s f.severity)

penalty_pos : (s : Scoring) (v : Severity) → IsPenal s → neg_part (penalty s v) ≡ 0
unfolding penalty
penalty_pos s critical h = h.critical
penalty_pos s high h = h.high
penalty_pos s medium h = h.medium
penalty_pos s low h = h.low
penalty_pos s info h = refl
penalty_pos s (unknown t) h = refl

-- 100 - n
abbrev below : ℕ → ℕ → ℤ
below a n = pos a -ℤ pos n

below-IsInt64 : (a n : ℕ) → a ≤ 100 → n ≤ 2 ^ 63 → IsInt64 (below a n)
unfolding ◌-ℤ◌
below-IsInt64 a n h k = ground arith

subtract_step :
    (s : Scoring) (a n : ℕ) (f : Finding)
    → IsPenal s
    → a ≤ 100
    → n + cost s f ≤ 2 ^ 63
    → wrap64 (below a n -ℤ penalty s f.severity) ≡ below a (n + cost s f)
subtract_step s a n f h k b =
    let p = penalty s f.severity in
    let e : below a n -ℤ p ≡ below a (n + cost s f) = omega (
      arith,
      penalty_pos s f.severity h,
      -ℤ_parts (pos a) (pos n),
      -ℤ_parts (below a n) p,
      -ℤ_parts (pos a) (pos (n + cost s f)),
      eq_of_parts,
    ) in
    ap wrap64 e ∙ wrap64-eq _ (below-IsInt64 a (n + cost s f) k b)

subtract_lem :
    (s : Scoring) (a n : ℕ) (fs : List Finding)
    → IsPenal s
    → a ≤ 100
    → n + total (cost s) fs ≤ 2 ^ 63
    → subtract s (below a n) fs ≡ below a (n + total (cost s) fs)
unfolding subtract
subtract_lem s a n [] h k b = ap (below a) (omega arith)
subtract_lem s a n (f ∷ fs) h k b =
    rw (subtract_step s a n f h k (omega arith))
      (subtract_lem s a (n + cost s f) fs h k (omega arith) ∙ ap (below a) (omega arith))

floor_below :
    (n : ℕ) → (let z = below 100 n in if ltb_ℤ z (pos 0) then pos 0 else z) ≡ pos (100 - n)
unfolding ◌-ℤ◌
floor_below n = ground arith

hundred : below 100 0 ≡ pos 100
unfolding ◌-ℤ◌
hundred = refl

-- If no penalty is negative and the penalties add up to 2^63 at most, the score is 100 less the
-- sum of the penalties, and 0 where the sum is larger: no step overflows.
pub score_of_exact :
    (s : Scoring) (fs : List Finding)
    → IsPenal s
    → total (cost s) fs ≤ 2 ^ 63
    → score_of s fs ≡ pos (100 - total (cost s) fs)
unfolding score_of ◌-ℤ◌
score_of_exact s fs h b =
    let e : subtract s (pos 100) fs ≡ below 100 (total (cost s) fs) =
      rw (← hundred)
        (subtract_lem s 100 0 fs h (omega arith) (omega arith) ∙ ap (below 100) (omega arith)) in
    rw e (floor_below (total (cost s) fs))

-- The score of an evaluation is never negative, whatever the penalties.
pub evaluate-score_nonneg :
    (fmt : Format) (inv : Inventory) (cfg : Config) (now : Time)
    → neg_part (evaluate fmt inv cfg now).score ≡ 0
unfolding evaluate score_of
evaluate-score_nonneg fmt inv cfg now = ground arith

-- If no penalty is negative and the penalties add up to 2^63 at most, the score of an evaluation is
-- 100 less the sum of the penalties of the findings that it reports, and 0 where that is larger.
pub evaluate-score_exact :
    (fmt : Format) (inv : Inventory) (cfg : Config) (now : Time)
    → IsPenal (scoring_of cfg)
    → total (cost (scoring_of cfg)) (evaluate fmt inv cfg now).findings ≤ 2 ^ 63
    → (evaluate fmt inv cfg now).score
      ≡ pos (100 - total (cost (scoring_of cfg)) (evaluate fmt inv cfg now).findings)
unfolding evaluate
evaluate-score_exact fmt inv cfg now h b = score_of_exact (scoring_of cfg) _ h b
