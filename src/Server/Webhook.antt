-- ===== src/Server/Webhook.antt =====
-- internal/server/webhook.go: the delivery of one body, attempt by attempt. Parameters are whether the
-- URL makes a request, and what the endpoint answers to each attempt: a status, or none where the request
-- fails.
use hsm_doctor.Base.{
  ℕ, zero, suc, ◌+◌, ◌-◌, ◌*◌, ◌≡◌, ◌≤◌, ◌<◌, refl, ◌↔◌, ◌⊎◌, inl, inr, Bool, true, false, not,
  Option, none, some, List, [], ◌∷◌, ◌&&◌, leb, ltb, arith, if◌then◌else◌, Bool-cases, Option-cases,
}

abbrev pub attempts : ℕ
attempts = 3

-- Milliseconds.
abbrev pub backoff : ℕ
backoff = 2000

abbrev pub is_success : Option ℕ → Bool
is_success none = false
is_success (some status) = leb 200 status && ltb status 300

-- The pauses before the posts that are made, the first of which has none, and whether one succeeded;
-- `left` attempts are left, of which the first is the `n`th. `well_formed` is whether
-- `http.NewRequest` takes the URL: where it does not, the delivery ends at once.
module _ (well_formed : Bool) (answer : ℕ → Option ℕ) where
  unfoldable pub deliver_from : ℕ → ℕ → List ℕ × Bool
  deliver_from zero n = ([], false)
  deliver_from (suc left) n =
      let pause = backoff * (n - 1) in
      let (later, sent) = deliver_from left (n + 1) in
      if not well_formed
      then ([], false)
      else if is_success (answer n)
      then (pause ∷ [], true)
      else (pause ∷ later, sent)

  unfoldable pub deliver : List ℕ × Bool
  deliver = deliver_from attempts 1

  -- An answer whose status is from 200 to 299.
  abbrev pub Succeeds : ℕ → Type 0
  Succeeds n = (status : ℕ) × (answer n ≡ some status) × (200 ≤ status) × (status < 300)

  abbrev pub Delivered : List ℕ → Bool → Type 0
  Delivered posts sent =
      ((well_formed ≡ false) × (posts ≡ []) × (sent ≡ false))
      ⊎ ((well_formed ≡ true) × Succeeds 1 × (posts ≡ 0 ∷ []) × (sent ≡ true))
      ⊎ ((well_formed ≡ true)
          × (¬ (Succeeds 1))
          × Succeeds 2
          × (posts ≡ 0 ∷ 2000 ∷ [])
          × (sent ≡ true))
      ⊎ ((well_formed ≡ true)
          × (¬ (Succeeds 1))
          × (¬ (Succeeds 2))
          × (posts ≡ 0 ∷ 2000 ∷ 4000 ∷ [])
          × ((sent ≡ true) ↔ Succeeds 3))

  is_success_iff : (n : ℕ) → (is_success (answer n) ≡ true) ↔ Succeeds n
  is_success_iff n = elim (Option-cases (answer n)) [
    | inl e ↦ (λ s. absurd (ground arith), λ (status, f, _, _). absurd cc)
    | inr (status, e) ↦ (
      λ s. (status, e, ground arith, ground arith),
      λ (other, f, low, high). let same : status ≡ other = cc in ground arith,
    )
  ]

  fails : (n : ℕ) → is_success (answer n) ≡ false → ¬ (Succeeds n)
  fails n e s = let t = (is_success_iff n).1 s in cc

  -- Whatever the endpoint answers, the delivery ends after at most three posts. Where the URL makes no
  -- request there is none, and it fails. Otherwise, where the answer to the first post has a status
  -- from 200 to 299 it is the only one; where that to the second is the first such answer there are
  -- two, two seconds apart; and else there is a third after four seconds more, and the delivery
  -- succeeds just where its answer is such an answer.
  pub deliver_cases : let (posts, sent) = deliver in Delivered posts sent
  unfolding deliver deliver_from
  deliver_cases = elim (Bool-cases well_formed) [
    | inr w ↦ rw (deliver, w) (inl (refl, refl, refl))
    | inl w ↦ elim (Bool-cases (is_success (answer 1))) [
      | inl e ↦ rw (deliver, w, e) (inr (inl (refl, (is_success_iff 1).0 e, refl, refl)))
      | inr e ↦ elim (Bool-cases (is_success (answer 2))) [
        | inl f ↦
            rw (deliver, w, e, f)
              (inr (inr (inl (refl, fails 1 e, (is_success_iff 2).0 f, refl, refl))))
        | inr f ↦
            let g = is_success_iff 3 in
            elim (Bool-cases (is_success (answer 3))) [
              | inl s ↦
                  rw (deliver, w, e, f, s)
                    (inr (inr (inr (refl, fails 1 e, fails 2 f, refl, (λ _. g.0 s, λ _. refl)))))
              | inr s ↦
                  rw (deliver, w, e, f, s)
                    (inr (
                      inr (
                        inr (
                          refl,
                          fails 1 e,
                          fails 2 f,
                          refl,
                          (λ t. absurd cc, λ t. absurd (fails 3 s t)),
                        ))))
            ]
      ]
    ]
  ]
