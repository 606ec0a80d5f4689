-- ===== src/Server/Ingest/Agents.antt =====
-- internal/server/ingest.go over internal/store: what reaches the database, and from whom.
use mathlib.Core.Path.{subst}
use hsm_doctor.Base.{
  ℕ, String, ◌≡◌, refl, sym, ◌≢◌, ◌⊎◌, inl, inr, Bool, true, Option, none, some, List, [], ◌∷◌,
  ◌==◌, keep, arith, eq_iff, Bool-cases, Option-cases, Elem,
}
use hsm_doctor.Base.Clock.{Time}
use hsm_doctor.Base.Fallible.{Fallible, done, failed}
use hsm_doctor.Base.Text.Parts.{cut_prefix}
use hsm_doctor.Inventory.{Inventory}
use hsm_doctor.Store.{Agent, Db, head}
use hsm_doctor.Store.Events
use hsm_doctor.Server.Records.{Report, State}
use hsm_doctor.Server.Ingest.{
  AgentQueries, Enrollment, Response, error, enrolled, stored, enroll_with, enroll_body,
  handle_enroll, has_inventory, ingest_body, ingest_token, handle_ingest_report,
}

-- The database of internal/store as the store of the agents.
unfoldable pub agent_queries : AgentQueries (State Db)
agent_queries = record {
  upsert_agent = λ now name hash st.
      let (id, db) = Events.upsert_agent now name hash st.db in (done id, record st { db = db });
  get_agent_by_token_hash = λ hash st. done (Events.get_agent_by_token_hash hash st.db);
  touch_agent = λ now id st. (done tt, record st { db = Events.touch_agent now id st.db });
}

head-keep :
    (p : Agent → Bool) (l : List Agent) (a : Agent)
    → head (keep p l) ≡ some a
    → Elem a l × (p a ≡ true)
head-keep p [] a h = cc
head-keep p (x ∷ l) a h = elim (Bool-cases (p x)) [
  | inl e ↦ let q : x ≡ a = ground arith in (inl (sym q), subst (λ y. p y ≡ true) q e)
  | inr e ↦ let (m, t) = head-keep p l a (ground arith) in (inr m, t)
]

abbrev pub Rejected : State Db → Response → Option (State Db) → Type 0
Rejected st r st' = (status : ℕ) × (r ≡ error status) × (st' ≡ some st)

module _ (hash_token : String → String) (persist : Report → String → State Db → State Db) where
  -- The report of the body, which has an inventory, is persisted under the agent's name, and then the
  -- agent is marked as seen.
  abbrev pub Kept :
      Time → Agent → Fallible Report → State Db → Response → Option (State Db) → Type 0
  Kept now agent body st r st' =
      (rep : Report) × (inv : Inventory) × (body ≡ done rep)
      × (rep.inventory ≡ some inv)
      × (r ≡ stored agent.name)
      × (st'
          ≡ some (
              let kept = persist rep agent.name st in
              record kept { db = Events.touch_agent now agent.id kept.db }))

  -- The bearer token is not empty, an enrolled agent has its hash, and the report is kept as this
  -- agent's.
  abbrev pub Accepted :
      Time → String → Fallible Report → State Db → Response → Option (State Db) → Type 0
  Accepted now authorization body st r st' =
      (token : String) × (agent : Agent) × (cut_prefix authorization "Bearer " ≡ some token)
      × (token ≢ "")
      × Elem agent st.db.agents
      × (agent.token_hash ≡ hash_token token)
      × Kept now agent body st r st'

  ingest_body_cases :
      (now : Time) (agent : Agent) (body : Fallible Report) (st : State Db)
      → let (r, st') = ingest_body agent_queries hash_token persist now agent body st in
        Kept now agent body st r (some st') ⊎ Rejected st r (some st')
  unfolding agent_queries
  ingest_body_cases now agent (failed e) st = inr (400, refl, refl)
  ingest_body_cases now agent (done rep) st = elim (Option-cases rep.inventory) [
    | inl e ↦ rw e (inr (400, refl, refl))
    | inr (inv, e) ↦
        let has : has_inventory agent_queries hash_token persist rep ≡ true = rw e refl in
        rw (ingest_body, has) (inl (rep, inv, refl, e, refl, refl))
  ]

  ingest_token_cases :
      (now : Time) (authorization : String) (bearer : Option String) (body : Fallible Report)
      (st : State Db)
      → cut_prefix authorization "Bearer " ≡ bearer
      → let (r, st') = ingest_token agent_queries hash_token persist now bearer body st in
        Accepted now authorization body st r (some st') ⊎ Rejected st r (some st')
  unfolding agent_queries Events.get_agent_by_token_hash
  ingest_token_cases now authorization none body st h = inr (401, refl, refl)
  ingest_token_cases now authorization (some token) body st h = elim (Bool-cases (token == "")) [
    | inl e ↦ rw e (inr (401, refl, refl))
    | inr e ↦
        elim (Option-cases
          (head (keep (λ (a : Agent). a.token_hash == hash_token token) st.db.agents))) [
            | inl f ↦ rw (e, f) (inr (401, refl, refl))
            | inr (agent, f) ↦
                let (m, q) =
                  head-keep (λ (a : Agent). a.token_hash == hash_token token) st.db.agents agent
                    f in
                rw (e, f)
                  (elim (ingest_body_cases now agent body st) [
                    | inl r ↦ inl (
                      token,
                      agent,
                      h,
                      (λ z. ground (arith, eq_iff token "")),
                      m,
                      (eq_iff agent.token_hash (hash_token token)).0 q,
                      r,
                    )
                    | inr r ↦ inr r
                  ])
          ]
  ]

  -- A request is accepted only with a bearer token that is not empty and whose hash an enrolled agent
  -- has, and with a report that has an inventory: the new state is then what persisting that report
  -- under the agent's name makes of the old one, with the agent marked as seen. Every other request
  -- is answered with an error and leaves the state as it is.
  pub handle_ingest_report-safe :
      (now : Time) (authorization : String) (body : Fallible Report) (st : State Db)
      → let (r, st') =
          handle_ingest_report agent_queries hash_token persist now authorization body (some st) in
        Accepted now authorization body st r st' ⊎ Rejected st r st'
  unfolding handle_ingest_report
  handle_ingest_report-safe now authorization body st =
      ingest_token_cases now authorization (cut_prefix authorization "Bearer ") body st refl

-- The agent is enrolled under the hash of the token it is given.
abbrev pub Admitted :
    (String → String)
    → Time
    → String
    → Fallible String
    → Fallible Enrollment
    → State Db
    → Response
    → Option (State Db)
    → Type 0
Admitted hash_token now secret random body st r st' =
    (b : Enrollment) × (token : String) × (body ≡ done b)
    × (random ≡ done token)
    × (secret ≢ "")
    × (b.enroll_token ≡ secret)
    × (b.name ≢ "")
    × (r ≡ enrolled b.name token)
    × (st' ≡ some (record st { db = (Events.upsert_agent now b.name (hash_token token) st.db).1 }))

module _ (hash_token : String → String) where
  enroll_with_cases :
      (now : Time) (secret : String) (random : Fallible String) (b : Enrollment) (st : State Db)
      → secret ≢ ""
      → b.enroll_token ≡ secret
      → b.name ≢ ""
      → let (r, st') = enroll_with agent_queries hash_token now b.name random st in
        Admitted hash_token now secret random (done b) st r (some st') ⊎ Rejected st r (some st')
  unfolding agent_queries
  enroll_with_cases now secret (failed e) b st s t n = inr (500, refl, refl)
  enroll_with_cases now secret (done token) b st s t n =
      inl (b, token, refl, refl, s, t, n, refl, refl)

  enroll_body_cases :
      (now : Time) (secret : String) (random : Fallible String) (body : Fallible Enrollment)
      (st : State Db)
      → secret ≢ ""
      → let (r, st') = enroll_body agent_queries hash_token now secret random body st in
        Admitted hash_token now secret random body st r (some st') ⊎ Rejected st r (some st')
  enroll_body_cases now secret random (failed e) st s = inr (400, refl, refl)
  enroll_body_cases now secret random (done b) st s = elim (Bool-cases (b.name == "")) [
    | inl e ↦ rw e (inr (400, refl, refl))
    | inr e ↦ elim (Bool-cases (b.enroll_token == secret)) [
      | inr f ↦ rw (e, f) (inr (401, refl, refl))
      | inl f ↦
          let n : b.name ≢ "" = λ z. ground (arith, eq_iff b.name "") in
          rw (e, f)
            (enroll_with_cases now secret random b st s ((eq_iff b.enroll_token secret).0 f) n)
    ]
  ]

  -- An agent is enrolled only where the server has an enrollment token, the request carries it, the
  -- agent has a name and a token could be drawn; it is stored under the hash of the token it is
  -- given. Every other request is answered with an error and leaves the state as it is.
  pub handle_enroll-safe :
      (now : Time) (secret : String) (random : Fallible String) (body : Fallible Enrollment)
      (st : State Db)
      → let (r, st') = handle_enroll agent_queries hash_token now secret random body (some st) in
        Admitted hash_token now secret random body st r st' ⊎ Rejected st r st'
  unfolding handle_enroll
  handle_enroll-safe now secret random body st = elim (Bool-cases (secret == "")) [
    | inl e ↦ rw (handle_enroll, e) (inr (403, refl, refl))
    | inr e ↦
        rw (handle_enroll, e)
          (enroll_body_cases now secret random body st (λ z. ground (arith, eq_iff secret "")))
  ]
