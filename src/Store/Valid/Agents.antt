-- ===== src/Store/Valid/Agents.antt =====
-- internal/store: the table of agents keeps what the schema promises.
use mathlib.Core.Path.{subst}
use hsm_doctor.Base.{
  ℕ, ◌<◌, String, ◌≡◌, refl, sym, inl, inr, Bool, false, none, List, [], ◌∷◌, ◌==◌, eqb, map, All,
  arith, Bool-cases, Option-cases, if◌then◌else◌,
}
use hsm_doctor.Base.Clock.{Time}
use hsm_doctor.Store.{Agent, Db}
use hsm_doctor.Store.Events.{rotate, find_agent, upsert_agent, touch_agent}
use hsm_doctor.Store.Valid.{Apart, IsTable, IsValid, Apart-append, insert-IsTable}

-- An agent keeps its id and its name under a rotation and a touch.
rotate-All :
    (P : ℕ → String → Type 0) (now : Time) (name hash : String) (rows : List Agent)
    → All (λ a. P a.id a.name) rows
    → All (λ a. P a.id a.name) (rotate now name hash rows)
unfolding rotate
rotate-All P now name hash [] h = tt
rotate-All P now name hash (a ∷ rows) (p, h) = elim (Bool-cases (a.name == name)) [
  | inl e ↦ rw e (p, h)
  | inr e ↦ rw e (p, rotate-All P now name hash rows h)
]

rotate-Apart :
    (r : ℕ → String → ℕ → String → Bool) (now : Time) (name hash : String) (rows : List Agent)
    → Apart (λ (a b : Agent). r a.id a.name b.id b.name) rows
    → Apart (λ (a b : Agent). r a.id a.name b.id b.name) (rotate now name hash rows)
unfolding rotate
rotate-Apart r now name hash [] h = tt
rotate-Apart r now name hash (a ∷ rows) (p, h) = elim (Bool-cases (a.name == name)) [
  | inl e ↦ rw e (p, h)
  | inr e ↦ rw e (
    rotate-All (λ i n. r a.id a.name i n ≡ false) now name hash rows p,
    rotate-Apart r now name hash rows h,
  )
]

rotate-IsTable :
    (now : Time) (name hash : String) (next : ℕ) (rows : List Agent)
    → IsTable (λ (a : Agent). a.id) next rows
    → IsTable (λ (a : Agent). a.id) next (rotate now name hash rows)
rotate-IsTable now name hash next rows t = record {
  below = rotate-All (λ i n. i < next) now name hash rows t.below;
  distinct = rotate-Apart (λ i n j m. eqb i j) now name hash rows t.distinct;
}

find_agent-none :
    (name : String) (rows : List Agent)
    → find_agent name rows ≡ none
    → All (λ (a : Agent). (a.name == name) ≡ false) rows
unfolding find_agent
find_agent-none name [] e = tt
find_agent-none name (a ∷ rows) e = ground (arith, find_agent-none name rows)

pub upsert_agent-IsValid :
    (now : Time) (name hash : String) (db : Db)
    → IsValid db
    → IsValid (upsert_agent now name hash db).1
unfolding upsert_agent
upsert_agent-IsValid now name hash db v = elim (Option-cases (find_agent name db.agents)) [
  | inl e ↦
      let z : Agent = record {
        id = db.next_agent;
        name = name;
        token_hash = hash;
        created_at = now;
        last_seen = now;
      } in
      let t = insert-IsTable (λ (a : Agent). a.id) db.next_agent db.agents z v.agent_table refl in
      let u =
        Apart-append (λ (a b : Agent). a.name == b.name) db.agents z v.agent_unique
          (find_agent-none name db.agents e) in
      rw (e, upsert_agent) (ground (arith, t, u))
  | inr (id, e) ↦
      let t = rotate-IsTable now name hash db.next_agent db.agents v.agent_table in
      let u = rotate-Apart (λ i n j m. n == m) now name hash db.agents v.agent_unique in
      rw (e, upsert_agent) (ground (arith, t, u))
]

touch-All :
    (P : ℕ → String → Type 0) (f : Agent → Agent) (rows : List Agent)
    → ((a : Agent) → ((f a).id ≡ a.id) × ((f a).name ≡ a.name))
    → All (λ a. P a.id a.name) rows
    → All (λ a. P a.id a.name) (map f rows)
touch-All P f [] k h = tt
touch-All P f (a ∷ rows) k (p, h) = (
  subst (λ n. P (f a).id n) (sym (k a).1) (subst (λ i. P i a.name) (sym (k a).0) p),
  touch-All P f rows k h,
)

touch-Apart :
    (r : ℕ → String → ℕ → String → Bool) (f : Agent → Agent) (rows : List Agent)
    → ((a : Agent) → ((f a).id ≡ a.id) × ((f a).name ≡ a.name))
    → Apart (λ (a b : Agent). r a.id a.name b.id b.name) rows
    → Apart (λ (a b : Agent). r a.id a.name b.id b.name) (map f rows)
touch-Apart r f [] k h = tt
touch-Apart r f (a ∷ rows) k (p, h) =
    let row = touch-All (λ i n. r a.id a.name i n ≡ false) f rows k p in
    (
      subst (λ m. All (λ (b : Agent). r (f a).id m b.id b.name ≡ false) (map f rows)) (sym (k a).1)
          (subst (λ i. All (λ (b : Agent). r i a.name b.id b.name ≡ false) (map f rows))
            (sym (k a).0) row),
      touch-Apart r f rows k h,
    )

pub touch_agent-IsValid :
    (now : Time) (id : ℕ) (db : Db) → IsValid db → IsValid (touch_agent now id db)
unfolding touch_agent
touch_agent-IsValid now id db v =
    let f = λ (a : Agent). if eqb a.id id then record a { last_seen = now } else a in
    let k : (a : Agent) → ((f a).id ≡ a.id) × ((f a).name ≡ a.name) = λ a. ground arith in
    let t : IsTable (λ (a : Agent). a.id) db.next_agent (map f db.agents) = record {
      below = touch-All (λ i n. i < db.next_agent) f db.agents k v.agent_table.below;
      distinct = touch-Apart (λ i n j m. eqb i j) f db.agents k v.agent_table.distinct;
    } in
    let u = touch-Apart (λ i n j m. n == m) f db.agents k v.agent_unique in
    record {
      hsm_table = v.hsm_table;
      hsm_unique = v.hsm_unique;
      scan_table = v.scan_table;
      scan_hsm = v.scan_hsm;
      drift_table = v.drift_table;
      drift_hsm = v.drift_hsm;
      regression_table = v.regression_table;
      regression_hsm = v.regression_hsm;
      agent_table = t;
      agent_unique = u;
      notified_once = v.notified_once;
    }
