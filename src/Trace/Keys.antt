-- ===== src/Trace/Keys.antt =====
-- internal/trace/keys.go: which keys a trace put to work. A loop over a map is modelled on the
-- map's entries in the order of insertion.
pub mod Usage
pub mod Idle
use hsm_doctor.Base.{
  ℕ, ◌+◌, String, ◌≡◌, ◌↔◌, Bool, true, false, not, Option, none, some, List, [], ◌∷◌, ◌++◌, ◌&&◌,
  ◌||◌, ◌==◌, eqb, ltb, eq_bool, if◌then◌else◌, map, total, eq_iff, arith,
}
use hsm_doctor.Base.Sort.{sort_by}
use hsm_doctor.Base.Dict.{Eq, Dict, lookup, insert, or_zero, nat_eq, string_eq, keys, values}
use hsm_doctor.Base.Text.{str_lt}
use hsm_doctor.Trace.Event.{Event, session_or_zero}
use hsm_doctor.Trace.Report.{one_of}

abbrev pub operation_init : List String
operation_init =
    "C_SignInit" ∷ "C_VerifyInit" ∷ "C_EncryptInit" ∷ "C_DecryptInit" ∷ "C_WrapKey" ∷ "C_UnwrapKey"
    ∷ []

pub record KeyUsage : Type 0 where
  pub resolved : Bool
  pub label : String
  pub key_id : String
  pub handle : ℕ
  pub operations : Dict String ℕ
  pub mechanisms : List String
  pub total_calls : ℕ

pub record KeyRef : Type 0 where
  pub class : String
  pub label : String
  pub key_id : String

pub record KeyUsageReport : Type 0 where
  pub keys : List KeyUsage
  pub unresolved : ℕ
  pub idle : List KeyRef

-- The sets `usedID` and `usedLabel`.
pub record Used : Type 0 where
  pub ids : Dict String Bool
  pub labels : Dict String Bool

abbrev pub mark : String → Dict String Bool → Dict String Bool
mark k m = if k == "" then m else insert k true m

pub used_loop : Used → List KeyUsage → Used
used_loop u [] = u
used_loop u (k ∷ ks) =
    used_loop
      (if k.resolved
        then record { ids = mark k.key_id u.ids; labels = mark k.label u.labels }
        else u)
      ks

abbrev pub is_marked : String → Dict String Bool → Bool
is_marked k m = not (k == "") && or_zero false (lookup k m)

abbrev pub nothing_used : Used
nothing_used = record { ids = []; labels = [] }

pub idle_loop : Used → List KeyRef → List KeyRef
idle_loop u [] = []
idle_loop u (c ∷ cs) =
    let rest = idle_loop u cs in
    if is_marked c.key_id u.ids || is_marked c.label u.labels then rest else c ∷ rest

unfoldable pub idle_keys : KeyUsageReport → List KeyRef → List KeyRef
idle_keys r candidates = idle_loop (used_loop nothing_used r.keys) candidates

pub record Identity : Type 0 where
  pub label : String
  pub key_id : String

abbrev pub identity_eq : Identity → Identity → Bool
identity_eq a b = a.label == b.label && a.key_id == b.key_id

pub identity_eq_iff : (a b : Identity) → (identity_eq a b ≡ true) ↔ (a ≡ b)
identity_eq_iff a b = ground (arith, eq_iff a.label b.label, eq_iff a.key_id b.key_id)

instance abbrev pub identity_key : Eq Identity
identity_key = record { beq = identity_eq; beq_iff = identity_eq_iff }

abbrev pub named : Identity → Bool
named i = not (i.label == "") || not (i.key_id == "")

-- A missing key of `pending` reads as the empty identity.
abbrev pub no_identity : Identity
no_identity = record { label = ""; key_id = "" }

pub record UsageAgg : Type 0 where
  pub id : Identity
  pub handle : ℕ
  pub ops : Dict String ℕ
  pub mechs : Dict String Bool

-- The maps of `KeyUsageOf`.
pub record State : Type 0 where
  pub pending : Dict ℕ Identity
  pub bindings : Dict ℕ (Dict ℕ Identity)
  pub by_identity : Dict Identity UsageAgg
  pub by_handle : Dict ℕ UsageAgg

abbrev pub start : State
start = record { pending = []; bindings = []; by_identity = []; by_handle = [] }

abbrev pub fresh_agg : Identity → ℕ → UsageAgg
fresh_agg i h = record { id = i; handle = h; ops = []; mechs = [] }

-- What one operation adds to the usage of its key.
unfoldable pub add_use : Event → UsageAgg → UsageAgg
add_use e u = record u {
  ops = insert e.function (or_zero 0 (lookup e.function u.ops) + 1) u.ops;
  mechs = if e.mechanism == "" then u.mechs else insert e.mechanism true u.mechs;
}

-- `bindings[sess][handle]`, where it is there and named
unfoldable pub bound : State → ℕ → ℕ → Option Identity
bound s sess handle = elim (lookup handle (or_zero [] (lookup sess s.bindings))) [
  | none ↦ none
  | some i ↦ if named i then some i else none
]

-- An operation on a handle.
unfoldable pub attribute : State → Event → ℕ → State
attribute s e handle = elim (bound s (session_or_zero e) handle) [
  | some i ↦ record s {
    by_identity =
        insert i (add_use e (or_zero (fresh_agg i 0) (lookup i s.by_identity))) s.by_identity;
  }
  | none ↦ record s {
    by_handle =
        insert handle
          (add_use e (or_zero (fresh_agg no_identity handle) (lookup handle s.by_handle)))
          s.by_handle;
  }
]

-- A find that returned a handle binds it to the identity that was searched for.
unfoldable pub bind : State → Event → ℕ → State
bind s e handle =
    let sess = session_or_zero e in
    let i = or_zero no_identity (lookup sess s.pending) in
    if named i
    then record s {
      bindings = insert sess (insert handle i (or_zero [] (lookup sess s.bindings))) s.bindings;
    }
    else s

unfoldable pub step : State → Event → State
step s e =
    if e.function == "C_FindObjectsInit"
    then record s {
      pending =
          insert (session_or_zero e) (record { label = e.label; key_id = e.key_id }) s.pending;
    }
    else if e.function == "C_FindObjects"
    then elim e.object [ none ↦ s | some h ↦ bind s e h ]
    else if one_of operation_init e.function
    then elim e.object [ none ↦ s | some h ↦ attribute s e h ]
    else s

unfoldable pub loop : State → List Event → State
loop s [] = s
loop s (e ∷ es) = loop (step s e) es

-- `appendUsage`
unfoldable pub usage_of : Bool → UsageAgg → KeyUsage
usage_of resolved u = record {
  resolved = resolved;
  label = u.id.label;
  key_id = u.id.key_id;
  handle = if resolved then 0 else u.handle;
  operations = u.ops;
  mechanisms = sort_by str_lt (keys u.mechs);
  total_calls = total (λ n. n) (values u.ops);
}

-- Resolved keys first, then by label, key id and handle.
unfoldable pub usage_before : KeyUsage → KeyUsage → Bool
usage_before a b =
    if not (eq_bool a.resolved b.resolved)
    then a.resolved
    else if not (a.label == b.label)
    then str_lt a.label b.label
    else if not (a.key_id == b.key_id)
    then str_lt a.key_id b.key_id
    else ltb a.handle b.handle

abbrev pub count_all : {A : Type 0} → List A → ℕ
count_all [] = 0
count_all (x ∷ l) = 1 + count_all l

-- Where no inventory is given, `Idle` stays empty.
unfoldable pub key_usage_of : List Event → KeyUsageReport
key_usage_of es =
    let s = loop start es in
    record {
      keys =
          sort_by usage_before (
            map (usage_of true) (values s.by_identity)
            ++ map (usage_of false) (values s.by_handle));
      unresolved = count_all (values s.by_handle);
      idle = [];
    }
