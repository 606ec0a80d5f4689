-- ===== src/Server/Ingest.antt =====
-- internal/server/ingest.go: how agents enroll and push their reports. The random token, SHA-256 in
-- hexadecimal and the decoders of the bodies are parameters.
pub mod Agents
use hsm_doctor.Base.{ℕ, String, Bool, true, false, not, Option, none, some, ◌==◌, if◌then◌else◌}
use hsm_doctor.Base.Clock.{Time}
use hsm_doctor.Base.Fallible.{Fallible, done, failed}
use hsm_doctor.Base.Text.Parts.{cut_prefix}
use hsm_doctor.Store.{Agent}
use hsm_doctor.Server.Records.{Report}

-- The queries of `store.Store` that agents need.
pub record AgentQueries (S : Type 0) : Type 0 where
  pub upsert_agent : Time → String → String → S → Fallible ℕ × S
  pub get_agent_by_token_hash : String → S → Fallible (Option Agent)
  pub touch_agent : Time → ℕ → S → Fallible (Unit {0}) × S

pub record Enrollment : Type 0 where
  pub name : String
  pub enroll_token : String

-- A status, and the agent's token where the answer carries one.
pub data Response : Type 0 where
  error : ℕ → Response
  enrolled : String → String → Response
  stored : String → Response

module _ {S : Type 0} (q : AgentQueries S) (hash_token : String → String) where
  abbrev pub answered : String → String → Fallible ℕ × S → Response × S
  answered name token (failed e, s) = (error 500, s)
  answered name token (done id, s) = (enrolled name token, s)

  abbrev pub enroll_with : Time → String → Fallible String → S → Response × S
  enroll_with now name (failed e) s = (error 500, s)
  enroll_with now name (done token) s =
      answered name token (q.upsert_agent now name (hash_token token) s)

  abbrev pub enroll_body : Time → String → Fallible String → Fallible Enrollment → S → Response × S
  enroll_body now secret random (failed e) s = (error 400, s)
  enroll_body now secret random (done body) s =
      if body.name == ""
      then (error 400, s)
      else if not (body.enroll_token == secret)
      then (error 401, s)
      else enroll_with now body.name random s

  -- `secret` is the server's enrollment token, `random` what the generator gives, in hexadecimal; a
  -- server without persistence is `none`.
  unfoldable pub handle_enroll :
      Time → String → Fallible String → Fallible Enrollment → Option S → Response × Option S
  handle_enroll now secret random body none = (error 503, none)
  handle_enroll now secret random body (some s) =
      let (r, s') = if secret == "" then (error 403, s) else enroll_body now secret random body s in
      (r, some s')

  -- `persistScan` and `observeScan` for the report of an agent.
  module _ (persist : Report → String → S → S) where
    abbrev pub has_inventory : Report → Bool
    has_inventory rep = elim rep.inventory [ none ↦ false | some inv ↦ true ]

    abbrev pub ingest_body : Time → Agent → Fallible Report → S → Response × S
    ingest_body now agent (failed e) s = (error 400, s)
    ingest_body now agent (done rep) s =
        if not (has_inventory rep)
        then (error 400, s)
        else (stored agent.name, (q.touch_agent now agent.id (persist rep agent.name s)).1)

    abbrev pub ingest_for : Time → Fallible (Option Agent) → Fallible Report → S → Response × S
    ingest_for now (failed e) body s = (error 500, s)
    ingest_for now (done none) body s = (error 401, s)
    ingest_for now (done (some agent)) body s = ingest_body now agent body s

    abbrev pub ingest_token : Time → Option String → Fallible Report → S → Response × S
    ingest_token now none body s = (error 401, s)
    ingest_token now (some token) body s =
        if token == ""
        then (error 401, s)
        else ingest_for now (q.get_agent_by_token_hash (hash_token token) s) body s

    unfoldable pub handle_ingest_report :
        Time → String → Fallible Report → Option S → Response × Option S
    handle_ingest_report now authorization body none = (error 503, none)
    handle_ingest_report now authorization body (some s) =
        let (r, s') = ingest_token now (cut_prefix authorization "Bearer ") body s in (r, some s')
