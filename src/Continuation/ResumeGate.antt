-- ===== src/Continuation/ResumeGate.antt =====
-- packages/continuation/src/resume-gate.ts. The digest of a playbook is SHA-256 over its canonical
-- JSON text: a parameter, as is everything of a playbook but its name and version.
pub mod Resumable
mod Tests
use rote.Prelude.{
  ℕ, String, Option, some, none, Bool, true, false, not, ◌&&◌, ◌||◌, List, [], ◌∷◌, same, ◌==◌,
  String-discrete, if◌then◌else◌,
}
use rote.Core.Evidence.{Envelope, EvidenceClass-discrete}
use rote.Continuation.Checkpoint.{
  CheckpointEvidenceRef, ProcedureStatus, in_progress, completed, TaskCheckpoint, MismatchKind,
  fingerprint, principal, task, procedure_version, bindings, evidence_stale, state_diverged,
  already_completed,
}

pub record Playbook (B : Type 0) : Type 0 where
  pub playbook : String
  pub version : ℕ
  pub body : B

pub record ResumeContext (B S : Type 0) : Type 0 where
  pub task_id : String
  pub env_fingerprint_hash : String
  pub principal_sha256 : String
  pub playbook : Playbook B
  pub bindings_sha256 : String
  pub envelopes : List (Envelope S)
  pub current_generation : Option ℕ

-- The test of `envelopes.find`.
abbrev pub is_match : {S : Type 0} → CheckpointEvidenceRef → Envelope S → Bool
is_match r e =
    same String-discrete e.adapter_id r.adapter_id
    && same EvidenceClass-discrete e.evidence_class r.evidence_class

-- `context.envelopes.find(…)`.
unfoldable pub find_envelope :
    {S : Type 0} → CheckpointEvidenceRef → List (Envelope S) → Option (Envelope S)
find_envelope r [] = none
find_envelope r (e ∷ es) = if is_match r e then some e else find_envelope r es

-- A generation is compared where both sides know one.
unfoldable pub is_outdated : Option ℕ → Option ℕ → Bool
is_outdated (some now) (some then_at) = not (then_at == now)
is_outdated _ _ = false

-- `!match || match.payload_sha256 !== ref.payload_sha256`.
unfoldable pub has_moved : {S : Type 0} → CheckpointEvidenceRef → Option (Envelope S) → Bool
has_moved r none = true
has_moved r (some e) = not (same String-discrete e.payload_sha256 r.payload_sha256)

-- The loop over the references: the first that fails, if any.
unfoldable pub check_refs :
    {S : Type 0} → Option ℕ → List (Envelope S) → List CheckpointEvidenceRef → Option MismatchKind
unfolding is_outdated has_moved find_envelope
check_refs g es [] = none
check_refs g es (r ∷ rs) =
    let rest = check_refs g es rs in
    if is_outdated g r.freshness_generation
    then some evidence_stale
    else if has_moved r (find_envelope r es)
    then some state_diverged
    else rest

unfoldable pub check_status : ProcedureStatus → Option MismatchKind
check_status completed = some already_completed
check_status in_progress = none

-- `none` where `assertResumable` returns, else the kind of the error that it throws.
unfoldable pub assert_resumable :
    {B S : Type 0}
    → (Playbook B → String)
    → TaskCheckpoint
    → ResumeContext B S
    → Option MismatchKind
unfolding check_refs check_status
assert_resumable playbook_sha256 c x =
    let procedure = playbook_sha256 x.playbook in
    if not (same String-discrete c.env_fingerprint_hash x.env_fingerprint_hash)
    then some fingerprint
    else if not (same String-discrete c.principal_sha256 x.principal_sha256)
    then some principal
    else if not (same String-discrete c.task_id x.task_id)
    then some task
    else if not (same String-discrete c.procedure.playbook x.playbook.playbook)
        || (not (c.procedure.version == x.playbook.version)
            || not (same String-discrete c.procedure.playbook_sha256 procedure))
    then some procedure_version
    else if not (same String-discrete c.bindings_sha256 x.bindings_sha256)
    then some bindings
    else elim (check_refs x.current_generation x.envelopes c.evidence_refs) [
      | some k ↦ some k
      | none ↦ check_status c.procedure.status
    ]
