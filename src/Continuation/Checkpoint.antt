-- ===== src/Continuation/Checkpoint.antt =====
-- packages/core/src/schemas/task-checkpoint.ts. A value of these types is one that its schema parsed,
-- or is to parse (`is_checkpoint`); `version` fields are left out.
use rote.Core.Hex.{is_hex_of}
use rote.Prelude.{ℕ, String, Option, some, none, Bool, true, false, ◌&&◌, List, [], ◌∷◌, ltb}
use rote.Core.ActionContract.{EvidenceClass}

pub record CheckpointEvidenceRef : Type 0 where
  pub evidence_class : EvidenceClass
  pub adapter_id : String
  pub payload_sha256 : String
  pub freshness_generation : Option ℕ

pub data ProcedureStatus : Type 0 where
  in_progress completed : ProcedureStatus

pub record Procedure : Type 0 where
  pub playbook : String
  pub version : ℕ
  pub playbook_sha256 : String
  pub completed_step_ids : List String
  -- `z.record(z.string(), z.string())`: the pairs in the order of insertion.
  pub step_bindings : List (String × String)
  pub status : ProcedureStatus

pub record TaskCheckpoint : Type 0 where
  pub checkpoint_id : String
  pub task_id : String
  pub seq : ℕ
  pub previous_checkpoint_id : Option String
  pub written_at : String
  pub env_fingerprint_hash : String
  pub principal_sha256 : String
  pub procedure : Procedure
  pub bindings_sha256 : String
  pub evidence_refs : List CheckpointEvidenceRef
  pub resume_url : Option String

pub data MismatchKind : Type 0 where
  fingerprint principal task procedure_version bindings : MismatchKind
  evidence_stale state_diverged already_completed : MismatchKind

-- `z.string().min(1)`, and the same where the field may be missing.
abbrev pub is_filled : String → Bool
is_filled String.[] = false
is_filled (String.◌∷◌ c s) = true

abbrev pub is_filled_or_missing : Option String → Bool
is_filled_or_missing none = true
is_filled_or_missing (some s) = is_filled s

-- `/^[0-9a-f]{64}$/`.
unfoldable pub is_sha256 : String → Bool
unfolding is_hex_of
is_sha256 s = is_hex_of 64 s

abbrev pub all_filled : List String → Bool
all_filled [] = true
all_filled (s ∷ ss) = is_filled s && all_filled ss

unfoldable pub are_refs : List CheckpointEvidenceRef → Bool
unfolding is_sha256
are_refs [] = true
are_refs (r ∷ rs) = is_filled r.adapter_id && (is_sha256 r.payload_sha256 && are_refs rs)

unfoldable pub is_procedure : Procedure → Bool
unfolding is_sha256
is_procedure p =
    is_filled p.playbook
    && (ltb 0 p.version && (is_sha256 p.playbook_sha256 && all_filled p.completed_step_ids))

-- Whether `TaskCheckpointSchema.parse` returns; `z.string().datetime()` comes first.
unfoldable pub is_checkpoint : (is_datetime : String → Bool) → TaskCheckpoint → Bool
unfolding is_sha256 are_refs is_procedure
is_checkpoint is_datetime c =
    is_filled c.checkpoint_id
    && (is_filled c.task_id
        && (is_filled_or_missing c.previous_checkpoint_id
            && (is_datetime c.written_at
                && (is_filled c.env_fingerprint_hash
                    && (is_sha256 c.principal_sha256
                        && (is_procedure c.procedure
                            && (is_sha256 c.bindings_sha256
                                && (are_refs c.evidence_refs
                                    && is_filled_or_missing c.resume_url))))))))
