-- ===== src/Continuation/CheckpointStore/Tests.antt =====
-- packages/continuation/src/checkpoint-store.ts: the store on concrete checkpoints.
use rote.Prelude.{
  ℕ, String, some, none, List, ◌≢◌, [], ◌∷◌, ok, ◌≡◌, ◌↔◌, refl, length, String-discrete,
}
use rote.Continuation.Checkpoint.{TaskCheckpoint, in_progress}
use rote.Continuation.CheckpointStore.{latest, LogEntry, append, log_of, set_log}
use rote.Continuation.CheckpointStore.Sequence.{
  latest-append, Written, created, appended, IsNumbered, Written-IsNumbered, append_iff,
}

abbrev checkpoint : String → ℕ → TaskCheckpoint
checkpoint t n = record {
  checkpoint_id = "id";
  task_id = t;
  seq = n;
  previous_checkpoint_id = none;
  written_at = "2026-01-01T00:00:00Z";
  env_fingerprint_hash = "env";
  principal_sha256 = "who";
  procedure = record {
    playbook = "book";
    version = 1;
    playbook_sha256 = "digest";
    completed_step_ids = [];
    step_bindings = [];
    status = in_progress;
  };
  bindings_sha256 = "given";
  evidence_refs = [];
  resume_url = none;
}

abbrev one_log : List LogEntry
one_log = record { task_id = "a"; log = checkpoint "a" 0 ∷ [] } ∷ []

abbrev two_logs : List LogEntry
two_logs =
    record { task_id = "a"; log = checkpoint "a" 0 ∷ [] }
    ∷ record { task_id = "b"; log = checkpoint "b" 0 ∷ [] }
    ∷ []

append_first : append (checkpoint "a" 0) [] ≡ ok one_log
unfolding append log_of set_log
append_first = refl

append_other : append (checkpoint "b" 0) one_log ≡ ok two_logs
unfolding append log_of set_log String-discrete
append_other = refl

two_logs-Written : Written two_logs
two_logs-Written =
    appended (checkpoint "b" 0) (appended (checkpoint "a" 0) created append_first) append_other

Written-IsNumbered_example : IsNumbered "b" 0 (log_of "b" two_logs)
Written-IsNumbered_example = Written-IsNumbered "b" two_logs-Written

append_iff_example :
    ((u : List LogEntry) × (append (checkpoint "a" 1) two_logs ≡ ok u))
    ↔ (1 ≡ length (log_of "a" two_logs))
append_iff_example = append_iff (checkpoint "a" 1) two_logs two_logs-Written

latest-append_example :
    (latest "b" two_logs ≡ some (checkpoint "b" 0))
    × ((t : String) → t ≢ "b" → log_of t two_logs ≡ log_of t one_log)
latest-append_example = latest-append (checkpoint "b" 0) one_log two_logs append_other
