-- ===== src/Continuation/ContinueTask/Tests.antt =====
-- packages/continuation/src/continue-task.ts: a fresh task of two steps.
use rote.Prelude.{ℕ, String, some, none, true, [], ◌∷◌, ok, err, ◌≡◌, refl, String-discrete}
use rote.Continuation.ResumeGate.{Playbook}
use rote.Continuation.CheckpointStore.{append, log_of, set_log, latest}
use rote.Continuation.CheckpointStore.Sequence.{created}
use rote.Core.Hex.{is_hex_of}
use rote.Continuation.Checkpoint.{is_checkpoint, is_procedure, are_refs, is_sha256}
use rote.Continuation.ContinueTask.{
  Replay, ContinueTaskOptions, ContinuationResult, replay_failed, append_parsed, append_checkpoint,
  checkpoint_of, write_checkpoint, write_events, close, end_replay, after_replay, proceed,
  continue_from, continue_task,
}
use rote.Continuation.ContinueTask.Logged.{IsAccounted, continue_task-IsAccounted}
use rote.Executor.Run.{success}

abbrev digest : String
digest = "0123456789abcdef0123456789abcdef0123456789abcdef0123456789abcdef"

abbrev name_of : Playbook ℕ → String
name_of b = digest

abbrev two_steps_done : Replay
two_steps_done = record {
  events =
      record { step_id = "a"; completed_step_ids = "a" ∷ []; step_bindings = [] }
      ∷ record { step_id = "b"; completed_step_ids = "a" ∷ "b" ∷ []; step_bindings = [] }
      ∷ [];
  outcome = some success;
  completed_step_ids = "a" ∷ "b" ∷ [];
}

abbrev options : ContinueTaskOptions ℕ String
options = record {
  task_id = "task";
  principal_sha256 = digest;
  playbook = record { playbook = "book"; version = 1; body = 0 };
  bindings_sha256 = digest;
  env_fingerprint_hash = "env";
  replay = λ r. two_steps_done;
  collect_evidence = λ n. some (record { envelopes = []; generation = none });
  resume_url = none;
  prepares = true;
  is_datetime = λ s. true;
  new_id = λ n. "id";
  clock = λ n. "2026-01-01T00:00:00Z";
}

abbrev fresh_result : ContinuationResult
fresh_result = record {
  resumed_from_seq = none;
  resumed_step_ids = [];
  checkpoints_written = 3;
  outcome = success;
}

-- The replay rejects after the first report: the checkpoint of that report stays.
abbrev rejecting : ContinueTaskOptions ℕ String
rejecting = record options {
  replay = λ r. record {
    events = record { step_id = "a"; completed_step_ids = "a" ∷ []; step_bindings = [] } ∷ [];
    outcome = none;
    completed_step_ids = [];
  };
}

rejected_after_one :
    ((continue_task name_of rejecting []).0 ≡ err replay_failed)
    × ((continue_task name_of rejecting []).1.written ≡ 1)
unfolding continue_task continue_from proceed after_replay end_replay close write_events
    write_checkpoint checkpoint_of append_parsed is_checkpoint is_procedure are_refs is_sha256
    is_hex_of append_checkpoint append log_of set_log latest String-discrete
rejected_after_one = (refl, refl)

-- One checkpoint for each step, and the one that closes the log.
three_written : (continue_task name_of options []).0 ≡ ok fresh_result
unfolding continue_task continue_from proceed after_replay end_replay close write_events
    write_checkpoint checkpoint_of append_parsed is_checkpoint is_procedure are_refs is_sha256
    is_hex_of append_checkpoint append log_of set_log latest String-discrete
three_written = refl

continue_task-IsAccounted_example :
    IsAccounted name_of options [] (continue_task name_of options [])
continue_task-IsAccounted_example = continue_task-IsAccounted name_of options [] created
