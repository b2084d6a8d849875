-- ===== src/Continuation/ContinueTask.antt =====
-- packages/continuation/src/continue-task.ts. The replay (Executor.Run) is an interface: the reports
-- that it makes, and how it ends while each of them returns, where it may reject; where a report
-- throws, the replay ends there with a failure. Evidence, new ids and the clock are functions of the
-- number of the call. Digests are SHA-256, and the test of a date is the schema library's: parameters.
pub mod Logged
mod Tests
use rote.Prelude.{
  ℕ, suc, ◌+◌, String, Option, some, none, Bool, true, false, List, [], ◌∷◌, map, if◌then◌else◌,
  Result, ok, err,
}
use rote.Core.Evidence.{Envelope}
use rote.Continuation.Checkpoint.{
  CheckpointEvidenceRef, ProcedureStatus, in_progress, completed, TaskCheckpoint, is_checkpoint,
  MismatchKind,
}
use rote.Continuation.ResumeGate.{Playbook, ResumeContext, assert_resumable}
use rote.Continuation.CheckpointStore.{LogEntry, latest, append, expected_after}
use rote.Executor.Attempt.{StepEvent}
use rote.Executor.Run.{ExecutorOutcome, success, failure, Resume}

pub record Collected (S : Type 0) : Type 0 where
  pub envelopes : List (Envelope S)
  pub generation : Option ℕ

pub record Replay : Type 0 where
  pub events : List StepEvent
  -- `none`: `runPlaybook` rejects, after these reports.
  pub outcome : Option ExecutorOutcome
  pub completed_step_ids : List String

pub record ContinueTaskOptions (B S : Type 0) : Type 0 where
  pub task_id : String
  pub principal_sha256 : String
  pub playbook : Playbook B
  pub bindings_sha256 : String
  pub env_fingerprint_hash : String
  pub replay : Resume → Replay
  -- `none`: an adapter throws.
  pub collect_evidence : ℕ → Option (Collected S)
  pub resume_url : Option String
  -- Whether `prepareSession` returns.
  pub prepares : Bool
  -- `z.string().datetime()` of the schema of checkpoints.
  pub is_datetime : String → Bool
  pub new_id : ℕ → String
  pub clock : ℕ → String

-- The variables that `writeCheckpoint` changes, and the number of collections so far.
pub record Writer : Type 0 where
  pub store : List LogEntry
  pub seq : ℕ
  pub previous_id : Option String
  pub written : ℕ
  pub collections : ℕ

pub data ContinueError : Type 0 where
  mismatch : MismatchKind → ContinueError
  evidence_failed session_failed checkpoint_failed replay_failed : ContinueError

pub record ContinuationResult : Type 0 where
  pub resumed_from_seq : Option ℕ
  pub resumed_step_ids : List String
  pub checkpoints_written : ℕ
  pub outcome : ExecutorOutcome

abbrev pub ref_of : {S : Type 0} → Envelope S → CheckpointEvidenceRef
ref_of e = record {
  evidence_class = e.evidence_class;
  adapter_id = e.adapter_id;
  payload_sha256 = e.payload_sha256;
  freshness_generation = e.freshness_generation;
}

abbrev pub id_of : Option TaskCheckpoint → Option String
id_of none = none
id_of (some c) = some c.checkpoint_id

abbrev pub seq_of : Option TaskCheckpoint → Option ℕ
seq_of none = none
seq_of (some c) = some c.seq

abbrev pub resume_of : Option TaskCheckpoint → Resume
resume_of none = record { completed_step_ids = []; step_bindings = [] }
resume_of (some c) = record {
  completed_step_ids = c.procedure.completed_step_ids;
  step_bindings = c.procedure.step_bindings;
}

module _ {B S : Type 0} (sha256_of : Playbook B → String) (o : ContinueTaskOptions B S) where
  unfoldable pub checkpoint_of :
      List String → List (String × String) → ProcedureStatus → Collected S → Writer → TaskCheckpoint
  checkpoint_of ids bindings status c w = record {
    checkpoint_id = o.new_id w.written;
    task_id = o.task_id;
    seq = w.seq;
    previous_checkpoint_id = w.previous_id;
    written_at = o.clock w.written;
    env_fingerprint_hash = o.env_fingerprint_hash;
    principal_sha256 = o.principal_sha256;
    procedure = record {
      playbook = o.playbook.playbook;
      version = o.playbook.version;
      playbook_sha256 = sha256_of o.playbook;
      completed_step_ids = ids;
      step_bindings = bindings;
      status = status;
    };
    bindings_sha256 = o.bindings_sha256;
    evidence_refs = map ref_of c.envelopes;
    resume_url = o.resume_url;
  }

  abbrev pub count_collection : Writer → Writer
  count_collection w = record w { collections = w.collections + 1 }

  -- `await options.store.append(checkpoint)` and what follows it; `false` where it throws.
  unfoldable pub append_checkpoint : TaskCheckpoint → Writer → Bool × Writer
  append_checkpoint c w = elim (append c w.store) [
    | ok s ↦ (
      true,
      record w {
        store = s;
        previous_id = some c.checkpoint_id;
        seq = w.seq + 1;
        written = w.written + 1;
      },
    )
    | err e ↦ (false, w)
  ]

  -- A checkpoint that its schema rejects is not appended.
  unfoldable pub append_parsed : TaskCheckpoint → Writer → Bool × Writer
  unfolding append_checkpoint is_checkpoint
  append_parsed c w = if is_checkpoint o.is_datetime c then append_checkpoint c w else (false, w)

  unfoldable pub write_checkpoint :
      List String → List (String × String) → ProcedureStatus → Writer → Bool × Writer
  unfolding checkpoint_of append_parsed
  write_checkpoint ids bindings status w = elim (o.collect_evidence w.collections) [
    | none ↦ (false, count_collection w)
    | some c ↦ append_parsed (checkpoint_of ids bindings status c w) (count_collection w)
  ]

  -- The reports of the replay, up to the first that throws.
  unfoldable pub write_events : List StepEvent → Writer → Bool × Writer
  unfolding write_checkpoint
  write_events [] w = (true, w)
  write_events (e ∷ es) w =
      let p = write_checkpoint e.completed_step_ids e.step_bindings in_progress w in
      let rest = write_events es p.1 in if p.0 then rest else p

  abbrev pub result_of : Option TaskCheckpoint → ExecutorOutcome → Writer → ContinuationResult
  result_of from outcome w = record {
    resumed_from_seq = seq_of from;
    resumed_step_ids = (resume_of from).completed_step_ids;
    checkpoints_written = w.written;
    outcome = outcome;
  }

  -- The record that closes the log of a success.
  unfoldable pub close :
      Option TaskCheckpoint → Replay → Writer → Result ContinueError ContinuationResult × Writer
  unfolding write_checkpoint
  close from r w =
      let p = write_checkpoint r.completed_step_ids (resume_of from).step_bindings completed w in
      (if p.0 then ok (result_of from success p.1) else err checkpoint_failed, p.1)

  unfoldable pub end_replay :
      Option TaskCheckpoint
      → Replay
      → Writer
      → Option ExecutorOutcome
      → Result ContinueError ContinuationResult × Writer
  unfolding close
  end_replay from r w none = (err replay_failed, w)
  end_replay from r w (some success) = close from r w
  end_replay from r w (some other) = (ok (result_of from other w), w)

  unfoldable pub after_replay :
      Option TaskCheckpoint
      → Replay
      → Bool × Writer
      → Result ContinueError ContinuationResult × Writer
  unfolding end_replay
  after_replay from r (false, w) = (ok (result_of from failure w), w)
  after_replay from r (true, w) = end_replay from r w r.outcome

  -- From the call of `prepareSession` on.
  unfoldable pub proceed :
      Option TaskCheckpoint → Writer → Result ContinueError ContinuationResult × Writer
  unfolding write_events after_replay
  proceed from w =
      if o.prepares
      then after_replay from (o.replay (resume_of from))
          (write_events (o.replay (resume_of from)).events w)
      else (err session_failed, w)

  abbrev pub writer_from : Option TaskCheckpoint → ℕ → List LogEntry → Writer
  writer_from from collections store = record {
    store = store;
    seq = expected_after from;
    previous_id = id_of from;
    written = 0;
    collections = collections;
  }

  abbrev pub context_of : Collected S → ResumeContext B S
  context_of c = record {
    task_id = o.task_id;
    env_fingerprint_hash = o.env_fingerprint_hash;
    principal_sha256 = o.principal_sha256;
    playbook = o.playbook;
    bindings_sha256 = o.bindings_sha256;
    envelopes = c.envelopes;
    current_generation = c.generation;
  }

  -- With a latest checkpoint: its evidence is collected and the gate passed first.
  unfoldable pub resume_task :
      TaskCheckpoint
      → List LogEntry
      → Option (Collected S)
      → Result ContinueError ContinuationResult × Writer
  unfolding proceed
  resume_task c store none = (err evidence_failed, writer_from (some c) 1 store)
  resume_task c store (some found) = elim (assert_resumable sha256_of c (context_of found)) [
    | some k ↦ (err (mismatch k), writer_from (some c) 1 store)
    | none ↦ proceed (some c) (writer_from (some c) 1 store)
  ]

  unfoldable pub continue_from :
      List LogEntry → Option TaskCheckpoint → Result ContinueError ContinuationResult × Writer
  unfolding resume_task proceed
  continue_from store none = proceed none (writer_from none 0 store)
  continue_from store (some c) = resume_task c store (o.collect_evidence 0)

  unfoldable pub continue_task : List LogEntry → Result ContinueError ContinuationResult × Writer
  unfolding continue_from
  continue_task store = continue_from store (latest o.task_id store)
