-- ===== src/Continuation/CheckpointStore.antt =====
-- packages/continuation/src/checkpoint-store.ts: `MemoryCheckpointStore`. Its `Map` from task ids to
-- logs is the list of its entries in the order of insertion. A checkpoint that the schema rejects
-- is not a `TaskCheckpoint`: parsing throws before the store is read.
pub mod Sequence
mod Tests
use rote.Prelude.{
  ℕ, ◌+◌, String, Option, some, none, Bool, List, [], ◌∷◌, ◌++◌, same, ◌==◌, String-discrete,
  if◌then◌else◌, Result, ok, err,
}
use rote.Continuation.Checkpoint.{TaskCheckpoint}

pub record CheckpointSequenceError : Type 0 where
  pub task_id : String
  pub expected_seq : ℕ
  pub got_seq : ℕ

pub record LogEntry : Type 0 where
  pub task_id : String
  pub log : List TaskCheckpoint

-- `this.logs.get(taskId) ?? []`.
unfoldable pub log_of : String → List LogEntry → List TaskCheckpoint
log_of t [] = []
log_of t (e ∷ es) = if same String-discrete e.task_id t then e.log else log_of t es

-- `this.logs.set(taskId, log)`.
unfoldable pub set_log : String → List TaskCheckpoint → List LogEntry → List LogEntry
set_log t l [] = record { task_id = t; log = l } ∷ []
set_log t l (e ∷ es) =
    if same String-discrete e.task_id t
    then record { task_id = t; log = l } ∷ es
    else e ∷ set_log t l es

-- `log[log.length - 1]`.
abbrev pub last : List TaskCheckpoint → Option TaskCheckpoint
last [] = none
last (c ∷ []) = some c
last (c ∷ d ∷ cs) = last (d ∷ cs)

unfoldable pub latest : String → List LogEntry → Option TaskCheckpoint
unfolding log_of
latest t logs = last (log_of t logs)

-- What the next sequence number must be.
abbrev pub expected_after : Option TaskCheckpoint → ℕ
expected_after none = 0
expected_after (some c) = c.seq + 1

unfoldable pub append :
    TaskCheckpoint → List LogEntry → Result CheckpointSequenceError (List LogEntry)
unfolding log_of set_log
append c logs =
    let log = log_of c.task_id logs in
    let expected = expected_after (last log) in
    if c.seq == expected
    then ok (set_log c.task_id (log ++ c ∷ []) logs)
    else err (record { task_id = c.task_id; expected_seq = expected; got_seq = c.seq })
