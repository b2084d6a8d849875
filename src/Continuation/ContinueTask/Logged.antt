-- ===== src/Continuation/ContinueTask/Logged.antt =====
-- packages/continuation/src/continue-task.ts: what a session adds to the log of its task.
use rote.Prelude.{
  ℕ, ◌+◌, String, Option, some, none, Bool, true, false, List, [], ◌∷◌, ◌++◌, length, length-append,
  append_nil, append_assoc, if_both, Option-cases, Result, ok, err, ok_injective, ◌≡◌, refl, sym,
  ap, subst, ◌∙◌, arith, inl, inr,
}
use rote.Continuation.Checkpoint.{
  ProcedureStatus, in_progress, completed, TaskCheckpoint, is_checkpoint,
}
use rote.Continuation.ResumeGate.{Playbook, assert_resumable}
use rote.Continuation.CheckpointStore.{LogEntry, log_of, latest, append, expected_after}
use rote.Continuation.CheckpointStore.Sequence.{
  Written, appended, Written-IsNumbered, append_iff, log_of-append, expected-length,
}
use rote.Continuation.ContinueTask.{
  Collected, Replay, ContinueTaskOptions, Writer, ContinueError, mismatch, evidence_failed,
  session_failed, checkpoint_failed, replay_failed, append_parsed, ContinuationResult,
  checkpoint_of, count_collection, append_checkpoint, write_checkpoint, write_events, result_of,
  close, end_replay, after_replay, proceed, writer_from, context_of, resume_task, continue_from,
  continue_task, resume_of,
}
use rote.Executor.Attempt.{StepEvent}
use rote.Executor.Run.{ExecutorOutcome, success, failure, fallback, interrupted}

module _ {B S : Type 0} (sha256_of : Playbook B → String) (o : ContinueTaskOptions B S)
    (before : List LogEntry) where
  -- The store was only appended to, the next number is the length of the task's log, and that log is
  -- the earlier one with as many checkpoints behind it as were written.
  pub record IsLogged (w : Writer) : Type 0 where
    pub stored : Written w.store
    pub next : w.seq ≡ length (log_of o.task_id w.store)
    pub added :
        (cs : List TaskCheckpoint) × (log_of o.task_id w.store ≡ log_of o.task_id before ++ cs)
        × (w.written ≡ length cs)

  counted-IsLogged : (w : Writer) → IsLogged w → IsLogged (count_collection sha256_of o w)
  counted-IsLogged w l = record { stored = l.stored; next = l.next; added = l.added }

  appended-IsLogged :
      (c : TaskCheckpoint) (w : Writer) (s : List LogEntry)
      → c.task_id ≡ o.task_id
      → append c w.store ≡ ok s
      → IsLogged w
      → IsLogged (record w {
        store = s;
        previous_id = some c.checkpoint_id;
        seq = w.seq + 1;
        written = w.written + 1;
      })
  appended-IsLogged c w s same_task e l =
      let joined : log_of o.task_id s ≡ log_of o.task_id w.store ++ c ∷ [] =
        subst (λ t. log_of t s ≡ log_of t w.store ++ c ∷ []) same_task
          (log_of-append c w.store s e) in
      let (cs, same_log, count) = l.added in
      record {
        stored = appended c l.stored e;
        next =
            omega
              (arith, l.next, ap length joined, length-append (log_of o.task_id w.store) (c ∷ []));
        added = (
          cs ++ c ∷ [],
          joined
              ∙ ap (λ xs. xs ++ c ∷ []) same_log
              ∙ append_assoc (log_of o.task_id before) cs (c ∷ []),
          omega (arith, count, length-append cs (c ∷ [])),
        );
      }

  -- The store never refuses a checkpoint with the writer's number.
  append_checkpoint-IsLogged :
      (c : TaskCheckpoint) (w : Writer)
      → c.task_id ≡ o.task_id
      → c.seq ≡ w.seq
      → IsLogged w
      → IsLogged (append_checkpoint sha256_of o c w).1
  unfolding append_checkpoint
  append_checkpoint-IsLogged c w same_task same_seq l =
      let (s, e) =
        (append_iff c w.store l.stored).1
          (same_seq ∙ l.next ∙ ap (λ t. length (log_of t w.store)) (sym same_task)) in
      rw (e, append_checkpoint) (appended-IsLogged c w s same_task e l)

  append_parsed-IsLogged :
      (c : TaskCheckpoint) (w : Writer)
      → c.task_id ≡ o.task_id
      → c.seq ≡ w.seq
      → IsLogged w
      → IsLogged (append_parsed sha256_of o c w).1
  unfolding append_parsed
  append_parsed-IsLogged c w same_task same_seq l =
      if_both (λ (p : Bool × Writer). IsLogged p.1) (is_checkpoint o.is_datetime c) _ _
        (append_checkpoint-IsLogged c w same_task same_seq l) l

  write_checkpoint-IsLogged :
      (ids : List String) (bs : List (String × String)) (st : ProcedureStatus) (w : Writer)
      → IsLogged w
      → IsLogged (write_checkpoint sha256_of o ids bs st w).1
  unfolding write_checkpoint checkpoint_of
  write_checkpoint-IsLogged ids bs st w l = elim (Option-cases (o.collect_evidence w.collections)) [
    | inl e ↦ rw (e, write_checkpoint) (counted-IsLogged w l)
    | inr (c, e) ↦
        rw (e, write_checkpoint)
          (append_parsed-IsLogged (checkpoint_of sha256_of o ids bs st c w)
            (count_collection sha256_of o w) refl refl (counted-IsLogged w l))
  ]

  write_events-IsLogged :
      (es : List StepEvent) (w : Writer) → IsLogged w → IsLogged (write_events sha256_of o es w).1
  unfolding write_events
  write_events-IsLogged [] w l = l
  write_events-IsLogged (e ∷ es) w l =
      let now = write_checkpoint-IsLogged e.completed_step_ids e.step_bindings in_progress w l in
      if_both (λ (p : Bool × Writer). IsLogged p.1) _ _ _ (write_events-IsLogged es _ now) now

  -- The log is as it should be, and a result has the number of the checkpoints written.
  abbrev pub IsAccounted : Result ContinueError ContinuationResult × Writer → Type 0
  IsAccounted x =
      IsLogged x.1 × ((r : ContinuationResult) → x.0 ≡ ok r → r.checkpoints_written ≡ x.1.written)

  resulted-IsAccounted :
      (from : Option TaskCheckpoint) (out : ExecutorOutcome) (w : Writer)
      → IsLogged w
      → IsAccounted (ok (result_of sha256_of o from out w), w)
  resulted-IsAccounted from out w l =
      (l, λ r e. sym (ap (λ x. x.checkpoints_written) (ok_injective _ r e)))

  thrown-IsAccounted : (x : ContinueError) (w : Writer) → IsLogged w → IsAccounted (err x, w)
  thrown-IsAccounted x w l = (l, λ r e. absurd cc)

  close-IsAccounted :
      (from : Option TaskCheckpoint) (r : Replay) (w : Writer)
      → IsLogged w
      → IsAccounted (close sha256_of o from r w)
  unfolding close
  close-IsAccounted from r w l =
      let p =
        write_checkpoint sha256_of o r.completed_step_ids (resume_of from).step_bindings completed
          w in
      let closed =
        write_checkpoint-IsLogged r.completed_step_ids (resume_of from).step_bindings completed w
          l in
      if_both (λ (x : Result ContinueError ContinuationResult). IsAccounted (x, p.1)) p.0 _ _
        (resulted-IsAccounted from success p.1 closed)
        (thrown-IsAccounted checkpoint_failed p.1 closed)

  end_replay-IsAccounted :
      (from : Option TaskCheckpoint) (r : Replay) (w : Writer) (out : Option ExecutorOutcome)
      → IsLogged w
      → IsAccounted (end_replay sha256_of o from r w out)
  unfolding end_replay
  end_replay-IsAccounted from r w none l = thrown-IsAccounted replay_failed w l
  end_replay-IsAccounted from r w (some success) l = close-IsAccounted from r w l
  end_replay-IsAccounted from r w (some failure) l = resulted-IsAccounted from failure w l
  end_replay-IsAccounted from r w (some fallback) l = resulted-IsAccounted from fallback w l
  end_replay-IsAccounted from r w (some interrupted) l = resulted-IsAccounted from interrupted w l

  after_replay-IsAccounted :
      (from : Option TaskCheckpoint) (r : Replay) (p : Bool × Writer)
      → IsLogged p.1
      → IsAccounted (after_replay sha256_of o from r p)
  unfolding after_replay
  after_replay-IsAccounted from r (false, w) l = resulted-IsAccounted from failure w l
  after_replay-IsAccounted from r (true, w) l = end_replay-IsAccounted from r w r.outcome l

  proceed-IsAccounted :
      (from : Option TaskCheckpoint) (w : Writer)
      → IsLogged w
      → IsAccounted (proceed sha256_of o from w)
  unfolding proceed
  proceed-IsAccounted from w l =
      if_both IsAccounted o.prepares _ _
        (after_replay-IsAccounted from (o.replay (resume_of from)) _
          (write_events-IsLogged (o.replay (resume_of from)).events w l))
        (thrown-IsAccounted session_failed w l)

  resume_task-IsAccounted :
      (c : TaskCheckpoint) (found : Option (Collected S))
      → IsLogged (writer_from sha256_of o (some c) 1 before)
      → IsAccounted (resume_task sha256_of o c before found)
  unfolding resume_task
  resume_task-IsAccounted c none l = thrown-IsAccounted evidence_failed _ l
  resume_task-IsAccounted c (some f) l =
      elim (Option-cases (assert_resumable sha256_of c (context_of sha256_of o f))) [
        | inl e ↦ rw (e, resume_task) (proceed-IsAccounted (some c) _ l)
        | inr (k, e) ↦ rw (e, resume_task) (thrown-IsAccounted (mismatch k) _ l)
      ]

  first-IsLogged :
      (from : Option TaskCheckpoint) (n : ℕ)
      → Written before
      → latest o.task_id before ≡ from
      → IsLogged (writer_from sha256_of o from n before)
  unfolding latest
  first-IsLogged from n w e = record {
    stored = w;
    next =
        ap expected_after (sym e)
        ∙ expected-length o.task_id (log_of o.task_id before) (Written-IsNumbered o.task_id w);
    added = ([], sym (append_nil (log_of o.task_id before)), refl);
  }

  continue_from-IsAccounted :
      (from : Option TaskCheckpoint)
      → Written before
      → latest o.task_id before ≡ from
      → IsAccounted (continue_from sha256_of o before from)
  unfolding continue_from
  continue_from-IsAccounted none w e = proceed-IsAccounted none _ (first-IsLogged none 0 w e)
  continue_from-IsAccounted (some c) w e =
      resume_task-IsAccounted c (o.collect_evidence 0) (first-IsLogged (some c) 1 w e)

  -- Whatever the evidence, the gate, the schema of checkpoints and the replay do, on a store that
  -- was only appended to, whether the session returns or rejects, also where the replay rejects
  -- after some reports: afterwards the store still was only appended to, so that all its logs are
  -- numbered without a gap; the task's log is the earlier log followed by new checkpoints; and a
  -- result that is returned reports exactly their number.
  pub continue_task-IsAccounted : Written before → IsAccounted (continue_task sha256_of o before)
  unfolding continue_task
  continue_task-IsAccounted w = continue_from-IsAccounted (latest o.task_id before) w refl
