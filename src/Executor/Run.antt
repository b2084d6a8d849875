-- ===== src/Executor/Run.antt =====
-- packages/executor/src/executor.ts: `runPlaybook`. A run that throws has no result. The order of the
-- steps comes with the fuel for its recursion. The id of the run, its token usage, the manifest file
-- that `finish` writes and the pause between attempts are left out.
pub mod Attempts
pub mod Passing
pub mod Steps
pub mod Returns
pub mod Verdict
mod Tests
use rote.Prelude.{
  ℕ, String, Option, some, none, Bool, true, false, List, [], ◌∷◌, ◌++◌, same, includes,
  String-discrete, if◌then◌else◌, Result, ok, ◌>>=◌,
}
use rote.Executor.Json.{Host}
use rote.Executor.Playbook.{
  Expect, OnFail, retry, Step, StepKind, deterministic, slot, judgment, Playbook,
}
use rote.Executor.WorldState.{initial_world_state, lookup, assign, spread}
use rote.Executor.TopoOrder.{find_step, topo_order}
use rote.Executor.Attempt.{
  text, Bindings, Templates, StepEvent, Boundary, Thrown, Run, AttemptResult, text_of, count_call,
  check_expect, attempt_all,
}

pub data ExecutorOutcome : Type 0 where
  success failure fallback interrupted : ExecutorOutcome

pub data ExitCode : Type 0 where
  verify_failed step_failed checkpoint_write_failed was_interrupted : ExitCode
  tool_code : String → ExitCode

pub record FinishFailure : Type 0 where
  pub code : ExitCode
  pub failed_step_id : Option String

pub record Resume : Type 0 where
  pub completed_step_ids : List String
  pub step_bindings : List (String × String)

-- A session that does not resume has no completed steps. `reports_steps`: `onStepCompleted` is given.
pub record ExecutorDeps (N : Type 0) : Type 0 where
  pub boundary : Boundary N
  pub max_attempts : ℕ
  pub resume : Resume
  pub reports_steps : Bool
  pub stop_after_step_id : Option String

pub record ExecutorResult : Type 0 where
  pub outcome : ExecutorOutcome
  pub completed_step_ids : List String
  pub failed_step_id : Option String
  pub failure_code : Option ExitCode
  pub attempts : List (String × ℕ)
  pub repaired_step_ids : List String

-- The loop goes on, or the run has ended.
pub data Progress (N : Type 0) : Type 0 where
  going : Run N → Progress N
  ended : Run N → ExecutorOutcome → FinishFailure → Progress N

-- `result.code ?? 'STEP_FAILED'`.
abbrev pub code_of : Option String → ExitCode
code_of none = step_failed
code_of (some c) = tool_code c

abbrev pub is_stop : String → Option String → Bool
is_stop id none = false
is_stop id (some s) = same String-discrete s id

-- Step bindings are texts among the bindings.
abbrev pub as_bindings : {N : Type 0} → List (String × String) → Bindings N
as_bindings [] = []
as_bindings ((k, s) ∷ ps) = (k, text s) ∷ as_bindings ps

module _ {N : Type 0} where
  unfoldable pub finish : Run N → ExecutorResult
  finish r = record {
    outcome = success;
    completed_step_ids = r.completed_step_ids;
    failed_step_id = none;
    failure_code = none;
    attempts = r.attempts;
    repaired_step_ids = r.repaired_step_ids;
  }

  unfoldable pub finish_with : ExecutorOutcome → FinishFailure → Run N → ExecutorResult
  finish_with o f r = record {
    outcome = o;
    completed_step_ids = r.completed_step_ids;
    failed_step_id = f.failed_step_id;
    failure_code = some f.code;
    attempts = r.attempts;
    repaired_step_ids = r.repaired_step_ids;
  }

  unfoldable pub push_completed : String → Run N → Run N
  push_completed id r = record r { completed_step_ids = r.completed_step_ids ++ id ∷ [] }

  unfoldable pub push_repaired : String → Bool → Run N → Run N
  push_repaired id false r = r
  push_repaired id true r = record r { repaired_step_ids = r.repaired_step_ids ++ id ∷ [] }

  unfoldable pub keep_binding : Host N → String → Run N → Run N
  unfolding lookup assign
  keep_binding h k r = record r {
    step_bindings = assign k (text_of h (lookup k r.bindings)) r.step_bindings;
  }

  -- What a slot or a judgment produced is kept for a later session.
  unfoldable pub keep_bindings : Host N → Step N → StepKind N → Run N → Run N
  unfolding keep_binding
  keep_bindings h s (deterministic tool args) r = r
  keep_bindings h s (slot prompt max_tokens into) r = keep_binding h into r
  keep_bindings h s (judgment prompt options) r = keep_binding h s.id r

  -- The next turn of the loop, unless the run has ended.
  abbrev pub go_on : (Run N → Result Thrown (Progress N)) → Progress N → Result Thrown (Progress N)
  go_on next (going u) = next u
  go_on next (ended u o f) = ok (ended u o f)

  abbrev pub take_world : AttemptResult N → Run N → Run N
  take_world result r = record r { world = result.world }

  unfoldable pub initial_run : Bindings N → Resume → Run N
  unfolding spread initial_world_state
  initial_run params resume = record {
    bindings = spread params (as_bindings resume.step_bindings);
    completed_step_ids = [];
    step_bindings = resume.step_bindings;
    attempts = [];
    repaired_step_ids = [];
    world = initial_world_state;
    trajectory = [];
    calls = 0;
  }

  abbrev pub not_attempted : Run N → AttemptResult N
  not_attempted r = record { pass = false; code = none; world = r.world; repaired = false }

  abbrev pub max_attempts_of : ExecutorDeps N → OnFail → ℕ
  max_attempts_of d retry = d.max_attempts
  max_attempts_of d _ = 1

module _ {N : Type 0} (h : Host N) (t : Templates N) (d : ExecutorDeps N) (p : Playbook N) where
  unfoldable pub stop_or_go : Step N → Run N → Progress N
  stop_or_go s r =
      if is_stop s.id d.stop_after_step_id
      then ended r interrupted (record { code = was_interrupted; failed_step_id = none })
      else going r

  abbrev pub event_of : Step N → Run N → StepEvent
  event_of s r = record {
    step_id = s.id;
    completed_step_ids = r.completed_step_ids;
    step_bindings = r.step_bindings;
  }

  -- `deps.onStepCompleted`, where there is one.
  unfoldable pub report : Step N → Run N → Progress N
  unfolding stop_or_go count_call
  report s r =
      if d.reports_steps
      then if d.boundary.on_step_completed r.calls (event_of s r)
        then stop_or_go s (count_call r)
        else ended (count_call r) failure
            (record { code = checkpoint_write_failed; failed_step_id = some s.id })
      else stop_or_go s r

  unfoldable pub complete_step : Step N → AttemptResult N → Run N → Run N
  unfolding push_completed push_repaired keep_bindings
  complete_step s result r =
      keep_bindings h s s.kind (push_repaired s.id result.repaired (push_completed s.id r))

  -- After the attempts at a step.
  unfoldable pub after_attempts : Step N → AttemptResult N → Run N → Progress N
  unfolding report complete_step
  after_attempts s result r =
      if result.pass
      then report s (complete_step s result r)
      else ended r ExecutorOutcome.fallback
          (record { code = code_of result.code; failed_step_id = some s.id })

  unfoldable pub execute_step : Step N → Run N → Result Thrown (Progress N)
  unfolding attempt_all after_attempts
  execute_step s r =
      attempt_all h t d.boundary p.version (max_attempts_of d s.on_fail) 1 s (not_attempted r) r
      >>= λ a. ok (after_attempts s a.0 (take_world a.0 a.1))

  -- One turn of the loop over the order.
  unfoldable pub visit_step : String → Run N → Result Thrown (Progress N)
  unfolding execute_step find_step push_completed
  visit_step id r = elim (find_step id p.steps) [
    | none ↦ ok (going r)
    | some s ↦
        if includes String-discrete d.resume.completed_step_ids s.id
        then ok (going (push_completed s.id r))
        else execute_step s r
  ]

  unfoldable pub run_steps : List String → Run N → Result Thrown (Progress N)
  unfolding visit_step
  run_steps [] r = ok (going r)
  run_steps (id ∷ ids) r = visit_step id r >>= go_on (run_steps ids)

  unfoldable pub check_verify : List (Expect N) → Run N → Result Thrown ExecutorResult
  unfolding check_expect finish finish_with
  check_verify [] r = ok (finish r)
  check_verify (e ∷ es) r =
      check_expect h t d.boundary p.version (some e) r.bindings r.world >>= λ pass.
      let rest = check_verify es r in
      if pass
      then rest
      else ok (finish_with failure (record { code = verify_failed; failed_step_id = none }) r)

  unfoldable pub conclude : Progress N → Result Thrown ExecutorResult
  unfolding check_verify finish_with
  conclude (going r) = check_verify p.verify r
  conclude (ended r o f) = ok (finish_with o f r)

  -- `none` is fuel that is not enough for the order.
  unfoldable pub run_playbook : ℕ → Bindings N → Option (Result Thrown ExecutorResult)
  unfolding topo_order run_steps initial_run conclude
  run_playbook fuel params = elim (topo_order fuel p.steps) [
    | none ↦ none
    | some order ↦ some (run_steps order (initial_run params d.resume) >>= conclude)
  ]
