-- ===== src/Executor/Run/Verdict.antt =====
-- packages/executor/src/executor.ts: what the result of a replay says.
use rote.Prelude.{String, none, some, none, true, List, ◌++◌, ok, ◌≡◌, ◌≢◌, All}
use rote.Executor.Json.{Host}
use rote.Executor.Playbook.{Expect, Playbook}
use rote.Executor.Attempt.{Bindings, Templates, Run, check_expect}
use rote.Executor.Run.{
  success, failure, ExitCode, verify_failed, ExecutorDeps, ExecutorResult, going, finish,
  finish_with, initial_run, run_steps,
}
use rote.Executor.Run.Steps.{IsEarned, IsAllowed}

module _ {N : Type 0} (h : Host N) (t : Templates N) (d : ExecutorDeps N) (p : Playbook N) where
  -- A check of the playbook passes in the final state.
  abbrev pub Passes : Run N → Expect N → Type 0
  Passes u e = check_expect h t d.boundary p.version (some e) u.bindings u.world ≡ ok true

  data Closing (u : Run N) (es : List (Expect N)) : ExecutorResult → Type 0 where
    passed : All (Passes u) es → Closing u es (finish u)
    unverified :
        Closing u es
          (finish_with failure (record { code = verify_failed; failed_step_id = none }) u)

  -- What a result may be relied on for: `order` is the order of the playbook's steps.
  pub record IsFaithful (params : Bindings N) (order : List String) (res : ExecutorResult)
      : Type 0 where
    pub sparing : All (IsAllowed h t d p) res.attempts
    pub earned : All (IsEarned h t d p (initial_run params d.resume)) res.completed_step_ids
    pub prefix : (left : List String) × (res.completed_step_ids ++ left ≡ order)
    pub verified :
        res.outcome ≡ success
        → (res.completed_step_ids ≡ order)
          × (u : Run N) × (run_steps h t d p order (initial_run params d.resume) ≡ ok (going u))
          × All (Passes u) p.verify
    pub coded : res.outcome ≢ success → (c : ExitCode) × (res.failure_code ≡ some c)
