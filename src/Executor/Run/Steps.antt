-- ===== src/Executor/Run/Steps.antt =====
-- packages/executor/src/executor.ts: the loop over the steps. It completes them in their order, and
-- attempts none that an earlier session completed.
use rote.Prelude.{
  ℕ, ◌≤◌, String, some, Bool, true, false, List, [], ◌∷◌, ◌++◌, includes, String-discrete,
  if◌then◌else◌, ok, bind_ok, append_nil, append_assoc, ◌≡◌, ◌≢◌, refl, sym, ap, subst, ◌∙◌, All,
  All-append, if_both, ok_injective, ◌⊎◌, Bool-cases, inl, inr, arith,
}
use rote.Executor.Json.{Host}
use rote.Executor.Playbook.{Step, StepKind, deterministic, slot, judgment, Playbook}
use rote.Executor.TopoOrder.{find_step}
use rote.Executor.TopoOrder.Found.{find_step-id}
use rote.Executor.TopoOrder.Dependencies.{IsStep}
use rote.Executor.Attempt.{Templates, Run, AttemptResult, count_call, attempt_all}
use rote.Executor.Run.{
  ExecutorOutcome, success, failure, interrupted, FinishFailure, ExecutorDeps, Progress, going,
  ended, is_stop, event_of, push_completed, push_repaired, keep_binding, keep_bindings, go_on,
  visit_step, take_world, not_attempted, max_attempts_of, stop_or_go, report, complete_step,
  after_attempts, execute_step, run_steps,
}
use rote.Executor.Run.Passing.{IsMet, attempt_all-IsMet}
use rote.Executor.Run.Attempts.{IsFresh, Spent, attempt_all-Spent}

module _ {N : Type 0} where
  -- Neither an attempt nor a dispatch lies between the two.
  pub record Quiet (done : List String) (r u : Run N) : Type 0 where
    pub attempts : u.attempts ≡ r.attempts
    pub trajectory : u.trajectory ≡ r.trajectory
    pub completed : u.completed_step_ids ≡ done

  keep_bindings-Quiet :
      (h : Host N) (s : Step N) (k : StepKind N) (r : Run N)
      → Quiet r.completed_step_ids r (keep_bindings h s k r)
  unfolding keep_bindings keep_binding
  keep_bindings-Quiet h s (deterministic tool args) r = record {
    attempts = refl;
    trajectory = refl;
    completed = refl;
  }
  keep_bindings-Quiet h s (slot prompt max_tokens into) r = record {
    attempts = refl;
    trajectory = refl;
    completed = refl;
  }
  keep_bindings-Quiet h s (judgment prompt options) r = record {
    attempts = refl;
    trajectory = refl;
    completed = refl;
  }

  pushed-Quiet :
      (id : String) (repaired : Bool) (r : Run N)
      → Quiet (r.completed_step_ids ++ id ∷ []) r (push_repaired id repaired (push_completed id r))
  unfolding push_repaired push_completed
  pushed-Quiet id true r = record { attempts = refl; trajectory = refl; completed = refl }
  pushed-Quiet id false r = record { attempts = refl; trajectory = refl; completed = refl }

  Quiet-trans :
      {ids : List String} (r u v : Run N)
      → Quiet ids r u
      → Quiet u.completed_step_ids u v
      → Quiet ids r v
  Quiet-trans r u v p q = record {
    attempts = q.attempts ∙ p.attempts;
    trajectory = q.trajectory ∙ p.trajectory;
    completed = q.completed ∙ p.completed;
  }

module _ {N : Type 0} (h : Host N) (t : Templates N) (d : ExecutorDeps N) (p : Playbook N) where
  complete_step-Quiet :
      (s : Step N) (a : AttemptResult N) (r : Run N)
      → Quiet (r.completed_step_ids ++ s.id ∷ []) r (complete_step h t d p s a r)
  unfolding complete_step
  complete_step-Quiet s a r =
      Quiet-trans r _ _ (pushed-Quiet s.id a.repaired r) (keep_bindings-Quiet h s s.kind _)

  -- The number of attempts that the step of an id may have.
  abbrev pub IsAllowed : String × ℕ → Type 0
  IsAllowed (id, n) =
      (includes String-discrete d.resume.completed_step_ids id ≡ false)
      × ((s : Step N) × (find_step id p.steps ≡ some s) × (n ≤ max_attempts_of d s.on_fail))

  -- The run that starts as `first` has reached the step of this id, and the attempts that it made there
  -- passed: in the end the check of the step held of the world.
  pub record WasReplayed (first : Run N) (id : String) : Type 0 where
    pub earlier : List String
    pub reached : Run N
    pub reaches : run_steps h t d p earlier first ≡ ok (going reached)
    pub step : Step N
    pub found : find_step id p.steps ≡ some step
    pub result : AttemptResult N
    pub after : Run N
    pub attempted :
        attempt_all h t d.boundary p.version
          (max_attempts_of d step.on_fail)
          1
          step
          (not_attempted reached)
          reached
        ≡ ok (result, after)
    pub passed : result.pass ≡ true
    pub met : IsMet h t d.boundary p.version step result after

  -- A completed step was completed by an earlier session, or it was replayed and passed.
  abbrev pub IsEarned : Run N → String → Type 0
  IsEarned first id =
      (includes String-discrete d.resume.completed_step_ids id ≡ true) ⊎ WasReplayed first id

  module _ (first : Run N) where
    pub record IsSparing (r : Run N) : Type 0 where
      pub fresh : All (IsFresh d.resume.completed_step_ids) r.trajectory
      pub counted : All IsAllowed r.attempts
      pub earned : All (IsEarned first) r.completed_step_ids

    -- The run after some steps, and whether it goes on.
    pub data Stands (finished : List String) : Progress N → Type 0 where
      goes : (u : Run N) → IsSparing u → u.completed_step_ids ≡ finished → Stands finished (going u)
      halts :
          (u : Run N) (o : ExecutorOutcome) (f : FinishFailure)
          → IsSparing u
          → u.completed_step_ids ≡ finished
          → o ≢ success
          → Stands finished (ended u o f)

    -- The run ended with no further step.
    data Broke (finished : List String) : Progress N → Type 0 where
      broke :
          (u : Run N) (o : ExecutorOutcome) (f : FinishFailure)
          → IsSparing u
          → u.completed_step_ids ≡ finished
          → o ≢ success
          → Broke finished (ended u o f)

    Quiet-IsSparing :
        (ids : List String) (r u : Run N)
        → Quiet ids r u
        → IsSparing r
        → All (IsEarned first) ids
        → IsSparing u
    Quiet-IsSparing ids r u q i earned = record {
      fresh = rw q.trajectory i.fresh;
      counted = rw q.attempts i.counted;
      earned = rw q.completed earned;
    }

    counted-IsSparing : (r : Run N) → IsSparing r → IsSparing (count_call r)
    unfolding count_call
    counted-IsSparing r i = record { fresh = i.fresh; counted = i.counted; earned = i.earned }

    counted_completed : (r : Run N) → (count_call r).completed_step_ids ≡ r.completed_step_ids
    unfolding count_call
    counted_completed r = refl

    stop_or_go-Stands :
        (finished : List String) (s : Step N) (r : Run N)
        → IsSparing r
        → r.completed_step_ids ≡ finished
        → Stands finished (stop_or_go h t d p s r)
    unfolding stop_or_go
    stop_or_go-Stands finished s r i e =
        if_both (Stands finished) (is_stop s.id d.stop_after_step_id) _ _
          (halts r interrupted _ i e (λ q. cc)) (goes r i e)

    report-Stands :
        (finished : List String) (s : Step N) (r : Run N)
        → IsSparing r
        → r.completed_step_ids ≡ finished
        → Stands finished (report h t d p s r)
    unfolding report
    report-Stands finished s r i e =
        let counted = counted-IsSparing r i in
        let same_ids = counted_completed r ∙ e in
        if_both (Stands finished) d.reports_steps _ _
          (if_both (Stands finished) (d.boundary.on_step_completed r.calls (event_of h t d p s r)) _
            _ (stop_or_go-Stands finished s (count_call r) counted same_ids)
            (halts (count_call r) failure _ counted same_ids (λ q. cc)))
          (stop_or_go-Stands finished s r i e)

    -- One turn of the loop: the step was completed, or the run ended without it.
    abbrev Turn : List String → String → Progress N → Type 0
    Turn before id q = Stands (before ++ id ∷ []) q ⊎ Broke before q

    after_attempts-Turn :
        (before : List String) (s : Step N) (a : AttemptResult N) (r : Run N)
        → (a.pass ≡ true → IsEarned first s.id)
        → IsSparing r
        → r.completed_step_ids ≡ before
        → Turn before s.id (after_attempts h t d p s a r)
    unfolding after_attempts
    after_attempts-Turn before s a r earns i e =
        let q = complete_step-Quiet s a r in
        elim (Bool-cases a.pass) [
          | inl good ↦
              rw (good, after_attempts)
                (inl (
                  report-Stands (before ++ s.id ∷ []) s _
                    (Quiet-IsSparing _ r _ q i (
                      All-append (IsEarned first) r.completed_step_ids (s.id ∷ []) i.earned
                        (earns good, tt)))
                    (q.completed ∙ ap (λ ids. ids ++ s.id ∷ []) e)))
          | inr bad ↦
              rw (bad, after_attempts) (inr (broke r ExecutorOutcome.fallback _ i e (λ z. cc)))
        ]

    take_world-IsSparing :
        (a : AttemptResult N) (r : Run N) → IsSparing r → IsSparing (take_world a r)
    take_world-IsSparing a r i = record { fresh = i.fresh; counted = i.counted; earned = i.earned }

    execute_step-Turn :
        (earlier : List String) (s : Step N) (r : Run N) (q : Progress N)
        → run_steps h t d p earlier first ≡ ok (going r)
        → IsSparing r
        → includes String-discrete d.resume.completed_step_ids s.id ≡ false
        → find_step s.id p.steps ≡ some s
        → execute_step h t d p s r ≡ ok q
        → Turn r.completed_step_ids s.id q
    unfolding execute_step
    execute_step-Turn earlier s r q reaches i new known e =
        let limit = max_attempts_of d s.on_fail in
        let (a, tried, after) =
          bind_ok (attempt_all h t d.boundary p.version limit 1 s (not_attempted r) r)
            (λ a. ok (after_attempts h t d p s a.0 (take_world a.0 a.1))) q e in
        let spent : Spent d.resume.completed_step_ids h t d.boundary p.version s new limit r a.1 =
          attempt_all-Spent d.resume.completed_step_ids h t d.boundary p.version s new limit 1 limit
            (not_attempted r) a.0 r a.1 (omega arith) tried in
        let sparing : IsSparing a.1 = record {
          fresh = spent.fresh i.fresh;
          counted = spent.counted IsAllowed (λ n le. (new, (s, known, le))) i.counted;
          earned = rw spent.completed i.earned;
        } in
        subst (Turn r.completed_step_ids s.id) (ok_injective _ q after) (
          after_attempts-Turn r.completed_step_ids s a.0 (take_world a.0 a.1)
            (λ passed. inr (record {
              earlier = earlier;
              reached = r;
              reaches = reaches;
              step = s;
              found = known;
              result = a.0;
              after = a.1;
              attempted = tried;
              passed = passed;
              met =
                  attempt_all-IsMet h t d.boundary p.version s limit 1 (not_attempted r) a.0 r a.1
                    tried refl passed;
            }))
            (take_world-IsSparing a.0 a.1 sparing) spent.completed)

    visit_known :
        (id : String) (s : Step N) (r : Run N)
        → find_step id p.steps ≡ some s
        → visit_step h t d p id r ≡ (
            if includes String-discrete d.resume.completed_step_ids s.id
            then ok (going (push_completed s.id r))
            else execute_step h t d p s r)
    unfolding visit_step
    visit_known id s r e = rw (e, visit_step) refl

    pushed-Stands :
        (id : String) (r : Run N)
        → includes String-discrete d.resume.completed_step_ids id ≡ true
        → IsSparing r
        → Stands (r.completed_step_ids ++ id ∷ []) (going (push_completed id r))
    unfolding push_completed
    pushed-Stands id r finished i =
        goes _
          (record {
            fresh = i.fresh;
            counted = i.counted;
            earned =
                All-append (IsEarned first) r.completed_step_ids (id ∷ []) i.earned
                  (inl finished, tt);
          })
          refl

    visit_step-Turn :
        (earlier : List String) (id : String) (r : Run N) (q : Progress N)
        → run_steps h t d p earlier first ≡ ok (going r)
        → IsStep p.steps id
        → IsSparing r
        → visit_step h t d p id r ≡ ok q
        → Turn r.completed_step_ids id q
    visit_step-Turn earlier id r q reaches (s, known) i e =
        let same_id = find_step-id p.steps id s known in
        let taken = sym (visit_known id s r known) ∙ e in
        subst (λ x. Turn r.completed_step_ids x q) same_id
          (elim (Bool-cases (includes String-discrete d.resume.completed_step_ids s.id)) [
            | inl finished ↦
                subst (Turn r.completed_step_ids s.id) (ok_injective _ q (rw finished at taken))
                  (inl (pushed-Stands s.id r finished i))
            | inr new ↦
                execute_step-Turn earlier s r q reaches i new
                  (subst (λ x. find_step x p.steps ≡ some s) (sym same_id) known) (rw new at taken)
          ])

    -- What the loop makes of a run that is to complete the steps `total`.
    pub data Replayed (total : List String) : Progress N → Type 0 where
      all_steps :
          (u : Run N) → IsSparing u → u.completed_step_ids ≡ total → Replayed total (going u)
      some_steps :
          (left : List String) (u : Run N) (o : ExecutorOutcome) (f : FinishFailure)
          → IsSparing u
          → u.completed_step_ids ++ left ≡ total
          → o ≢ success
          → Replayed total (ended u o f)

    Turn-Replayed :
        (seen : List String) (id : String) (ids : List String) (r : Run N) (v q : Progress N)
        → Turn seen id v
        → visit_step h t d p id r ≡ ok v
        → ((u : Run N)
            → IsSparing u
            → u.completed_step_ids ≡ seen ++ id ∷ []
            → visit_step h t d p id r ≡ ok (going u)
            → run_steps h t d p ids u ≡ ok q
            → Replayed ((seen ++ id ∷ []) ++ ids) q)
        → go_on (run_steps h t d p ids) v ≡ ok q
        → Replayed ((seen ++ id ∷ []) ++ ids) q
    Turn-Replayed seen id ids r _ q (inl (goes u i same_ids)) turned next e =
        next u i same_ids turned e
    Turn-Replayed seen id ids r _ q (inl (halts u o f i same_ids no_success)) turned next e =
        subst (Replayed ((seen ++ id ∷ []) ++ ids)) (ok_injective _ q e)
          (some_steps ids u o f i (ap (λ xs. xs ++ ids) same_ids) no_success)
    Turn-Replayed seen id ids r _ q (inr (broke u o f i same_ids no_success)) turned next e =
        subst (Replayed ((seen ++ id ∷ []) ++ ids)) (ok_injective _ q e) (
          some_steps (id ∷ ids) u o f i
            (ap (λ xs. xs ++ id ∷ ids) same_ids ∙ sym (append_assoc seen (id ∷ []) ids)) no_success)

    go_on-going :
        (ids : List String) (v : Progress N) (r : Run N)
        → go_on (run_steps h t d p ids) v ≡ ok (going r)
        → (u : Run N) × (v ≡ going u) × (run_steps h t d p ids u ≡ ok (going r))
    go_on-going ids (going u) r e = (u, refl, e)
    go_on-going ids (ended u o f) r e = absurd cc

    going_next :
        (id : String) (ids : List String) (start r u : Run N)
        → visit_step h t d p id start ≡ ok (going r)
        → run_steps h t d p ids r ≡ ok (going u)
        → run_steps h t d p (id ∷ ids) start ≡ ok (going u)
    unfolding run_steps
    going_next id ids start r u turned e = rw (turned, run_steps) e

    run_steps-snoc :
        (seen : List String) (id : String) (start r u : Run N)
        → run_steps h t d p seen start ≡ ok (going r)
        → visit_step h t d p id r ≡ ok (going u)
        → run_steps h t d p (seen ++ id ∷ []) start ≡ ok (going u)
    unfolding run_steps
    run_steps-snoc [] id start r u e turned =
        let same_run : r ≡ start = cc in
        going_next id [] start u u
          (subst (λ x. visit_step h t d p id x ≡ ok (going u)) same_run turned) refl
    run_steps-snoc (x ∷ seen) id start r u e turned =
        let (v, visited, rest) =
          bind_ok (visit_step h t d p x start) (go_on (run_steps h t d p seen)) (going r) e in
        let (w, is_going, later) = go_on-going seen v r rest in
        going_next x (seen ++ id ∷ []) start w u (visited ∙ ap (λ y. ok y) is_going)
          (run_steps-snoc seen id w r u later turned)

    pub run_steps-Replayed :
        (ids seen : List String) (r : Run N) (q : Progress N)
        → run_steps h t d p seen first ≡ ok (going r)
        → All (IsStep p.steps) ids
        → IsSparing r
        → r.completed_step_ids ≡ seen
        → run_steps h t d p ids r ≡ ok q
        → Replayed (seen ++ ids) q
    unfolding run_steps
    run_steps-Replayed [] seen r q reaches known i same_seen e =
        subst (Replayed (seen ++ [])) (ok_injective _ q e)
          (all_steps r i (same_seen ∙ sym (append_nil seen)))
    run_steps-Replayed (id ∷ ids) seen r q reaches known i same_seen e =
        let (v, turned, after) =
          bind_ok (visit_step h t d p id r) (go_on (run_steps h t d p ids)) q e in
        subst (λ xs. Replayed xs q) (append_assoc seen (id ∷ []) ids)
          (Turn-Replayed seen id ids r v q
            (subst (λ xs. Turn xs id v) same_seen
              (visit_step-Turn seen id r v reaches known.0 i turned))
            turned
            (λ u j same_ids went e.
              run_steps-Replayed ids (seen ++ id ∷ []) u q
                (run_steps-snoc seen id first r u reaches went) known.1 j same_ids e)
            after)
