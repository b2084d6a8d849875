-- ===== src/Executor/Run/Passing.antt =====
-- packages/executor/src/executor.ts: what stands behind attempts that pass. The tool succeeded or the
-- model answered, and the check of the step holds of the world then.
use rote.Prelude.{
  ℕ, zero, suc, ◌+◌, String, Option, some, none, Bool, true, false, List, includes, String-discrete,
  if◌then◌else◌, Result, ok, err, ◌>>=◌, bind_ok, ◌≡◌, refl, sym, ap, subst, ◌∙◌, Bool-cases, ◌⊎◌,
  inl, inr,
}
use rote.Executor.Json.{string, Host}
use rote.Executor.Playbook.{Expect, Step, StepKind, deterministic, slot, judgment}
use rote.Executor.WorldState.{merge_world_state, observation_from_result, observation_from_text}
use rote.Executor.Attempt.{
  Templates, Boundary, ToolOutcome, succeeded, failed, Thrown, Run, AttemptResult, Receipt,
  note_attempt, count_call, record_dispatch, bind, check_expect, after_tool, call_tool, after_text,
  attempt_kind, attempt_all, require, unbound_param, tool_rejected, llm_rejected,
  judgment_out_of_enum, fill, judge, target_resolution_from_result, remap_expect, is_repaired,
}
use rote.Executor.Run.Attempts.{require_ok}

remap_none : {N : Type 0} (e : Option (Expect N)) → remap_expect e none ≡ e
unfolding remap_expect
remap_none none = refl
remap_none (some e) = refl

-- What a check answered is what the attempt passes by.
checked :
    {N : Type 0} (m : Result Thrown Bool) (f : Bool → AttemptResult N) (r u : Run N)
    (a : AttemptResult N)
    → ◌>>=◌ {B = AttemptResult N × Run N} m (λ pass. ok (f pass, r)) ≡ ok (a, u)
    → (pass : Bool) × (m ≡ ok pass) × (f pass ≡ a) × (r ≡ u)
checked (ok pass) f r u a e = (pass, refl, cc, cc)
checked (err x) f r u a e = absurd cc

module _ {N : Type 0} (h : Host N) (t : Templates N) (b : Boundary N) (version : ℕ)
    (s : Step N) where
  -- The check of the step, at the selector that the tool resolved, holds of the world.
  abbrev pub IsMet : AttemptResult N → Run N → Type 0
  IsMet a u =
      (o : Option Receipt) × (check_expect h t b version (remap_expect s.expect o) u.bindings
          a.world
        ≡ ok true)

  after_tool-IsMet :
      (o : ToolOutcome N) (r u : Run N) (a : AttemptResult N)
      → after_tool h t b version s o r ≡ ok (a, u)
      → a.pass ≡ true
      → IsMet a u
  unfolding after_tool
  after_tool-IsMet (failed c) r u a e passed =
      let failing : record { pass = false; code = c; world = r.world; repaired = false } ≡ a = cc in
      absurd (cc (ap (λ x. x.pass) failing, passed))
  after_tool-IsMet (succeeded v) r u a e passed =
      let resolution = target_resolution_from_result v in
      let world = merge_world_state h r.world (observation_from_result v) v in
      let (pass, answer, is_a, same_run) =
        checked (check_expect h t b version (remap_expect s.expect resolution) r.bindings world)
          (λ pass. record {
            pass = pass;
            code = none;
            world = world;
            repaired = is_repaired resolution;
          })
          r u a e in
      (
        resolution,
        subst
            (λ x.
              check_expect h t b version (remap_expect s.expect resolution) x.bindings a.world
              ≡ ok true)
            same_run
            (subst
              (λ x.
                check_expect h t b version (remap_expect s.expect resolution) r.bindings x
                ≡ ok true)
              (ap (λ x. x.world) is_a) (answer ∙ ap (λ x. ok x) (ap (λ x. x.pass) is_a ∙ passed))),
      )

  after_text-IsMet :
      (c : String) (r u : Run N) (a : AttemptResult N)
      → after_text h t b version s c r ≡ ok (a, u)
      → a.pass ≡ true
      → IsMet a u
  unfolding after_text
  after_text-IsMet c r u a e passed =
      let world = merge_world_state h r.world (observation_from_text c) (string c) in
      let (pass, answer, is_a, same_run) =
        checked (check_expect h t b version s.expect r.bindings world)
          (λ pass. record { pass = pass; code = none; world = world; repaired = false }) r u a e in
      (
        none,
        subst (λ x. check_expect h t b version x u.bindings a.world ≡ ok true)
            (sym (remap_none s.expect))
            (subst (λ x. check_expect h t b version s.expect x.bindings a.world ≡ ok true) same_run
              (subst (λ x. check_expect h t b version s.expect r.bindings x ≡ ok true)
                (ap (λ x. x.world) is_a)
                (answer ∙ ap (λ x. ok x) (ap (λ x. x.pass) is_a ∙ passed)))),
      )

  judged-IsMet :
      (options : List String) (c : String) (r u : Run N) (a : AttemptResult N)
      → (if includes String-discrete options c
          then after_text h t b version s c (bind s.id c (count_call r))
          else err (judgment_out_of_enum s.id c))
        ≡ ok (a, u)
      → a.pass ≡ true
      → IsMet a u
  judged-IsMet options c r u a e passed = elim (Bool-cases (includes String-discrete options c)) [
    | inl one_of ↦ after_text-IsMet c _ u a (rw one_of at e) passed
    | inr other ↦
        let threw : err (judgment_out_of_enum s.id c) ≡ ok (a, u) = rw other at e in absurd cc
  ]

  attempt_kind-IsMet :
      (k : StepKind N) (r u : Run N) (a : AttemptResult N)
      → attempt_kind h t b version s k r ≡ ok (a, u)
      → a.pass ≡ true
      → IsMet a u
  unfolding attempt_kind call_tool
  attempt_kind-IsMet (deterministic tool args) r u a e passed =
      let (rendered, called) =
        require_ok unbound_param (t.render_args version args r.bindings)
          (λ x. call_tool h t b version s tool x r) (a, u) e in
      let (outcome, after) =
        require_ok tool_rejected (b.call r.calls tool rendered)
          (λ o. after_tool h t b version s o (
            record_dispatch (record { step_id = s.id; tool = tool; args = rendered; outcome = o })
              (count_call r)))
          (a, u) called in
      after_tool-IsMet outcome _ u a after passed
  attempt_kind-IsMet (slot prompt max_tokens into) r u a e passed =
      let (rendered, called) =
        require_ok unbound_param (t.render_text version prompt r.bindings)
          (λ x. require llm_rejected (b.complete r.calls (fill x max_tokens)) >>= λ c.
            after_text h t b version s c (bind into c (count_call r)))
          (a, u) e in
      let (c, after) =
        require_ok llm_rejected (b.complete r.calls (fill rendered max_tokens))
          (λ c. after_text h t b version s c (bind into c (count_call r))) (a, u) called in
      after_text-IsMet c _ u a after passed
  attempt_kind-IsMet (judgment prompt options) r u a e passed =
      let judged : String → Result Thrown (AttemptResult N × Run N) = λ c.
        if includes String-discrete options c
        then after_text h t b version s c (bind s.id c (count_call r))
        else err (judgment_out_of_enum s.id c) in
      let (rendered, called) =
        require_ok unbound_param (t.render_text version prompt r.bindings)
          (λ x. require llm_rejected (b.complete r.calls (judge x options)) >>= judged) (a, u) e in
      let (c, after) =
        require_ok llm_rejected (b.complete r.calls (judge rendered options)) judged (a, u)
          called in
      judged-IsMet options c r u a after passed

  stopped_at :
      (passed : Bool) (p : AttemptResult N × Run N) (rest : Result Thrown (AttemptResult N × Run N))
      (a : AttemptResult N) (u : Run N)
      → (if passed then ok p else rest) ≡ ok (a, u)
      → (◌≡◌ {A = Result Thrown (AttemptResult N × Run N)} (ok p) (ok (a, u)))
        ⊎ ((passed ≡ false) × (rest ≡ ok (a, u)))
  stopped_at true p rest a u e = inl e
  stopped_at false p rest a u e = inr (refl, e)

  -- Attempts that pass, where nothing has passed before them, end with one that met the check.
  pub attempt_all-IsMet :
      (left n : ℕ) (result a : AttemptResult N) (r u : Run N)
      → attempt_all h t b version left n s result r ≡ ok (a, u)
      → result.pass ≡ false
      → a.pass ≡ true
      → IsMet a u
  unfolding attempt_all
  attempt_all-IsMet zero n result a r u e unmet passed =
      let same_result : result ≡ a = cc in absurd (cc (ap (λ x. x.pass) same_result, unmet, passed))
  attempt_all-IsMet (suc left) n result a r u e unmet passed =
      let (p, tried, after) =
        bind_ok (attempt_kind h t b version s s.kind (note_attempt s.id n r))
          (λ p. if p.0.pass then ok p else attempt_all h t b version left (n + 1) s p.0 p.1) (a, u)
          e in
      elim (stopped_at p.0.pass p (attempt_all h t b version left (n + 1) s p.0 p.1) a u after) [
        | inl stopped ↦
            attempt_kind-IsMet s.kind (note_attempt s.id n r) u a (tried ∙ stopped) passed
        | inr (bad, again) ↦ attempt_all-IsMet left (n + 1) p.0 a p.1 u again bad passed
      ]
