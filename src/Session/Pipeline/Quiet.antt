-- ===== src/Session/Pipeline/Quiet.antt =====
-- What the operations of a run leave alone: those that start nothing, and those that start calls.
use rote.Prelude.{
  ◌≤◌, ◌<◌, String, Bool, false, not, ◌||◌, List, [], ◌∷◌, ◌≡◌, refl, ◌∙◌, inl, inr, arith, length,
  length-append, leb, same_refl, String-discrete, Bool-cases, some_of,
}
use rote.Session.Pipeline.{
  PendingStep, StepState, Pipeline, Run, Reason, is_queued, set_state, cancel, discard_step,
  mark_quiesced, drain_step, drain_from, drain, quiesce, begin_step, start_step, is_discarded,
  is_unpromoted, dependency_states, dependency_failed, start_from,
}

abbrev pub head_is_queued : {Q : Type 0} → List (PendingStep Q) → Bool
head_is_queued [] = false
head_is_queued (e ∷ es) = is_queued e.state

-- The step that was enqueued first depends on nothing.
abbrev pub HeadIsFree : {Q : Type 0} → List (PendingStep Q) → Type 0
HeadIsFree [] = Unit
HeadIsFree (e ∷ es) = e.step.depends_on ≡ []

module _ {Q O : Type 0} where
  -- What an operation leaves that starts nothing and promotes nothing.
  pub record Quiet (r u : Run Q O) : Type 0 where
    pub config : u.pipeline.config ≡ r.pipeline.config
    pub active : u.active ≡ r.active
    pub promoted : u.promoted ≡ r.promoted
    pub head : head_is_queued r.pipeline.steps ≡ false → head_is_queued u.pipeline.steps ≡ false
    pub free : HeadIsFree r.pipeline.steps → HeadIsFree u.pipeline.steps

  pub Quiet-refl : (r : Run Q O) → Quiet r r
  Quiet-refl r = record {
    config = refl;
    active = refl;
    promoted = refl;
    head = λ h. h;
    free = λ h. h;
  }

  pub Quiet-trans : (r u v : Run Q O) → Quiet r u → Quiet u v → Quiet r v
  Quiet-trans r u v a b = record {
    config = b.config ∙ a.config;
    active = b.active ∙ a.active;
    promoted = b.promoted ∙ a.promoted;
    head = λ h. b.head (a.head h);
    free = λ h. b.free (a.free h);
  }

module _ {Q : Type 0} where
  pub head-set_state :
      (id : String) (s : StepState) (es : List (PendingStep Q))
      → is_queued s ≡ false
      → head_is_queued es ≡ false
      → head_is_queued (set_state id s es) ≡ false
  head-set_state id s [] n h = refl
  head-set_state id s (e ∷ es) n h = ground arith

  pub free-set_state :
      (id : String) (s : StepState) (es : List (PendingStep Q))
      → HeadIsFree es
      → HeadIsFree (set_state id s es)
  free-set_state id s [] h = tt
  free-set_state id s (e ∷ es) h = ground arith

  free-cancel : (p : Pipeline Q) → HeadIsFree p.steps → HeadIsFree (cancel p).steps
  unfolding cancel
  free-cancel p h = elim (Bool-cases (p.was_cancelled || p.was_quiesced)) [
    | inl done ↦ simp done h
    | inr still_open ↦ simp still_open h
  ]

  pub head-set_state_self :
      (e : PendingStep Q) (s : StepState) (es : List (PendingStep Q))
      → is_queued s ≡ false
      → head_is_queued (set_state e.step.step_id s (e ∷ es)) ≡ false
  head-set_state_self e s es n = rw (same_refl String-discrete e.step.step_id) n

module _ {Q O : Type 0} where
  pub discard_step-Quiet :
      (id : String) (why : Reason) (r : Run Q O) → Quiet r (discard_step id why r)
  unfolding discard_step
  discard_step-Quiet id why r = record {
    config = refl;
    active = refl;
    promoted = refl;
    head = λ h. head-set_state id StepState.discarded r.pipeline.steps refl h;
    free = λ h. free-set_state id StepState.discarded r.pipeline.steps h;
  }

  drain_from-Quiet :
      (why : Reason) (es : List (PendingStep Q)) (r : Run Q O) → Quiet r (drain_from why es r)
  unfolding drain_from drain_step
  drain_from-Quiet why [] r = Quiet-refl r
  drain_from-Quiet why (e ∷ es) r = elim (Bool-cases (is_queued e.state)) [
    | inl yes_queued ↦
        rw (yes_queued, drain_step)
          (Quiet-trans r _ _ (discard_step-Quiet e.step.step_id why r) (drain_from-Quiet why es _))
    | inr not_queued ↦ rw (not_queued, drain_step) (drain_from-Quiet why es r)
  ]

  pub drain-Quiet : (why : Reason) (r : Run Q O) → Quiet r (drain why r)
  unfolding drain
  drain-Quiet why r = drain_from-Quiet why r.pipeline.steps r

  mark_quiesced-Quiet : (why : Reason) (r : Run Q O) → Quiet r (mark_quiesced why r)
  unfolding mark_quiesced
  mark_quiesced-Quiet why r = record {
    config = refl;
    active = refl;
    promoted = refl;
    head = λ h. h;
    free = λ h. h;
  }

  pub quiesce-Quiet : (why : Reason) (r : Run Q O) → Quiet r (quiesce why r)
  quiesce-Quiet why r = elim (Bool-cases r.pipeline.was_quiesced) [
    | inl done ↦ unfold quiesce in simp done (Quiet-refl r)
    | inr still_open ↦
        let marked = mark_quiesced why r in
        let both : Quiet r (drain why marked) =
          Quiet-trans r marked (drain why marked) (mark_quiesced-Quiet why r)
            (drain-Quiet why marked) in
        unfold quiesce in simp still_open both
  ]

  pub cancel-Quiet : (r : Run Q O) → Quiet r (record r { pipeline = cancel r.pipeline })
  unfolding cancel
  cancel-Quiet r = record {
    config = ground arith;
    active = refl;
    promoted = refl;
    head = λ h. ground arith;
    free = λ h. free-cancel r.pipeline h;
  }

module _ {Q O : Type 0} where
  pub start_from-stuck :
      (es : List (PendingStep Q)) (r : Run Q O) → head_is_queued es ≡ false → start_from es r ≡ r
  unfolding start_from
  start_from-stuck [] r h = refl
  start_from-stuck (e ∷ es) r h = ground arith

  -- Calls never pass `max_concurrency`, and a started step stays out of the queue.
  pub record Starts (r u : Run Q O) : Type 0 where
    pub config : u.pipeline.config ≡ r.pipeline.config
    pub promoted : u.promoted ≡ r.promoted
    pub capped :
        length r.active ≤ r.pipeline.config.max_concurrency
        → length u.active ≤ r.pipeline.config.max_concurrency
    pub head : head_is_queued r.pipeline.steps ≡ false → head_is_queued u.pipeline.steps ≡ false
    pub free : HeadIsFree r.pipeline.steps → HeadIsFree u.pipeline.steps

  pub Starts-refl : (r : Run Q O) → Starts r r
  Starts-refl r = record {
    config = refl;
    promoted = refl;
    capped = λ h. h;
    head = λ h. h;
    free = λ h. h;
  }

  pub Starts-trans : (r u v : Run Q O) → Starts r u → Starts u v → Starts r v
  Starts-trans r u v a b = record {
    config = b.config ∙ a.config;
    promoted = b.promoted ∙ a.promoted;
    capped = λ h. rw a.config at (b.capped (rw a.config (a.capped h)));
    head = λ h. b.head (a.head h);
    free = λ h. b.free (a.free h);
  }

  pub Quiet→Starts : {r u : Run Q O} → Quiet r u → Starts r u
  Quiet→Starts q = record {
    config = q.config;
    promoted = q.promoted;
    capped = λ h. rw q.active h;
    head = q.head;
    free = q.free;
  }

  begin_step-Starts :
      (e : PendingStep Q) (r : Run Q O)
      → length r.active < r.pipeline.config.max_concurrency
      → Starts r (begin_step e r)
  unfolding begin_step
  begin_step-Starts e r room = record {
    config = refl;
    promoted = refl;
    capped = λ h. omega (arith, length-append r.active (e.step.step_id ∷ []));
    head = λ h. head-set_state e.step.step_id StepState.running r.pipeline.steps refl h;
    free = λ h. free-set_state e.step.step_id StepState.running r.pipeline.steps h;
  }

  start_step-Starts :
      (e : PendingStep Q) (r : Run Q O)
      → length r.active < r.pipeline.config.max_concurrency
      → Starts r (start_step e r)
  start_step-Starts e r room = elim (Bool-cases (some_of is_discarded (dependency_states r e))) [
    | inl failed ↦
        unfold start_step in
        simp failed (Quiet→Starts (discard_step-Quiet e.step.step_id dependency_failed r))
    | inr not_failed ↦ elim (Bool-cases (some_of is_unpromoted (dependency_states r e))) [
      | inl waits ↦ unfold start_step in simp (not_failed, waits) (Starts-refl r)
      | inr ready ↦ unfold start_step in simp (not_failed, ready) (begin_step-Starts e r room)
    ]
  ]

  pub start_from-Starts : (es : List (PendingStep Q)) (r : Run Q O) → Starts r (start_from es r)
  unfolding start_from
  start_from-Starts [] r = Starts-refl r
  start_from-Starts (e ∷ es) r =
      let rest = start_from-Starts es (start_step e r) in
      elim (Bool-cases
        (leb r.pipeline.config.max_concurrency (length r.active) || not (is_queued e.state))) [
          | inl stop ↦ simp stop (Starts-refl r)
          | inr go ↦ simp go (
              Starts-trans r (start_step e r) (start_from es (start_step e r))
                (start_step-Starts e r (ground arith)) rest)
        ]
