-- ===== src/Session/Pipeline.antt =====
-- packages/session/src/speculative-pipeline.ts. A confidence is only compared with the threshold, so
-- both are natural numbers in a common unit. `run` awaits the race of the calls in flight: what
-- happens during one wait (a call of `cancel`, the time, which call ends and how) is a `Round`.
pub mod Enqueue
pub mod Quiet
pub mod Starvation
mod Tests
use rote.Prelude.{
  ℕ, zero, suc, ◌+◌, String, Option, some, none, Bool, true, false, not, ◌&&◌, ◌||◌, List, [], ◌∷◌,
  ◌++◌, map, same, ltb, leb, length, some_of, String-discrete, if◌then◌else◌,
}
use rote.Session.EffectFence.{Failure, Outcome}

pub record Config : Type 0 where
  pub max_depth : ℕ
  pub max_concurrency : ℕ
  pub confidence_threshold : ℕ
  pub max_steps : ℕ

-- The request is handed to the speculator unread.
pub record SpeculativeStep (Q : Type 0) : Type 0 where
  pub step_id : String
  pub depth : ℕ
  pub confidence : ℕ
  pub depends_on : List String
  pub request : Q

pub data StepState : Type 0 where
  queued running promoted discarded : StepState

pub record PendingStep (Q : Type 0) : Type 0 where
  pub step : SpeculativeStep Q
  pub state : StepState

pub data Reason : Type 0 where
  fence_failure : Failure → Reason
  cancelled dependency_failed cycle_detected duration_cap : Reason

pub data EventKind : Type 0 where
  queued started promoted discarded cancelled quiesced : EventKind

pub record Event : Type 0 where
  pub seq : ℕ
  pub kind : EventKind
  pub step_id : Option String
  pub reason : Option Reason

-- The object's fields; `steps` is a `Map` by step id, in the order of insertion.
pub record Pipeline (Q : Type 0) : Type 0 where
  pub config : Config
  pub steps : List (PendingStep Q)
  pub events : List Event
  pub next_seq : ℕ
  pub was_cancelled : Bool
  pub was_quiesced : Bool
  pub is_running : Bool

-- `new BoundedSpeculativePipeline(speculator, config)`.
unfoldable pub new_pipeline : {Q : Type 0} → Config → Pipeline Q
new_pipeline c = record {
  config = c;
  steps = [];
  events = [];
  next_seq = 0;
  was_cancelled = false;
  was_quiesced = false;
  is_running = false;
}

pub data Refusal : Type 0 where
  invalid_step duplicate budget_exhausted confidence_below_threshold depth_exceeded : Refusal

module _ {Q : Type 0} where
  -- `this.record(…)`.
  unfoldable pub log : EventKind → Option String → Option Reason → Pipeline Q → Pipeline Q
  log k id why p = record p {
    events = p.events ++ record { seq = p.next_seq; kind = k; step_id = id; reason = why } ∷ [];
    next_seq = p.next_seq + 1;
  }

  -- `this.steps.get(id)`.
  abbrev pub find_step : String → List (PendingStep Q) → Option (PendingStep Q)
  find_step id [] = none
  find_step id (e ∷ es) = if same String-discrete e.step.step_id id then some e else find_step id es

  abbrev pub has_step : String → List (PendingStep Q) → Bool
  has_step id es = some_of (λ e. same String-discrete e.step.step_id id) es

  -- `entry.state = s` for the entry of a key.
  abbrev pub set_state : String → StepState → List (PendingStep Q) → List (PendingStep Q)
  set_state id s [] = []
  set_state id s (e ∷ es) =
      (if same String-discrete e.step.step_id id then record e { state = s } else e)
      ∷ set_state id s es

  -- `none` is acceptance. The input is `none` where the schema rejects it.
  unfoldable pub enqueue : Option (SpeculativeStep Q) → Pipeline Q → Option Refusal × Pipeline Q
  unfolding log
  enqueue input p =
      if p.is_running || (p.was_quiesced || p.was_cancelled)
      then (some budget_exhausted, p)
      else elim input [
        | none ↦ (some invalid_step, p)
        | some s ↦
            if has_step s.step_id p.steps
            then (some duplicate, p)
            else if leb p.config.max_steps (length p.steps)
            then (some budget_exhausted, p)
            else if ltb s.confidence p.config.confidence_threshold
            then (some confidence_below_threshold, p)
            else if ltb p.config.max_depth s.depth
            then (some depth_exceeded, p)
            else (
              none,
              log EventKind.queued (some s.step_id) none (record p {
                steps = p.steps ++ record { step = s; state = StepState.queued } ∷ [];
              }),
            )
      ]

  unfoldable pub cancel : Pipeline Q → Pipeline Q
  unfolding log
  cancel p =
      if p.was_cancelled || p.was_quiesced
      then p
      else log EventKind.cancelled none none (record p { was_cancelled = true })

-- The local variables of `run` beside the object.
pub record Run (Q O : Type 0) : Type 0 where
  pub pipeline : Pipeline Q
  pub promoted : List String
  pub discarded : List String
  pub active : List String
  pub observations : List (String × O)

-- One turn of the loop: has the time run out when it begins, is `cancel` called while it waits, which
-- call ends the wait (by its place), and how.
pub record Round (O : Type 0) : Type 0 where
  pub cancels : Bool
  pub expired : Bool
  pub winner : ℕ
  pub outcome : Outcome O

abbrev pub is_queued : StepState → Bool
is_queued StepState.queued = true
is_queued _ = false

abbrev pub is_running_state : StepState → Bool
is_running_state StepState.running = true
is_running_state _ = false

abbrev pub is_discarded : Option StepState → Bool
is_discarded (some StepState.discarded) = true
is_discarded _ = false

abbrev pub is_unpromoted : Option StepState → Bool
is_unpromoted (some StepState.promoted) = false
is_unpromoted _ = true

-- The call that ends, and the calls that stay in flight.
abbrev pub pick : {A : Type 0} → ℕ → A → List A → A × List A
pick zero a rest = (a, rest)
pick (suc n) a [] = (a, [])
pick (suc n) a (b ∷ bs) = let (c, cs) = pick n b bs in (c, a ∷ cs)

module _ {Q O : Type 0} where
  -- The entry leaves `queued` for `discarded`.
  unfoldable pub discard_step : String → Reason → Run Q O → Run Q O
  unfolding log
  discard_step id why r = record r {
    pipeline =
        log EventKind.discarded (some id) (some why)
          (record (r.pipeline) { steps = set_state id StepState.discarded r.pipeline.steps });
    discarded = r.discarded ++ id ∷ [];
  }

  -- The body of the loop of `drain`.
  unfoldable pub drain_step : Reason → PendingStep Q → Run Q O → Run Q O
  unfolding discard_step
  drain_step why e r = if is_queued e.state then discard_step e.step.step_id why r else r

  -- The loop sets only the state of the entry that it stands at, so it reads the table as it was.
  unfoldable pub drain_from : Reason → List (PendingStep Q) → Run Q O → Run Q O
  unfolding drain_step
  drain_from why [] r = r
  drain_from why (e ∷ es) r = drain_from why es (drain_step why e r)

  unfoldable pub drain : Reason → Run Q O → Run Q O
  unfolding drain_from
  drain why r = drain_from why r.pipeline.steps r

  -- The flag and the event of `quiesce`, before its `drain`.
  unfoldable pub mark_quiesced : Reason → Run Q O → Run Q O
  unfolding log
  mark_quiesced why r = record r {
    pipeline = log EventKind.quiesced none (some why) (record (r.pipeline) { was_quiesced = true });
  }

  unfoldable pub quiesce : Reason → Run Q O → Run Q O
  unfolding drain mark_quiesced
  quiesce why r = if r.pipeline.was_quiesced then r else drain why (mark_quiesced why r)

  -- `entry.step.depends_on.map((dependency) => this.steps.get(dependency)?.state)`.
  abbrev pub dependency_states : Run Q O → PendingStep Q → List (Option StepState)
  dependency_states r e =
      map (λ d. elim (find_step d r.pipeline.steps) [ some x ↦ some x.state | none ↦ none ])
        e.step.depends_on

  -- The entry leaves `queued` for `running`, and the speculator is called.
  unfoldable pub begin_step : PendingStep Q → Run Q O → Run Q O
  unfolding log
  begin_step e r = record r {
    pipeline = log EventKind.started (some e.step.step_id) none (record (r.pipeline) {
      steps = set_state e.step.step_id StepState.running r.pipeline.steps;
    });
    active = r.active ++ e.step.step_id ∷ [];
  }

  -- The body of the loop of `startReady` behind its `break`.
  unfoldable pub start_step : PendingStep Q → Run Q O → Run Q O
  unfolding discard_step begin_step
  start_step e r =
      if some_of is_discarded (dependency_states r e)
      then discard_step e.step.step_id dependency_failed r
      else if some_of is_unpromoted (dependency_states r e)
      then r
      else begin_step e r

  -- Here too an entry's own state is as the table had it when the loop began.
  unfoldable pub start_from : List (PendingStep Q) → Run Q O → Run Q O
  unfolding start_step
  start_from [] r = r
  start_from (e ∷ es) r =
      let rest = start_from es (start_step e r) in
      if leb r.pipeline.config.max_concurrency (length r.active) || not (is_queued e.state)
      then r
      else rest

  unfoldable pub start_ready : Run Q O → Run Q O
  unfolding start_from
  start_ready r = start_from r.pipeline.steps r

  -- What was done to the object during the wait, before the call that ended it is looked at.
  unfoldable pub after_wait : Round O → Run Q O → Run Q O
  unfolding cancel
  after_wait w r = if w.cancels then record r { pipeline = cancel r.pipeline } else r

  -- `if (this.cancelled) this.drain(discarded, 'cancelled')`.
  unfoldable pub heed_cancel : Run Q O → Run Q O
  unfolding drain
  heed_cancel r = if r.pipeline.was_cancelled then drain cancelled r else r

  -- The test of `max_duration_ms`.
  unfoldable pub heed_time : Round O → Run Q O → Run Q O
  unfolding quiesce
  heed_time w r = if w.expired then quiesce duration_cap r else r

  -- `if (!this.quiesced && !this.cancelled) this.startReady(…)`.
  unfoldable pub may_start : Run Q O → Run Q O
  unfolding start_ready
  may_start r =
      if not r.pipeline.was_quiesced && not r.pipeline.was_cancelled then start_ready r else r

  -- From the head of the loop to the test of `active.size`.
  unfoldable pub before_wait : Round O → Run Q O → Run Q O
  unfolding heed_cancel heed_time may_start
  before_wait w r = may_start (heed_time w (heed_cancel r))

  -- The loop's last test, when no call is in flight.
  unfoldable pub at_end : Run Q O → Run Q O
  unfolding quiesce
  at_end r =
      if not r.pipeline.was_quiesced
        && (not r.pipeline.was_cancelled && some_of (λ e. is_queued e.state) r.pipeline.steps)
      then quiesce cycle_detected r
      else r

  unfoldable pub complete : String → Outcome O → Run Q O → Run Q O
  unfolding quiesce log
  complete id (Outcome.promoted o) r = record r {
    pipeline =
        log EventKind.promoted (some id) none
          (record (r.pipeline) { steps = set_state id StepState.promoted r.pipeline.steps });
    promoted = r.promoted ++ id ∷ [];
    observations = r.observations ++ (id, o) ∷ [];
  }
  complete id (Outcome.discarded f) r = quiesce (fence_failure f) (record r {
    pipeline = record (r.pipeline) { steps = set_state id StepState.discarded r.pipeline.steps };
    discarded = r.discarded ++ id ∷ [];
  })

  -- `if (!entry || entry.state !== 'running') continue`.
  unfoldable pub settle_entry : Option (PendingStep Q) → String → Outcome O → Run Q O → Run Q O
  unfolding complete
  settle_entry none id o r = r
  settle_entry (some e) id o r = if is_running_state e.state then complete id o r else r

  unfoldable pub settle_call : String → Outcome O → Run Q O → Run Q O
  unfolding settle_entry
  settle_call id o r = settle_entry (find_step id r.pipeline.steps) id o r

  -- The loop. `none` means that the fuel ran out.
  unfoldable pub loop : ℕ → (ℕ → Round O) → Run Q O → Option (Run Q O)
  unfolding before_wait at_end after_wait settle_call
  loop zero rounds r = none
  loop (suc fuel) rounds r0 =
      let r = before_wait (rounds fuel) r0 in
      elim r.active [
        | [] ↦ some (at_end r)
        | a ∷ rest ↦
            let (id, others) = pick (rounds fuel).winner a rest in
            loop fuel rounds (
              settle_call id (rounds fuel).outcome
                (after_wait (rounds fuel) (record r { active = others })))
      ]

  -- `run` behind its guard. The rounds are numbered from the last to the first.
  unfoldable pub run : ℕ → (ℕ → Round O) → Pipeline Q → Option (Run Q O)
  unfolding loop
  run fuel rounds p = loop fuel rounds (record {
    pipeline = record p { is_running = true };
    promoted = [];
    discarded = [];
    active = [];
    observations = [];
  })
