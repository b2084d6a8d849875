-- ===== src/Executor/Attempt.antt =====
-- packages/executor/src/executor.ts: one attempt at a step (`attemptStep`) and the attempts that a
-- step is given. What the tools and the language model answer to the n-th call is the boundary's, and
-- so is whether they reject. Templates (packages/core/src/template.ts) are a parameter: `none` where
-- a parameter is unbound. The texts of reasons and the recorder's files are left out.
use rote.Prelude.{
  ℕ, zero, suc, ◌+◌, String, Option, some, none, Bool, true, false, List, [], ◌∷◌, ◌++◌, same,
  includes, String-discrete, if◌then◌else◌, Result, ok, err, ◌>>=◌,
}
use rote.Executor.Json.{Json, string, boolean, object, Host, get_field}
use rote.Executor.Playbook.{
  Expect, selector_visible, selector_absent, input_value, Step, StepKind, deterministic, slot,
  judgment,
}
use rote.Executor.WorldState.{
  WorldState, observation_from_result, observation_from_text, merge_world_state, assign,
}
use rote.Executor.ExpectEvaluator.{evaluate_expect}

pub data Binding (N : Type 0) : Type 0 where
  text : String → Binding N
  amount : N → Binding N
  flag : Bool → Binding N

abbrev pub Bindings : Type 0 → Type 0
Bindings N = List (String × Binding N)

-- `renderTemplate` of the version that comes first.
pub record Templates (N : Type 0) : Type 0 where
  pub render_args : ℕ → Json N → Bindings N → Option (Json N)
  pub render_text : ℕ → String → Bindings N → Option String
  pub render_expect : ℕ → Expect N → Bindings N → Option (Expect N)

pub data ToolOutcome (N : Type 0) : Type 0 where
  succeeded : Json N → ToolOutcome N
  failed : (code : Option String) → ToolOutcome N

pub data LlmRequest : Type 0 where
  fill : (prompt : String) (max_tokens : ℕ) → LlmRequest
  judge : (prompt : String) (options : List String) → LlmRequest

pub record StepEvent : Type 0 where
  pub step_id : String
  pub completed_step_ids : List String
  pub step_bindings : List (String × String)

-- The first argument counts the calls: `none` and `false` are rejections.
pub record Boundary (N : Type 0) : Type 0 where
  pub call : ℕ → String → Json N → Option (ToolOutcome N)
  pub complete : ℕ → LlmRequest → Option String
  pub on_step_completed : ℕ → StepEvent → Bool

pub data Thrown : Type 0 where
  unbound_param tool_rejected llm_rejected invalid_pattern : Thrown
  judgment_out_of_enum : (step_id got : String) → Thrown

-- A dispatched tool call, as the trajectory has it.
pub record Dispatch (N : Type 0) : Type 0 where
  pub step_id : String
  pub tool : String
  pub args : Json N
  pub outcome : ToolOutcome N

-- The variables of `runPlaybook`.
pub record Run (N : Type 0) : Type 0 where
  pub bindings : Bindings N
  pub completed_step_ids : List String
  pub step_bindings : List (String × String)
  pub attempts : List (String × ℕ)
  pub repaired_step_ids : List String
  pub world : WorldState N
  pub trajectory : List (Dispatch N)
  pub calls : ℕ

pub record AttemptResult (N : Type 0) : Type 0 where
  pub pass : Bool
  pub code : Option String
  pub world : WorldState N
  pub repaired : Bool

pub record Receipt : Type 0 where
  pub requested_selector : String
  pub resolved_selector : String
  pub repaired : Bool

abbrev pub require : {A : Type 0} → Thrown → Option A → Result Thrown A
require e none = err e
require e (some a) = ok a

abbrev pub is_repaired : Option Receipt → Bool
is_repaired none = false
is_repaired (some r) = r.repaired

module _ {N : Type 0} where
  abbrev pub receipt_of : Option (Json N) → Option (Json N) → Option (Json N) → Option Receipt
  receipt_of (some (string q)) (some (string r)) (some (boolean b)) =
      some (record { requested_selector = q; resolved_selector = r; repaired = b })
  receipt_of _ _ _ = none

  abbrev pub receipt_from : Option (Json N) → Option Receipt
  unfolding get_field
  receipt_from (some (object fs)) =
      receipt_of (get_field "requested_selector" fs) (get_field "resolved_selector" fs)
        (get_field "repaired" fs)
  receipt_from _ = none

  unfoldable pub target_resolution_from_result : Json N → Option Receipt
  unfolding receipt_from get_field
  target_resolution_from_result (object fs) = receipt_from (get_field "target_resolution" fs)
  target_resolution_from_result _ = none

  -- A receipt of another selector than the requested one.
  unfoldable pub remap : Receipt → Expect N → Expect N
  remap r (selector_visible s) =
      if same String-discrete s r.requested_selector
      then selector_visible r.resolved_selector
      else selector_visible s
  remap r (selector_absent s) =
      if same String-discrete s r.requested_selector
      then selector_absent r.resolved_selector
      else selector_absent s
  remap r (input_value s v) =
      if same String-discrete s r.requested_selector
      then input_value r.resolved_selector v
      else input_value s v
  remap r e = e

  unfoldable pub remap_expect : Option (Expect N) → Option Receipt → Option (Expect N)
  unfolding remap
  remap_expect (some e) (some r) =
      some (if same String-discrete r.requested_selector r.resolved_selector then e else remap r e)
  remap_expect e _ = e

  abbrev pub text_of : Host N → Option (Binding N) → String
  text_of h none = ""
  text_of h (some (text s)) = s
  text_of h (some (amount n)) = h.show_number n
  text_of h (some (flag b)) = if b then "true" else "false"

  -- `attempts[step.id] = attempt`.
  unfoldable pub note_attempt : String → ℕ → Run N → Run N
  unfolding assign
  note_attempt id n r = record r { attempts = assign id n r.attempts }

  -- A call of the boundary, and what `record` keeps of a tool's.
  unfoldable pub count_call : Run N → Run N
  count_call r = record r { calls = r.calls + 1 }

  unfoldable pub record_dispatch : Dispatch N → Run N → Run N
  record_dispatch d r = record r { trajectory = r.trajectory ++ d ∷ [] }

  unfoldable pub bind : String → String → Run N → Run N
  unfolding assign
  bind k s r = record r { bindings = assign k (text s) r.bindings }

module _ {N : Type 0} (h : Host N) (t : Templates N) (b : Boundary N) (version : ℕ) where
  unfoldable pub check_expect : Option (Expect N) → Bindings N → WorldState N → Result Thrown Bool
  unfolding evaluate_expect
  check_expect none bs w = ok true
  check_expect (some e) bs w = require unbound_param (t.render_expect version e bs) >>= λ rendered.
      require invalid_pattern (evaluate_expect h rendered w)

  -- The world is the attempt's; the run takes it over when the attempts at the step are over.
  unfoldable pub after_tool :
      Step N → ToolOutcome N → Run N → Result Thrown (AttemptResult N × Run N)
  unfolding check_expect
  after_tool s (failed c) r =
      ok (record { pass = false; code = c; world = r.world; repaired = false }, r)
  after_tool s (succeeded v) r =
      let resolution = target_resolution_from_result v in
      let world = merge_world_state h r.world (observation_from_result v) v in
      check_expect (remap_expect s.expect resolution) r.bindings world >>= λ pass.
      ok (record { pass = pass; code = none; world = world; repaired = is_repaired resolution }, r)

  unfoldable pub call_tool :
      Step N → String → Json N → Run N → Result Thrown (AttemptResult N × Run N)
  unfolding after_tool
  call_tool s tool args r = require tool_rejected (b.call r.calls tool args) >>= λ outcome.
      after_tool s outcome (
        record_dispatch (record { step_id = s.id; tool = tool; args = args; outcome = outcome })
          (count_call r))

  -- What follows a completion: the world holds its text.
  unfoldable pub after_text : Step N → String → Run N → Result Thrown (AttemptResult N × Run N)
  unfolding check_expect
  after_text s c r =
      let world = merge_world_state h r.world (observation_from_text c) (string c) in
      check_expect s.expect r.bindings world >>= λ pass.
      ok (record { pass = pass; code = none; world = world; repaired = false }, r)

  unfoldable pub attempt_kind :
      Step N → StepKind N → Run N → Result Thrown (AttemptResult N × Run N)
  unfolding call_tool after_text
  attempt_kind s (deterministic tool args) r =
      require unbound_param (t.render_args version args r.bindings) >>= λ rendered.
      call_tool s tool rendered r
  attempt_kind s (slot prompt max_tokens into) r =
      require unbound_param (t.render_text version prompt r.bindings) >>= λ rendered.
      require llm_rejected (b.complete r.calls (fill rendered max_tokens)) >>= λ c.
      after_text s c (bind into c (count_call r))
  attempt_kind s (judgment prompt options) r =
      require unbound_param (t.render_text version prompt r.bindings) >>= λ rendered.
      require llm_rejected (b.complete r.calls (judge rendered options)) >>= λ c.
      if includes String-discrete options c
      then after_text s c (bind s.id c (count_call r))
      else err (judgment_out_of_enum s.id c)

  -- `attemptStep`.
  abbrev pub attempt_step : Step N → Run N → Result Thrown (AttemptResult N × Run N)
  attempt_step s r = attempt_kind s s.kind r

  -- The loop over the attempts, of which `left` are left and the next is number `n`.
  unfoldable pub attempt_all :
      (left n : ℕ) → Step N → AttemptResult N → Run N → Result Thrown (AttemptResult N × Run N)
  unfolding attempt_kind note_attempt
  attempt_all zero n s result r = ok (result, r)
  attempt_all (suc left) n s result r = attempt_step s (note_attempt s.id n r) >>= λ p.
      let rest = attempt_all left (n + 1) s p.0 p.1 in if p.0.pass then ok p else rest
