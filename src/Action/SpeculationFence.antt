-- ===== src/Action/SpeculationFence.antt =====
-- packages/action/src/speculation-fence.ts. A value of `SpeculationInput` or of a policy is a
-- value that its schema parsed, its defaults filled in.
pub mod Boundary
mod Tests
use rote.Prelude.{
  ℕ, String, Option, some, none, Bool, true, false, not, List, [], ◌∷◌, same, includes, ◌==◌,
  String-discrete, if◌then◌else◌, Result, ok, err,
}
use rote.Core.ActionContract.{
  Verb, navigate, fill, select, click, hover, press, upload, drag_and_drop, Control, checkbox,
  radio, submit, link, EnterBehavior, submits_form, FormMethod, post, ActionContract,
}

pub data SpeculationClass : Type 0 where
  pure_read local_nav local_write external_effect : SpeculationClass

unfoldable pub SpeculationClass-discrete : Discrete SpeculationClass
SpeculationClass-discrete = hlevel

pub data Reason : Type 0 where
  read_only_verb local_control_write same_origin_link same_origin_navigation : Reason
  unclassified_control mutating_verb submit_control form_method_mutating : Reason
  cross_origin_destination download_destination unknown_destination chord_commits : Reason
  precondition_unmet stale_document ambiguous_target contract_mismatch : Reason

pub record Verdict : Type 0 where
  pub class : SpeculationClass
  pub reason : Reason

pub record SpeculationInput : Type 0 where
  pub contract : ActionContract
  pub known_same_origin_destinations : List String
  pub download_destinations : List String
  pub recorded_document_generation : Option ℕ
  pub current_document_generation : Option ℕ
  pub target_ambiguous : Bool
  pub contract_mismatched : Bool

abbrev external : Reason → Verdict
external r = record { class = external_effect; reason = r }

abbrev classified : SpeculationClass → Reason → Verdict
classified c r = record { class = c; reason = r }

-- Both generations are known, and they differ.
is_stale : Option ℕ → Option ℕ → Bool
is_stale (some recorded) (some current) = not (recorded == current)
is_stale _ _ = false

abbrev is_post : Option FormMethod → Bool
is_post (some post) = true
is_post _ = false

destination_verdict : SpeculationInput → Reason → Option String → Verdict
destination_verdict i r none = external unknown_destination
destination_verdict i r (some d) =
    if includes String-discrete i.download_destinations d
    then external download_destination
    else if includes String-discrete i.known_same_origin_destinations d
    then classified local_nav r
    else external cross_origin_destination

abbrev commits : EnterBehavior → Bool
commits submits_form = true
commits _ = false

click_verdict : SpeculationInput → Control → Verdict
unfolding destination_verdict
click_verdict i submit = external submit_control
click_verdict i checkbox = classified local_write local_control_write
click_verdict i radio = classified local_write local_control_write
click_verdict i link = destination_verdict i same_origin_link i.contract.affordance.destination_hash
click_verdict i _ = external unclassified_control

-- The `switch` on the verb. Its `default` is not reached: the schema has these verbs only.
verb_verdict : SpeculationInput → Verb → Verdict
unfolding click_verdict destination_verdict
verb_verdict i hover = classified pure_read read_only_verb
verb_verdict i upload = external mutating_verb
verb_verdict i drag_and_drop = external mutating_verb
verb_verdict i fill = classified local_write local_control_write
verb_verdict i select = classified local_write local_control_write
verb_verdict i press =
    if commits i.contract.affordance.enter_behavior
    then external chord_commits
    else classified local_write local_control_write
verb_verdict i navigate =
    destination_verdict i same_origin_navigation i.contract.affordance.destination_hash
verb_verdict i click = click_verdict i i.contract.affordance.control

unfoldable pub classify_speculation : SpeculationInput → Verdict
unfolding is_stale verb_verdict
classify_speculation i =
    if is_stale i.recorded_document_generation i.current_document_generation
    then external stale_document
    else if i.contract_mismatched
    then external contract_mismatch
    else if i.target_ambiguous
    then external ambiguous_target
    else if not i.contract.enabled
    then external precondition_unmet
    else if is_post i.contract.affordance.form_method
    then external form_method_mutating
    else verb_verdict i i.contract.verb

-- `SpeculationPolicyError` is the one error.
pub data PolicyError : Type 0 where
  speculation_policy_error : PolicyError

unfoldable pub may_speculate : Verdict → List SpeculationClass → Result PolicyError Bool
may_speculate v permit =
    if includes SpeculationClass-discrete permit external_effect
    then err speculation_policy_error
    else if same SpeculationClass-discrete v.class external_effect
    then ok false
    else ok (includes SpeculationClass-discrete permit v.class)

unfoldable pub speculation_allowed :
    SpeculationInput → List SpeculationClass → Verdict × Result PolicyError Bool
speculation_allowed i permit = let v = classify_speculation i in (v, may_speculate v permit)
