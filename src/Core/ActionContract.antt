-- ===== src/Core/ActionContract.antt =====
-- packages/core/src/schemas/action-contract.ts: the action contract and the compatibility matrix.
-- A value of these types is a value that its schema parsed; `version` is always 1 and `visible`
-- always true there, so neither is a field.
pub mod Matrix
mod Tests
use rote.Prelude.{
  String, Option, some, Bool, true, false, List, [], ◌∷◌, ◌++◌, same, String-discrete, ◌≡◌,
  if◌then◌else◌,
}

pub data Verb : Type 0 where
  navigate fill select click hover press upload drag_and_drop : Verb

pub data Safety : Type 0 where
  read local_input navigation potentially_mutating mutating : Safety

pub data Control : Type 0 where
  single_line_text multi_line_text select_single select_multiple : Control
  checkbox radio button submit link file generic : Control

pub data EnterBehavior : Type 0 where
  submits_form inserts_newline none : EnterBehavior

pub data FormMethod : Type 0 where
  get post dialog : FormMethod

pub data EvidenceClass : Type 0 where
  ui_text ui_url api_state database_state fixture_oracle browser_download_event : EvidenceClass

pub record Affordance : Type 0 where
  pub control : Control
  pub input_type : Option String
  pub enter_behavior : EnterBehavior
  pub destination_hash : Option String
  pub form_method : Option FormMethod
  pub draggable : Bool

pub record Effect : Type 0 where
  pub evidence_class : EvidenceClass
  pub kind : Option String

pub record Target : Type 0 where
  pub role : String
  pub name : String
  pub stable_id : Option String
  pub context_hash : Option String

pub record ActionContract : Type 0 where
  pub verb : Verb
  pub target : Target
  pub affordance : Affordance
  pub safety : Safety
  pub enabled : Bool
  pub required_effect : Option Effect

unfoldable pub Verb-discrete : Discrete Verb
Verb-discrete = hlevel

unfoldable pub Safety-discrete : Discrete Safety
Safety-discrete = hlevel

unfoldable pub Control-discrete : Discrete Control
Control-discrete = hlevel

unfoldable pub EnterBehavior-discrete : Discrete EnterBehavior
EnterBehavior-discrete = hlevel

unfoldable pub Bool-discrete : Discrete Bool
Bool-discrete = hlevel

unfoldable pub OptionText-discrete : Discrete (Option String)
OptionText-discrete = hlevel String-discrete

unfoldable pub OptionFormMethod-discrete : Discrete (Option FormMethod)
OptionFormMethod-discrete = hlevel

unfoldable pub Effect-discrete : Discrete Effect
Effect-discrete = hlevel String-discrete

-- The spelling of each value, as `String(value)` gives it in a mismatch.
abbrev verb_text : Verb → String
verb_text navigate = "navigate"
verb_text fill = "fill"
verb_text select = "select"
verb_text click = "click"
verb_text hover = "hover"
verb_text press = "press"
verb_text upload = "upload"
verb_text drag_and_drop = "dragAndDrop"

abbrev safety_text : Safety → String
safety_text read = "read"
safety_text local_input = "local_input"
safety_text navigation = "navigation"
safety_text potentially_mutating = "potentially_mutating"
safety_text mutating = "mutating"

abbrev control_text : Control → String
control_text single_line_text = "single_line_text"
control_text multi_line_text = "multi_line_text"
control_text select_single = "select_single"
control_text select_multiple = "select_multiple"
control_text checkbox = "checkbox"
control_text radio = "radio"
control_text button = "button"
control_text submit = "submit"
control_text link = "link"
control_text file = "file"
control_text generic = "generic"

abbrev enter_text : EnterBehavior → String
enter_text submits_form = "submits_form"
enter_text inserts_newline = "inserts_newline"
enter_text none = "none"

abbrev method_text : FormMethod → String
method_text get = "get"
method_text post = "post"
method_text dialog = "dialog"

abbrev bool_text : Bool → String
bool_text true = "true"
bool_text false = "false"

-- `String(a ?? '∅')` of an optional value.
abbrev or_absent : {A : Type 0} → (A → String) → Option A → String
or_absent text (some a) = text a
or_absent text Option.none = "∅"

pub data MismatchField : Type 0 where
  verb role context affordance destination safety precondition effect : MismatchField

pub record Mismatch : Type 0 where
  pub field : MismatchField
  pub recorded : String
  pub current : String

pub data Drift : Type 0 where
  name stable_id : Drift

pub data Comparison : Type 0 where
  compatible : List Drift → Comparison
  contract_mismatch : List Mismatch → Comparison

-- `differ`: what one call of it pushes onto `mismatches`.
differ : {A : Type 0} → Discrete A → (A → String) → MismatchField → A → A → List Mismatch
differ d text f a b =
    if same d a b then [] else record { field = f; recorded = text a; current = text b } ∷ []

-- The call that stands under `if (left.required_effect && right.required_effect)`. An object has
-- the text `[object Object]`.
differ_effect : Option Effect → Option Effect → List Mismatch
differ_effect (some a) (some b) =
    differ Effect-discrete (λ _. "[object Object]") MismatchField.effect a b
differ_effect a b = []

mismatches : ActionContract → ActionContract → List Mismatch
mismatches l r =
    differ Verb-discrete verb_text MismatchField.verb l.verb r.verb
    ++ (differ String-discrete (λ s. s) role l.target.role r.target.role
        ++ (differ OptionText-discrete (or_absent (λ s. s)) context l.target.context_hash
              r.target.context_hash
            ++ (differ Control-discrete control_text MismatchField.affordance l.affordance.control
                  r.affordance.control
                ++ (differ OptionText-discrete (or_absent (λ s. s)) MismatchField.affordance
                      l.affordance.input_type r.affordance.input_type
                    ++ (differ EnterBehavior-discrete enter_text MismatchField.affordance
                          l.affordance.enter_behavior r.affordance.enter_behavior
                        ++ (differ Bool-discrete bool_text MismatchField.affordance
                              l.affordance.draggable r.affordance.draggable
                            ++ (differ OptionText-discrete (or_absent (λ s. s)) destination
                                  l.affordance.destination_hash r.affordance.destination_hash
                                ++ (differ OptionFormMethod-discrete (or_absent method_text)
                                      destination l.affordance.form_method r.affordance.form_method
                                    ++ (differ Safety-discrete safety_text MismatchField.safety
                                          l.safety r.safety
                                        ++ (differ Bool-discrete bool_text precondition l.enabled
                                              r.enabled
                                            ++ differ_effect l.required_effect
                                                r.required_effect))))))))))

drifts : ActionContract → ActionContract → List Drift
drifts l r =
    (if same String-discrete l.target.name r.target.name then [] else name ∷ [])
    ++ (if same OptionText-discrete l.target.stable_id r.target.stable_id
        then []
        else stable_id ∷ [])

-- `mismatches.length === 0 ? … : …`
verdict : List Mismatch → List Drift → Comparison
verdict [] d = compatible d
verdict (m ∷ ms) d = contract_mismatch (m ∷ ms)

unfoldable pub compare_action_contracts : ActionContract → ActionContract → Comparison
unfolding differ differ_effect mismatches drifts verdict
compare_action_contracts l r = verdict (mismatches l r) (drifts l r)
