-- ===== src/Action/ContractGate.antt =====
-- packages/action/src/action-contract-gate.ts, and `classifyBrowserActionSafety` of action-contract.ts: the
-- contract of a verb on a live node, and its comparison with the recorded one. A verb is one of the
-- contract's schema, so that none is unclassified.
pub mod Agreement
mod Tests
use Prim.Native.Char.{Char, code}
use Prim.Native.String.{◌++◌ as join}
use rote.Prelude.{
  zero, suc, ◌&&◌, ◌||◌, leb, ◌==◌, if◌then◌else◌, ℕ, String, Option, some, none, Bool, true, false,
  List, [], ◌∷◌, Result, ok, err,
}
use rote.Core.Hex.{is_hex_of}
use rote.Core.ActionContract.{
  Verb, navigate, fill, select, click, hover, press, upload, drag_and_drop, Safety, read,
  local_input, navigation, potentially_mutating, mutating, Control, checkbox, radio, submit, link,
  generic, EnterBehavior, FormMethod, post, Affordance, Effect, ActionContract, Mismatch, Drift,
  Comparison, compatible, contract_mismatch, compare_action_contracts,
}
use rote.Perception.Node.{
  StableNodeId, v1, v2, ContextCoordinate, ContextSegment, NodeAffordance, DistilledNode,
}

abbrev pub classify_browser_action_safety : Verb → Safety
classify_browser_action_safety hover = read
classify_browser_action_safety fill = local_input
classify_browser_action_safety select = local_input
classify_browser_action_safety press = potentially_mutating
classify_browser_action_safety click = potentially_mutating
classify_browser_action_safety navigate = navigation
classify_browser_action_safety upload = mutating
classify_browser_action_safety drag_and_drop = mutating

abbrev pub submit_safety : Option FormMethod → Safety
submit_safety (some post) = mutating
submit_safety _ = navigation

-- The `switch` on the control of a click.
abbrev pub click_safety : Option FormMethod → Control → Safety
click_safety m link = navigation
click_safety m submit = submit_safety m
click_safety m checkbox = local_input
click_safety m radio = local_input
click_safety m _ = potentially_mutating

abbrev pub derive_action_safety : Verb → NodeAffordance → Safety
derive_action_safety click a = click_safety a.form_method a.control
derive_action_safety v a = classify_browser_action_safety v

-- `ActionContractUnavailableError`, with the selector, or the error of a reference that its schema
-- rejects.
pub data DeriveError : Type 0 where
  unavailable : Option String → DeriveError
  invalid_reference : DeriveError

pub record DeriveInput : Type 0 where
  pub verb : Verb
  pub node : DistilledNode
  pub required_effect : Option Effect

abbrev pub generic_affordance : NodeAffordance
generic_affordance = record {
  control = generic;
  input_type = Option.none;
  enter_behavior = EnterBehavior.none;
  destination_hash = Option.none;
  form_method = Option.none;
  enabled = true;
  draggable = false;
}

-- packages/perception/src/types.ts: `StableNodeRefSchema`, sixteen of 0-9 and a-f, perhaps after `v2:`.
unfoldable pub after_version : String → Option String
after_version (String.◌∷◌ c (String.◌∷◌ d (String.◌∷◌ e s))) =
    if (code c == 118) && ((code d == 50) && (code e == 58)) then some s else none
after_version _ = none

unfoldable pub is_stable_node_ref : String → Bool
unfolding is_hex_of after_version
is_stable_node_ref s =
    is_hex_of 16 s || (elim (after_version s) [ none ↦ false | some r ↦ is_hex_of 16 r ])

-- `none` is the error of the schema.
unfoldable pub parse_stable_node_ref : String → Option String
unfolding is_stable_node_ref
parse_stable_node_ref s = if is_stable_node_ref s then some s else none

-- packages/perception/src/types.ts: `stableNodeRef`.
unfoldable pub stable_node_ref : StableNodeId → Option String
unfolding parse_stable_node_ref
stable_node_ref (v1 h) = parse_stable_node_ref h
stable_node_ref (v2 h c k) = parse_stable_node_ref (join "v2:" h)

-- `node.context?.path.length ? contextHash : …`.
abbrev pub hash_of_path : String → List ContextSegment → Option String
hash_of_path h [] = none
hash_of_path h (s ∷ ss) = some h

abbrev pub context_hash_of : Option ContextCoordinate → Option String
context_hash_of none = none
context_hash_of (some c) = hash_of_path c.context_hash c.path

abbrev pub contract_with : DeriveInput → NodeAffordance → (stable_id : String) → ActionContract
contract_with i a stable_id = record {
  verb = i.verb;
  target = record {
    role = i.node.role;
    name = i.node.name;
    stable_id = some stable_id;
    context_hash = context_hash_of i.node.context;
  };
  affordance = record {
    control = a.control;
    input_type = a.input_type;
    enter_behavior = a.enter_behavior;
    destination_hash = a.destination_hash;
    form_method = a.form_method;
    draggable = a.draggable;
  };
  safety = derive_action_safety i.verb a;
  enabled = a.enabled;
  required_effect = i.required_effect;
}

abbrev pub contract_for :
    DeriveInput → NodeAffordance → Option String → Result DeriveError ActionContract
contract_for i a none = err invalid_reference
contract_for i a (some stable_id) = ok (contract_with i a stable_id)

-- Where the capture has no affordance only a navigation has a contract.
unfoldable pub contract_without : DeriveInput → Verb → Result DeriveError ActionContract
unfolding stable_node_ref
contract_without i navigate = contract_for i generic_affordance (stable_node_ref i.node.id)
contract_without i _ = err (unavailable i.node.selector_hint)

unfoldable pub contract_of_affordance :
    DeriveInput → Option NodeAffordance → Result DeriveError ActionContract
unfolding contract_without stable_node_ref
contract_of_affordance i none = contract_without i i.verb
contract_of_affordance i (some a) = contract_for i a (stable_node_ref i.node.id)

unfoldable pub derive_action_contract : DeriveInput → Result DeriveError ActionContract
unfolding contract_of_affordance
derive_action_contract i = contract_of_affordance i i.node.affordance

-- `err` is `ActionContractMismatchError`; a comparison that passes has no mismatches.
abbrev pub assert_compatible : Comparison → Result (List Mismatch) (List Drift)
assert_compatible (compatible drifts) = ok drifts
assert_compatible (contract_mismatch ms) = err ms

unfoldable pub assert_action_contract :
    (recorded current : ActionContract) → Result (List Mismatch) (List Drift)
unfolding compare_action_contracts
assert_action_contract recorded current =
    assert_compatible (compare_action_contracts recorded current)
