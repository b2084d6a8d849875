-- ===== src/Action/ContractGate/Tests.antt =====
-- packages/action/src/action-contract-gate.ts: a link, and the same link under another name.
use rote.Prelude.{String, Option, some, true, false, [], ◌∷◌, ok, ◌≡◌, ◌↔◌, refl}
use rote.Core.Hex.{is_hex_of}
use rote.Core.ActionContract.{click, link, EnterBehavior, ActionContract}
use rote.Perception.Node.{ContextCoordinate, frame, NodeAffordance, v2}
use rote.Action.SpeculationFence.{SpeculationInput, classify_speculation}
use rote.Action.ContractGate.{
  contract_of_affordance, stable_node_ref, parse_stable_node_ref, is_stable_node_ref, after_version,
  DeriveInput, contract_with, derive_action_contract, assert_action_contract,
}
use rote.Action.ContractGate.Agreement.{
  IsClassed, derived-IsClassed, SameControl, passes, assert_iff,
}

abbrev home_link : NodeAffordance
home_link = record {
  control = link;
  input_type = Option.none;
  enter_behavior = EnterBehavior.none;
  destination_hash = some "0123456789abcdef";
  form_method = Option.none;
  enabled = true;
  draggable = false;
}

-- In a frame of the page.
abbrev framed : Option ContextCoordinate
framed = some (record {
  path = frame "key" "origin" ∷ [];
  context_hash = "context";
  document_token = "document";
})

abbrev click_on : String → DeriveInput
click_on name = record {
  verb = click;
  node = record {
    id = v2 "0123456789abcdef" "c" "k";
    role = "link";
    name = name;
    tag = "a";
    selector_hint = Option.none;
    depth = 1;
    interactive = true;
    context = framed;
    state = Option.none;
    affordance = some home_link;
  };
  required_effect = Option.none;
}

abbrev contract_of : String → ActionContract
contract_of name = contract_with (click_on name) home_link "v2:0123456789abcdef"

abbrev home : ActionContract
home = contract_of "Home"

abbrev predicted : SpeculationInput
predicted = record {
  contract = home;
  known_same_origin_destinations = "0123456789abcdef" ∷ [];
  download_destinations = [];
  recorded_document_generation = Option.none;
  current_document_generation = Option.none;
  target_ambiguous = false;
  contract_mismatched = false;
}

derives : (name : String) → derive_action_contract (click_on name) ≡ ok (contract_of name)
unfolding derive_action_contract contract_of_affordance stable_node_ref parse_stable_node_ref
    is_stable_node_ref is_hex_of after_version
derives name = refl

derived-IsClassed_example : IsClassed home (classify_speculation predicted).class
derived-IsClassed_example = derived-IsClassed (click_on "Home") predicted (derives "Home")

assert_iff_example :
    (passes (assert_action_contract home (contract_of "Start")) ≡ true)
    ↔ SameControl (click_on "Home") (click_on "Start") home_link home_link
assert_iff_example =
    assert_iff (click_on "Home") (click_on "Start") home_link home_link home (contract_of "Start")
      refl refl (derives "Home") (derives "Start")
