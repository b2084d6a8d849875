-- ===== src/Core/ActionContract/Tests.antt =====
-- The comparison of two contracts on a control whose destination moved.
use rote.Prelude.{String-discrete, Option, some, true, false, ◌≡◌, ◌↔◌, refl, [], ◌∷◌}
use rote.Core.ActionContract.{
  ActionContract, click, link, EnterBehavior, navigation, Verb-discrete, Safety-discrete,
  Control-discrete, EnterBehavior-discrete, Bool-discrete, OptionText-discrete,
  OptionFormMethod-discrete, Effect-discrete, contract_mismatch, destination,
  compare_action_contracts,
}
use rote.Core.ActionContract.Matrix.{IsCompatible, is_compatible, compare_iff}

abbrev home : ActionContract
home = record {
  verb = click;
  target = record {
    role = "link";
    name = "Home";
    stable_id = Option.none;
    context_hash = Option.none;
  };
  affordance = record {
    control = link;
    input_type = Option.none;
    enter_behavior = EnterBehavior.none;
    destination_hash = some "0123456789abcdef";
    form_method = Option.none;
    draggable = false;
  };
  safety = navigation;
  enabled = true;
  required_effect = Option.none;
}

-- The same link, led elsewhere.
abbrev moved : ActionContract
moved = record home {
  affordance = record (home.affordance) { destination_hash = some "fedcba9876543210" };
}

program : Unit {0}
unfolding compare_action_contracts Verb-discrete Safety-discrete Control-discrete
    EnterBehavior-discrete Bool-discrete OptionText-discrete OptionFormMethod-discrete
    Effect-discrete String-discrete
program = tt

moved_mismatches :
    compare_action_contracts home moved
    ≡ contract_mismatch (
        record { field = destination; recorded = "0123456789abcdef"; current = "fedcba9876543210" }
        ∷ [])
unfolding program
moved_mismatches = refl

compare_iff_example :
    (is_compatible (compare_action_contracts home moved) ≡ true) ↔ IsCompatible home moved
compare_iff_example = compare_iff home moved
