-- ===== src/Action/SpeculationFence/Tests.antt =====
-- Runs of the fence.
use rote.Prelude.{
  String-discrete, Option, some, true, false, ◌≡◌, ◌≢◌, ◌↔◌, refl, [], ◌∷◌, List, includes, ok,
}
use rote.Core.ActionContract.{click, link, EnterBehavior, navigation}
use rote.Action.SpeculationFence.{
  SpeculationInput, SpeculationClass, pure_read, local_nav, external_effect, same_origin_link,
  SpeculationClass-discrete, classify_speculation, may_speculate,
}
use rote.Action.SpeculationFence.Boundary.{
  IsHarmless, is_eligible, may_speculate-ne_external, classify_iff,
}

-- A click on a link to a known page of the same origin.
abbrev pub follow : SpeculationInput
follow = record {
  contract = record {
    verb = click;
    target = record {
      role = "link";
      name = "Home";
      stable_id = Option.none;
      context_hash = Option.none;
    };
    affordance = record {
      control = link;
      input_type = Option.none;
      enter_behavior = EnterBehavior.none;
      destination_hash = some "0123456789abcdef";
      form_method = Option.none;
      draggable = false;
    };
    safety = navigation;
    enabled = true;
    required_effect = Option.none;
  };
  known_same_origin_destinations = "0123456789abcdef" ∷ [];
  download_destinations = [];
  recorded_document_generation = some 4;
  current_document_generation = some 4;
  target_ambiguous = false;
  contract_mismatched = false;
}

abbrev permit : List SpeculationClass
permit = pure_read ∷ local_nav ∷ []

program : Unit {0}
unfolding classify_speculation may_speculate SpeculationClass-discrete String-discrete
program = tt

follow_class : classify_speculation follow ≡ record { class = local_nav; reason = same_origin_link }
unfolding program
follow_class = refl

classify_iff_example : (is_eligible (classify_speculation follow).class ≡ true) ↔ IsHarmless follow
classify_iff_example = classify_iff follow

follow_allowed : may_speculate (classify_speculation follow) permit ≡ ok true
unfolding program
follow_allowed = refl

may_speculate-ne_external_example :
    ((classify_speculation follow).class ≢ external_effect)
    × (includes SpeculationClass-discrete permit (classify_speculation follow).class ≡ true)
    × (includes SpeculationClass-discrete permit external_effect ≡ false)
may_speculate-ne_external_example =
    may_speculate-ne_external (classify_speculation follow) permit follow_allowed
