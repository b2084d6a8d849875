-- ===== src/Session/EffectFence/Tests.antt =====
-- Runs of the effect-fenced speculator.
use rote.Prelude.{ℕ, ◌∷◌, [], Option, some, true, false, ◌≡◌, ◌↔◌, refl, String-discrete, ok}
use rote.Core.ActionContract.{click, link, EnterBehavior, navigation}
use rote.Action.SpeculationFence.{
  SpeculationInput, SpeculationClass-discrete, classify_speculation, may_speculate,
}
use rote.Session.EffectFence.{
  read, nav, Policy, SessionScope, Request, Receipt, replay, Host, answered, Outcome,
  new_speculator, start, settle, promote, speculate,
}
use rote.Session.EffectFence.Budget.{
  Session, here, next, begin, enter, IsBounded, opened, Reach-IsBounded,
}
use rote.Session.EffectFence.Promotion.{Promotes, speculate_iff}

abbrev scope : SessionScope
scope = record { environment_digest = "e"; principal_digest = "p"; binding_digest = "b" }

abbrev follow : SpeculationInput
follow = record {
  contract = record {
    verb = click;
    target = record {
      role = "link";
      name = "Home";
      stable_id = Option.none;
      context_hash = Option.none;
    };
    affordance = record {
      control = link;
      input_type = Option.none;
      enter_behavior = EnterBehavior.none;
      destination_hash = some "0123456789abcdef";
      form_method = Option.none;
      draggable = false;
    };
    safety = navigation;
    enabled = true;
    required_effect = Option.none;
  };
  known_same_origin_destinations = "0123456789abcdef" ∷ [];
  download_destinations = [];
  recorded_document_generation = some 4;
  current_document_generation = some 4;
  target_ambiguous = false;
  contract_mismatched = false;
}

abbrev request : Request
request = record {
  shadow_id = "s1";
  scope = scope;
  shadow_epoch = 1;
  document_generation = 4;
  context_generation = 2;
  fingerprint_digest = "f";
  action_contract_digest = "c";
  verification_plan_digest = "v";
  prediction_digest = "o";
  source = replay;
  action = follow;
}

abbrev receipt : Receipt
receipt = record {
  observation_digest = "o";
  scope = scope;
  shadow_epoch = 1;
  document_generation = 4;
  context_generation = 2;
  fingerprint_digest = "f";
  action_contract_digest = "c";
  verification_plan_digest = "v";
}

abbrev policy : Policy
policy = record { permit = read ∷ nav ∷ []; max_dispatches = 8; max_in_flight = 1 }

abbrev host : Host ℕ
host = record { execute = λ id c. answered 7 (some receipt); promote_shadow = λ id. true }

program : Unit {0}
unfolding speculate settle promote start new_speculator classify_speculation may_speculate
    SpeculationClass-discrete String-discrete
program = tt

promotes : (speculate host policy (some request) new_speculator).0 ≡ ok (Outcome.promoted 7)
unfolding program
promotes = refl

speculate_iff_example :
    ((speculate host policy (some request) new_speculator).0 ≡ ok (Outcome.promoted 7))
    ↔ Promotes host policy (some request) new_speculator 7
speculate_iff_example = speculate_iff host policy (some request) new_speculator 7

-- A second call is begun while the first is in flight.
abbrev one_call : Session
one_call = enter opened (start policy (some request) new_speculator)

abbrev two_calls : Session
two_calls = enter one_call (start policy (some request) one_call.speculator)

Reach-IsBounded_example : IsBounded policy two_calls
Reach-IsBounded_example =
    Reach-IsBounded {O = ℕ} policy (next (next here (begin (some request))) (begin (some request)))
