-- ===== src/Session/Prefetch/Tests.antt =====
-- A hover that is prefetched, and one whose shadow has moved on.
use rote.Prelude.{String, ℕ, Option, some, true, false, [], ◌≡◌, ◌↔◌, refl, String-discrete}
use rote.Core.ActionContract.{hover, link, EnterBehavior, navigation}
use rote.Action.SpeculationFence.{
  SpeculationInput, SpeculationClass-discrete, classify_speculation, may_speculate,
}
use rote.Session.EffectFence.{SessionScope, replay, same_scope}
use rote.Session.Prefetch.{
  PrefetchRequest, RawInput, ShadowObservation, Coordinator, hit_with, discarded, scope_mismatch,
  is_pure_read, permits_read, record_telemetry, same_binding, compare_receipt, finish_prefetch,
  begin_prefetch, prefetch,
}
use rote.Session.Prefetch.Hit.{IsHit, prefetch_iff}

abbrev scope : SessionScope
scope = record { environment_digest = "e"; principal_digest = "p"; binding_digest = "b" }

abbrev point_at : SpeculationInput
point_at = record {
  contract = record {
    verb = hover;
    target = record {
      role = "link";
      name = "Home";
      stable_id = Option.none;
      context_hash = Option.none;
    };
    affordance = record {
      control = link;
      input_type = Option.none;
      enter_behavior = EnterBehavior.none;
      destination_hash = Option.none;
      form_method = Option.none;
      draggable = false;
    };
    safety = navigation;
    enabled = true;
    required_effect = Option.none;
  };
  known_same_origin_destinations = [];
  download_destinations = [];
  recorded_document_generation = Option.none;
  current_document_generation = Option.none;
  target_ambiguous = false;
  contract_mismatched = false;
}

abbrev request : PrefetchRequest
request = record {
  session_id = "s";
  scope = scope;
  shadow_epoch = 1;
  document_generation = 4;
  context_generation = 2;
  prediction_digest = "d";
  source = replay;
  action = point_at;
}

abbrev input : RawInput
input = record { parsed = some request; source = some replay; session_id = some "s" }

abbrev observed : ℕ → ShadowObservation
observed epoch = record {
  observation_digest = "d";
  scope = scope;
  shadow_epoch = epoch;
  document_generation = 4;
  context_generation = 2;
}

abbrev fresh : Coordinator
fresh = record { telemetry = []; next_seq = 0 }

abbrev answer : ℕ → PrefetchRequest → Option (String × Option ShadowObservation)
answer epoch q = some ("page", some (observed epoch))

moved_on : (prefetch (answer 2) input fresh).0 ≡ discarded scope_mismatch
unfolding prefetch begin_prefetch finish_prefetch compare_receipt same_binding is_pure_read
    permits_read may_speculate classify_speculation SpeculationClass-discrete String-discrete
    same_scope record_telemetry
moved_on = refl

prefetch_iff_example :
    ((prefetch (answer 1) input fresh).0 ≡ hit_with "page") ↔ IsHit (answer 1) input "page"
prefetch_iff_example = prefetch_iff (answer 1) input fresh "page"
