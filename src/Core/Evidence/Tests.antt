-- ===== src/Core/Evidence/Tests.antt =====
-- packages/core/src/schemas/verification-evidence.ts: a policy that pins one digest.
use rote.Prelude.{ℕ, some, [], ◌∷◌, ok, err, ◌≡◌, ◌↔◌, ◌&&◌, true, refl, String-discrete}
use rote.Core.ActionContract.{EvidenceClass}
use rote.Core.Evidence.{
  AuthoritativeEvidenceClass, EvidenceSubject, Envelope, EvidencePolicy, EvidenceRequirement,
  is_of_class, is_bound, is_fresh, EvaluationBinding, authoritative_effect_missing,
  authoritative_evidence_stale, evaluate_evidence_policy, consume_all, consume, is_aged, is_shifted,
  is_consistent, EvidenceClass-discrete,
}
use rote.Core.Evidence.Gates.{Passes, gates_iff}
use rote.Core.Evidence.Satisfied.{Evaluated, evaluate-Evaluated}

abbrev subject : EvidenceSubject
subject = record { task_id = "task"; run_id = "run" }

abbrev order_placed : EvidenceClass → Envelope EvidenceSubject
order_placed c = record {
  evidence_class = c;
  adapter_id = "orders";
  source = "/orders";
  subject = subject;
  collected_at_ms = 10;
  freshness_generation = some 1;
  payload_sha256 = "digest";
  payload_byte_length = 2;
}

abbrev digest_pinned : EvidenceRequirement
digest_pinned = record {
  evidence_class = AuthoritativeEvidenceClass.api_state;
  expected_payload_sha256 = some "digest";
}

abbrev policy : EvidencePolicy
policy = record { required = digest_pinned ∷ []; max_age_ms = some 5 }

abbrev at_time : ℕ → EvaluationBinding
at_time n = record { subject = subject; now_ms = n; current_generation = some 1 }

accepted :
    evaluate_evidence_policy policy (order_placed EvidenceClass.api_state ∷ []) (at_time 15)
    ≡ ok (order_placed EvidenceClass.api_state ∷ [])
unfolding evaluate_evidence_policy consume_all consume is_aged is_shifted is_consistent
    EvidenceClass-discrete String-discrete
accepted = refl

-- What the page displays is no authoritative evidence.
ui_refused :
    evaluate_evidence_policy policy (order_placed EvidenceClass.ui_text ∷ []) (at_time 15)
    ≡ err authoritative_effect_missing
unfolding evaluate_evidence_policy consume_all consume EvidenceClass-discrete
ui_refused = refl

aged_refused :
    evaluate_evidence_policy policy (order_placed EvidenceClass.api_state ∷ []) (at_time 16)
    ≡ err authoritative_evidence_stale
unfolding evaluate_evidence_policy consume_all consume is_aged is_shifted EvidenceClass-discrete
    String-discrete
aged_refused = refl

evaluate-Evaluated_example :
    Evaluated policy
      (at_time 15)
      (order_placed EvidenceClass.api_state ∷ [])
      policy.required
      (evaluate_evidence_policy policy (order_placed EvidenceClass.api_state ∷ []) (at_time 15))
evaluate-Evaluated_example =
    evaluate-Evaluated policy (at_time 15) (order_placed EvidenceClass.api_state ∷ [])

gates_iff_example :
    (((is_of_class AuthoritativeEvidenceClass.api_state (order_placed EvidenceClass.api_state)
          && is_bound subject (order_placed EvidenceClass.api_state))
        && (is_fresh policy (at_time 15) (order_placed EvidenceClass.api_state)
            && is_consistent (some "digest") (order_placed EvidenceClass.api_state)))
      ≡ true)
    ↔ Passes policy (at_time 15) digest_pinned (order_placed EvidenceClass.api_state)
gates_iff_example =
    gates_iff policy (at_time 15) digest_pinned (order_placed EvidenceClass.api_state)
