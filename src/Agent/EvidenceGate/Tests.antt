-- ===== src/Agent/EvidenceGate/Tests.antt =====
-- packages/agent/src/evidence.ts: a gated verifier with one download adapter.
use rote.Prelude.{some, none, true, List, [], ◌∷◌, ok, err, ◌≡◌, refl, map, String-discrete}
use rote.Core.Evidence.{
  AuthoritativeEvidenceClass, EvidenceSubject, Envelope, evaluate_evidence_policy, consume_all,
  consume, is_aged, is_shifted, is_consistent, EvidenceClass-discrete,
}
use rote.Core.ActionContract.{EvidenceClass}
use rote.Agent.EvidenceGate.{
  Verification, GateOptions, adapter_failed, Collection, DownloadEvidenceRecord, download_evidence,
  build_evidence_envelope, parse_envelopes, collect_from, collect_all, verification_of,
  verify_evidence, gate, verify,
}
use rote.Agent.EvidenceGate.Gate.{Warranted, verify-Warranted}

abbrev subject : EvidenceSubject
subject = record { task_id = "task"; run_id = "run" }

abbrev report : DownloadEvidenceRecord
report = record { suggested_filename = "report.pdf"; sha256 = "digest"; byte_length = 9 }

abbrev downloaded : List (Envelope EvidenceSubject)
downloaded =
    record {
      evidence_class = EvidenceClass.browser_download_event;
      adapter_id = "downloads";
      source = "report.pdf";
      subject = subject;
      collected_at_ms = 3;
      freshness_generation = none;
      payload_sha256 = "digest";
      payload_byte_length = 9;
    }
    ∷ []

download_adapted :
    download_evidence (λ s f. f) "downloads" "browser" 3 subject (report ∷ []) ≡ downloaded
unfolding download_evidence build_evidence_envelope
download_adapted = refl

abbrev options : Collection → GateOptions
options c = record {
  policy = record {
    required =
        record {
          evidence_class = AuthoritativeEvidenceClass.browser_download_event;
          expected_payload_sha256 = some "digest";
        }
        ∷ [];
    max_age_ms = none;
  };
  adapters = record { id = "downloads"; collected = c } ∷ [];
  subject = subject;
  now_ms = 5;
  current_generation = none;
}

abbrev verified : List (Envelope EvidenceSubject) → Verification
verified cs = record { success = true; evidence_classification = none; consumed_evidence = cs }

accepted : verify (options (some (map some downloaded))) (verified []) ≡ ok (verified downloaded)
unfolding gate verify_evidence collect_all collect_from parse_envelopes verification_of
    evaluate_evidence_policy consume_all consume is_aged is_shifted is_consistent
    EvidenceClass-discrete String-discrete
accepted = refl

outage_thrown : verify (options none) (verified []) ≡ err (adapter_failed "downloads")
unfolding gate verify_evidence collect_all collect_from
outage_thrown = refl

verify-Warranted_example :
    (true ≡ true)
    × Warranted (options (some (map some downloaded))) (verified []) (verified downloaded)
verify-Warranted_example =
    verify-Warranted (options (some (map some downloaded))) (verified []) (verified downloaded)
      accepted refl
