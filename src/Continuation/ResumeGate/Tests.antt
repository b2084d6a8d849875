-- ===== src/Continuation/ResumeGate/Tests.antt =====
-- packages/continuation/src/resume-gate.ts: the gate on a concrete checkpoint. The digest is the
-- playbook's name.
use rote.Prelude.{ℕ, String, some, none, [], ◌∷◌, ◌≡◌, ◌↔◌, refl, String-discrete}
use rote.Core.ActionContract.{api_state}
use rote.Core.Evidence.{EvidenceClass-discrete}
use rote.Continuation.Checkpoint.{
  TaskCheckpoint, ProcedureStatus, in_progress, completed, already_completed, evidence_stale,
}
use rote.Continuation.ResumeGate.{
  Playbook, ResumeContext, assert_resumable, check_refs, check_status, is_outdated, has_moved,
  find_envelope,
}
use rote.Continuation.ResumeGate.Resumable.{IsResumable, assert_resumable_iff}

abbrev name_of : Playbook ℕ → String
name_of b = b.playbook

abbrev written : ProcedureStatus → TaskCheckpoint
written s = record {
  checkpoint_id = "id";
  task_id = "task";
  seq = 3;
  previous_checkpoint_id = none;
  written_at = "2026-01-01T00:00:00Z";
  env_fingerprint_hash = "env";
  principal_sha256 = "who";
  procedure = record {
    playbook = "book";
    version = 1;
    playbook_sha256 = "book";
    completed_step_ids = "first" ∷ [];
    step_bindings = [];
    status = s;
  };
  bindings_sha256 = "given";
  evidence_refs =
      record {
        evidence_class = api_state;
        adapter_id = "api";
        payload_sha256 = "payload";
        freshness_generation = some 4;
      }
      ∷ [];
  resume_url = none;
}

abbrev at_generation : ℕ → ResumeContext ℕ String
at_generation g = record {
  task_id = "task";
  env_fingerprint_hash = "env";
  principal_sha256 = "who";
  playbook = record { playbook = "book"; version = 1; body = 0 };
  bindings_sha256 = "given";
  envelopes =
      record {
        evidence_class = api_state;
        adapter_id = "api";
        source = "/api";
        subject = "cart";
        collected_at_ms = 0;
        freshness_generation = some g;
        payload_sha256 = "payload";
        payload_byte_length = 2;
      }
      ∷ [];
  current_generation = some g;
}

resumes : assert_resumable name_of (written in_progress) (at_generation 4) ≡ none
unfolding assert_resumable check_refs check_status is_outdated has_moved find_envelope
    String-discrete EvidenceClass-discrete
resumes = refl

completed_refused :
    assert_resumable name_of (written completed) (at_generation 4) ≡ some already_completed
unfolding assert_resumable check_refs check_status is_outdated has_moved find_envelope
    String-discrete EvidenceClass-discrete
completed_refused = refl

stale_refused :
    assert_resumable name_of (written in_progress) (at_generation 5) ≡ some evidence_stale
unfolding assert_resumable check_refs is_outdated String-discrete
stale_refused = refl

assert_resumable_iff_example :
    (assert_resumable name_of (written in_progress) (at_generation 4) ≡ none)
    ↔ IsResumable name_of (written in_progress) (at_generation 4)
assert_resumable_iff_example = assert_resumable_iff name_of (written in_progress) (at_generation 4)
