-- ===== src/Core/Evidence.antt =====
-- packages/core/src/schemas/verification-evidence.ts: redacted evidence records and the policy that
-- demands them. A value is one that its schema parsed; `schema_version` and the texts of details are
-- left out. The age of an envelope is compared by addition: its clock may be ahead of the evaluation.
pub mod Gates
pub mod Satisfied
mod Tests
use rote.Prelude.{
  ℕ, ◌+◌, String, Option, some, none, Bool, true, false, not, ◌&&◌, List, [], ◌∷◌, same, ltb, ◌==◌,
  select, String-discrete, if◌then◌else◌, Result, ok, err, ◌>>=◌,
}
use rote.Core.ActionContract.{EvidenceClass}

unfoldable pub EvidenceClass-discrete : Discrete EvidenceClass
EvidenceClass-discrete = hlevel

pub data AuthoritativeEvidenceClass : Type 0 where
  api_state database_state fixture_oracle browser_download_event : AuthoritativeEvidenceClass

-- The policy's classes among all classes.
abbrev pub class_of : AuthoritativeEvidenceClass → EvidenceClass
class_of api_state = EvidenceClass.api_state
class_of database_state = EvidenceClass.database_state
class_of fixture_oracle = EvidenceClass.fixture_oracle
class_of browser_download_event = EvidenceClass.browser_download_event

unfoldable pub is_authoritative_evidence_class : EvidenceClass → Bool
is_authoritative_evidence_class EvidenceClass.api_state = true
is_authoritative_evidence_class EvidenceClass.database_state = true
is_authoritative_evidence_class EvidenceClass.fixture_oracle = true
is_authoritative_evidence_class EvidenceClass.browser_download_event = true
is_authoritative_evidence_class _ = false

pub record EvidenceSubject : Type 0 where
  pub task_id : String
  pub run_id : String

-- Most readers leave the subject alone.
pub record Envelope {ℓ} (S : Type ℓ) : Type ℓ where
  pub evidence_class : EvidenceClass
  pub adapter_id : String
  pub source : String
  pub subject : S
  pub collected_at_ms : ℕ
  pub freshness_generation : Option ℕ
  pub payload_sha256 : String
  pub payload_byte_length : ℕ

pub record EvidenceRequirement : Type 0 where
  pub evidence_class : AuthoritativeEvidenceClass
  pub expected_payload_sha256 : Option String

pub record EvidencePolicy : Type 0 where
  pub required : List EvidenceRequirement
  pub max_age_ms : Option ℕ

pub data FailureClassification : Type 0 where
  authoritative_effect_missing authoritative_evidence_task_mismatch : FailureClassification
  authoritative_evidence_stale authoritative_evidence_inconsistent : FailureClassification

pub record EvaluationBinding : Type 0 where
  pub subject : EvidenceSubject
  pub now_ms : ℕ
  pub current_generation : Option ℕ

abbrev pub is_of_class : AuthoritativeEvidenceClass → Envelope EvidenceSubject → Bool
is_of_class c e = same EvidenceClass-discrete e.evidence_class (class_of c)

abbrev pub is_bound : EvidenceSubject → Envelope EvidenceSubject → Bool
is_bound s e =
    same String-discrete e.subject.task_id s.task_id
    && same String-discrete e.subject.run_id s.run_id

-- `now_ms - collected_at_ms > max_age_ms`, where there is a maximum.
unfoldable pub is_aged : Option ℕ → (now collected : ℕ) → Bool
is_aged none now collected = false
is_aged (some max_age) now collected = ltb (max_age + collected) now

-- A generation that the caller observes must be the envelope's.
unfoldable pub is_shifted : (current freshness : Option ℕ) → Bool
is_shifted none freshness = false
is_shifted (some g) none = true
is_shifted (some g) (some f) = not (f == g)

abbrev pub is_fresh : EvidencePolicy → EvaluationBinding → Envelope EvidenceSubject → Bool
is_fresh p b e =
    not (is_aged p.max_age_ms b.now_ms e.collected_at_ms)
    && not (is_shifted b.current_generation e.freshness_generation)

unfoldable pub is_consistent : Option String → Envelope EvidenceSubject → Bool
is_consistent none e = true
is_consistent (some sha) e = same String-discrete e.payload_sha256 sha

-- The first of the envelopes, or the failure that there is none.
abbrev pub first_or :
    FailureClassification
    → List (Envelope EvidenceSubject)
    → Result FailureClassification (Envelope EvidenceSubject)
first_or f [] = err f
first_or f (e ∷ es) = ok e

-- `if (list.length === 0) return …`.
abbrev pub unless_empty :
    FailureClassification
    → List (Envelope EvidenceSubject)
    → Result FailureClassification (Envelope EvidenceSubject)
    → Result FailureClassification (Envelope EvidenceSubject)
unless_empty f [] next = err f
unless_empty f (e ∷ es) next = next

-- One turn of the loop: the envelope that the requirement consumes.
unfoldable pub consume :
    EvidencePolicy
    → EvaluationBinding
    → List (Envelope EvidenceSubject)
    → EvidenceRequirement
    → Result FailureClassification (Envelope EvidenceSubject)
unfolding is_aged is_shifted is_consistent
consume p b es r =
    let of_class = select (is_of_class r.evidence_class) es in
    let bound = select (is_bound b.subject) of_class in
    let fresh = select (is_fresh p b) bound in
    unless_empty authoritative_effect_missing of_class (
      unless_empty authoritative_evidence_task_mismatch bound (
        unless_empty authoritative_evidence_stale fresh (
          first_or authoritative_evidence_inconsistent
            (select (is_consistent r.expected_payload_sha256) fresh))))

unfoldable pub consume_all :
    EvidencePolicy
    → EvaluationBinding
    → List (Envelope EvidenceSubject)
    → List EvidenceRequirement
    → Result FailureClassification (List (Envelope EvidenceSubject))
unfolding consume
consume_all p b es [] = ok []
consume_all p b es (r ∷ rs) = consume p b es r >>= λ e. consume_all p b es rs >>= λ cs. ok (e ∷ cs)

-- The consumed envelopes, or the classification of the first failing gate.
unfoldable pub evaluate_evidence_policy :
    EvidencePolicy
    → List (Envelope EvidenceSubject)
    → EvaluationBinding
    → Result FailureClassification (List (Envelope EvidenceSubject))
unfolding consume_all
evaluate_evidence_policy p es b = consume_all p b es p.required
