-- ===== src/Agent/EvidenceGate.antt =====
-- packages/agent/src/evidence.ts: the verifier that adds a task's evidence policy to a base verifier,
-- and its two adapters. What the base verifier and the sources answer is given; `none` is an adapter
-- that throws, or an envelope that its schema rejects. The payload's digest is the host's.
pub mod Gate
mod Tests
use rote.Prelude.{
  ℕ, String, Option, some, none, Bool, true, false, List, [], ◌∷◌, ◌++◌, map, Result, ok, err,
  ◌>>=◌,
}
use rote.Core.ActionContract.{EvidenceClass}
use rote.Core.Evidence.{
  AuthoritativeEvidenceClass, class_of, EvidenceSubject, Envelope, EvidenceRequirement,
  EvidencePolicy, FailureClassification, EvaluationBinding, evaluate_evidence_policy,
}

pub record Verification : Type 0 where
  pub success : Bool
  pub evidence_classification : Option FailureClassification
  pub consumed_evidence : List (Envelope EvidenceSubject)

-- What an adapter collects.
abbrev pub Collection : Type 0
Collection = Option (List (Option (Envelope EvidenceSubject)))

pub record Adapter : Type 0 where
  pub id : String
  pub collected : Collection

-- `EvidenceCollectionError`, by the adapter's id.
pub data CollectionError : Type 0 where
  adapter_failed malformed_envelope : (adapter_id : String) → CollectionError

pub record GateOptions : Type 0 where
  pub policy : EvidencePolicy
  pub adapters : List Adapter
  pub subject : EvidenceSubject
  pub now_ms : ℕ
  pub current_generation : Option ℕ

unfoldable pub parse_envelopes :
    String
    → List (Option (Envelope EvidenceSubject))
    → Result CollectionError (List (Envelope EvidenceSubject))
parse_envelopes id [] = ok []
parse_envelopes id (none ∷ es) = err (malformed_envelope id)
parse_envelopes id (some e ∷ es) = parse_envelopes id es >>= λ rest. ok (e ∷ rest)

unfoldable pub collect_from :
    Adapter → Collection → Result CollectionError (List (Envelope EvidenceSubject))
unfolding parse_envelopes
collect_from a none = err (adapter_failed a.id)
collect_from a (some es) = parse_envelopes a.id es

unfoldable pub collect_all : List Adapter → Result CollectionError (List (Envelope EvidenceSubject))
unfolding collect_from
collect_all [] = ok []
collect_all (a ∷ xs) =
    collect_from a a.collected >>= λ es. collect_all xs >>= λ rest. ok (es ++ rest)

abbrev pub binding_of : GateOptions → EvaluationBinding
binding_of o = record {
  subject = o.subject;
  now_ms = o.now_ms;
  current_generation = o.current_generation;
}

-- The policy's verdict as a verification.
unfoldable pub verification_of :
    Result FailureClassification (List (Envelope EvidenceSubject)) → Verification
verification_of (ok consumed) = record {
  success = true;
  evidence_classification = none;
  consumed_evidence = consumed;
}
verification_of (err c) = record {
  success = false;
  evidence_classification = some c;
  consumed_evidence = [];
}

-- After a base verification that succeeded.
unfoldable pub verify_evidence :
    GateOptions → Verification → List EvidenceRequirement → Result CollectionError Verification
unfolding collect_all verification_of
verify_evidence o base [] = ok base
verify_evidence o base (r ∷ rs) = collect_all o.adapters >>= λ es.
    ok (verification_of (evaluate_evidence_policy o.policy es (binding_of o)))

unfoldable pub gate : GateOptions → Verification → Bool → Result CollectionError Verification
unfolding verify_evidence
gate o base false = ok base
gate o base true = verify_evidence o base o.policy.required

-- `verify` of `createEvidenceGatedVerifier`; the base verifier has answered.
abbrev pub verify : GateOptions → Verification → Result CollectionError Verification
verify o base = gate o base base.success

pub record Snapshot (P : Type 0) : Type 0 where
  pub payload : P
  pub generation : Option ℕ

pub record PayloadDigest : Type 0 where
  pub sha256 : String
  pub byte_length : ℕ

-- `buildEvidenceEnvelope`.
unfoldable pub build_evidence_envelope :
    EvidenceClass
    → String
    → String
    → EvidenceSubject
    → ℕ
    → Option ℕ
    → PayloadDigest
    → Envelope EvidenceSubject
build_evidence_envelope c adapter_id source subject now generation d = record {
  evidence_class = c;
  adapter_id = adapter_id;
  source = source;
  subject = subject;
  collected_at_ms = now;
  freshness_generation = generation;
  payload_sha256 = d.sha256;
  payload_byte_length = d.byte_length;
}

-- `collect` of `createSnapshotEvidenceAdapter`: its reader has answered. No snapshot, no envelope.
unfoldable pub snapshot_evidence :
    {P : Type 0}
    → (P → PayloadDigest)
    → AuthoritativeEvidenceClass
    → String
    → String
    → ℕ
    → EvidenceSubject
    → Option (Snapshot P)
    → List (Envelope EvidenceSubject)
unfolding build_evidence_envelope
snapshot_evidence digest c id source now subject none = []
snapshot_evidence digest c id source now subject (some s) =
    build_evidence_envelope (class_of c) id source subject now s.generation (digest s.payload) ∷ []

pub record DownloadEvidenceRecord : Type 0 where
  pub suggested_filename : String
  pub sha256 : String
  pub byte_length : ℕ

-- `collect` of `createDownloadEvidenceAdapter`; `label` joins the source and a file name.
unfoldable pub download_evidence :
    (label : String → String → String)
    → String
    → String
    → ℕ
    → EvidenceSubject
    → List DownloadEvidenceRecord
    → List (Envelope EvidenceSubject)
unfolding build_evidence_envelope
download_evidence label id source now subject [] = []
download_evidence label id source now subject (d ∷ ds) =
    build_evidence_envelope EvidenceClass.browser_download_event id
      (label source d.suggested_filename) subject now none
      (record { sha256 = d.sha256; byte_length = d.byte_length })
    ∷ download_evidence label id source now subject ds
