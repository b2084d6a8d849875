-- ===== src/Core/Evidence/Gates.antt =====
-- packages/core/src/schemas/verification-evidence.ts: what one envelope must be.
use rote.Prelude.{
  ℕ, ◌+◌, ◌≤◌, String, Option, some, none, Bool, true, not, ◌&&◌, same_iff, String-discrete, ◌≡◌,
  ◌↔◌, refl, ◌∙◌, arith,
}
use rote.Core.Evidence.{
  EvidenceClass-discrete, class_of, EvidenceSubject, Envelope, EvidenceRequirement, EvidencePolicy,
  EvaluationBinding, is_of_class, is_bound, is_aged, is_shifted, is_fresh, is_consistent,
}

module _ (p : EvidencePolicy) (b : EvaluationBinding) (r : EvidenceRequirement)
    (e : Envelope EvidenceSubject) where
  -- What the policy demands of an envelope.
  pub record Passes : Type 0 where
    pub of_class : e.evidence_class ≡ class_of r.evidence_class
    pub of_task : e.subject.task_id ≡ b.subject.task_id
    pub of_run : e.subject.run_id ≡ b.subject.run_id
    pub young : (max_age : ℕ) → p.max_age_ms ≡ some max_age → b.now_ms ≤ max_age + e.collected_at_ms
    pub of_generation : (g : ℕ) → b.current_generation ≡ some g → e.freshness_generation ≡ some g
    pub of_digest : (sha : String) → r.expected_payload_sha256 ≡ some sha → e.payload_sha256 ≡ sha

young_iff :
    (m : Option ℕ) (now at : ℕ)
    → (not (is_aged m now at) ≡ true) ↔ ((max_age : ℕ) → m ≡ some max_age → now ≤ max_age + at)
unfolding is_aged
young_iff none now at = (λ _ max_age e. absurd cc, λ _. refl)
young_iff (some m) now at = (
  λ h max_age e. let k : m ≡ max_age = cc in ground (arith, k, h),
  λ f. let k : now ≤ m + at = f m refl in ground (arith, k),
)

shifted_iff : (c f : Option ℕ) → (not (is_shifted c f) ≡ true) ↔ ((g : ℕ) → c ≡ some g → f ≡ some g)
unfolding is_shifted
shifted_iff none f = (λ _ g e. absurd cc, λ _. refl)
shifted_iff (some c) none = (λ h. absurd cc, λ f. let k : none ≡ some c = f c refl in absurd cc)
shifted_iff (some c) (some d) = (
  λ h g e. let k : c ≡ g = cc in let l : d ≡ c = ground (arith, h) in cc,
  λ f. let k : some d ≡ some c = f c refl in let l : d ≡ c = cc in ground (arith, l),
)

consistent_iff :
    (d : Option String) (e : Envelope EvidenceSubject)
    → (is_consistent d e ≡ true) ↔ ((sha : String) → d ≡ some sha → e.payload_sha256 ≡ sha)
unfolding is_consistent
consistent_iff none e = (λ _ sha k. absurd cc, λ _. refl)
consistent_iff (some d) e = (
  λ h sha k. let l : d ≡ sha = cc in (same_iff String-discrete e.payload_sha256 d).0 h ∙ l,
  λ f. (same_iff String-discrete e.payload_sha256 d).1 (f d refl),
)

and_iff : (a b : Bool) → ((a && b) ≡ true) ↔ ((a ≡ true) × (b ≡ true))
and_iff a b = ground arith

module _ (p : EvidencePolicy) (b : EvaluationBinding) (r : EvidenceRequirement)
    (e : Envelope EvidenceSubject) where
  -- The filters of the four gates let an envelope through exactly when it is of the required class and
  -- of the same task and run, no older than the policy allows, of the generation that the caller
  -- observes, and of the pinned digest, where these are given.
  pub gates_iff :
      (((is_of_class r.evidence_class e && is_bound b.subject e)
          && (is_fresh p b e && is_consistent r.expected_payload_sha256 e))
        ≡ true)
      ↔ Passes p b r e
  gates_iff = (
    λ h.
        let (x, y) = (and_iff _ _).0 h in
        let (c, s) = (and_iff _ _).0 x in
        let (f, d) = (and_iff _ _).0 y in
        let (t, u) = (and_iff _ _).0 s in
        let (a, g) = (and_iff _ _).0 f in
        record {
          of_class = (same_iff EvidenceClass-discrete _ _).0 c;
          of_task = (same_iff String-discrete _ _).0 t;
          of_run = (same_iff String-discrete _ _).0 u;
          young = (young_iff p.max_age_ms b.now_ms e.collected_at_ms).0 a;
          of_generation = (shifted_iff b.current_generation e.freshness_generation).0 g;
          of_digest = (consistent_iff r.expected_payload_sha256 e).0 d;
        },
    λ h. (and_iff _ _).1 (
      (and_iff _ _).1 (
        (same_iff EvidenceClass-discrete _ _).1 h.of_class,
        (and_iff _ _).1
            ((same_iff String-discrete _ _).1 h.of_task, (same_iff String-discrete _ _).1 h.of_run),
      ),
      (and_iff _ _).1 (
        (and_iff _ _).1 (
          (young_iff p.max_age_ms b.now_ms e.collected_at_ms).1 h.young,
          (shifted_iff b.current_generation e.freshness_generation).1 h.of_generation,
        ),
        (consistent_iff r.expected_payload_sha256 e).1 h.of_digest,
      ),
    ),
  )
