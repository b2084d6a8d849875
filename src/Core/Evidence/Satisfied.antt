-- ===== src/Core/Evidence/Satisfied.antt =====
-- packages/core/src/schemas/verification-evidence.ts: which policies are satisfied, and what the
-- failures mean.
use rote.Prelude.{
  Bool, true, List, [], ◌∷◌, ◌++◌, select, Result, ok, err, ◌>>=◌, ◌≡◌, ◌⊎◌, inl, inr, refl, ◌∙◌,
  All, All-map, Bool-cases,
}
use rote.Core.Evidence.{
  EvidenceSubject, Envelope, EvidenceRequirement, EvidencePolicy, FailureClassification,
  authoritative_effect_missing, authoritative_evidence_task_mismatch, authoritative_evidence_stale,
  authoritative_evidence_inconsistent, EvaluationBinding, is_of_class, is_bound, is_fresh,
  is_consistent, first_or, unless_empty, consume, consume_all, evaluate_evidence_policy,
}

-- Some element has the property.
abbrev pub Some : {A : Type 0} → (A → Type 0) → List A → Type 0
Some P [] = ⊥
Some P (x ∷ xs) = P x ⊎ Some P xs

module _ {A : Type 0} where
  pub Some-All : (P Q : A → Type 0) (xs : List A) → Some P xs → All Q xs → Some (λ x. P x × Q x) xs
  Some-All P Q [] s h = absurd s
  Some-All P Q (x ∷ xs) (inl p) h = inl (p, h.0)
  Some-All P Q (x ∷ xs) (inr s) h = inr (Some-All P Q xs s h.1)

  pub Some-none : (P : A → Type 0) (xs : List A) → Some P xs → All (λ x. P x → ⊥) xs → ⊥
  Some-none P [] s h = s
  Some-none P (x ∷ xs) (inl p) h = h.0 p
  Some-none P (x ∷ xs) (inr s) h = Some-none P xs s h.1

  pub Some-map : (P Q : A → Type 0) (xs : List A) → ((x : A) → P x → Q x) → Some P xs → Some Q xs
  Some-map P Q [] f s = absurd s
  Some-map P Q (x ∷ xs) f (inl p) = inl (f x p)
  Some-map P Q (x ∷ xs) f (inr s) = inr (Some-map P Q xs f s)

  -- What is left is of the list and passes the test.
  selected :
      (P : A → Type 0) (p : A → Bool) (xs : List A)
      → Some P (select p xs)
      → Some (λ x. (p x ≡ true) × P x) xs
  selected P p [] s = s
  selected P p (x ∷ xs) s = elim (Bool-cases (p x)) [
    | inl e ↦ elim (rw e at s) [ inl now ↦ inl (e, now) | inr later ↦ inr (selected P p xs later) ]
    | inr e ↦ inr (selected P p xs (rw e at s))
  ]

  -- What holds of all that is left holds of all that pass the test.
  pub unselected :
      (P : A → Type 0) (p : A → Bool) (xs : List A)
      → All P (select p xs)
      → All (λ x. p x ≡ true → P x) xs
  unselected P p [] h = tt
  unselected P p (x ∷ xs) h = elim (Bool-cases (p x)) [
    | inl e ↦ let k : P x × All P (select p xs) = rw e at h in ((λ _. k.0), unselected P p xs k.1)
    | inr e ↦ ((λ t. absurd cc), unselected P p xs (rw e at h))
  ]

-- What the gates make of the lists that they leave.
data Gates (of_class bound fresh good : List (Envelope EvidenceSubject))
    : Result FailureClassification (Envelope EvidenceSubject) → Type 0 where
  no_class : of_class ≡ [] → Gates of_class bound fresh good (err authoritative_effect_missing)
  no_bound :
      (e : Envelope EvidenceSubject) (rest : List (Envelope EvidenceSubject))
      → of_class ≡ e ∷ rest
      → bound ≡ []
      → Gates of_class bound fresh good (err authoritative_evidence_task_mismatch)
  no_fresh :
      (e : Envelope EvidenceSubject) (rest : List (Envelope EvidenceSubject))
      → bound ≡ e ∷ rest
      → fresh ≡ []
      → Gates of_class bound fresh good (err authoritative_evidence_stale)
  no_good :
      (e : Envelope EvidenceSubject) (rest : List (Envelope EvidenceSubject))
      → fresh ≡ e ∷ rest
      → good ≡ []
      → Gates of_class bound fresh good (err authoritative_evidence_inconsistent)
  one :
      (e : Envelope EvidenceSubject) (rest : List (Envelope EvidenceSubject))
      → good ≡ e ∷ rest
      → Gates of_class bound fresh good (ok e)

gated :
    (of_class bound fresh good : List (Envelope EvidenceSubject))
    → Gates of_class bound fresh good (
        unless_empty authoritative_effect_missing of_class (
          unless_empty authoritative_evidence_task_mismatch bound (
            unless_empty authoritative_evidence_stale fresh
              (first_or authoritative_evidence_inconsistent good))))
gated [] bound fresh good = no_class refl
gated (x ∷ xs) [] fresh good = no_bound x xs refl refl
gated (x ∷ xs) (y ∷ ys) [] good = no_fresh y ys refl refl
gated (x ∷ xs) (y ∷ ys) (z ∷ zs) [] = no_good z zs refl refl
gated (x ∷ xs) (y ∷ ys) (z ∷ zs) (e ∷ es) = one e es refl

module _ (p : EvidencePolicy) (b : EvaluationBinding) (es : List (Envelope EvidenceSubject)) where
  -- The gates that an envelope passes, one after the other.
  abbrev pub OfClass : EvidenceRequirement → Envelope EvidenceSubject → Type 0
  OfClass r e = is_of_class r.evidence_class e ≡ true

  abbrev pub Bound : EvidenceRequirement → Envelope EvidenceSubject → Type 0
  Bound r e = OfClass r e × (is_bound b.subject e ≡ true)

  abbrev pub Fresh : EvidenceRequirement → Envelope EvidenceSubject → Type 0
  Fresh r e = Bound r e × (is_fresh p b e ≡ true)

  abbrev pub Supports : EvidenceRequirement → Envelope EvidenceSubject → Type 0
  Supports r e = Fresh r e × (is_consistent r.expected_payload_sha256 e ≡ true)

  -- The envelope that a requirement consumes supports it; a failure names the first gate that no
  -- envelope passes, and some envelope passed the gates before it.
  pub data Judged (r : EvidenceRequirement)
      : Result FailureClassification (Envelope EvidenceSubject) → Type 0 where
    supported :
        (e : Envelope EvidenceSubject) → Some (λ x. (x ≡ e) × Supports r x) es → Judged r (ok e)
    missing : All (λ x. OfClass r x → ⊥) es → Judged r (err authoritative_effect_missing)
    mismatched :
        Some (OfClass r) es
        → All (λ x. Bound r x → ⊥) es
        → Judged r (err authoritative_evidence_task_mismatch)
    stale :
        Some (Bound r) es
        → All (λ x. Fresh r x → ⊥) es
        → Judged r (err authoritative_evidence_stale)
    inconsistent :
        Some (Fresh r) es
        → All (λ x. Supports r x → ⊥) es
        → Judged r (err authoritative_evidence_inconsistent)

  module _ (r : EvidenceRequirement) where
    emptied :
        (q : Envelope EvidenceSubject → Bool) (xs : List (Envelope EvidenceSubject))
        → select q xs ≡ []
        → All (λ x. q x ≡ true → ⊥) xs
    emptied q xs e = unselected (λ x. ⊥) q xs (rw e tt)

    Some-OfClass :
        (of_class : List (Envelope EvidenceSubject)) (y : Envelope EvidenceSubject)
        (ys : List (Envelope EvidenceSubject))
        → select (is_of_class r.evidence_class) es ≡ of_class
        → of_class ≡ y ∷ ys
        → Some (OfClass r) es
    Some-OfClass of_class y ys ec left =
        Some-map _ (OfClass r) es (λ x k. k.0)
          (selected (λ x. Unit) (is_of_class r.evidence_class) es (rw (ec, left) (inl tt)))

    Some-Bound :
        (of_class bound : List (Envelope EvidenceSubject)) (y : Envelope EvidenceSubject)
        (ys : List (Envelope EvidenceSubject))
        → select (is_of_class r.evidence_class) es ≡ of_class
        → select (is_bound b.subject) of_class ≡ bound
        → bound ≡ y ∷ ys
        → Some (Bound r) es
    Some-Bound of_class bound y ys ec eb left =
        let in_class =
          selected (λ x. Unit) (is_bound b.subject) of_class (rw (eb, left) (inl tt)) in
        Some-map _ (Bound r) es (λ x k. (k.0, k.1.0))
          (selected (λ x. (is_bound b.subject x ≡ true) × Unit) (is_of_class r.evidence_class) es
            (rw ec in_class))

    Some-Fresh :
        (of_class bound fresh : List (Envelope EvidenceSubject)) (y : Envelope EvidenceSubject)
        (ys : List (Envelope EvidenceSubject))
        → select (is_of_class r.evidence_class) es ≡ of_class
        → select (is_bound b.subject) of_class ≡ bound
        → select (is_fresh p b) bound ≡ fresh
        → fresh ≡ y ∷ ys
        → Some (Fresh r) es
    Some-Fresh of_class bound fresh y ys ec eb ef left =
        let in_bound = selected (λ x. Unit) (is_fresh p b) bound (rw (ef, left) (inl tt)) in
        let in_class =
          selected (λ x. (is_fresh p b x ≡ true) × Unit) (is_bound b.subject) of_class
            (rw eb in_bound) in
        Some-map _ (Fresh r) es (λ x k. ((k.0, k.1.0), k.1.1.0))
          (selected (λ x. (is_bound b.subject x ≡ true) × ((is_fresh p b x ≡ true) × Unit))
            (is_of_class r.evidence_class) es (rw ec in_class))

    chosen :
        (of_class bound fresh good : List (Envelope EvidenceSubject))
        → select (is_of_class r.evidence_class) es ≡ of_class
        → select (is_bound b.subject) of_class ≡ bound
        → select (is_fresh p b) bound ≡ fresh
        → select (is_consistent r.expected_payload_sha256) fresh ≡ good
        → {res : Result FailureClassification (Envelope EvidenceSubject)}
        → Gates of_class bound fresh good res
        → Judged r res
    chosen of_class bound fresh good ec eb ef eg (no_class e) =
        missing (emptied (is_of_class r.evidence_class) es (ec ∙ e))
    chosen of_class bound fresh good ec eb ef eg (no_bound y ys left e) =
        mismatched (Some-OfClass of_class y ys ec left) (
          All-map _ (λ x. Bound r x → ⊥) (λ x h k. h k.0 k.1) es
            (unselected (λ x. is_bound b.subject x ≡ true → ⊥) (is_of_class r.evidence_class) es
              (rw ec (emptied (is_bound b.subject) of_class (eb ∙ e)))))
    chosen of_class bound fresh good ec eb ef eg (no_fresh y ys left e) =
        stale (Some-Bound of_class bound y ys ec eb left) (
          All-map _ (λ x. Fresh r x → ⊥) (λ x h k. h k.0.0 k.0.1 k.1) es
            (unselected (λ x. is_bound b.subject x ≡ true → is_fresh p b x ≡ true → ⊥)
              (is_of_class r.evidence_class) es
              (rw ec (
                unselected (λ x. is_fresh p b x ≡ true → ⊥) (is_bound b.subject) of_class
                  (rw eb (emptied (is_fresh p b) bound (ef ∙ e)))))))
    chosen of_class bound fresh good ec eb ef eg (no_good y ys left e) =
        inconsistent (Some-Fresh of_class bound fresh y ys ec eb ef left) (
          All-map _ (λ x. Supports r x → ⊥) (λ x h k. h k.0.0.0 k.0.0.1 k.0.1 k.1) es
            (unselected
              (λ x.
                is_bound b.subject x ≡ true
                → is_fresh p b x ≡ true
                → is_consistent r.expected_payload_sha256 x ≡ true
                → ⊥)
              (is_of_class r.evidence_class) es
              (rw ec (
                unselected
                  (λ x.
                    is_fresh p b x ≡ true → is_consistent r.expected_payload_sha256 x ≡ true → ⊥)
                  (is_bound b.subject) of_class
                  (rw eb (
                    unselected (λ x. is_consistent r.expected_payload_sha256 x ≡ true → ⊥)
                      (is_fresh p b) bound
                      (rw ef
                        (emptied (is_consistent r.expected_payload_sha256) fresh (eg ∙ e)))))))))
    chosen of_class bound fresh good ec eb ef eg (one e rest eq) =
        let start : Some (λ x. x ≡ e) good = rw eq (inl refl) in
        let is_good = is_consistent r.expected_payload_sha256 in
        let in_fresh = selected (λ x. x ≡ e) is_good fresh (rw eg start) in
        let in_bound =
          selected (λ x. (is_good x ≡ true) × (x ≡ e)) (is_fresh p b) bound (rw ef in_fresh) in
        let in_class =
          selected (λ x. (is_fresh p b x ≡ true) × ((is_good x ≡ true) × (x ≡ e)))
            (is_bound b.subject) of_class (rw eb in_bound) in
        let in_all =
          selected
            (λ x.
              (is_bound b.subject x ≡ true)
              × ((is_fresh p b x ≡ true) × ((is_good x ≡ true) × (x ≡ e))))
            (is_of_class r.evidence_class) es (rw ec in_class) in
        supported e (
          Some-map _ (λ x. (x ≡ e) × Supports r x) es
            (λ x k. (k.1.1.1.1, (((k.0, k.1.0), k.1.1.0), k.1.1.1.0))) in_all)

    consume-Judged : Judged r (consume p b es r)
    unfolding consume
    consume-Judged = chosen _ _ _ _ refl refl refl refl (gated _ _ _ _)

  -- Each requirement and the envelope that it consumes.
  pub data Consumed : List EvidenceRequirement → List (Envelope EvidenceSubject) → Type 0 where
    nothing : Consumed [] []
    next :
        {rs : List EvidenceRequirement} {cs : List (Envelope EvidenceSubject)}
        (r : EvidenceRequirement) (e : Envelope EvidenceSubject)
        → Some (λ x. (x ≡ e) × Supports r x) es
        → Consumed rs cs
        → Consumed (r ∷ rs) (e ∷ cs)

  -- What the policy makes of its requirements, one after the other.
  pub data Evaluated
      : List EvidenceRequirement
        → Result FailureClassification (List (Envelope EvidenceSubject))
        → Type 0 where
    satisfied :
        {rs : List EvidenceRequirement} {cs : List (Envelope EvidenceSubject)}
        → Consumed rs cs
        → Evaluated rs (ok cs)
    failed :
        {rs : List EvidenceRequirement} {cs : List (Envelope EvidenceSubject)}
        (r : EvidenceRequirement) (later : List EvidenceRequirement) (c : FailureClassification)
        → Consumed rs cs
        → Judged r (err c)
        → Evaluated (rs ++ r ∷ later) (err c)

  later-Evaluated :
      (r : EvidenceRequirement) (rs : List EvidenceRequirement) (e : Envelope EvidenceSubject)
      (res : Result FailureClassification (List (Envelope EvidenceSubject)))
      → Some (λ x. (x ≡ e) × Supports r x) es
      → Evaluated rs res
      → Evaluated (r ∷ rs) (res >>= λ cs. ok (e ∷ cs))
  later-Evaluated r _ e _ s (satisfied cs) = satisfied (next r e s cs)
  later-Evaluated r _ e _ s (failed q later c cs j) = failed q later c (next r e s cs) j

  first-Evaluated :
      (r : EvidenceRequirement) (rs : List EvidenceRequirement)
      (now : Result FailureClassification (Envelope EvidenceSubject))
      (res : Result FailureClassification (List (Envelope EvidenceSubject)))
      → Judged r now
      → Evaluated rs res
      → Evaluated (r ∷ rs) (now >>= λ e. res >>= λ cs. ok (e ∷ cs))
  first-Evaluated r rs _ res (supported e s) v = later-Evaluated r rs e res s v
  first-Evaluated r rs _ res (missing h) v = failed r rs _ nothing (missing h)
  first-Evaluated r rs _ res (mismatched s h) v = failed r rs _ nothing (mismatched s h)
  first-Evaluated r rs _ res (stale s h) v = failed r rs _ nothing (stale s h)
  first-Evaluated r rs _ res (inconsistent s h) v = failed r rs _ nothing (inconsistent s h)

  consume_all-Evaluated : (rs : List EvidenceRequirement) → Evaluated rs (consume_all p b es rs)
  unfolding consume_all
  consume_all-Evaluated [] = satisfied nothing
  consume_all-Evaluated (r ∷ rs) =
      first-Evaluated r rs _ _ (consume-Judged r) (consume_all-Evaluated rs)

  -- Each requirement in turn consumes an envelope of the collection that is of its authoritative
  -- class, of the same task and run, fresh and consistent with the pinned digest; or the policy
  -- fails at the first requirement that none supports, with the first gate that no envelope passes,
  -- where some envelope passed all the gates before it.
  pub evaluate-Evaluated : Evaluated p.required (evaluate_evidence_policy p es b)
  unfolding evaluate_evidence_policy
  evaluate-Evaluated = consume_all-Evaluated p.required
