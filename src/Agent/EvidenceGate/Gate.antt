-- ===== src/Agent/EvidenceGate/Gate.antt =====
-- packages/agent/src/evidence.ts: what a success of the gated verifier rests on.
use rote.Prelude.{
  String, Option, some, ◌++◌, map, ◌>>=◌, ap, none, Bool, true, false, List, [], ◌∷◌, Result, ok,
  bind_ok, ok_injective, ◌≡◌, refl, sym, subst,
}
use rote.Core.Evidence.{
  EvidenceSubject, Envelope, EvidenceRequirement, FailureClassification, evaluate_evidence_policy,
}
use rote.Core.Evidence.Satisfied.{Consumed, Evaluated, satisfied, failed, evaluate-Evaluated}
use rote.Agent.EvidenceGate.{
  Adapter, Collection, parse_envelopes, collect_from, Verification, GateOptions, collect_all,
  binding_of, verification_of, verify_evidence, gate, verify,
}

-- Every adapter answered, and only with envelopes that their schema accepts; what they answered, one
-- after the other.
pub data Answered : List Adapter → List (Envelope EvidenceSubject) → Type 0 where
  no_adapters : Answered [] []
  answered :
      {adapters : List Adapter} {rest : List (Envelope EvidenceSubject)} (a : Adapter)
      (es : List (Envelope EvidenceSubject))
      → a.collected ≡ some (map some es)
      → Answered adapters rest
      → Answered (a ∷ adapters) (es ++ rest)

parse_envelopes_lem :
    (id : String) (xs : List (Option (Envelope EvidenceSubject)))
    (es : List (Envelope EvidenceSubject))
    → parse_envelopes id xs ≡ ok es
    → xs ≡ map some es
unfolding parse_envelopes
parse_envelopes_lem id [] es e = ap (map some) (ok_injective _ _ e)
parse_envelopes_lem id (none ∷ xs) es e = absurd cc
parse_envelopes_lem id (some x ∷ xs) es e =
    let (rest, parsed, joined) = bind_ok (parse_envelopes id xs) (λ rest. ok (x ∷ rest)) es e in
    subst (λ ys. some x ∷ xs ≡ map some ys) (ok_injective _ _ joined)
      (ap (λ ys. some x ∷ ys) (parse_envelopes_lem id xs rest parsed))

collect_from_lem :
    (a : Adapter) (c : Collection) (es : List (Envelope EvidenceSubject))
    → collect_from a c ≡ ok es
    → c ≡ some (map some es)
unfolding collect_from
collect_from_lem a none es e = absurd cc
collect_from_lem a (some xs) es e = ap (λ ys. some ys) (parse_envelopes_lem a.id xs es e)

collect_all-Answered :
    (adapters : List Adapter) (es : List (Envelope EvidenceSubject))
    → collect_all adapters ≡ ok es
    → Answered adapters es
unfolding collect_all
collect_all-Answered [] es e = subst (Answered []) (ok_injective _ _ e) no_adapters
collect_all-Answered (a ∷ adapters) es e =
    let (own, own_collected, later) =
      bind_ok (collect_from a a.collected)
        (λ own. collect_all adapters >>= λ rest. ok (own ++ rest)) es e in
    let (rest, rest_collected, joined) =
      bind_ok (collect_all adapters) (λ rest. ok (own ++ rest)) es later in
    subst (Answered (a ∷ adapters)) (ok_injective _ _ joined) (
      answered a own (collect_from_lem a a.collected own own_collected)
        (collect_all-Answered adapters rest rest_collected))

-- A verification that reports success.
pub data Warranted (o : GateOptions) (base : Verification) : Verification → Type 0 where
  unasked : o.policy.required ≡ [] → Warranted o base base
  attested :
      (es cs : List (Envelope EvidenceSubject))
      → Answered o.adapters es
      → Consumed o.policy (binding_of o) es o.policy.required cs
      → Warranted o base
          (record { success = true; evidence_classification = none; consumed_evidence = cs })

Evaluated-Warranted :
    (o : GateOptions) (base : Verification) (es : List (Envelope EvidenceSubject))
    (rs : List EvidenceRequirement)
    (v : Result FailureClassification (List (Envelope EvidenceSubject)))
    → rs ≡ o.policy.required
    → collect_all o.adapters ≡ ok es
    → Evaluated o.policy (binding_of o) es rs v
    → (verification_of v).success ≡ true
    → Warranted o base (verification_of v)
unfolding verification_of
Evaluated-Warranted o base es rs _ er ec (satisfied {cs = cs} c) s =
    attested es cs (collect_all-Answered o.adapters es ec)
      (subst (λ x. Consumed o.policy (binding_of o) es x cs) er c)
Evaluated-Warranted o base es rs _ er ec (failed r later c cs j) s = absurd cc

asked-Warranted :
    (o : GateOptions) (base v : Verification) (rs : List EvidenceRequirement)
    → o.policy.required ≡ rs
    → verify_evidence o base rs ≡ ok v
    → v.success ≡ true
    → Warranted o base v
unfolding verify_evidence
asked-Warranted o base v [] er e s = subst (Warranted o base) (ok_injective base v e) (unasked er)
asked-Warranted o base v (r ∷ rs) er e s =
    let (es, collected, judged) =
      bind_ok (collect_all o.adapters)
        (λ es. ok (verification_of (evaluate_evidence_policy o.policy es (binding_of o)))) v e in
    let same_verification = ok_injective _ v judged in
    subst (Warranted o base) same_verification (
      Evaluated-Warranted o base es o.policy.required _ refl collected
        (evaluate-Evaluated o.policy (binding_of o) es)
        (subst (λ x. x.success ≡ true) (sym same_verification) s))

gate-Warranted :
    (o : GateOptions) (base v : Verification) (b : Bool)
    → base.success ≡ b
    → gate o base b ≡ ok v
    → v.success ≡ true
    → (base.success ≡ true) × Warranted o base v
unfolding gate
gate-Warranted o base v true eb e s = (eb, asked-Warranted o base v o.policy.required refl e s)
gate-Warranted o base v false eb e s =
    let base_success : base.success ≡ true =
      subst (λ x. x.success ≡ true) (sym (ok_injective base v e)) s in
    absurd (cc (eb, base_success))

-- The gated verifier reports success only where the base verifier did, and either the policy
-- requires nothing, or every adapter answered, only with envelopes that their schema accepts, and
-- each requirement consumed an envelope of these answers that supports it.
pub verify-Warranted :
    (o : GateOptions) (base v : Verification)
    → verify o base ≡ ok v
    → v.success ≡ true
    → (base.success ≡ true) × Warranted o base v
verify-Warranted o base v e s = gate-Warranted o base v base.success refl e s
