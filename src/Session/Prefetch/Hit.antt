-- ===== src/Session/Prefetch/Hit.antt =====
-- packages/session/src/shadow-prefetch.ts: what a hit means, and what is recorded.
use rote.Prelude.{
  Option, some, none, true, same, same_iff, String-discrete, ◌≡◌, ◌↔◌, refl, sym, ap, subst, arith,
  Bool-cases, Option-cases, inl, inr,
}
use rote.Action.SpeculationFence.{
  SpeculationClass-discrete, pure_read, SpeculationInput, classify_speculation, may_speculate,
  external_effect, local_nav, local_write, SpeculationClass, Reason,
}
use rote.Session.EffectFence.{same_scope}
use rote.Session.Prefetch.{
  PrefetchRequest, RawInput, ShadowObservation, Coordinator, hit_with, missed, discarded,
  is_pure_read, permits_read, same_binding, compare_receipt, finish_prefetch, begin_prefetch,
  prefetch, invalid_request, effect_boundary, stale_context, scope_mismatch, dispatch_failed,
}

-- The executor answered for what was asked, with what was predicted.
pub record IsExact (q : PrefetchRequest) (r : ShadowObservation) : Type 0 where
  pub epoch : r.shadow_epoch ≡ q.shadow_epoch
  pub document : r.document_generation ≡ q.document_generation
  pub context : r.context_generation ≡ q.context_generation
  pub environment : r.scope.environment_digest ≡ q.scope.environment_digest
  pub principal : r.scope.principal_digest ≡ q.scope.principal_digest
  pub binding : r.scope.binding_digest ≡ q.scope.binding_digest
  pub predicted : r.observation_digest ≡ q.prediction_digest

same_binding-IsExact :
    (q : PrefetchRequest) (r : ShadowObservation)
    → same_binding q r ≡ true
    → r.observation_digest ≡ q.prediction_digest
    → IsExact q r
unfolding same_binding same_scope
same_binding-IsExact q r e d = record {
  epoch = ground (arith, e);
  document = ground (arith, e);
  context = ground (arith, e);
  environment =
      ground
        (arith, e, same_iff String-discrete q.scope.environment_digest r.scope.environment_digest);
  principal =
      ground (arith, e, same_iff String-discrete q.scope.principal_digest r.scope.principal_digest);
  binding =
      ground (arith, e, same_iff String-discrete q.scope.binding_digest r.scope.binding_digest);
  predicted = d;
}

permits_read-class :
    (c : SpeculationClass) (r : Reason)
    → permits_read (record { class = c; reason = r }) ≡ true
    → c ≡ pure_read
unfolding permits_read may_speculate SpeculationClass-discrete
permits_read-class pure_read r e = refl
permits_read-class local_nav r e = absurd cc
permits_read-class local_write r e = absurd cc
permits_read-class external_effect r e = absurd cc

read_permitted : (r : Reason) → permits_read (record { class = pure_read; reason = r }) ≡ true
unfolding permits_read may_speculate SpeculationClass-discrete
read_permitted r = refl

is_pure_read-class :
    (i : SpeculationInput) → is_pure_read i ≡ true → (classify_speculation i).class ≡ pure_read
unfolding is_pure_read
is_pure_read-class i e = let v = classify_speculation i in permits_read-class v.class v.reason e

class-is_pure_read :
    (i : SpeculationInput) → (classify_speculation i).class ≡ pure_read → is_pure_read i ≡ true
unfolding is_pure_read
class-is_pure_read i e =
    let v = classify_speculation i in
    subst (λ c. permits_read (record { class = c; reason = v.reason }) ≡ true) (sym e)
      (read_permitted v.reason)

IsExact-same_binding :
    (q : PrefetchRequest) (r : ShadowObservation) → IsExact q r → same_binding q r ≡ true
unfolding same_binding same_scope
IsExact-same_binding q r x = ground (
  arith,
  x.epoch,
  x.document,
  x.context,
  (same_iff String-discrete q.scope.environment_digest r.scope.environment_digest).1
      (sym x.environment),
  (same_iff String-discrete q.scope.principal_digest r.scope.principal_digest).1 (sym x.principal),
  (same_iff String-discrete q.scope.binding_digest r.scope.binding_digest).1 (sym x.binding),
)

module _ {O : Type 0} where
  compare_receipt-hit :
      (q : PrefetchRequest) (o u : O) (r : ShadowObservation) (c : Coordinator)
      → (compare_receipt q o r c).0 ≡ hit_with u
      → (o ≡ u) × IsExact q r
  unfolding compare_receipt
  compare_receipt-hit q o u r c e = elim (Bool-cases (same_binding q r)) [
    | inr b ↦ let other : discarded scope_mismatch ≡ hit_with u = rw b at e in absurd cc
    | inl b ↦ elim (Bool-cases (same String-discrete r.observation_digest q.prediction_digest)) [
      | inr d ↦ let other : missed ≡ hit_with u = rw (b, d) at e in absurd cc
      | inl d ↦
          let same_outcome : hit_with o ≡ hit_with u = rw (b, d) at e in
          (
            cc,
            same_binding-IsExact q r b
                ((same_iff String-discrete r.observation_digest q.prediction_digest).0 d),
          )
    ]
  ]

  -- What stands behind a hit.
  pub record IsHit (executor : PrefetchRequest → Option (O × Option ShadowObservation))
      (i : RawInput) (u : O) : Type 0 where
    pub request : PrefetchRequest
    pub valid : i.parsed ≡ some request
    pub reads_only : (classify_speculation request.action).class ≡ pure_read
    pub receipt : ShadowObservation
    pub answered : executor request ≡ some (u, some receipt)
    pub exact : IsExact request receipt

  finish_prefetch-hit :
      (q : PrefetchRequest) (a : Option (O × Option ShadowObservation)) (c : Coordinator) (u : O)
      → (finish_prefetch q a c).0 ≡ hit_with u
      → (r : ShadowObservation) × (a ≡ some (u, some r)) × IsExact q r
  unfolding finish_prefetch
  finish_prefetch-hit q none c u e =
      let other : discarded dispatch_failed ≡ hit_with u = e in absurd cc
  finish_prefetch-hit q (some (o, none)) c u e =
      let other : discarded stale_context ≡ hit_with u = e in absurd cc
  finish_prefetch-hit q (some (o, some r)) c u e =
      let (same_observation, exact) = compare_receipt-hit q o u r c e in
      (r, ap (λ x. some (x, some r)) same_observation, exact)

  IsHit-means :
      (executor : PrefetchRequest → Option (O × Option ShadowObservation)) (i : RawInput)
      (c : Coordinator) (u : O)
      → (prefetch executor i c).0 ≡ hit_with u
      → IsHit executor i u
  unfolding prefetch begin_prefetch
  IsHit-means executor i c u e = elim (Option-cases (i.parsed)) [
    | inl f ↦
        let other : discarded invalid_request ≡ hit_with u =
          rw (f, prefetch, begin_prefetch) at e in
        absurd cc
    | inr (q, v) ↦ elim (Bool-cases (is_pure_read q.action)) [
      | inr b ↦
          let other : discarded effect_boundary ≡ hit_with u =
            rw (v, b, prefetch, begin_prefetch) at e in
          absurd cc
      | inl b ↦
          let (r, answered, exact) =
            finish_prefetch-hit q (executor q) _ u (rw (v, b, prefetch, begin_prefetch) at e) in
          record {
            request = q;
            valid = v;
            reads_only = is_pure_read-class q.action b;
            receipt = r;
            answered = answered;
            exact = exact;
          }
    ]
  ]

  IsExact-hits :
      (q : PrefetchRequest) (u : O) (r : ShadowObservation) (c : Coordinator)
      → IsExact q r
      → (compare_receipt q u r c).0 ≡ hit_with u
  unfolding compare_receipt
  IsExact-hits q u r c x =
      rw
        (
          IsExact-same_binding q r x,
          (same_iff String-discrete r.observation_digest q.prediction_digest).1 x.predicted,
        )
        refl

  hits :
      (executor : PrefetchRequest → Option (O × Option ShadowObservation)) (i : RawInput)
      (c : Coordinator) (u : O)
      → IsHit executor i u
      → (prefetch executor i c).0 ≡ hit_with u
  unfolding prefetch begin_prefetch finish_prefetch
  hits executor i c u h =
      rw
        (
          h.valid,
          class-is_pure_read h.request.action h.reads_only,
          h.answered,
          prefetch,
          begin_prefetch,
        )
        (IsExact-hits h.request u h.receipt _ h.exact)

  -- A call gives a hit with an observation exactly when the input is a valid request of a pure read, and
  -- the executor answers with that observation and a valid receipt that names the same epoch,
  -- generations and scope and the predicted digest.
  pub prefetch_iff :
      (executor : PrefetchRequest → Option (O × Option ShadowObservation)) (i : RawInput)
      (c : Coordinator) (u : O)
      → ((prefetch executor i c).0 ≡ hit_with u) ↔ IsHit executor i u
  prefetch_iff executor i c u = (IsHit-means executor i c u, hits executor i c u)
