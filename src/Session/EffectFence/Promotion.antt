-- ===== src/Session/EffectFence/Promotion.antt =====
-- When `speculate` promotes a shadow.
use rote.Prelude.{
  ◌+◌, ◌<◌, Option, some, none, Bool, true, false, map, ◌≡◌, ◌↔◌, refl, ap, inl, inr, arith,
  same_iff, String-discrete, ok, Option-cases,
}
use rote.Action.SpeculationFence.{
  SpeculationClass-discrete, classify_speculation, may_speculate, Verdict,
}
use rote.Session.EffectFence.Entry.{
  IsFenced, Start, refusal, call, IsPermitted, start-Start, not_permitted,
}
use rote.Session.EffectFence.{
  FencedClass, read, nav, class_of, Policy, SessionScope, Request, Receipt, Speculator, Failure,
  Started, dispatched, Answer, failed, answered, Outcome, Host, same_scope, receipt_failure,
  answer_failure, settle, close, promote, start, speculate, finish_promote, finish_settle,
  finish_start, fenced_class, fence, dispatch,
}

-- The receipt names the state that the request was made for, and the predicted observation.
pub record IsExact (q : Request) (r : Receipt) : Type 0 where
  pub epoch : q.shadow_epoch ≡ r.shadow_epoch
  pub document : q.document_generation ≡ r.document_generation
  pub context : q.context_generation ≡ r.context_generation
  pub environment : q.scope.environment_digest ≡ r.scope.environment_digest
  pub principal : q.scope.principal_digest ≡ r.scope.principal_digest
  pub binding : q.scope.binding_digest ≡ r.scope.binding_digest
  pub fingerprint : q.fingerprint_digest ≡ r.fingerprint_digest
  pub contract : q.action_contract_digest ≡ r.action_contract_digest
  pub plan : q.verification_plan_digest ≡ r.verification_plan_digest
  pub predicted : r.observation_digest ≡ q.prediction_digest

same_scope_iff :
    (l r : SessionScope)
    → (same_scope l r ≡ true) ↔ (
        (l.environment_digest ≡ r.environment_digest)
        × (l.principal_digest ≡ r.principal_digest)
        × (l.binding_digest ≡ r.binding_digest))
unfolding same_scope
same_scope_iff l r = (
  λ h. ground (
    arith,
    same_iff String-discrete l.environment_digest r.environment_digest,
    same_iff String-discrete l.principal_digest r.principal_digest,
    same_iff String-discrete l.binding_digest r.binding_digest,
  ),
  λ h. ground (
    arith,
    same_iff String-discrete l.environment_digest r.environment_digest,
    same_iff String-discrete l.principal_digest r.principal_digest,
    same_iff String-discrete l.binding_digest r.binding_digest,
  ),
)

IsExact-iff :
    {O : Type 0} (q : Request) (o : O) (r : Receipt)
    → (answer_failure q (answered o (some r)) ≡ none) ↔ IsExact q r
unfolding answer_failure receipt_failure
IsExact-iff q o r = (
  λ h.
      let s : same_scope q.scope r.scope ≡ true = ground arith in
      let (e, p, b) = (same_scope_iff q.scope r.scope).0 s in
      record {
        epoch = ground arith;
        document = ground arith;
        context = ground arith;
        environment = e;
        principal = p;
        binding = b;
        fingerprint =
            ground (arith, same_iff String-discrete q.fingerprint_digest r.fingerprint_digest);
        contract =
            ground
              (arith, same_iff String-discrete q.action_contract_digest r.action_contract_digest);
        plan =
            ground (
              arith,
              same_iff String-discrete q.verification_plan_digest r.verification_plan_digest,
            );
        predicted =
            ground (arith, same_iff String-discrete r.observation_digest q.prediction_digest);
      },
  λ h. ground (
    arith,
    (same_scope_iff q.scope r.scope).1 (h.environment, h.principal, h.binding),
    same_iff String-discrete q.fingerprint_digest r.fingerprint_digest,
    same_iff String-discrete q.action_contract_digest r.action_contract_digest,
    same_iff String-discrete q.verification_plan_digest r.verification_plan_digest,
    same_iff String-discrete r.observation_digest q.prediction_digest,
  ),
)

-- What has to hold for the observation `o` to be promoted.
pub record Promotes {O : Type 0} (h : Host O) (p : Policy) (input : Option Request) (s : Speculator)
    (o : O) : Type 0 where
  pub request : Request
  pub class : FencedClass
  pub receipt : Receipt
  pub valid : input ≡ some request
  pub fenced : IsFenced (request, class)
  pub permitted : IsPermitted p class
  pub dispatches_left : s.dispatches < p.max_dispatches
  pub room : s.in_flight < p.max_in_flight
  pub executed : h.execute request.shadow_id class ≡ answered o (some receipt)
  pub exact : IsExact request receipt
  pub accepted : h.promote_shadow request.shadow_id ≡ true

settle-eq :
    {O : Type 0} (q : Request) (a : Answer O) (s : Speculator)
    → (answer_failure q a ≡ none)
    → settle q a s ≡ (none, s)
unfolding settle
settle-eq q a s e = rw (e, settle) refl

settle-failure :
    {O : Type 0} (q : Request) (a : Answer O) (s : Speculator) (f : Failure)
    → (answer_failure q a ≡ some f)
    → settle q a s ≡ (some f, close q f s)
unfolding settle
settle-failure q a s f e = rw (e, settle) refl

-- Behind an exact receipt the promotion callback decides.
finish_promote_sound :
    {O : Type 0} (x o : O) (q : Request) (c : FencedClass) (b : Bool) (s : Speculator)
    → (finish_promote x (promote q c b s)).0 ≡ ok (Outcome.promoted o)
    → (x ≡ o) × (b ≡ true)
unfolding finish_promote promote
finish_promote_sound x o q c true s e = (cc, refl)
finish_promote_sound x o q c false s e = cc

-- What an answer has to be for a promotion.
abbrev Answers : {O : Type 0} → Host O → Request → Answer O → O → Type 0
Answers h q a o =
    (r : Receipt) × (a ≡ answered o (some r)) × IsExact q r × (h.promote_shadow q.shadow_id ≡ true)

answered_sound :
    {O : Type 0} (h : Host O) (q : Request) (c : FencedClass) (x : O) (r : Receipt) (s : Speculator)
    (o : O)
    → (finish_settle h q c (answered x (some r)) (settle q (answered x (some r)) s)).0
      ≡ ok (Outcome.promoted o)
    → Answers h q (answered x (some r)) o
unfolding finish_settle
answered_sound h q c x r s o e =
    let a = answered x (some r) in
    elim (Option-cases (answer_failure q a)) [
      | inl fits ↦
          let (same_o, accepted) =
            finish_promote_sound x o q c _ s (rw (settle-eq q a s fits) at e) in
          (r, ap (λ y. answered y (some r)) same_o, (IsExact-iff q x r).0 fits, accepted)
      | inr (f, fails) ↦ let e' = rw (settle-failure q a s f fails) at e in cc e'
    ]

finish_settle_sound :
    {O : Type 0} (h : Host O) (q : Request) (c : FencedClass) (a : Answer O) (s : Speculator)
    (o : O)
    → (finish_settle h q c a (settle q a s)).0 ≡ ok (Outcome.promoted o)
    → Answers h q a o
unfolding finish_settle settle answer_failure
finish_settle_sound h q c failed s o e = cc
finish_settle_sound h q c (answered x none) s o e = cc
finish_settle_sound h q c (answered x (some r)) s o e = answered_sound h q c x r s o e

finish_start_sound :
    {O : Type 0} (h : Host O) (p : Policy) (input : Option Request) (s : Speculator) (o : O)
    (r : Started × Speculator)
    → Start p input s r
    → (finish_start h r).0 ≡ ok (Outcome.promoted o)
    → Promotes h p input s o
unfolding finish_start
finish_start_sound h p input s o r (refusal f src id er) e = let e' = rw er at e in cc e'
finish_start_sound h p input s o r (call q c given fenced permitted d i er) e =
    let (rc, executed, exact, accepted) = finish_settle_sound h q c _ _ o (rw er at e) in
    record {
      request = q;
      class = c;
      receipt = rc;
      valid = given;
      fenced = fenced;
      permitted = permitted;
      dispatches_left = d;
      room = i;
      executed = executed;
      exact = exact;
      accepted = accepted;
    }

speculate_sound :
    {O : Type 0} (h : Host O) (p : Policy) (input : Option Request) (s : Speculator) (o : O)
    → (speculate h p input s).0 ≡ ok (Outcome.promoted o)
    → Promotes h p input s o
speculate_sound h p input s o e =
    finish_start_sound h p input s o (start p input s) (start-Start p input s)
      (unfold speculate in e)

fenced_class_of : (c : FencedClass) → fenced_class (class_of c) ≡ some c
fenced_class_of read = refl
fenced_class_of nav = refl

may_speculate_of :
    (p : Policy) (v : Verdict) (c : FencedClass)
    → v.class ≡ class_of c
    → IsPermitted p c
    → may_speculate v (map class_of p.permit) ≡ ok true
unfolding may_speculate SpeculationClass-discrete
may_speculate_of p v read e h = ground (arith, not_permitted p.permit)
may_speculate_of p v nav e h = ground (arith, not_permitted p.permit)

-- The state in which a dispatched call waits.
abbrev with_call : Speculator → Speculator
with_call s = record s { dispatches = s.dispatches + 1; in_flight = s.in_flight + 1 }

start-call :
    (p : Policy) (q : Request) (c : FencedClass) (s : Speculator)
    → IsFenced (q, c)
    → IsPermitted p c
    → s.dispatches < p.max_dispatches
    → s.in_flight < p.max_in_flight
    → start p (some q) s ≡ (dispatched q c, with_call s)
unfolding start fence dispatch
start-call p q c s fenced permitted d i =
    rw (may_speculate_of p (classify_speculation q.action) c fenced.1 permitted)
      (rw fenced.1 (rw (fenced_class_of c) (ground arith)))

speculate_complete :
    {O : Type 0} (h : Host O) (p : Policy) (input : Option Request) (s : Speculator) (o : O)
    → Promotes h p input s o
    → (speculate h p input s).0 ≡ ok (Outcome.promoted o)
unfolding speculate finish_start finish_settle promote
speculate_complete h p input s o c = rw c.valid (
    rw (start-call p c.request c.class s c.fenced c.permitted c.dispatches_left c.room) (
      rw c.executed (
        rw
          (settle-eq c.request (answered o (some c.receipt)) (with_call s)
            ((IsExact-iff c.request o c.receipt).1 c.exact))
          (rw c.accepted refl))))

-- A call of `speculate` promotes an observation exactly when the request is valid and harmless, the
-- policy permits its class, both budgets have room, the executor answers with that observation and a
-- receipt that is exact and names the predicted digest, and the promotion callback returns.
pub speculate_iff :
    {O : Type 0} (h : Host O) (p : Policy) (input : Option Request) (s : Speculator) (o : O)
    → ((speculate h p input s).0 ≡ ok (Outcome.promoted o)) ↔ Promotes h p input s o
speculate_iff h p input s o = (speculate_sound h p input s o, speculate_complete h p input s o)
