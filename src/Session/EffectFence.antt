-- ===== src/Session/EffectFence.antt =====
-- packages/session/src/effect-fenced-speculation.ts: one speculated action at a time through the
-- fence. `speculate` is asynchronous, so it is three steps over the object's state: up to the call
-- of the executor (`start`), from its answer to the call of `promoteShadow` (`settle`), and from
-- there to the end (`promote`). Between two of these steps other calls of `speculate` run.
-- Inputs and receipts that the schemas reject are `none`.
pub mod Entry
pub mod Budget
pub mod Promotion
mod Tests
use rote.Prelude.{
  ℕ, suc, ◌-◌, ◌+◌, String, Option, some, none, Bool, true, false, not, ◌&&◌, ◌||◌, List, [], ◌∷◌,
  ◌++◌, map, same, leb, ◌==◌, String-discrete, if◌then◌else◌, Result, ok, err,
}
use rote.Action.SpeculationFence.{
  SpeculationClass, pure_read, local_nav, SpeculationInput, Verdict, PolicyError,
  classify_speculation, may_speculate,
}

-- What a policy may permit.
pub data FencedClass : Type 0 where
  read nav : FencedClass

abbrev pub class_of : FencedClass → SpeculationClass
class_of read = pure_read
class_of nav = local_nav

pub record Policy : Type 0 where
  pub permit : List FencedClass
  pub max_dispatches : ℕ
  pub max_in_flight : ℕ

-- packages/session/src/session-scope.ts
pub record SessionScope : Type 0 where
  pub environment_digest : String
  pub principal_digest : String
  pub binding_digest : String

pub data Source : Type 0 where
  model heuristic replay : Source

pub record Request : Type 0 where
  pub shadow_id : String
  pub scope : SessionScope
  pub shadow_epoch : ℕ
  pub document_generation : ℕ
  pub context_generation : ℕ
  pub fingerprint_digest : String
  pub action_contract_digest : String
  pub verification_plan_digest : String
  pub prediction_digest : String
  pub source : Source
  pub action : SpeculationInput

pub record Receipt : Type 0 where
  pub observation_digest : String
  pub scope : SessionScope
  pub shadow_epoch : ℕ
  pub document_generation : ℕ
  pub context_generation : ℕ
  pub fingerprint_digest : String
  pub action_contract_digest : String
  pub verification_plan_digest : String

pub data Failure : Type 0 where
  invalid_request effect_boundary budget_exhausted dispatch_failed stale_context : Failure
  scope_mismatch fingerprint_mismatch contract_mismatch verification_plan_mismatch : Failure
  prediction_miss promotion_rejected : Failure

-- `kind` with what stands beside it.
pub data EventKind : Type 0 where
  promoted : FencedClass → EventKind
  discarded : Failure → EventKind

pub record Event : Type 0 where
  pub seq : ℕ
  pub kind : EventKind
  pub source : Source
  pub shadow_id : String

-- The object's mutable fields.
pub record Speculator : Type 0 where
  pub events : List Event
  pub next_seq : ℕ
  pub dispatches : ℕ
  pub in_flight : ℕ

unfoldable pub new_speculator : Speculator
new_speculator = record { events = []; next_seq = 0; dispatches = 0; in_flight = 0 }

unfoldable pub record_event : EventKind → Source → String → Speculator → Speculator
record_event k src id s = record s {
  events = s.events ++ record { seq = s.next_seq; kind = k; source = src; shadow_id = id } ∷ [];
  next_seq = s.next_seq + 1;
}

unfoldable pub same_scope : SessionScope → SessionScope → Bool
same_scope l r =
    same String-discrete l.environment_digest r.environment_digest
    && (same String-discrete l.principal_digest r.principal_digest
        && same String-discrete l.binding_digest r.binding_digest)

unfoldable pub receipt_failure : Request → Receipt → Option Failure
unfolding same_scope
receipt_failure q r =
    if not (q.shadow_epoch == r.shadow_epoch)
      || (not (q.document_generation == r.document_generation)
          || not (q.context_generation == r.context_generation))
    then some stale_context
    else if not (same_scope q.scope r.scope)
    then some scope_mismatch
    else if not (same String-discrete q.fingerprint_digest r.fingerprint_digest)
    then some fingerprint_mismatch
    else if not (same String-discrete q.action_contract_digest r.action_contract_digest)
    then some contract_mismatch
    else if not (same String-discrete q.verification_plan_digest r.verification_plan_digest)
    then some verification_plan_mismatch
    else none

-- `verdict.class !== 'pure_read' && verdict.class !== 'local_nav'` is the `none`.
abbrev pub fenced_class : SpeculationClass → Option FencedClass
fenced_class pure_read = some read
fenced_class local_nav = some nav
fenced_class _ = none

-- How the first part of `speculate` ends: a result, a call of the executor, or a thrown error.
pub data Started : Type 0 where
  refused : Failure → Started
  dispatched : Request → FencedClass → Started
  threw : PolicyError → Started

-- `this.discard(…)` before anything is in flight.
refuse : Source → String → Failure → Speculator → Started × Speculator
unfolding record_event
refuse src id f s = (refused f, record_event (discarded f) src id s)

-- From the budget test to the call of the executor.
dispatch : Policy → Request → Speculator → Option FencedClass → Started × Speculator
unfolding refuse
dispatch p q s none = refuse q.source q.shadow_id effect_boundary s
dispatch p q s (some c) =
    if leb p.max_dispatches s.dispatches || leb p.max_in_flight s.in_flight
    then refuse q.source q.shadow_id budget_exhausted s
    else (dispatched q c, record s { dispatches = s.dispatches + 1; in_flight = s.in_flight + 1 })

fence : Policy → Request → Speculator → Verdict → Result PolicyError Bool → Started × Speculator
unfolding dispatch
fence p q s v (ok true) = dispatch p q s (fenced_class v.class)
fence p q s v (ok false) = refuse q.source q.shadow_id effect_boundary s
fence p q s v (err e) = (threw e, s)

unfoldable pub start : Policy → Option Request → Speculator → Started × Speculator
unfolding fence refuse
start p none s = refuse heuristic "unknown" invalid_request s
start p (some q) s =
    let v = classify_speculation q.action in fence p q s v (may_speculate v (map class_of p.permit))

-- What the executor answers; a rejection and the duration cap are both `failed`.
pub data Answer (O : Type 0) : Type 0 where
  failed : Answer O
  answered : O → Option Receipt → Answer O

pub data Outcome (O : Type 0) : Type 0 where
  promoted : O → Outcome O
  discarded : Failure → Outcome O

-- `finally` runs behind the `discard`.
unfoldable pub close : Request → Failure → Speculator → Speculator
unfolding record_event
close q f s =
    let t = record_event (EventKind.discarded f) q.source q.shadow_id s in
    record t { in_flight = t.in_flight - 1 }

-- Which failure an answer has; `none` goes on to the promotion.
unfoldable pub answer_failure : {O : Type 0} → Request → Answer O → Option Failure
unfolding receipt_failure
answer_failure q failed = some dispatch_failed
answer_failure q (answered o none) = some stale_context
answer_failure q (answered o (some r)) = elim (receipt_failure q r) [
  | some f ↦ some f
  | none ↦
      if same String-discrete r.observation_digest q.prediction_digest
      then none
      else some prediction_miss
]

-- `none`: the receipt is exact and `promoteShadow` is called.
unfoldable pub settle : {O : Type 0} → Request → Answer O → Speculator → Option Failure × Speculator
unfolding answer_failure close
settle q a s = elim (answer_failure q a) [ some f ↦ (some f, close q f s) | none ↦ (none, s) ]

-- `accepted` says whether the promotion callback returned.
unfoldable pub promote : Request → FencedClass → Bool → Speculator → Option Failure × Speculator
unfolding close record_event
promote q c true s =
    let t = record_event (EventKind.promoted c) q.source q.shadow_id s in
    (none, record t { in_flight = t.in_flight - 1 })
promote q c false s = (some promotion_rejected, close q promotion_rejected s)

-- The two collaborators, as what they answer: the executor and the promotion callback.
pub record Host (O : Type 0) : Type 0 where
  pub execute : String → FencedClass → Answer O
  pub promote_shadow : String → Bool

finish_promote :
    {O : Type 0} → O → Option Failure × Speculator → Result PolicyError (Outcome O) × Speculator
finish_promote o (none, s) = (ok (Outcome.promoted o), s)
finish_promote o (some f, s) = (ok (Outcome.discarded f), s)

finish_settle :
    {O : Type 0}
    → Host O
    → Request
    → FencedClass
    → Answer O
    → Option Failure × Speculator
    → Result PolicyError (Outcome O) × Speculator
unfolding finish_promote
finish_settle h q c a (some f, s) = (ok (Outcome.discarded f), s)
finish_settle h q c failed (none, s) = (ok (Outcome.discarded dispatch_failed), s)
finish_settle h q c (answered o r) (none, s) =
    finish_promote o (promote q c (h.promote_shadow q.shadow_id) s)

finish_start :
    {O : Type 0} → Host O → Started × Speculator → Result PolicyError (Outcome O) × Speculator
unfolding finish_settle
finish_start h (refused f, s) = (ok (Outcome.discarded f), s)
finish_start h (threw e, s) = (err e, s)
finish_start h (dispatched q c, s) =
    let a = h.execute q.shadow_id c in finish_settle h q c a (settle q a s)

-- `speculate` when nothing else runs between its steps.
unfoldable pub speculate :
    {O : Type 0}
    → Host O
    → Policy
    → Option Request
    → Speculator
    → Result PolicyError (Outcome O) × Speculator
unfolding finish_start
speculate h p input s = finish_start h (start p input s)
