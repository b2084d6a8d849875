-- ===== src/Session/Prefetch.antt =====
-- packages/session/src/shadow-prefetch.ts: `ShadowPrefetchCoordinator`. `prefetch` awaits the executor
-- once, and is cut there: other calls record telemetry in between. An input is given by what its
-- schema makes of it and, where that rejects it, by the two fields that are read from it all the same.
pub mod Hit
mod Tests
use Prim.Native.Char.{Char, code}
use rote.Prelude.{
  ℕ, zero, suc, ◌+◌, ◌-◌, leb, ltb, String, Option, some, none, Bool, true, false, not, ◌&&◌, List,
  [], ◌∷◌, ◌++◌, same, same_iff, ◌==◌, ==_iff, String-discrete, if◌then◌else◌, Result, ok, err, ◌≡◌,
  ◌↔◌, refl, sym, ap, ◌∙◌, arith, Bool-cases, Option-cases, inl, inr,
}
use rote.Action.SpeculationFence.{
  SpeculationClass, SpeculationClass-discrete, pure_read, SpeculationInput, Verdict, PolicyError,
  classify_speculation, may_speculate,
}
use rote.Session.EffectFence.{SessionScope, Source, heuristic, same_scope}

pub record PrefetchRequest : Type 0 where
  pub session_id : String
  pub scope : SessionScope
  pub shadow_epoch : ℕ
  pub document_generation : ℕ
  pub context_generation : ℕ
  pub prediction_digest : String
  pub source : Source
  pub action : SpeculationInput

pub record RawInput : Type 0 where
  pub parsed : Option PrefetchRequest
  pub source : Option Source
  pub session_id : Option String

pub record ShadowObservation : Type 0 where
  pub observation_digest : String
  pub scope : SessionScope
  pub shadow_epoch : ℕ
  pub document_generation : ℕ
  pub context_generation : ℕ

pub data DiscardReason : Type 0 where
  invalid_request effect_boundary stale_context scope_mismatch digest_mismatch dispatch_failed :
      DiscardReason

-- `action_class` stands beside a hit only.
pub data TelemetryKind : Type 0 where
  hit miss : TelemetryKind
  discard : DiscardReason → TelemetryKind

pub record Telemetry : Type 0 where
  pub seq : ℕ
  pub kind : TelemetryKind
  pub source : Source
  pub session_id : String

pub record Coordinator : Type 0 where
  pub telemetry : List Telemetry
  pub next_seq : ℕ

pub data PrefetchOutcome (O : Type 0) : Type 0 where
  hit_with : O → PrefetchOutcome O
  missed : PrefetchOutcome O
  discarded : DiscardReason → PrefetchOutcome O

unfoldable pub record_telemetry : TelemetryKind → Source → String → Coordinator → Coordinator
record_telemetry k src id c = record {
  telemetry =
      c.telemetry ++ record { seq = c.next_seq; kind = k; source = src; session_id = id } ∷ [];
  next_seq = c.next_seq + 1;
}

abbrev pub source_of : Option Source → Source
source_of none = heuristic
source_of (some s) = s

-- The UTF-16 units of a character.
abbrev pub units : Char → ℕ
units c = if ltb (code c) 65536 then 1 else 2

-- `slice(0, n)` counts UTF-16 units. Half a character, where the limit falls into one, is left out.
abbrev pub take : ℕ → String → String
take n String.[] = String.[]
take n (String.◌∷◌ c s) =
    let rest = take (n - units c) s in if leb (units c) n then String.◌∷◌ c rest else String.[]

abbrev pub or_unknown : String → String
or_unknown String.[] = "unknown"
or_unknown (String.◌∷◌ c s) = String.◌∷◌ c s

abbrev pub session_of : Option String → String
session_of none = "unknown"
session_of (some s) = or_unknown (take 128 s)

-- The fence with its default policy, which cannot be misconfigured.
unfoldable pub permits_read : Verdict → Bool
unfolding may_speculate
permits_read v = elim (may_speculate v (pure_read ∷ [])) [ ok b ↦ b | err e ↦ false ]

unfoldable pub is_pure_read : SpeculationInput → Bool
unfolding permits_read classify_speculation
is_pure_read i = permits_read (classify_speculation i)

unfoldable pub same_binding : PrefetchRequest → ShadowObservation → Bool
unfolding same_scope
same_binding q r =
    ((q.shadow_epoch == r.shadow_epoch) && (q.document_generation == r.document_generation))
    && ((q.context_generation == r.context_generation) && same_scope q.scope r.scope)

module _ {O : Type 0} where
  -- `this.record(…)` and the outcome that goes with it.
  abbrev pub conclude :
      TelemetryKind
      → PrefetchOutcome O
      → PrefetchRequest
      → Coordinator
      → PrefetchOutcome O × Coordinator
  conclude k out q c = (out, record_telemetry k q.source q.session_id c)

  -- From a receipt that its schema accepts on.
  unfoldable pub compare_receipt :
      PrefetchRequest → O → ShadowObservation → Coordinator → PrefetchOutcome O × Coordinator
  unfolding same_binding record_telemetry
  compare_receipt q o r c =
      if not (same_binding q r)
      then conclude (discard scope_mismatch) (discarded scope_mismatch) q c
      else if not (same String-discrete r.observation_digest q.prediction_digest)
      then conclude miss missed q c
      else conclude hit (hit_with o) q c

  -- From the executor's answer on: `none` is a rejection, or a receipt that is none.
  unfoldable pub finish_prefetch :
      PrefetchRequest
      → Option (O × Option ShadowObservation)
      → Coordinator
      → PrefetchOutcome O × Coordinator
  unfolding compare_receipt record_telemetry
  finish_prefetch q none c = conclude (discard dispatch_failed) (discarded dispatch_failed) q c
  finish_prefetch q (some (o, none)) c =
      conclude (discard stale_context) (discarded stale_context) q c
  finish_prefetch q (some (o, some r)) c = compare_receipt q o r c

-- What `prefetch` does up to the call of the executor.
pub data Begun : Type 0 where
  refused : DiscardReason → Begun
  dispatches : PrefetchRequest → Begun

unfoldable pub begin_prefetch : RawInput → Coordinator → Begun × Coordinator
unfolding is_pure_read record_telemetry
begin_prefetch i c = elim (i.parsed) [
  | none ↦ (
    refused invalid_request,
    record_telemetry (discard invalid_request) (source_of i.source) (session_of i.session_id) c,
  )
  | some q ↦ if is_pure_read q.action then (dispatches q, c) else (
    refused effect_boundary,
    record_telemetry (discard effect_boundary) q.source q.session_id c,
  )
]

-- A call with nothing in between.
unfoldable pub prefetch :
    {O : Type 0}
    → (PrefetchRequest → Option (O × Option ShadowObservation))
    → RawInput
    → Coordinator
    → PrefetchOutcome O × Coordinator
unfolding begin_prefetch finish_prefetch
prefetch executor i c =
    let (b, d) = begin_prefetch i c in
    elim b [ refused r ↦ (discarded r, d) | dispatches q ↦ finish_prefetch q (executor q) d ]
