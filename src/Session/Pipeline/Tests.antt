-- ===== src/Session/Pipeline/Tests.antt =====
-- Runs of the pipeline.
use rote.Prelude.{
  ◌≤◌, length, Option, none, some, ℕ, String, List, [], ◌∷◌, ◌≡◌, refl, some, String-discrete,
  false, true, map, arith,
}
use rote.Session.EffectFence.{Outcome}
use rote.Session.Pipeline.Starvation.{run-promotes_le}
use rote.Session.Pipeline.Enqueue.{IsAdmitted, created, enqueued, Filled-IsAdmitted}
use rote.Session.Pipeline.{
  Config, SpeculativeStep, EventKind, queued, started, cancelled, promoted, discarded, Pipeline,
  Run, Round, new_pipeline, enqueue, run,
}

abbrev config : Config
config = record { max_depth = 2; max_concurrency = 1; confidence_threshold = 95; max_steps = 8 }

abbrev step : String → List String → SpeculativeStep ℕ
step id deps = record { step_id = id; depth = 0; confidence = 99; depends_on = deps; request = 0 }

abbrev chain : Pipeline ℕ
chain =
    (enqueue (some (step "b" ("a" ∷ []))) (enqueue (some (step "a" [])) (new_pipeline config)).1).1

abbrev all_hit : ℕ → Round ℕ
all_hit n = record { cancels = false; expired = false; winner = 0; outcome = Outcome.promoted 7 }

abbrev ends : Option (Run ℕ ℕ) → List String × List String
ends none = ([], [])
ends (some r) = (r.promoted, r.discarded)

chain_starves : ends (run 5 all_hit chain) ≡ ("a" ∷ [], "b" ∷ [])
unfolding run enqueue new_pipeline String-discrete
chain_starves = refl

-- A cancel during the wait comes before the call that ended it.
abbrev cancelled_once : ℕ → Round ℕ
cancelled_once n = record {
  cancels = true;
  expired = false;
  winner = 0;
  outcome = Outcome.promoted 7;
}

abbrev kinds : Option (Run ℕ ℕ) → List EventKind
kinds none = []
kinds (some r) = map (λ e. e.kind) r.pipeline.events

cancel_comes_first :
    kinds (run 5 cancelled_once chain)
    ≡ queued ∷ queued ∷ started ∷ cancelled ∷ promoted ∷ discarded ∷ []
unfolding run enqueue new_pipeline String-discrete
cancel_comes_first = refl

run-promotes_le_example : (u : Run ℕ ℕ) × (run 5 all_hit chain ≡ some u) × (length u.promoted ≤ 1)
unfolding enqueue new_pipeline String-discrete
run-promotes_le_example = run-promotes_le 5 all_hit chain refl (omega arith)

Filled-IsAdmitted_example : IsAdmitted chain
Filled-IsAdmitted_example =
    Filled-IsAdmitted {c = config}
      (enqueued (some (step "b" ("a" ∷ []))) (enqueued (some (step "a" [])) created))
