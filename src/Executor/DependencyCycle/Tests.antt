-- ===== src/Executor/DependencyCycle/Tests.antt =====
-- packages/core/src/schemas/playbook.ts: steps that form a cycle.
use rote.Prelude.{ℕ, String, some, none, List, [], ◌∷◌, String-discrete, ◌≡◌, ◌≢◌, refl, arith}
use rote.Executor.Json.{string, object, field, no_field}
use rote.Executor.Playbook.{Step, OnFail, deterministic}
use rote.Executor.TopoOrder.{find_step, ids_of}
use rote.Executor.DependencyCycle.{cycle, search, search_each, search_all, find_dependency_cycle}
use rote.Executor.DependencyCycle.Acyclic.{Searched, find_dependency_cycle-Searched}
use rote.Executor.DependencyCycle.Depth.{find_dependency_cycle_returns}

abbrev step : String → List String → Step ℕ
step id ds = record {
  id = id;
  depends_on = ds;
  expect = none;
  on_fail = OnFail.fallback;
  kind = deterministic "browser.type" (object (field "text" (string "{{who}}") no_field));
}

abbrev cyclic_steps : List (Step ℕ)
cyclic_steps =
    step "a" [] ∷ step "b" ("a" ∷ "d" ∷ []) ∷ step "c" ("b" ∷ []) ∷ step "d" ("c" ∷ []) ∷ []

-- The search enters the cycle at `b`.
found_cycle : find_dependency_cycle 5 cyclic_steps ≡ some (cycle ("b" ∷ "d" ∷ "c" ∷ "b" ∷ []))
unfolding find_dependency_cycle search_all search search_each find_step String-discrete
found_cycle = refl

find_dependency_cycle-Searched_example :
    Searched cyclic_steps [] (ids_of cyclic_steps) (find_dependency_cycle 5 cyclic_steps)
find_dependency_cycle-Searched_example = find_dependency_cycle-Searched cyclic_steps 5

find_dependency_cycle_returns_example : find_dependency_cycle 5 cyclic_steps ≢ none
find_dependency_cycle_returns_example = find_dependency_cycle_returns cyclic_steps 5 (omega arith)
