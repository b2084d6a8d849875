-- ===== src/Executor/DependencyCycle.antt =====
-- packages/core/src/schemas/playbook.ts: `findDependencyCycle`. The ids in the state `visiting` are those on
-- the stack: the stack stands for both. `visit` takes fuel for the depth of its recursion, `none` is fuel
-- that was not enough.
pub mod Acyclic
pub mod Depth
pub mod Ranks
mod Tests
use rote.Prelude.{
  ℕ, zero, suc, String, Option, some, none, Bool, true, false, List, [], ◌∷◌, ◌++◌, ◌+◌, ◌||◌, same,
  includes, leb, ltb, length, select, String-discrete, if◌then◌else◌, not,
}
use rote.Executor.Json.{string}
use rote.Executor.Playbook.{
  Expect, exit_code, selector_visible, selector_absent, input_value, url_contains, text_visible,
  json_path_exists, json_path_equals, output_matches, nonempty, Step, StepKind, deterministic, slot,
  judgment, Playbook, Param,
}
use rote.Core.Template.{add_refs, walk_strings}
use rote.Executor.TopoOrder.{find_step, ids_of}

-- What a search finds: a cycle, or the ids that are done, the last one first.
pub data Search : Type 0 where
  cycle : List String → Search
  searched : List String → Search

-- `stack.slice(stack.indexOf(dep))`.
abbrev pub slice_from : String → List String → List String
slice_from id [] = []
slice_from id (x ∷ xs) = if same String-discrete x id then x ∷ xs else slice_from id xs

-- What follows a part of the search that found no cycle.
abbrev pub go_on : Option Search → (List String → Option Search) → Option Search
go_on none k = none
go_on (some (cycle c)) k = some (cycle c)
go_on (some (searched done)) k = k done

-- The loop over the dependencies of the id on top of the stack.
unfoldable pub search_each :
    (String → List String → Option Search) → (stack ids done : List String) → Option Search
search_each visit stack [] done = some (searched done)
search_each visit stack (d ∷ ds) done =
    if includes String-discrete stack d
    then some (cycle (slice_from d stack ++ d ∷ []))
    else if includes String-discrete done d
    then search_each visit stack ds done
    else go_on (visit d done) (search_each visit stack ds)

-- The loop over the ids of the graph: the stack is empty.
unfoldable pub search_all :
    (String → List String → Option Search) → (ids done : List String) → Option Search
search_all visit [] done = some (searched done)
search_all visit (id ∷ ids) done =
    if includes String-discrete done id
    then search_all visit ids done
    else go_on (visit id done) (search_all visit ids)

module _ {N : Type 0} where
  -- `graph.get(id) ?? []`.
  abbrev pub dependencies : List (Step N) → String → List String
  dependencies steps id = elim (find_step id steps) [ none ↦ [] | some s ↦ s.depends_on ]

  unfoldable pub search :
      ℕ → List (Step N) → (stack : List String) → String → List String → Option Search
  unfolding search_each find_step
  search zero steps stack id done = none
  search (suc fuel) steps stack id done =
      go_on
        (search_each (search fuel steps (stack ++ id ∷ [])) (stack ++ id ∷ [])
          (dependencies steps id) done)
        (λ u. some (searched (id ∷ u)))

  -- The keys of the graph are the ids of the steps; an id that comes again is done.
  unfoldable pub find_dependency_cycle : ℕ → List (Step N) → Option Search
  unfolding search_all search
  find_dependency_cycle fuel steps = search_all (search fuel steps []) (ids_of steps) []
