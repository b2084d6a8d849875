-- ===== src/Executor/PlaybookSchema.antt =====
-- packages/core/src/schemas/playbook.ts: the checks of `PlaybookSchema` on a playbook of the right shape.
pub mod Issues
pub mod References
pub mod Valid
mod Tests
use rote.Prelude.{
  ℕ, zero, suc, String, Option, some, none, Bool, true, false, List, [], ◌∷◌, ◌++◌, ◌+◌, ◌||◌, same,
  includes, leb, ltb, length, select, String-discrete, if◌then◌else◌, not,
}
use rote.Executor.Json.{Json, string}
use rote.Executor.Playbook.{
  Expect, exit_code, selector_visible, selector_absent, input_value, url_contains, text_visible,
  json_path_exists, json_path_equals, output_matches, nonempty, Step, StepKind, deterministic, slot,
  judgment, Playbook, Param,
}
use rote.Core.Template.{add_refs, walk_strings}
use rote.Executor.TopoOrder.{find_step, ids_of}
use rote.Executor.DependencyCycle.{Search, cycle, searched, find_dependency_cycle}

pub data Issue : Type 0 where
  duplicate_step : String → Issue
  unknown_dependency : (step dependency : String) → Issue
  cyclic_dependencies : List String → Issue
  too_many_judgments : ℕ → Issue
  undeclared_param : String → Issue

-- `if (test) ctx.addIssue(…)`.
abbrev pub issue_if : Bool → Issue → List Issue
issue_if true i = i ∷ []
issue_if false i = []

abbrev pub max_judgment_steps : ℕ
max_judgment_steps = 2

abbrev pub unknown_of : List String → String → List String → List Issue
unknown_of ids id [] = []
unknown_of ids id (d ∷ ds) =
    issue_if (not (includes String-discrete ids d)) (unknown_dependency id d)
    ++ unknown_of ids id ds

-- Of an answer of the cycle search.
abbrev pub cycle_issues : Search → List Issue
cycle_issues (cycle c) = cyclic_dependencies c ∷ []
cycle_issues (searched u) = []

abbrev pub undeclared_of : (String → Bool) → List String → List Issue
undeclared_of known [] = []
undeclared_of known (name ∷ names) =
    issue_if (not (known name)) (undeclared_param name) ++ undeclared_of known names

abbrev pub names_of : List Param → List String
names_of [] = []
names_of (p ∷ ps) = p.name ∷ names_of ps

-- The strings of a list.
abbrev pub add_texts : ℕ → List String → List String → List String
add_texts version [] refs = refs
add_texts version (t ∷ ts) refs = add_texts version ts (add_refs version t refs)

module _ {N : Type 0} where
  unfoldable pub duplicate_issues : (seen : List String) → List (Step N) → List Issue
  duplicate_issues seen [] = []
  duplicate_issues seen (s ∷ ss) =
      issue_if (includes String-discrete seen s.id) (duplicate_step s.id)
      ++ duplicate_issues (s.id ∷ seen) ss

  unfoldable pub unknown_issues : (ids : List String) → List (Step N) → List Issue
  unknown_issues ids [] = []
  unknown_issues ids (s ∷ ss) = unknown_of ids s.id s.depends_on ++ unknown_issues ids ss

  abbrev pub is_judgment : Step N → Bool
  is_judgment s = elim (s.kind) [
    | deterministic tool args ↦ false
    | slot prompt max_tokens into ↦ false
    | judgment prompt options ↦ true
  ]

  unfoldable pub judgment_issues : List (Step N) → List Issue
  judgment_issues ss =
      let n = length (select is_judgment ss) in
      issue_if (ltb max_judgment_steps n) (too_many_judgments n)

  -- What a step of this kind and id binds at replay.
  abbrev pub bound_by : String → StepKind N → List String
  bound_by id (deterministic tool args) = []
  bound_by id (slot prompt max_tokens into) = into ∷ []
  bound_by id (judgment prompt options) = id ∷ []

  abbrev pub computed_bindings : List (Step N) → List String
  computed_bindings [] = []
  computed_bindings (s ∷ ss) = bound_by s.id s.kind ++ computed_bindings ss

  -- A value that is missing has no reference.
  abbrev pub optional_refs : ℕ → Option (Json N) → List String → List String
  optional_refs v none refs = refs
  optional_refs v (some j) refs = walk_strings v j refs

  -- The words of the schema itself, such as the kinds, have no reference.
  abbrev pub expect_refs : ℕ → Expect N → List String → List String
  expect_refs v (exit_code n) refs = refs
  expect_refs v (selector_visible s) refs = add_refs v s refs
  expect_refs v (selector_absent s) refs = add_refs v s refs
  expect_refs v (input_value s e) refs = add_refs v e (add_refs v s refs)
  expect_refs v (url_contains s) refs = add_refs v s refs
  expect_refs v (text_visible s) refs = add_refs v s refs
  expect_refs v (json_path_exists s) refs = add_refs v s refs
  expect_refs v (json_path_equals p e) refs = optional_refs v e (add_refs v p refs)
  expect_refs v (output_matches s) refs = add_refs v s refs
  expect_refs v nonempty refs = refs

  abbrev pub kind_refs : ℕ → StepKind N → List String → List String
  kind_refs v (deterministic tool args) refs = walk_strings v args (add_refs v tool refs)
  kind_refs v (slot prompt max_tokens into) refs = add_refs v into (add_refs v prompt refs)
  kind_refs v (judgment prompt options) refs = add_texts v options (add_refs v prompt refs)

  abbrev pub guard_refs : ℕ → Option (Expect N) → List String → List String
  guard_refs v none refs = refs
  guard_refs v (some e) refs = expect_refs v e refs

  abbrev pub step_refs : ℕ → Step N → List String → List String
  step_refs v s refs =
      let named = add_texts v s.depends_on (add_refs v s.id refs) in
      kind_refs v s.kind (guard_refs v s.expect named)

  abbrev pub steps_refs : ℕ → List (Step N) → List String → List String
  steps_refs v [] refs = refs
  steps_refs v (s ∷ ss) refs = steps_refs v ss (step_refs v s refs)

  abbrev pub verify_refs : ℕ → List (Expect N) → List String → List String
  verify_refs v [] refs = refs
  verify_refs v (e ∷ es) refs = verify_refs v es (expect_refs v e refs)

  unfoldable pub referenced : Playbook N → List String
  unfolding add_refs walk_strings
  referenced p = verify_refs p.version p.verify (steps_refs p.version p.steps [])

  abbrev pub is_declared : Playbook N → String → Bool
  is_declared p name =
      includes String-discrete (names_of p.params) name
      || includes String-discrete (computed_bindings p.steps) name

  unfoldable pub undeclared_issues : Playbook N → List Issue
  unfolding referenced
  undeclared_issues p = undeclared_of (is_declared p) (referenced p)

  -- The issues of `superRefine`: `none` is a search that ran out of fuel.
  unfoldable pub playbook_issues : Playbook N → Option (List Issue)
  unfolding duplicate_issues unknown_issues judgment_issues undeclared_issues find_dependency_cycle
  playbook_issues p = elim (find_dependency_cycle (length (ids_of p.steps) + 1) p.steps) [
    | none ↦ none
    | some found ↦ some (
        duplicate_issues [] p.steps
        ++ (unknown_issues (ids_of p.steps) p.steps
            ++ (cycle_issues found ++ (judgment_issues p.steps ++ undeclared_issues p))))
  ]
