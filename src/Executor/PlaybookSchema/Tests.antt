-- ===== src/Executor/PlaybookSchema/Tests.antt =====
-- packages/core/src/schemas/playbook.ts: a playbook that is accepted, and one that is not.
use rote.Prelude.{
  ℕ, String, some, none, true, List, [], ◌∷◌, includes, String-discrete, ◌≡◌, ◌↔◌, refl, All,
}
use rote.Executor.Json.{string, object, field, no_field}
use rote.Executor.Playbook.{Step, OnFail, deterministic, Playbook, ParamType, text_visible}
use rote.Executor.TopoOrder.{find_step, ids_of, topo_order}
use rote.Executor.TopoOrder.Dependencies.{IsOrdered}
use rote.Executor.PlaybookSchema.{
  duplicate_issues, unknown_issues, judgment_issues, undeclared_issues, referenced, playbook_issues,
  undeclared_param,
}
use rote.Executor.DependencyCycle.{search, search_each, search_all, find_dependency_cycle}
use rote.Executor.PlaybookSchema.Valid.{IsValid, playbook_issues_iff, accepted-IsOrdered}
use rote.Core.Template.{add_refs, walk_strings, segments, reference_at, is_escaped}

abbrev step : String → List String → Step ℕ
step id ds = record {
  id = id;
  depends_on = ds;
  expect = none;
  on_fail = OnFail.fallback;
  kind = deterministic "browser.type" (object (field "text" (string "{{who}}") no_field));
}

abbrev book : Playbook ℕ
book = record {
  playbook = "book";
  version = 1;
  params = record { name = "who"; type = ParamType.string } ∷ [];
  steps = step "b" ("a" ∷ []) ∷ step "a" [] ∷ [];
  verify = text_visible "Hello {{who}}" ∷ [];
}

abbrev undeclared : Playbook ℕ
undeclared = record book { params = [] }

accepted : playbook_issues book ≡ some []
unfolding playbook_issues find_dependency_cycle search_all search search_each find_step
    duplicate_issues unknown_issues judgment_issues undeclared_issues referenced add_refs
    walk_strings segments reference_at is_escaped String-discrete
accepted = refl

refused : playbook_issues undeclared ≡ some (undeclared_param "who" ∷ [])
unfolding playbook_issues find_dependency_cycle search_all search search_each find_step
    duplicate_issues unknown_issues judgment_issues undeclared_issues referenced add_refs
    walk_strings segments reference_at is_escaped String-discrete
refused = refl

playbook_issues_iff_example : (playbook_issues book ≡ some []) ↔ IsValid book
playbook_issues_iff_example = playbook_issues_iff book

accepted-IsOrdered_example :
    (n : ℕ) × (order : List String) × (topo_order n book.steps ≡ some order)
    × IsOrdered book.steps order
    × All (λ id. includes String-discrete order id ≡ true) (ids_of book.steps)
accepted-IsOrdered_example = accepted-IsOrdered book accepted
