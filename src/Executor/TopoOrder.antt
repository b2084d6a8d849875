-- ===== src/Executor/TopoOrder.antt =====
-- packages/executor/src/topo-order.ts. `done` and `order` gain the same ids at the same time: the
-- order stands for both. `visit` takes fuel for the depth of its recursion:
-- `none` is fuel that was not enough.
pub mod Dependencies
pub mod Found
mod Tests
use rote.Prelude.{
  ℕ, zero, suc, String, Option, some, none, List, [], ◌∷◌, ◌++◌, same, includes, String-discrete,
  if◌then◌else◌,
}
use rote.Executor.Playbook.{Step}

-- `for (const id of ids) visit(id)`.
unfoldable pub visit_each :
    (String → List String → Option (List String)) → List String → List String → Option (List String)
visit_each visit [] order = some order
visit_each visit (id ∷ ids) order = elim (visit id order) [
  | none ↦ none
  | some next ↦ visit_each visit ids next
]

abbrev pub push : String → Option (List String) → Option (List String)
push id none = none
push id (some order) = some (order ++ id ∷ [])

module _ {N : Type 0} where
  -- `byId.get(id)`: of two steps with one id the map has the later.
  unfoldable pub find_step : String → List (Step N) → Option (Step N)
  find_step id [] = none
  find_step id (s ∷ ss) = elim (find_step id ss) [
    | some t ↦ some t
    | none ↦ if same String-discrete s.id id then some s else Option.none
  ]

  unfoldable pub visit : ℕ → List (Step N) → String → List String → Option (List String)
  unfolding visit_each find_step
  visit zero steps id order = none
  visit (suc fuel) steps id order =
      if includes String-discrete order id then some order else elim (find_step id steps) [
        | none ↦ some order
        | some s ↦ push id (visit_each (visit fuel steps) s.depends_on order)
      ]

  abbrev pub ids_of : List (Step N) → List String
  ids_of [] = []
  ids_of (s ∷ ss) = s.id ∷ ids_of ss

  unfoldable pub topo_order : ℕ → List (Step N) → Option (List String)
  unfolding visit
  topo_order fuel steps = visit_each (visit fuel steps) (ids_of steps) []
