-- ===== src/Executor/TopoOrder/Tests.antt =====
-- packages/executor/src/topo-order.ts: the order of concrete steps, the numbers of which are numbers.
use rote.Prelude.{
  subst, ◌<◌, All, ℕ, String, some, none, true, List, [], ◌∷◌, same, includes, String-discrete, ◌≡◌,
  refl, arith, All, if◌then◌else◌, ◌<◌,
}
use rote.Executor.Playbook.{Step, OnFail, deterministic}
use rote.Executor.Json.{null}
use rote.Executor.TopoOrder.{find_step, visit_each, visit, ids_of, topo_order}
use rote.Executor.TopoOrder.Found.{find_step-All}
use rote.Executor.TopoOrder.Dependencies.{IsOrdered, IsAcyclic, topo_order-IsOrdered}

abbrev step : String → List String → Step ℕ
step id ds = record {
  id = id;
  depends_on = ds;
  expect = none;
  on_fail = OnFail.fallback;
  kind = deterministic "tool" null;
}

-- The last step comes first.
abbrev two_steps : List (Step ℕ)
two_steps = step "b" ("a" ∷ []) ∷ step "a" [] ∷ []

order_of_two : topo_order 2 two_steps ≡ some ("a" ∷ "b" ∷ [])
unfolding topo_order visit visit_each find_step String-discrete
order_of_two = refl

unfoldable rank : String → ℕ
rank id = if same String-discrete id "b" then 1 else 0

abbrev Falls : Step ℕ → Type 0
Falls s = All (λ d. rank d < rank s.id) s.depends_on

two_steps-Falls : All Falls two_steps
unfolding rank String-discrete
two_steps-Falls = ((omega arith, tt), (tt, tt))

two_steps-IsAcyclic : IsAcyclic two_steps rank
two_steps-IsAcyclic id s e =
    let (falls, same_id) = find_step-All Falls two_steps id s two_steps-Falls e in
    subst (λ x. All (λ d. rank d < rank x) s.depends_on) same_id falls

topo_order-IsOrdered_example :
    (order : List String) × (topo_order 2 two_steps ≡ some order)
    × IsOrdered two_steps order
    × All (λ id. includes String-discrete order id ≡ true) (ids_of two_steps)
unfolding rank String-discrete
topo_order-IsOrdered_example =
    topo_order-IsOrdered two_steps rank 2 two_steps-IsAcyclic (omega arith, (omega arith, tt))
