-- ===== src/Executor/DependencyCycle/Ranks.antt =====
-- packages/core/src/schemas/playbook.ts: where no cycle is found, the dependencies fall in a rank, and the
-- replay's order respects every one.
use rote.Prelude.{
  ℕ, ◌+◌, ◌<◌, ◌≤◌, String, Option, some, true, false, List, [], ◌∷◌, same_iff, includes, length,
  String-discrete, ◌≡◌, ap, refl, subst, All, All-map, Bool-cases, inl, inr, arith, if◌then◌else◌,
}
use rote.Executor.Playbook.{Step}
use rote.Executor.TopoOrder.{ids_of, topo_order}
use rote.Executor.TopoOrder.Found.{find_step-All}
use rote.Executor.TopoOrder.Dependencies.{IsOrdered, IsAcyclic, topo_order-IsOrdered}
use rote.Executor.DependencyCycle.{Search, searched, dependencies, find_dependency_cycle}
use rote.Executor.DependencyCycle.Acyclic.{
  includes_later, IsClosed, Searched, ran_out, cyclic, acyclic, find_dependency_cycle-Searched,
}

-- How many stand behind the last of this id.
unfoldable pub rank_in : List String → String → ℕ
rank_in [] x = 0
rank_in (y ∷ ys) x = if includes String-discrete ys x then rank_in ys x else length ys + 1

rank_in_le : (u : List String) (x : String) → rank_in u x ≤ length u
unfolding rank_in
rank_in_le [] x = omega arith
rank_in_le (y ∷ ys) x = ground (arith, rank_in_le ys x)

rank_in_tail :
    (y x : String) (ys : List String)
    → includes String-discrete ys x ≡ true
    → rank_in (y ∷ ys) x ≡ rank_in ys x
unfolding rank_in
rank_in_tail y x ys h = rw h refl

rank_in_head :
    (y : String) (ys : List String)
    → includes String-discrete ys y ≡ false
    → rank_in (y ∷ ys) y ≡ length ys + 1
unfolding rank_in
rank_in_head y ys h = rw h refl

module _ {N : Type 0} (steps : List (Step N)) where
  -- The rank falls along the dependencies of what is done.
  rank_in_falls :
      (u : List String) (id : String)
      → IsClosed steps u
      → includes String-discrete u id ≡ true
      → All
          (λ d. (includes String-discrete u d ≡ true) × (rank_in u d < rank_in u id))
          (dependencies steps id)
  rank_in_falls [] id c h = absurd cc
  rank_in_falls (y ∷ ys) id c h = elim (Bool-cases (includes String-discrete ys id)) [
    | inl later ↦
        All-map (λ d. (includes String-discrete ys d ≡ true) × (rank_in ys d < rank_in ys id))
          (λ d.
            (includes String-discrete (y ∷ ys) d ≡ true)
            × (rank_in (y ∷ ys) d < rank_in (y ∷ ys) id))
          (λ d (there, falls). (
            includes_later d y ys there,
            omega (arith, falls, rank_in_tail y d ys there, rank_in_tail y id ys later),
          ))
          (dependencies steps id) (rank_in_falls ys id c.1 later)
    | inr first ↦
        let same_id : y ≡ id = ground (arith, h, first, same_iff String-discrete y id) in
        subst
          (λ z.
            includes String-discrete ys z ≡ false
            → All
                (λ d.
                  (includes String-discrete (y ∷ ys) d ≡ true)
                  × (rank_in (y ∷ ys) d < rank_in (y ∷ ys) z))
                (dependencies steps z))
          same_id
          (λ gone.
            All-map (λ d. includes String-discrete ys d ≡ true)
              (λ d.
                (includes String-discrete (y ∷ ys) d ≡ true)
                × (rank_in (y ∷ ys) d < rank_in (y ∷ ys) y))
              (λ d there. (
                includes_later d y ys there,
                omega (arith, rank_in_tail y d ys there, rank_in_le ys d, rank_in_head y ys gone),
              ))
              (dependencies steps y) c.0)
          first
  ]

  steps_of_ids :
      (P : String → Type 0) (ss : List (Step N)) → All P (ids_of ss) → All (λ s. P s.id) ss
  steps_of_ids P [] h = tt
  steps_of_ids P (s ∷ ss) h = (h.0, steps_of_ids P ss h.1)

  pub closed-IsAcyclic :
      (u : List String)
      → IsClosed steps u
      → All (λ x. includes String-discrete u x ≡ true) (ids_of steps)
      → IsAcyclic steps (rank_in u)
  closed-IsAcyclic u c done id s e =
      let (there, same_id) =
        find_step-All (λ t. includes String-discrete u t.id ≡ true) steps id s
          (steps_of_ids (λ x. includes String-discrete u x ≡ true) steps done) e in
      let falls =
        rank_in_falls u id c (subst (λ x. includes String-discrete u x ≡ true) same_id there) in
      All-map (λ d. (includes String-discrete u d ≡ true) × (rank_in u d < rank_in u id))
        (λ d. rank_in u d < rank_in u id) (λ d h. h.1) s.depends_on (rw (e, dependencies) at falls)

  ordered :
      (u : List String) (fuel : ℕ)
      → (wanted : Option Search) → Searched steps [] (ids_of steps) wanted
      → wanted ≡ some (searched u)
      → length u < fuel
      → (order : List String) × (topo_order fuel steps ≡ some order)
        × IsOrdered steps order
        × All (λ id. includes String-discrete order id ≡ true) (ids_of steps)
  ordered u fuel _ ran_out e enough = absurd cc
  ordered u fuel _ (cyclic c h) e enough = absurd cc
  ordered u fuel _ (acyclic v closed more found) e enough =
      topo_order-IsOrdered steps (rank_in v) fuel (closed-IsAcyclic v closed found) (
        All-map (λ x. includes String-discrete v x ≡ true) (λ x. rank_in v x < fuel)
          (λ x h.
            let same_list : v ≡ u = cc in
            omega (arith, rank_in_le v x, ap length same_list, enough))
          (ids_of steps) found)

  -- Where the search reports no cycle, a replay's order, with fuel for as many as were done, has each
  -- step once, behind those that it depends on.
  pub searched-IsOrdered :
      (u : List String) (n fuel : ℕ)
      → find_dependency_cycle n steps ≡ some (searched u)
      → length u < fuel
      → (order : List String) × (topo_order fuel steps ≡ some order)
        × IsOrdered steps order
        × All (λ id. includes String-discrete order id ≡ true) (ids_of steps)
  searched-IsOrdered u n fuel e enough =
      ordered u fuel (find_dependency_cycle n steps) (find_dependency_cycle-Searched steps n) e
        enough
