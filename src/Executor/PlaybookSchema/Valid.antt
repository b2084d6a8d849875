-- ===== src/Executor/PlaybookSchema/Valid.antt =====
-- packages/core/src/schemas/playbook.ts: which playbooks the schema accepts.
use rote.Prelude.{
  ℕ, ◌+◌, ◌<◌, ◌≤◌, String, Option, some, true, false, List, [], ◌∷◌, ◌++◌, same, same_iff,
  includes, length, select, String-discrete, ◌≡◌, ◌↔◌, refl, sym, ap, subst, ◌∙◌, All, Bool-cases,
  Option-cases, inl, inr, arith,
}
use rote.Executor.Playbook.{Step, Playbook}
use rote.Executor.TopoOrder.{find_step, ids_of, topo_order}
use rote.Executor.TopoOrder.Dependencies.{IsOrdered, IsAcyclic}
use rote.Executor.PlaybookSchema.{
  unknown_issues, cycle_issues, duplicate_issues, judgment_issues, is_judgment, referenced,
  is_declared, undeclared_issues, playbook_issues,
}
use rote.Executor.DependencyCycle.{Search, cycle, searched, dependencies, find_dependency_cycle}
use rote.Executor.DependencyCycle.Acyclic.{
  IsChain, IsCycle, closes, Searched, ran_out, cyclic, acyclic, find_dependency_cycle-Searched,
}
use rote.Executor.DependencyCycle.Ranks.{rank_in, closed-IsAcyclic, searched-IsOrdered}
use rote.Executor.DependencyCycle.Depth.{find_dependency_cycle_returns}
use rote.Executor.PlaybookSchema.References.{IsDeclared, InStep, InExpect, references_iff}
use rote.Executor.PlaybookSchema.Issues.{
  HasDistinctIds, AreNew, some_injective, nil-append_iff, undeclared_of_iff, duplicate_issues_iff,
  unknown_issues_iff, judgment_issues_iff,
}

-- The dependencies fall in some rank.
pub record IsRanked {N : Type 0} (steps : List (Step N)) : Type 0 where
  pub rank : String → ℕ
  pub falls : IsAcyclic steps rank

pub record IsValid {N : Type 0} (p : Playbook N) : Type 0 where
  pub distinct : HasDistinctIds (ids_of p.steps)
  pub known :
      All (λ s. All (λ d. includes String-discrete (ids_of p.steps) d ≡ true) s.depends_on) p.steps
  pub ranked : IsRanked p.steps
  pub few_judgments : length (select is_judgment p.steps) ≤ 2
  pub declared_in_steps : All (InStep (IsDeclared p) p.version) p.steps
  pub declared_in_verify : All (InExpect (IsDeclared p) p.version) p.verify

All-at :
    (P : String → Type 0) (xs : List String) (d : String)
    → All P xs
    → includes String-discrete xs d ≡ true
    → P d
All-at P [] d h e = absurd cc
All-at P (x ∷ xs) d h e = elim (Bool-cases (same String-discrete x d)) [
  | inl t ↦ subst P ((same_iff String-discrete x d).0 t) h.0
  | inr f ↦ All-at P xs d h.1 (rw f at e)
]

module _ {N : Type 0} (steps : List (Step N)) (r : IsRanked steps) where
  dependency_falls :
      (x d : String)
      → includes String-discrete (dependencies steps x) d ≡ true
      → r.rank d < r.rank x
  dependency_falls x d e = elim (Option-cases (find_step x steps)) [
    | inl missing ↦ let found : false ≡ true = rw (missing, dependencies) at e in absurd cc
    | inr (s, there) ↦
        All-at (λ y. r.rank y < r.rank x) s.depends_on d (r.falls x s there)
          (rw (there, dependencies) at e)
  ]

  chain_falls :
      (x : String) (xs : List String) (d : String)
      → IsChain steps (x ∷ xs ++ d ∷ [])
      → r.rank d < r.rank x
  chain_falls x [] d c = dependency_falls x d c.0
  chain_falls x (y ∷ xs) d c = omega (arith, dependency_falls x y c.0, chain_falls y xs d c.1)

  no_cycle : (c : List String) → IsCycle steps c → ⊥
  no_cycle _ (closes d xs chain) = omega (arith, chain_falls d xs d chain)

module _ {N : Type 0} (steps : List (Step N)) where
  searched_iff :
      (found : Search) (r : Option Search)
      → Searched steps [] (ids_of steps) r
      → r ≡ some found
      → (cycle_issues found ≡ []) ↔ IsRanked steps
  searched_iff found _ ran_out e = absurd cc
  searched_iff (searched u) _ (cyclic c h) e = absurd cc
  searched_iff (cycle d) _ (acyclic u closed more wanted) e = absurd cc
  searched_iff (cycle d) _ (cyclic c h) e = (λ k. absurd cc, λ r. absurd (no_cycle steps r c h))
  searched_iff (searched v) _ (acyclic u closed more wanted) e =
      (λ _. record { rank = rank_in u; falls = closed-IsAcyclic steps u closed wanted }, λ _. refl)

module _ {N : Type 0} (p : Playbook N) where
  search_answers :
      (found : Search) × (find_dependency_cycle (length (ids_of p.steps) + 1) p.steps ≡ some found)
  search_answers =
      elim (Option-cases (find_dependency_cycle (length (ids_of p.steps) + 1) p.steps)) [
        | inl e ↦
            absurd
              (find_dependency_cycle_returns p.steps (length (ids_of p.steps) + 1) (omega arith) e)
        | inr found ↦ found
      ]

  issues_are :
      (found : Search)
      → find_dependency_cycle (length (ids_of p.steps) + 1) p.steps ≡ some found
      → playbook_issues p
        ≡ some (
            duplicate_issues [] p.steps
            ++ (unknown_issues (ids_of p.steps) p.steps
                ++ (cycle_issues found ++ (judgment_issues p.steps ++ undeclared_issues p))))
  unfolding playbook_issues
  issues_are found e = rw (e, playbook_issues) refl

  all_seen_new : (ids : List String) → AreNew [] ids
  all_seen_new [] = tt
  all_seen_new (i ∷ ids) = (refl, all_seen_new ids)

  -- The schema always answers, and it has no issue with a playbook exactly when the ids of the
  -- steps differ, each dependency is a step's id and falls in some rank, at most two steps are
  -- judgments, and in every text of the steps and of the verification each reference that is not
  -- escaped is the name of a parameter, of a slot's binding or of a judgment.
  pub playbook_issues_iff : (playbook_issues p ≡ some []) ↔ IsValid p
  unfolding undeclared_issues
  playbook_issues_iff =
      let (found, e) = search_answers in
      let are = issues_are found e in
      let a = nil-append_iff (duplicate_issues [] p.steps) _ in
      let b = nil-append_iff (unknown_issues (ids_of p.steps) p.steps) _ in
      let c = nil-append_iff (cycle_issues found) _ in
      let d = nil-append_iff (judgment_issues p.steps) (undeclared_issues p) in
      let twice = duplicate_issues_iff [] p.steps in
      let unknown = unknown_issues_iff (ids_of p.steps) p.steps in
      let cycles = searched_iff p.steps found _ (find_dependency_cycle-Searched p.steps _) e in
      let judged = judgment_issues_iff p.steps in
      let refs = references_iff p in
      let undeclared = undeclared_of_iff (is_declared p) (referenced p) in
      (
        λ h.
            let (no_a, rest_a) = a.0 (some_injective _ _ (sym are ∙ h)) in
            let (no_b, rest_b) = b.0 rest_a in
            let (no_c, rest_c) = c.0 rest_b in
            let (no_d, no_e) = d.0 rest_c in
            record {
              distinct = (twice.0 no_a).0;
              known = unknown.0 no_b;
              ranked = cycles.0 no_c;
              few_judgments = judged.0 no_d;
              declared_in_steps = (refs.0 (undeclared.0 no_e)).0;
              declared_in_verify = (refs.0 (undeclared.0 no_e)).1;
            },
        λ v.
            are
            ∙ ap (λ xs. some xs)
                (a.1 (
                  twice.1 (v.distinct, all_seen_new (ids_of p.steps)),
                  b.1 (
                    unknown.1 v.known,
                    c.1 (
                      cycles.1 v.ranked,
                      d.1 (
                        judged.1 v.few_judgments,
                        undeclared.1 (refs.1 (v.declared_in_steps, v.declared_in_verify)),
                      ),
                    ),
                  ),
                )),
      )

  -- A playbook that the schema accepts has an order: with enough fuel the replay finds one, and it
  -- holds the id of each step once, behind those of the steps that it depends on.
  pub accepted-IsOrdered :
      playbook_issues p ≡ some []
      → (n : ℕ) × (order : List String) × (topo_order n p.steps ≡ some order)
        × IsOrdered p.steps order
        × All (λ id. includes String-discrete order id ≡ true) (ids_of p.steps)
  accepted-IsOrdered h =
      let v = playbook_issues_iff.0 h in
      let (found, e) = search_answers in
      order_of found e
        ((searched_iff p.steps found _ (find_dependency_cycle-Searched p.steps _) e).1 v.ranked)
    where
      order_of :
          (found : Search)
          → find_dependency_cycle (length (ids_of p.steps) + 1) p.steps ≡ some found
          → cycle_issues found ≡ []
          → (n : ℕ) × (order : List String) × (topo_order n p.steps ≡ some order)
            × IsOrdered p.steps order
            × All (λ id. includes String-discrete order id ≡ true) (ids_of p.steps)
      order_of (cycle c) e k = absurd cc
      order_of (searched u) e k =
          let (order, visited, ordered, holds) =
            searched-IsOrdered p.steps u (length (ids_of p.steps) + 1) (length u + 1) e
              (omega arith) in
          (length u + 1, order, visited, ordered, holds)
