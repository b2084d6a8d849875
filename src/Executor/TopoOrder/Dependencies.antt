-- ===== src/Executor/TopoOrder/Dependencies.antt =====
-- packages/executor/src/topo-order.ts: the order respects the dependencies. Where these have no
-- cycle, some rank falls along each of them, and fuel above every rank is enough.
use rote.Prelude.{
  Option, ap, ◌∙◌, ℕ, zero, suc, ◌<◌, ◌≤◌, String, some, none, true, false, List, [], ◌∷◌, ◌++◌,
  includes, String-discrete, same_iff, same_refl, ◌≡◌, refl, sym, ◌⊎◌, inl, inr, subst, All,
  All-append, All-map, Bool-cases, Option-cases, arith,
}
use rote.Executor.Playbook.{Step}
use rote.Executor.TopoOrder.{push, find_step, visit_each, visit, ids_of, topo_order}

includes-append :
    (xs : List String) (a x : String)
    → (includes String-discrete xs x ≡ true) ⊎ (a ≡ x)
    → includes String-discrete (xs ++ a ∷ []) x ≡ true
includes-append [] a x h = ground (arith, same_iff String-discrete a x)
includes-append (y ∷ xs) a x h = ground (arith, includes-append xs a x)

append-includes :
    (xs : List String) (a x : String)
    → includes String-discrete (xs ++ a ∷ []) x ≡ true
    → (includes String-discrete xs x ≡ true) ⊎ (a ≡ x)
append-includes [] a x h = ground (arith, same_iff String-discrete a x)
append-includes (y ∷ xs) a x h = ground (arith, append-includes xs a x)

All-use : (P Q : String → Type 0) (xs : List String) → All (λ x. P x → Q x) xs → All P xs → All Q xs
All-use P Q [] h k = tt
All-use P Q (x ∷ xs) h k = (h.0 k.0, All-use P Q xs h.1 k.1)

abbrev pub IsStep : {N : Type 0} → List (Step N) → String → Type 0
IsStep {N = N} steps id = (s : Step N) × (find_step id steps ≡ some s)

later-IsStep :
    {N : Type 0} (s : Step N) (ss : List (Step N)) (id : String) → IsStep ss id → IsStep (s ∷ ss) id
unfolding find_step
later-IsStep s ss id (u, e) = (u, rw e refl)

first-IsStep : {N : Type 0} (s : Step N) (ss : List (Step N)) → IsStep (s ∷ ss) s.id
unfolding find_step
first-IsStep s ss = elim (Option-cases (find_step s.id ss)) [
  | inl e ↦ (s, rw (e, same_refl String-discrete s.id) refl)
  | inr (u, e) ↦ (u, rw e refl)
]

ids-IsStep : {N : Type 0} (ss : List (Step N)) → All (IsStep ss) (ids_of ss)
ids-IsStep [] = tt
ids-IsStep (s ∷ ss) = (
  first-IsStep s ss,
  All-map (IsStep ss) (IsStep (s ∷ ss)) (later-IsStep s ss) (ids_of ss) (ids-IsStep ss),
)

module _ {N : Type 0} (steps : List (Step N)) where
  -- Each id is new, a step's, and behind the ids of the steps that it depends on.
  pub data IsOrdered : List String → Type 0 where
    nothing : IsOrdered []
    behind :
        {order : List String} (id : String) (s : Step N)
        → IsOrdered order
        → includes String-discrete order id ≡ false
        → find_step id steps ≡ some s
        → All (λ d. IsStep steps d → includes String-discrete order d ≡ true) s.depends_on
        → IsOrdered (order ++ id ∷ [])

  visit_there :
      (n : ℕ) (id : String) (o : List String)
      → includes String-discrete o id ≡ true
      → visit (suc n) steps id o ≡ some o
  unfolding visit
  visit_there n id o h = rw h refl

  visit_unknown :
      (n : ℕ) (id : String) (o : List String)
      → includes String-discrete o id ≡ false
      → find_step id steps ≡ none
      → visit (suc n) steps id o ≡ some o
  unfolding visit
  visit_unknown n id o h e = rw (h, e) refl

  visit_new :
      (n : ℕ) (id : String) (o : List String) (s : Step N)
      → includes String-discrete o id ≡ false
      → find_step id steps ≡ some s
      → visit (suc n) steps id o ≡ push id (visit_each (visit n steps) s.depends_on o)
  unfolding visit
  visit_new n id o s h e = rw (h, e) refl

  pushed :
      (id : String) (r : Option (List String)) (v : List String)
      → push id r ≡ some v
      → (u : List String) × (r ≡ some u) × (u ++ id ∷ [] ≡ v)
  pushed id none v e = absurd cc
  pushed id (some u) v e = (u, refl, cc)

  visit_each-IsStep :
      (f : String → List String → Option (List String))
      → ((id : String) (o u : List String)
          → f id o ≡ some u
          → All (IsStep steps) o
          → All (IsStep steps) u)
      → (ids o u : List String) → visit_each f ids o ≡ some u
      → All (IsStep steps) o
      → All (IsStep steps) u
  unfolding visit_each
  visit_each-IsStep f each [] o u e h =
      let same_order : o ≡ u = cc in subst (All (IsStep steps)) same_order h
  visit_each-IsStep f each (id ∷ ids) o u e h = elim (Option-cases (f id o)) [
    | inl out ↦ let no_order : none ≡ some u = rw (out, visit_each) at e in absurd cc
    | inr (v, now) ↦
        visit_each-IsStep f each ids v u (rw (now, visit_each) at e) (each id o v now h)
  ]

  visit-IsStep :
      (fuel : ℕ) (id : String) (o u : List String)
      → visit fuel steps id o ≡ some u
      → All (IsStep steps) o
      → All (IsStep steps) u
  unfolding visit
  visit-IsStep zero id o u e h = absurd cc
  visit-IsStep (suc fuel) id o u e h = elim (Bool-cases (includes String-discrete o id)) [
    | inl there ↦
        let same_order : o ≡ u = cc (visit_there fuel id o there, e) in
        subst (All (IsStep steps)) same_order h
    | inr new ↦ elim (Option-cases (find_step id steps)) [
      | inl unknown ↦
          let same_order : o ≡ u = cc (visit_unknown fuel id o new unknown, e) in
          subst (All (IsStep steps)) same_order h
      | inr (s, known) ↦
          let (v, visited, joined) =
            pushed id (visit_each (visit fuel steps) s.depends_on o) u
              (sym (visit_new fuel id o s new known) ∙ e) in
          subst (All (IsStep steps)) joined (
            All-append (IsStep steps) v (id ∷ [])
              (visit_each-IsStep (visit fuel steps) (visit-IsStep fuel) s.depends_on o v visited h)
              ((s, known), tt))
    ]
  ]

  -- Every id of the order is a step's.
  pub topo_order-IsStep :
      (fuel : ℕ) (order : List String)
      → topo_order fuel steps ≡ some order
      → All (IsStep steps) order
  unfolding topo_order
  topo_order-IsStep fuel order e =
      visit_each-IsStep (visit fuel steps) (visit-IsStep fuel) (ids_of steps) [] order e tt

  module _ (rank : String → ℕ) where
    -- The rank falls along every dependency: there is no cycle.
    abbrev pub IsAcyclic : Type 0
    IsAcyclic =
        (id : String) (s : Step N)
        → find_step id steps ≡ some s
        → All (λ d. rank d < rank id) s.depends_on

    -- The order got longer, by ids of a rank below the bound.
    record Grown (bound : ℕ) (o u : List String) : Type 0 where
      ordered : IsOrdered u
      kept :
          (x : String) → includes String-discrete o x ≡ true → includes String-discrete u x ≡ true
      low :
          (x : String)
          → includes String-discrete u x ≡ true
          → (includes String-discrete o x ≡ true) ⊎ (rank x < bound)

    -- What a visit of `id` makes of an order.
    abbrev Visited : ℕ → String → List String → Option (List String) → Type 0
    Visited bound id o r =
        (u : List String) × (r ≡ some u)
        × Grown bound o u
        × (IsStep steps id → includes String-discrete u id ≡ true)

    abbrev Visits : (String → List String → Option (List String)) → String → Type 0
    Visits f id = (o : List String) → IsOrdered o → Visited (suc (rank id)) id o (f id o)

    Grown-refl : (bound : ℕ) (o : List String) → IsOrdered o → Grown bound o o
    Grown-refl bound o h = record { ordered = h; kept = λ x k. k; low = λ x k. inl k }

    Grown-trans : (m n : ℕ) (o u v : List String) → m ≤ n → Grown m o u → Grown n u v → Grown n o v
    Grown-trans m n o u v le g k = record {
      ordered = k.ordered;
      kept = λ x h. k.kept x (g.kept x h);
      low = λ x h. elim (k.low x h) [
        | inl a ↦ elim (g.low x a) [ inl b ↦ inl b | inr b ↦ inr (omega arith) ]
        | inr b ↦ inr b
      ];
    }

    visit_each-Grown :
        (bound : ℕ) (f : String → List String → Option (List String))
        → ((id : String) → rank id < bound → Visits f id)
        → (ids : List String) → All (λ id. rank id < bound) ids
        → (o : List String) → IsOrdered o
        → (u : List String) × (visit_each f ids o ≡ some u)
          × Grown bound o u
          × All (λ id. IsStep steps id → includes String-discrete u id ≡ true) ids
    unfolding visit_each
    visit_each-Grown bound f each [] h o ord = (o, refl, Grown-refl bound o ord, tt)
    visit_each-Grown bound f each (id ∷ ids) h o ord =
        let (v, visited, now, found) = each id h.0 o ord in
        let (u, rest, later, others) = visit_each-Grown bound f each ids h.1 v now.ordered in
        (
          u,
          rw (visited, visit_each) rest,
          Grown-trans (suc (rank id)) bound o v u (omega (arith, h.0)) now later,
          ((λ known. later.kept id (found known)), others),
        )

    still_new :
        (id : String) (o u : List String)
        → includes String-discrete o id ≡ false
        → Grown (rank id) o u
        → includes String-discrete u id ≡ false
    still_new id o u new g = elim (Bool-cases (includes String-discrete u id)) [
      | inl a ↦ elim (g.low id a) [ inl b ↦ absurd (ground arith) | inr b ↦ absurd (omega arith) ]
      | inr f ↦ f
    ]

    -- A step that is not in the order joins it behind its dependencies.
    joined-Grown :
        (id : String) (s : Step N) (o u : List String)
        → find_step id steps ≡ some s
        → includes String-discrete o id ≡ false
        → Grown (rank id) o u
        → All (λ d. IsStep steps d → includes String-discrete u d ≡ true) s.depends_on
        → Grown (suc (rank id)) o (u ++ id ∷ [])
    joined-Grown id s o u e new g deps = record {
      ordered = behind id s g.ordered (still_new id o u new g) e deps;
      kept = λ x h. includes-append u id x (inl (g.kept x h));
      low = λ x h. elim (append-includes u id x h) [
        | inl a ↦ elim (g.low x a) [ inl b ↦ inl b | inr b ↦ inr (omega arith) ]
        | inr same_id ↦ inr (subst (λ y. rank y < suc (rank id)) same_id (omega arith))
      ];
    }

    visit-Grown :
        IsAcyclic → (fuel : ℕ) (id : String) → rank id < fuel → Visits (visit fuel steps) id
    visit-Grown acyclic zero id h o ord = absurd (omega arith)
    visit-Grown acyclic (suc fuel) id h o ord = elim (Bool-cases (includes String-discrete o id)) [
      | inl there ↦ (o, visit_there fuel id o there, Grown-refl (suc (rank id)) o ord, λ _. there)
      | inr new ↦ elim (Option-cases (find_step id steps)) [
        | inl e ↦ (
          o,
          visit_unknown fuel id o new e,
          Grown-refl (suc (rank id)) o ord,
          λ (s, known). absurd cc,
        )
        | inr (s, e) ↦
            let (u, visited, g, deps) =
              visit_each-Grown (rank id) (visit fuel steps)
                (λ d below. visit-Grown acyclic fuel d (omega arith)) s.depends_on (acyclic id s e)
                o ord in
            (
              u ++ id ∷ [],
              visit_new fuel id o s new e ∙ ap (push id) visited,
              joined-Grown id s o u e new g deps,
              λ _. includes-append u id id (inr refl),
            )
      ]
    ]

    -- Where the rank falls along every dependency and the fuel is above every step's rank, there is
    -- an order, and it has the id of each step, none twice, and each behind those of the steps that
    -- it depends on.
    pub topo_order-IsOrdered :
        (fuel : ℕ)
        → IsAcyclic
        → All (λ id. rank id < fuel) (ids_of steps)
        → (order : List String) × (topo_order fuel steps ≡ some order)
          × IsOrdered order
          × All (λ id. includes String-discrete order id ≡ true) (ids_of steps)
    unfolding topo_order
    topo_order-IsOrdered fuel acyclic enough =
        let (order, visited, g, found) =
          visit_each-Grown fuel (visit fuel steps) (visit-Grown acyclic fuel) (ids_of steps) enough
            [] nothing in
        (
          order,
          visited,
          g.ordered,
          All-use (IsStep steps) (λ id. includes String-discrete order id ≡ true) (ids_of steps)
              found (ids-IsStep steps),
        )
