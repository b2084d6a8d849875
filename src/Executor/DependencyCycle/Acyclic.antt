-- ===== src/Executor/DependencyCycle/Acyclic.antt =====
-- packages/core/src/schemas/playbook.ts: a cycle that is reported is one, and where none is found every
-- step is done behind its dependencies.
use rote.Prelude.{
  ℕ, zero, suc, String, Option, some, none, true, List, [], ◌∷◌, ◌++◌, same, same_iff, same_refl,
  includes, String-discrete, ◌≡◌, sym, subst, All, All-map, Bool-cases, inl, inr, arith,
}
use rote.Executor.Playbook.{Step}
use rote.Executor.TopoOrder.{ids_of}
use rote.Executor.DependencyCycle.{
  Search, cycle, searched, slice_from, go_on, search_each, search_all, dependencies, search,
  find_dependency_cycle,
}

pub includes_later :
    (x y : String) (ys : List String)
    → includes String-discrete ys x ≡ true
    → includes String-discrete (y ∷ ys) x ≡ true
includes_later x y ys h = ground (arith)

includes_first : (x : String) (ys : List String) → includes String-discrete (x ∷ ys) x ≡ true
includes_first x ys = ground (arith, same_refl String-discrete x)

All-includes : (xs : List String) → All (λ x. includes String-discrete xs x ≡ true) xs
All-includes [] = tt
All-includes (x ∷ xs) = (
  includes_first x xs,
  All-map (λ y. includes String-discrete xs y ≡ true)
      (λ y. includes String-discrete (x ∷ xs) y ≡ true) (λ y h. includes_later y x xs h) xs
      (All-includes xs),
)

module _ {N : Type 0} (steps : List (Step N)) where
  -- Each id depends on the next.
  abbrev pub IsChain : List String → Type 0
  IsChain [] = Unit {0}
  IsChain (x ∷ []) = Unit {0}
  IsChain (x ∷ y ∷ r) = (includes String-discrete (dependencies steps x) y ≡ true) × IsChain (y ∷ r)

  -- A chain from an id back to itself.
  pub data IsCycle : List String → Type 0 where
    closes : (d : String) (r : List String) → IsChain (d ∷ r ++ d ∷ []) → IsCycle (d ∷ r ++ d ∷ [])

  -- The dependencies of each id stand behind it.
  abbrev pub IsClosed : List String → Type 0
  IsClosed [] = Unit {0}
  IsClosed (x ∷ xs) =
      All (λ d. includes String-discrete xs d ≡ true) (dependencies steps x) × IsClosed xs

  -- What a search that began with some ids done, and wanted others, may give.
  pub data Searched (done wanted : List String) : Option Search → Type 0 where
    ran_out : Searched done wanted none
    cyclic : (c : List String) → IsCycle c → Searched done wanted (some (cycle c))
    acyclic :
        (u : List String)
        → IsClosed u
        → ((x : String)
            → includes String-discrete done x ≡ true
            → includes String-discrete u x ≡ true)
        → All (λ x. includes String-discrete u x ≡ true) wanted
        → Searched done wanted (some (searched u))

  IsChain-tail : (x : String) (xs : List String) → IsChain (x ∷ xs) → IsChain xs
  IsChain-tail x [] h = tt
  IsChain-tail x (y ∷ ys) h = h.1

  IsChain-longer :
      (xs : List String) (a d : String)
      → IsChain (xs ++ a ∷ [])
      → includes String-discrete (dependencies steps a) d ≡ true
      → IsChain ((xs ++ a ∷ []) ++ d ∷ [])
  IsChain-longer [] a d h e = (e, tt)
  IsChain-longer (x ∷ []) a d h e = (h.0, (e, tt))
  IsChain-longer (x ∷ y ∷ xs) a d h e = (h.0, IsChain-longer (y ∷ xs) a d h.1 e)

  slice-IsCycle :
      (d : String) (xs : List String)
      → includes String-discrete xs d ≡ true
      → IsChain (xs ++ d ∷ [])
      → IsCycle (slice_from d xs ++ d ∷ [])
  slice-IsCycle d [] h c = absurd cc
  slice-IsCycle d (x ∷ xs) h c = elim (Bool-cases (same String-discrete x d)) [
    | inl e ↦
        let same_id : d ≡ x = ground (arith, e, same_iff String-discrete x d) in
        let cut : IsCycle (x ∷ xs ++ d ∷ []) =
          subst (λ y. IsCycle (x ∷ xs ++ y ∷ [])) (sym same_id)
            (closes x xs (subst (λ y. IsChain (x ∷ xs ++ y ∷ [])) same_id c)) in
        rw e cut
    | inr e ↦ rw e (slice-IsCycle d xs (rw e at h) (IsChain-tail x (xs ++ d ∷ []) c))
  ]

  -- A search that went on from more.
  shifted :
      (done u ws : List String) (d : String) (r : Option Search)
      → ((x : String)
          → includes String-discrete done x ≡ true
          → includes String-discrete u x ≡ true)
      → includes String-discrete u d ≡ true
      → Searched u ws r
      → Searched done (d ∷ ws) r
  shifted done u ws d _ sub there ran_out = ran_out
  shifted done u ws d _ sub there (cyclic c h) = cyclic c h
  shifted done u ws d _ sub there (acyclic v closed more found) =
      acyclic v closed (λ x h. more x (sub x h)) (more d there, found)

  after :
      (done ws : List String) (d : String) (r : Option Search) (k : List String → Option Search)
      → Searched done (d ∷ []) r
      → ((u : List String) → IsClosed u → Searched u ws (k u))
      → Searched done (d ∷ ws) (go_on r k)
  after done ws d _ k ran_out f = ran_out
  after done ws d _ k (cyclic c h) f = cyclic c h
  after done ws d _ k (acyclic u closed more found) f =
      shifted done u ws d (k u) more found.0 (f u closed)

  search_each-Searched :
      (visit : String → List String → Option Search) (stack ds done : List String)
      → ((d : String) (u : List String)
          → IsChain (stack ++ d ∷ [])
          → IsClosed u
          → Searched u (d ∷ []) (visit d u))
      → All (λ d. IsChain (stack ++ d ∷ [])) ds
      → IsClosed done
      → Searched done ds (search_each visit stack ds done)
  unfolding search_each
  search_each-Searched visit stack [] done v cs closed = acyclic done closed (λ x h. h) tt
  search_each-Searched visit stack (d ∷ ds) done v cs closed =
      elim (Bool-cases (includes String-discrete stack d)) [
        | inl on_stack ↦ rw on_stack (cyclic _ (slice-IsCycle d stack on_stack cs.0))
        | inr off_stack ↦ elim (Bool-cases (includes String-discrete done d)) [
          | inl there ↦
              rw (off_stack, there)
                (shifted done done ds d _ (λ x h. h) there
                  (search_each-Searched visit stack ds done v cs.1 closed))
          | inr new ↦
              rw (off_stack, new)
                (after done ds d (visit d done) (search_each visit stack ds) (v d done cs.0 closed)
                  (λ u cl. search_each-Searched visit stack ds u v cs.1 cl))
        ]
      ]

  search_all-Searched :
      (visit : String → List String → Option Search) (ds done : List String)
      → ((d : String) (u : List String) → IsClosed u → Searched u (d ∷ []) (visit d u))
      → IsClosed done
      → Searched done ds (search_all visit ds done)
  unfolding search_all
  search_all-Searched visit [] done v closed = acyclic done closed (λ x h. h) tt
  search_all-Searched visit (d ∷ ds) done v closed =
      elim (Bool-cases (includes String-discrete done d)) [
        | inl there ↦
            rw there (
              shifted done done ds d _ (λ x h. h) there
                (search_all-Searched visit ds done v closed))
        | inr new ↦ rw new (
            after done ds d (visit d done) (search_all visit ds) (v d done closed)
              (λ u cl. search_all-Searched visit ds u v cl))
      ]

  finished :
      (done : List String) (id : String) (r : Option Search)
      → Searched done (dependencies steps id) r
      → Searched done (id ∷ []) (go_on r (λ u. some (searched (id ∷ u))))
  finished done id _ ran_out = ran_out
  finished done id _ (cyclic c h) = cyclic c h
  finished done id _ (acyclic u closed more found) =
      acyclic (id ∷ u) (found, closed) (λ x h. includes_later x id u (more x h))
        (includes_first id u, tt)

  search-Searched :
      (fuel : ℕ) (stack : List String) (id : String) (done : List String)
      → IsChain (stack ++ id ∷ [])
      → IsClosed done
      → Searched done (id ∷ []) (search fuel steps stack id done)
  unfolding search
  search-Searched zero stack id done chain closed = ran_out
  search-Searched (suc fuel) stack id done chain closed = finished done id _ (
      search_each-Searched (search fuel steps (stack ++ id ∷ [])) (stack ++ id ∷ [])
        (dependencies steps id) done (λ d u. search-Searched fuel (stack ++ id ∷ []) d u)
        (All-map (λ d. includes String-discrete (dependencies steps id) d ≡ true)
          (λ d. IsChain ((stack ++ id ∷ []) ++ d ∷ [])) (λ d h. IsChain-longer stack id d chain h)
          (dependencies steps id) (All-includes (dependencies steps id)))
        closed)

  -- Whatever the fuel, what is reported as a cycle leads along dependencies from an id back to it; and
  -- where no cycle is reported, every step is done behind those that it depends on.
  pub find_dependency_cycle-Searched :
      (fuel : ℕ) → Searched [] (ids_of steps) (find_dependency_cycle fuel steps)
  unfolding find_dependency_cycle
  find_dependency_cycle-Searched fuel =
      search_all-Searched (search fuel steps []) (ids_of steps) []
        (λ d u. search-Searched fuel [] d u tt) tt
