-- ===== src/Executor/DependencyCycle/Depth.antt =====
-- packages/core/src/schemas/playbook.ts: fuel for more than the number of steps is enough for the cycle
-- search, since the ids on the stack differ and all but the last are steps'.
use rote.Prelude.{
  ℕ, zero, suc, ◌+◌, ◌<◌, ◌≤◌, String, Option, some, none, true, false, List, [], ◌∷◌, ◌++◌, same,
  same_iff, includes, length, String-discrete, ◌≡◌, ◌≢◌, refl, sym, subst, All, All-append,
  Bool-cases, Option-cases, inl, inr, arith, if◌then◌else◌, length-append,
}
use rote.Executor.Playbook.{Step}
use rote.Executor.TopoOrder.{find_step, ids_of}
use rote.Executor.DependencyCycle.{
  Search, cycle, searched, go_on, search_each, search_all, dependencies, search,
  find_dependency_cycle,
}

abbrev IsDistinct : List String → Type 0
IsDistinct [] = Unit {0}
IsDistinct (x ∷ xs) = (includes String-discrete xs x ≡ false) × IsDistinct xs

not_included :
    (xs : List String) (x a : String)
    → includes String-discrete xs x ≡ false
    → x ≢ a
    → includes String-discrete (xs ++ a ∷ []) x ≡ false
not_included [] x a h ne = ground (arith, same_iff String-discrete a x)
not_included (y ∷ xs) x a h ne = ground (arith, not_included xs x a)

IsDistinct-append :
    (xs : List String) (a : String)
    → IsDistinct xs
    → includes String-discrete xs a ≡ false
    → IsDistinct (xs ++ a ∷ [])
IsDistinct-append [] a d h = (refl, tt)
IsDistinct-append (x ∷ xs) a d h = (
  not_included xs x a d.0 (ground (arith, h, same_iff String-discrete x a)),
  IsDistinct-append xs a d.1 (ground (arith, h)),
)

abbrev without : String → List String → List String
without a [] = []
without a (x ∷ xs) = if same String-discrete x a then xs else x ∷ without a xs

length-without :
    (a : String) (xs : List String)
    → includes String-discrete xs a ≡ true
    → length xs ≡ suc (length (without a xs))
length-without a [] h = absurd cc
length-without a (x ∷ xs) h = ground (arith, length-without a xs)

includes-without :
    (a x : String) (xs : List String)
    → includes String-discrete xs x ≡ true
    → x ≢ a
    → includes String-discrete (without a xs) x ≡ true
includes-without a x [] h ne = absurd cc
includes-without a x (y ∷ xs) h ne =
    ground
      (arith, includes-without a x xs, same_iff String-discrete y a, same_iff String-discrete y x)

-- What is kept of distinct ids of a list is of the rest.
others :
    (a : String) (xs ys : List String)
    → includes String-discrete xs a ≡ false
    → All (λ x. includes String-discrete ys x ≡ true) xs
    → All (λ x. includes String-discrete (without a ys) x ≡ true) xs
others a [] ys h all = tt
others a (x ∷ xs) ys h all = (
  includes-without a x ys all.0 (ground (arith, h, same_iff String-discrete x a)),
  others a xs ys (ground (arith, h)) all.1,
)

distinct_le :
    (xs ys : List String)
    → IsDistinct xs
    → All (λ x. includes String-discrete ys x ≡ true) xs
    → length xs ≤ length ys
distinct_le [] ys d all = omega arith
distinct_le (x ∷ xs) ys d all =
    omega (
      arith,
      length-without x ys all.0,
      distinct_le xs (without x ys) d.1 (others x xs ys d.0 all.1),
    )

go_on_returns :
    (r : Option Search) (k : List String → Option Search)
    → r ≢ none
    → ((u : List String) → k u ≢ none)
    → go_on r k ≢ none
go_on_returns none k h f = absurd (h refl)
go_on_returns (some (cycle c)) k h f = λ e. absurd cc
go_on_returns (some (searched u)) k h f = f u

search_each_returns :
    (visit : String → List String → Option Search) (stack ds done : List String)
    → ((d : String) (u : List String) → includes String-discrete stack d ≡ false → visit d u ≢ none)
    → search_each visit stack ds done ≢ none
unfolding search_each
search_each_returns visit stack [] done v = λ e. absurd cc
search_each_returns visit stack (d ∷ ds) done v =
    elim (Bool-cases (includes String-discrete stack d)) [
      | inl on_stack ↦ rw on_stack (λ e. absurd cc)
      | inr off_stack ↦ elim (Bool-cases (includes String-discrete done d)) [
        | inl there ↦ rw (off_stack, there) (search_each_returns visit stack ds done v)
        | inr new ↦
            rw (off_stack, new)
              (go_on_returns (visit d done) (search_each visit stack ds) (v d done off_stack)
                (λ u. search_each_returns visit stack ds u v))
      ]
    ]

search_all_returns :
    (visit : String → List String → Option Search) (ds done : List String)
    → ((d : String) (u : List String) → visit d u ≢ none)
    → search_all visit ds done ≢ none
unfolding search_all
search_all_returns visit [] done v = λ e. absurd cc
search_all_returns visit (d ∷ ds) done v = elim (Bool-cases (includes String-discrete done d)) [
  | inl there ↦ rw there (search_all_returns visit ds done v)
  | inr new ↦ rw new (
      go_on_returns (visit d done) (search_all visit ds) (v d done)
        (λ u. search_all_returns visit ds u v))
]

ids_included :
    {N : Type 0} (ss : List (Step N)) (id : String) (s : Step N)
    → find_step id ss ≡ some s
    → includes String-discrete (ids_of ss) id ≡ true
unfolding find_step
ids_included [] id s e = absurd cc
ids_included {N = N} (t ∷ ss) id s e = elim (Option-cases (find_step id ss)) [
  | inr (u, later) ↦ ground (arith, ids_included ss id u later)
  | inl missing ↦ elim (Bool-cases (same String-discrete t.id id)) [
    | inl here ↦ ground (arith, here)
    | inr other ↦
        let found : ◌≡◌ {A = Option (Step N)} none (some s) = rw (missing, other) at e in absurd cc
  ]
]

module _ {N : Type 0} (steps : List (Step N)) where
  -- A stack as the search has it.
  record IsStack (stack : List String) : Type 0 where
    pub distinct : IsDistinct stack
    pub of_steps : All (λ x. includes String-discrete (ids_of steps) x ≡ true) stack

  no_dependencies : (id : String) → find_step id steps ≡ none → dependencies steps id ≡ []
  no_dependencies id missing = rw (missing, dependencies) refl

  search_returns :
      (fuel : ℕ) (stack : List String) (id : String) (done : List String)
      → IsStack stack
      → includes String-discrete stack id ≡ false
      → length (ids_of steps) < length stack + fuel
      → search fuel steps stack id done ≢ none
  unfolding search search_each
  search_returns zero stack id done s new enough =
      absurd (omega (arith, enough, distinct_le stack (ids_of steps) s.distinct s.of_steps))
  search_returns (suc fuel) stack id done s new enough = elim (Option-cases (find_step id steps)) [
    | inl missing ↦
        subst
          (λ ds.
            go_on (search_each (search fuel steps (stack ++ id ∷ [])) (stack ++ id ∷ []) ds done)
              (λ u. some (searched (id ∷ u)))
            ≢ none)
          (sym (no_dependencies id missing)) (λ e. absurd cc)
    | inr (t, found) ↦
        go_on_returns _ _
          (search_each_returns (search fuel steps (stack ++ id ∷ [])) (stack ++ id ∷ [])
            (dependencies steps id) done
            (λ d u off.
              search_returns fuel (stack ++ id ∷ []) d u
                (record {
                  distinct = IsDistinct-append stack id s.distinct new;
                  of_steps =
                      All-append (λ x. includes String-discrete (ids_of steps) x ≡ true) stack
                        (id ∷ []) s.of_steps (ids_included steps id t found, tt);
                })
                off (omega (arith, enough, length-append stack (id ∷ [])))))
          (λ u e. absurd cc)
  ]

  -- With more fuel than there are steps the search always answers.
  pub find_dependency_cycle_returns :
      (fuel : ℕ) → length (ids_of steps) < fuel → find_dependency_cycle fuel steps ≢ none
  unfolding find_dependency_cycle
  find_dependency_cycle_returns fuel enough =
      search_all_returns (search fuel steps []) (ids_of steps) [] (λ d u.
        search_returns fuel [] d u (record { distinct = tt; of_steps = tt }) refl
          (omega (arith, enough)))
