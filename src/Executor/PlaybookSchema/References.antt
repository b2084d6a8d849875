-- ===== src/Executor/PlaybookSchema/References.antt =====
-- packages/core/src/schemas/playbook.ts: the references that the check of the parameters reads, text by
-- text, and the names that are declared.
use rote.Prelude.{
  ℕ, String, Option, some, none, Bool, true, false, List, [], ◌∷◌, ◌++◌, ◌||◌, same, same_iff,
  includes, String-discrete, ◌≡◌, ◌↔◌, ◌⊎◌, inl, inr, refl, All, All-map, Bool-cases, subst,
}
use rote.Core.Evidence.Satisfied.{Some}
use rote.Core.Template.{
  Segment, character, reference, segments, is_escaped, add_ref, add_segments, add_refs,
  walk_strings, walk_items, walk_fields,
}
use rote.Executor.Json.{
  Json, null, boolean, number, string, array, object, Items, no_item, item, Fields, no_field, field,
}
use rote.Executor.Playbook.{
  Expect, exit_code, selector_visible, selector_absent, input_value, url_contains, text_visible,
  json_path_exists, json_path_equals, output_matches, nonempty, Step, StepKind, deterministic, slot,
  judgment, Playbook, Param,
}
use rote.Executor.PlaybookSchema.{
  add_texts, bound_by, computed_bindings, names_of, optional_refs, expect_refs, kind_refs,
  guard_refs, step_refs, steps_refs, verify_refs, referenced, is_declared,
}

-- Each reference of a text that is not escaped names something that has the property.
module _ (P : String → Type 0) (v : ℕ) where
  abbrev pub InSegments : List Segment → Type 0
  InSegments [] = Unit
  InSegments (character c ∷ ss) = InSegments ss
  InSegments (reference k name ∷ ss) = (is_escaped v k ≡ false → P name) × InSegments ss

  pub InText : String → Type 0
  InText s = InSegments (segments 0 0 s)

  module _ {N : Type 0} where
    mutual
      pub InJson : Json N → Type 0
      InJson (string s) = InText s
      InJson (array is) = InItems is
      InJson (object fs) = InFields fs
      InJson null = Unit
      InJson (boolean b) = Unit
      InJson (number n) = Unit

      pub InItems : Items N → Type 0
      InItems no_item = Unit
      InItems (item j is) = InJson j × InItems is

      pub InFields : Fields N → Type 0
      InFields no_field = Unit
      InFields (field k j fs) = InJson j × InFields fs

    abbrev pub InOptional : Option (Json N) → Type 0
    InOptional none = Unit
    InOptional (some j) = InJson j

    abbrev pub InExpect : Expect N → Type 0
    InExpect (exit_code n) = Unit
    InExpect (selector_visible s) = InText s
    InExpect (selector_absent s) = InText s
    InExpect (input_value s e) = InText s × InText e
    InExpect (url_contains s) = InText s
    InExpect (text_visible s) = InText s
    InExpect (json_path_exists s) = InText s
    InExpect (json_path_equals p e) = InText p × InOptional e
    InExpect (output_matches s) = InText s
    InExpect nonempty = Unit

    abbrev pub InKind : StepKind N → Type 0
    InKind (deterministic tool args) = InText tool × InJson args
    InKind (slot prompt max_tokens into) = InText prompt × InText into
    InKind (judgment prompt options) = InText prompt × All InText options

    abbrev pub InGuard : Option (Expect N) → Type 0
    InGuard none = Unit
    InGuard (some e) = InExpect e

    abbrev pub InStep : Step N → Type 0
    InStep s = ((InText s.id × All InText s.depends_on) × InGuard s.expect) × InKind s.kind

  -- A walk that appends references: all have the property exactly when the texts it reads are in order.
  abbrev Adds : Type 0 → (List String → List String) → Type 0
  Adds Q f = (refs : List String) → All P (f refs) ↔ (Q × All P refs)

  nothing-Adds : Adds Unit (λ refs. refs)
  nothing-Adds refs = (λ h. (tt, h), λ h. h.1)

  Adds-trans :
      {Q R : Type 0} (f g : List String → List String)
      → Adds Q f
      → Adds R g
      → Adds (Q × R) (λ refs. g (f refs))
  Adds-trans f g a b refs = (
    λ h. let (r, first) = (b (f refs)).0 h in let (q, rest) = (a refs).0 first in ((q, r), rest),
    λ h. (b (f refs)).1 (h.0.1, (a refs).1 (h.0.0, h.1)),
  )

  All-snoc :
      (refs : List String) (name : String) → All P (refs ++ name ∷ []) ↔ (P name × All P refs)
  All-snoc [] name = (λ h. h, λ h. h)
  All-snoc (r ∷ refs) name = (
    λ h. let (p, rest) = (All-snoc refs name).0 h.1 in (p, (h.0, rest)),
    λ h. (h.1.0, (All-snoc refs name).1 (h.0, h.1.1)),
  )

  included :
      (refs : List String) (name : String)
      → includes String-discrete refs name ≡ true
      → All P refs
      → P name
  included [] name e h = absurd cc
  included (r ∷ refs) name e h = elim (Bool-cases (same String-discrete r name)) [
    | inl t ↦ subst P ((same_iff String-discrete r name).0 t) h.0
    | inr f ↦ included refs name (rw f at e) h.1
  ]

  add_ref-Adds : (name : String) → Adds (P name) (λ refs. add_ref refs name)
  add_ref-Adds name refs = elim (Bool-cases (includes String-discrete refs name)) [
    | inl e ↦ rw e (λ h. (included refs name e h, h), λ h. h.1)
    | inr e ↦ rw e (All-snoc refs name)
  ]

  add_segments-Adds : (ss : List Segment) → Adds (InSegments ss) (add_segments v ss)
  add_segments-Adds [] refs = nothing-Adds refs
  add_segments-Adds (character c ∷ ss) refs = add_segments-Adds ss refs
  add_segments-Adds (reference k name ∷ ss) refs = elim (Bool-cases (is_escaped v k)) [
    | inl e ↦ rw e (
      λ h. let (q, rest) = (add_segments-Adds ss refs).0 h in (((λ x. absurd cc), q), rest),
      λ h. (add_segments-Adds ss refs).1 (h.0.1, h.1),
    )
    | inr e ↦ rw e (
      λ h.
          let (q, first) = (add_segments-Adds ss (add_ref refs name)).0 h in
          let (p, rest) = (add_ref-Adds name refs).0 first in (((λ x. p), q), rest),
      λ h.
          (add_segments-Adds ss (add_ref refs name)).1
            (h.0.1, (add_ref-Adds name refs).1 (h.0.0 refl, h.1)),
    )
  ]

  add_refs-Adds : (t : String) → Adds (InText t) (add_refs v t)
  unfolding add_refs InText
  add_refs-Adds t = add_segments-Adds (segments 0 0 t)

  add_texts-Adds : (ts : List String) → Adds (All InText ts) (add_texts v ts)
  add_texts-Adds [] = nothing-Adds
  add_texts-Adds (t ∷ ts) =
      Adds-trans (add_refs v t) (add_texts v ts) (add_refs-Adds t) (add_texts-Adds ts)

  module _ {N : Type 0} where
    mutual
      unfolding walk_strings InJson

      walk_strings-Adds : (j : Json N) → Adds (InJson j) (walk_strings v j)
      walk_strings-Adds (string s) = add_refs-Adds s
      walk_strings-Adds (array is) = walk_items-Adds is
      walk_strings-Adds (object fs) = walk_fields-Adds fs
      walk_strings-Adds null = nothing-Adds
      walk_strings-Adds (boolean b) = nothing-Adds
      walk_strings-Adds (number n) = nothing-Adds

      walk_items-Adds : (is : Items N) → Adds (InItems is) (walk_items v is)
      walk_items-Adds no_item = nothing-Adds
      walk_items-Adds (item j is) =
          Adds-trans (walk_strings v j) (walk_items v is) (walk_strings-Adds j) (walk_items-Adds is)

      walk_fields-Adds : (fs : Fields N) → Adds (InFields fs) (walk_fields v fs)
      walk_fields-Adds no_field = nothing-Adds
      walk_fields-Adds (field k j fs) =
          Adds-trans (walk_strings v j) (walk_fields v fs) (walk_strings-Adds j)
            (walk_fields-Adds fs)

    optional_refs-Adds : (o : Option (Json N)) → Adds (InOptional o) (optional_refs v o)
    optional_refs-Adds none = nothing-Adds
    optional_refs-Adds (some j) = walk_strings-Adds j

    expect_refs-Adds : (e : Expect N) → Adds (InExpect e) (expect_refs v e)
    expect_refs-Adds (exit_code n) = nothing-Adds
    expect_refs-Adds (selector_visible s) = add_refs-Adds s
    expect_refs-Adds (selector_absent s) = add_refs-Adds s
    expect_refs-Adds (input_value s e) =
        Adds-trans (add_refs v s) (add_refs v e) (add_refs-Adds s) (add_refs-Adds e)
    expect_refs-Adds (url_contains s) = add_refs-Adds s
    expect_refs-Adds (text_visible s) = add_refs-Adds s
    expect_refs-Adds (json_path_exists s) = add_refs-Adds s
    expect_refs-Adds (json_path_equals p e) =
        Adds-trans (add_refs v p) (optional_refs v e) (add_refs-Adds p) (optional_refs-Adds e)
    expect_refs-Adds (output_matches s) = add_refs-Adds s
    expect_refs-Adds nonempty = nothing-Adds

    kind_refs-Adds : (k : StepKind N) → Adds (InKind k) (kind_refs v k)
    kind_refs-Adds (deterministic tool args) =
        Adds-trans (add_refs v tool) (walk_strings v args) (add_refs-Adds tool)
          (walk_strings-Adds args)
    kind_refs-Adds (slot prompt max_tokens into) =
        Adds-trans (add_refs v prompt) (add_refs v into) (add_refs-Adds prompt) (add_refs-Adds into)
    kind_refs-Adds (judgment prompt options) =
        Adds-trans (add_refs v prompt) (add_texts v options) (add_refs-Adds prompt)
          (add_texts-Adds options)

    guard_refs-Adds : (o : Option (Expect N)) → Adds (InGuard o) (guard_refs v o)
    guard_refs-Adds none = nothing-Adds
    guard_refs-Adds (some e) = expect_refs-Adds e

    step_refs-Adds : (s : Step N) → Adds (InStep s) (step_refs v s)
    step_refs-Adds s =
        let named =
          Adds-trans (add_refs v s.id) (add_texts v s.depends_on) (add_refs-Adds s.id)
            (add_texts-Adds s.depends_on) in
        let guarded =
          Adds-trans (λ refs. add_texts v s.depends_on (add_refs v s.id refs))
            (guard_refs v s.expect) named (guard_refs-Adds s.expect) in
        Adds-trans (λ refs. guard_refs v s.expect (add_texts v s.depends_on (add_refs v s.id refs)))
          (kind_refs v s.kind) guarded (kind_refs-Adds s.kind)

    steps_refs-Adds : (ss : List (Step N)) → Adds (All InStep ss) (steps_refs v ss)
    steps_refs-Adds [] = nothing-Adds
    steps_refs-Adds (s ∷ ss) =
        Adds-trans (step_refs v s) (steps_refs v ss) (step_refs-Adds s) (steps_refs-Adds ss)

    verify_refs-Adds : (es : List (Expect N)) → Adds (All InExpect es) (verify_refs v es)
    verify_refs-Adds [] = nothing-Adds
    verify_refs-Adds (e ∷ es) =
        Adds-trans (expect_refs v e) (verify_refs v es) (expect_refs-Adds e) (verify_refs-Adds es)

or_iff : {A B : Type 0} (a b : Bool) → (a ≡ true) ↔ A → (b ≡ true) ↔ B → ((a || b) ≡ true) ↔ (A ⊎ B)
or_iff true b f g = (λ h. inl (f.0 refl), λ h. refl)
or_iff false b f g = (λ h. inr (g.0 h), λ h. elim h [ inl x ↦ absurd (cc (f.1 x)) | inr x ↦ g.1 x ])

params_iff :
    (name : String) (ps : List Param)
    → (includes String-discrete (names_of ps) name ≡ true) ↔ Some (λ q. q.name ≡ name) ps
params_iff name [] = (λ h. absurd cc, λ h. absurd h)
params_iff name (q ∷ ps) =
    or_iff (same String-discrete q.name name) (includes String-discrete (names_of ps) name)
      (same_iff String-discrete q.name name) (params_iff name ps)

module _ {N : Type 0} where
  -- A step binds a name at replay: a slot the one it is to fill, a judgment its own id.
  abbrev pub Binds : String → String → StepKind N → Type 0
  Binds name id (deterministic tool args) = ⊥
  Binds name id (slot prompt max_tokens into) = into ≡ name
  Binds name id (judgment prompt options) = id ≡ name

  bound_iff :
      {B : Type 0} (name id : String) (k : StepKind N) (others : List String)
      → (includes String-discrete others name ≡ true) ↔ B
      → (includes String-discrete (bound_by id k ++ others) name ≡ true) ↔ (Binds name id k ⊎ B)
  bound_iff name id (deterministic tool args) others f =
      (λ h. inr (f.0 h), λ h. elim h [ inl x ↦ absurd x | inr x ↦ f.1 x ])
  bound_iff name id (slot prompt max_tokens into) others f =
      or_iff (same String-discrete into name) (includes String-discrete others name)
        (same_iff String-discrete into name) f
  bound_iff name id (judgment prompt options) others f =
      or_iff (same String-discrete id name) (includes String-discrete others name)
        (same_iff String-discrete id name) f

  computed_iff :
      (name : String) (ss : List (Step N))
      → (includes String-discrete (computed_bindings ss) name ≡ true)
        ↔ Some (λ s. Binds name s.id s.kind) ss
  computed_iff name [] = (λ h. absurd cc, λ h. absurd h)
  computed_iff name (s ∷ ss) =
      bound_iff name s.id s.kind (computed_bindings ss) (computed_iff name ss)

module _ {N : Type 0} (p : Playbook N) where
  -- The references of all texts of the steps and of the verification.
  referenced_iff :
      (P : String → Type 0)
      → All P (referenced p)
        ↔ (All (InStep P p.version) p.steps × All (InExpect P p.version) p.verify)
  unfolding referenced
  referenced_iff P =
      let adds =
        Adds-trans P p.version (steps_refs p.version p.steps) (verify_refs p.version p.verify)
          (steps_refs-Adds P p.version p.steps) (verify_refs-Adds P p.version p.verify) [] in
      (λ h. (adds.0 h).0, λ h. adds.1 (h, tt))

  -- A name is a parameter's, or a step binds it.
  abbrev pub IsDeclared : String → Type 0
  IsDeclared name = Some (λ q. q.name ≡ name) p.params ⊎ Some (λ s. Binds name s.id s.kind) p.steps

  IsDeclared-iff : (name : String) → (is_declared p name ≡ true) ↔ IsDeclared name
  IsDeclared-iff name =
      or_iff (includes String-discrete (names_of p.params) name)
        (includes String-discrete (computed_bindings p.steps) name) (params_iff name p.params)
        (computed_iff name p.steps)

  pub references_iff :
      All (λ name. is_declared p name ≡ true) (referenced p)
      ↔ (All (InStep IsDeclared p.version) p.steps × All (InExpect IsDeclared p.version) p.verify)
  references_iff = (
    λ h.
        (referenced_iff IsDeclared).0
          (All-map _ IsDeclared (λ n. (IsDeclared-iff n).0) (referenced p) h),
    λ h.
        All-map IsDeclared _ (λ n. (IsDeclared-iff n).1) (referenced p)
          ((referenced_iff IsDeclared).1 h),
  )
