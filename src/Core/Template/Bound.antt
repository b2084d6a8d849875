-- ===== src/Core/Template/Bound.antt =====
-- packages/core/src/template.ts: which templates render.
use rote.Prelude.{
  ℕ, zero, suc, ◌+◌, String, Option, some, none, Bool, true, false, ◌&&◌, List, [], ◌∷◌, ◌++◌, same,
  same_iff, ◌==◌, ==_iff, includes, String-discrete, if◌then◌else◌, ◌≡◌, refl, sym, ap, ◌∙◌, arith,
  Bool-cases, Option-cases, inl, inr, ltb,
}
use rote.Executor.Json.{
  Json, null, boolean, number, string, array, object, Items, no_item, item, Fields, no_field, field,
}
use rote.Executor.Attempt.{Bindings}
use rote.Core.Template.{
  size, reference_at, Segment, character, reference, segments, sole_reference, is_escaped, add_ref,
  add_segments, add_refs, find_binding, map_option, render_reference, render_segments,
  render_string, render_template, render_items, render_fields, walk_strings, walk_items,
  walk_fields, extract_param_refs, binding_value, show_binding,
}

abbrev pub is_some : {A : Type 0} → Option A → Bool
is_some none = false
is_some (some a) = true

abbrev pub every : (String → Bool) → List String → Bool
every p [] = true
every p (x ∷ xs) = p x && every p xs

abbrev pub is_bound : {N : Type 0} → Bindings N → String → Bool
is_bound bs name = is_some (find_binding name bs)

is_some-map_option :
    {A B : Type 0} (f : A → B) (o : Option A) → is_some (map_option f o) ≡ is_some o
is_some-map_option f none = refl
is_some-map_option f (some a) = refl

every-includes :
    (p : String → Bool) (xs : List String) (n : String)
    → includes String-discrete xs n ≡ true
    → (every p xs && p n) ≡ every p xs
every-includes p [] n h = absurd cc
every-includes p (x ∷ xs) n h = elim (Bool-cases (same String-discrete x n)) [
  | inl e ↦
      let same_name : x ≡ n = (same_iff String-discrete x n).0 e in ground (arith, ap p same_name)
  | inr e ↦ ground (arith, every-includes p xs n (rw e at h))
]

every-append :
    (p : String → Bool) (xs : List String) (n : String)
    → every p (xs ++ n ∷ []) ≡ (every p xs && p n)
every-append p [] n = ground arith
every-append p (x ∷ xs) n = ground (arith, every-append p xs n)

every-add_ref :
    (p : String → Bool) (xs : List String) (n : String)
    → every p (add_ref xs n) ≡ (every p xs && p n)
every-add_ref p xs n = elim (Bool-cases (includes String-discrete xs n)) [
  | inl e ↦ rw e (sym (every-includes p xs n e))
  | inr e ↦ rw e (every-append p xs n)
]

and_assoc : (a b c : Bool) → ((a && b) && c) ≡ (a && (b && c))
and_assoc a b c = ground arith

-- A reference that skips the whole text leaves nothing.
segments_skipped : (n : ℕ) (s : String) → size s ≡ n → segments n 0 s ≡ []
unfolding segments
segments_skipped n String.[] e = refl
segments_skipped zero (String.◌∷◌ c s) e = absurd (omega arith)
segments_skipped (suc n) (String.◌∷◌ c s) e = segments_skipped n s (omega arith)

pub sole_segments :
    (s name : String) → sole_reference s ≡ some name → segments 0 0 s ≡ reference 0 name ∷ []
unfolding sole_reference segments
sole_segments String.[] name e = absurd cc
sole_segments (String.◌∷◌ c s) name e = elim (Option-cases (reference_at (String.◌∷◌ c s))) [
  | inl missing ↦ let found : none ≡ some name = rw (missing, sole_reference) at e in absurd cc
  | inr (m, there) ↦ elim (Bool-cases (suc (size s) == size m + 4)) [
    | inl whole ↦
        let same_name : m ≡ name = cc (rw (there, whole, sole_reference) at e) in
        rw (there, segments)
          (ap (λ r. reference 0 m ∷ r)
              (segments_skipped (size m + 3) s
                (omega (arith, (==_iff (suc (size s)) (size m + 4)).0 whole)))
            ∙ ap (λ n. reference 0 n ∷ []) same_name)
    | inr part ↦ let found : none ≡ some name = rw (there, part, sole_reference) at e in absurd cc
  ]
]

not_escaped : (version : ℕ) → is_escaped version 0 ≡ false
unfolding is_escaped
not_escaped version = elim (Bool-cases (ltb version 2)) [ inl e ↦ rw e refl | inr e ↦ rw e refl ]

module _ {N : Type 0} (show : N → String) (version : ℕ) (bs : Bindings N) where
  -- What comes of a reference that is not escaped.
  is_some-reference :
      (k : ℕ) (name : String) (refs : List String)
      → every (is_bound bs) (if is_escaped version k then refs else add_ref refs name)
        ≡ (every (is_bound bs) refs && is_some (render_reference show version bs k name))
  is_some-reference k name refs = elim (Bool-cases (is_escaped version k)) [
    | inl e ↦ rw e (ground arith)
    | inr e ↦ rw e (
        ground (
          arith,
          every-add_ref (is_bound bs) refs name,
          is_some-map_option (show_binding show) (find_binding name bs),
        ))
  ]

  is_some-segments :
      (k : ℕ) (name : String) (ss : List Segment)
      → is_some (render_segments show version bs (reference k name ∷ ss)) ≡ (
          is_some (render_reference show version bs k name)
          && is_some (render_segments show version bs ss))
  unfolding render_segments
  is_some-segments k name ss = elim (Option-cases (render_reference show version bs k name)) [
    | inl e ↦ rw (e, render_segments) refl
    | inr (t, e) ↦
        rw (e, render_segments) (is_some-map_option _ (render_segments show version bs ss))
  ]

  every-add_segments :
      (ss : List Segment) (refs : List String)
      → every (is_bound bs) (add_segments version ss refs)
        ≡ (every (is_bound bs) refs && is_some (render_segments show version bs ss))
  unfolding render_segments
  every-add_segments [] refs = ground arith
  every-add_segments (character c ∷ ss) refs = ground (
    arith,
    every-add_segments ss refs,
    is_some-map_option (String.◌∷◌ c) (render_segments show version bs ss),
  )
  every-add_segments (reference k name ∷ ss) refs = ground (
    arith,
    every-add_segments ss (if is_escaped version k then refs else add_ref refs name),
    is_some-reference k name refs,
    is_some-segments k name ss,
  )

  every-add_refs :
      (s : String) (refs : List String)
      → every (is_bound bs) (add_refs version s refs)
        ≡ (every (is_bound bs) refs && is_some (render_string show version bs s))
  unfolding add_refs render_string
  every-add_refs s refs = elim (Option-cases (sole_reference s)) [
    | inl e ↦
        rw (e, render_string)
          (every-add_segments (segments 0 0 s) refs
            ∙ ap (λ b. every (is_bound bs) refs && b)
                (sym
                  (is_some-map_option string (render_segments show version bs (segments 0 0 s)))))
    | inr (name, e) ↦
        rw (e, render_string, sole_segments s name e, not_escaped version)
          (every-add_ref (is_bound bs) refs name
            ∙ ap (λ b. every (is_bound bs) refs && b)
                (sym (is_some-map_option binding_value (find_binding name bs))))
  ]

  mutual
    unfolding render_template walk_strings

    every-walk_strings :
        (j : Json N) (refs : List String)
        → every (is_bound bs) (walk_strings version j refs)
          ≡ (every (is_bound bs) refs && is_some (render_template show version bs j))
    every-walk_strings (string s) refs = every-add_refs s refs
    every-walk_strings (array is) refs =
        every-walk_items is refs
        ∙ ap (λ b. every (is_bound bs) refs && b)
            (sym (is_some-map_option array (render_items show version bs is)))
    every-walk_strings (object fs) refs =
        every-walk_fields fs refs
        ∙ ap (λ b. every (is_bound bs) refs && b)
            (sym (is_some-map_option object (render_fields show version bs fs)))
    every-walk_strings null refs = ground arith
    every-walk_strings (boolean b) refs = ground arith
    every-walk_strings (number n) refs = ground arith

    every-walk_items :
        (is : Items N) (refs : List String)
        → every (is_bound bs) (walk_items version is refs)
          ≡ (every (is_bound bs) refs && is_some (render_items show version bs is))
    every-walk_items no_item refs = ground arith
    every-walk_items (item j is) refs = elim (Option-cases (render_template show version bs j)) [
      | inl e ↦
          rw (e, render_items)
            (ground (
              arith,
              every-walk_items is (walk_strings version j refs),
              every-walk_strings j refs,
              ap is_some e,
            ))
      | inr (u, e) ↦
          rw (e, render_items)
            (ground (
              arith,
              every-walk_items is (walk_strings version j refs),
              every-walk_strings j refs,
              ap is_some e,
              is_some-map_option (item u) (render_items show version bs is),
            ))
    ]

    every-walk_fields :
        (fs : Fields N) (refs : List String)
        → every (is_bound bs) (walk_fields version fs refs)
          ≡ (every (is_bound bs) refs && is_some (render_fields show version bs fs))
    every-walk_fields no_field refs = ground arith
    every-walk_fields (field k j fs) refs =
        elim (Option-cases (render_template show version bs j)) [
          | inl e ↦
              rw (e, render_fields)
                (ground (
                  arith,
                  every-walk_fields fs (walk_strings version j refs),
                  every-walk_strings j refs,
                  ap is_some e,
                ))
          | inr (u, e) ↦
              rw (e, render_fields)
                (ground (
                  arith,
                  every-walk_fields fs (walk_strings version j refs),
                  every-walk_strings j refs,
                  ap is_some e,
                  is_some-map_option (field k u) (render_fields show version bs fs),
                ))
        ]

  -- A template renders exactly where each reference that `extractParamRefs` collects from it has a
  -- bound value: no reference is missed, and no escaped one needs a value.
  pub render-extract :
      (j : Json N)
      → is_some (render_template show version bs j)
        ≡ every (is_bound bs) (extract_param_refs version j)
  unfolding extract_param_refs
  render-extract j = sym (every-walk_strings j [])
