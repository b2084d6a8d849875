-- ===== src/Executor/PlaybookSchema/Issues.antt =====
-- packages/core/src/schemas/playbook.ts: when each check of the schema has no issue, the cycle search aside.
use rote.Prelude.{
  ◌≤◌, String, Option, some, Bool, true, false, not, List, [], ◌∷◌, ◌++◌, same_iff, includes,
  length, select, String-discrete, ◌≡◌, ◌↔◌, refl, All, arith, ltb,
}
use rote.Executor.Playbook.{Step}
use rote.Executor.TopoOrder.{ids_of}
use rote.Executor.PlaybookSchema.{
  Issue, issue_if, duplicate_step, unknown_dependency, too_many_judgments, undeclared_param,
  unknown_of, unknown_issues, undeclared_of, duplicate_issues, judgment_issues, is_judgment,
}

-- No two steps have one id.
abbrev pub HasDistinctIds : List String → Type 0
HasDistinctIds [] = Unit {0}
HasDistinctIds (x ∷ xs) = (includes String-discrete xs x ≡ false) × HasDistinctIds xs

pub some_injective : {A : Type 0} (x y : A) → ◌≡◌ {A = Option A} (some x) (some y) → x ≡ y
some_injective x y e = cc

pub nil-append_iff : {A : Type 0} (xs ys : List A) → (xs ++ ys ≡ []) ↔ ((xs ≡ []) × (ys ≡ []))
nil-append_iff [] ys = (λ e. (refl, e), λ (_, e). e)
nil-append_iff (x ∷ xs) ys = (λ e. absurd cc, λ (e, _). absurd cc)

issue_if_iff : (b : Bool) (i : Issue) → (issue_if b i ≡ []) ↔ (b ≡ false)
issue_if_iff true i = (λ e. absurd cc, λ e. absurd cc)
issue_if_iff false i = (λ _. refl, λ _. refl)

unknown_of_iff :
    (ids : List String) (id : String) (ds : List String)
    → (unknown_of ids id ds ≡ []) ↔ All (λ d. includes String-discrete ids d ≡ true) ds
unknown_of_iff ids id [] = (λ _. tt, λ _. refl)
unknown_of_iff ids id (d ∷ ds) =
    let split =
      nil-append_iff (issue_if (not (includes String-discrete ids d)) (unknown_dependency id d))
        (unknown_of ids id ds) in
    let one = issue_if_iff (not (includes String-discrete ids d)) (unknown_dependency id d) in
    let rest = unknown_of_iff ids id ds in
    (
      λ e. let (a, b) = split.0 e in (ground (arith, one.0 a), rest.0 b),
      λ (a, b). split.1 (one.1 (ground (arith, a)), rest.1 b),
    )

pub undeclared_of_iff :
    (known : String → Bool) (names : List String)
    → (undeclared_of known names ≡ []) ↔ All (λ n. known n ≡ true) names
undeclared_of_iff known [] = (λ _. tt, λ _. refl)
undeclared_of_iff known (n ∷ ns) =
    let split =
      nil-append_iff (issue_if (not (known n)) (undeclared_param n)) (undeclared_of known ns) in
    let one = issue_if_iff (not (known n)) (undeclared_param n) in
    let rest = undeclared_of_iff known ns in
    (
      λ e. let (a, b) = split.0 e in (ground (arith, one.0 a), rest.0 b),
      λ (a, b). split.1 (one.1 (ground (arith, a)), rest.1 b),
    )

-- None of the ids was seen.
abbrev pub AreNew : List String → List String → Type 0
AreNew seen ids = All (λ i. includes String-discrete seen i ≡ false) ids

AreNew-later :
    (x : String) (seen ids : List String)
    → AreNew (x ∷ seen) ids ↔ ((includes String-discrete ids x ≡ false) × AreNew seen ids)
AreNew-later x seen [] = (λ _. (refl, tt), λ _. tt)
AreNew-later x seen (i ∷ ids) =
    let rest = AreNew-later x seen ids in
    (
      λ (a, b). (
        ground (arith, a, (rest.0 b).0, same_iff String-discrete x i, same_iff String-discrete i x),
        (ground (arith, a), (rest.0 b).1),
      ),
      λ (a, (b, c)). (
        ground (arith, a, b, same_iff String-discrete x i, same_iff String-discrete i x),
        rest.1 (ground (arith, a), c),
      ),
    )

module _ {N : Type 0} where
  pub duplicate_issues_iff :
      (seen : List String) (ss : List (Step N))
      → (duplicate_issues seen ss ≡ []) ↔ (HasDistinctIds (ids_of ss) × AreNew seen (ids_of ss))
  unfolding duplicate_issues
  duplicate_issues_iff seen [] = (λ _. (tt, tt), λ _. refl)
  duplicate_issues_iff seen (s ∷ ss) =
      let split =
        nil-append_iff (issue_if (includes String-discrete seen s.id) (duplicate_step s.id))
          (duplicate_issues (s.id ∷ seen) ss) in
      let one = issue_if_iff (includes String-discrete seen s.id) (duplicate_step s.id) in
      let rest = duplicate_issues_iff (s.id ∷ seen) ss in
      let later = AreNew-later s.id seen (ids_of ss) in
      (
        λ e.
            let (a, b) = split.0 e in
            let (d, n) = rest.0 b in let (fresh, old) = later.0 n in ((fresh, d), (one.0 a, old)),
        λ ((fresh, d), (a, old)). split.1 (one.1 a, rest.1 (d, later.1 (fresh, old))),
      )

  pub unknown_issues_iff :
      (ids : List String) (ss : List (Step N))
      → (unknown_issues ids ss ≡ [])
        ↔ All (λ s. All (λ d. includes String-discrete ids d ≡ true) s.depends_on) ss
  unfolding unknown_issues
  unknown_issues_iff ids [] = (λ _. tt, λ _. refl)
  unknown_issues_iff ids (s ∷ ss) =
      let split = nil-append_iff (unknown_of ids s.id s.depends_on) (unknown_issues ids ss) in
      let one = unknown_of_iff ids s.id s.depends_on in
      let rest = unknown_issues_iff ids ss in
      (λ e. let (a, b) = split.0 e in (one.0 a, rest.0 b), λ (a, b). split.1 (one.1 a, rest.1 b))

  pub judgment_issues_iff :
      (ss : List (Step N)) → (judgment_issues ss ≡ []) ↔ (length (select is_judgment ss) ≤ 2)
  unfolding judgment_issues
  judgment_issues_iff ss =
      let n = length (select is_judgment ss) in
      let one = issue_if_iff (ltb 2 n) (too_many_judgments n) in
      (λ e. ground (arith, one.0 e), λ h. one.1 (ground (arith, h)))
