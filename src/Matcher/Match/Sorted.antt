-- ===== src/Matcher/Match/Sorted.antt =====
-- packages/matcher/src/match.ts: what holds of all candidates survives the sort and the filters.
use rote.Prelude.{
  Bool, false, List, [], ◌∷◌, map, select, ◌≡◌, ◌↔◌, refl, All, All-map, Bool-cases, inl, inr,
}
use rote.Core.Evidence.Satisfied.{Some}
use rote.Matcher.Match.{ScoredCandidate, MatchHost, comes_first, insert, sort}

module _ {A : Type 0} where
  pub select_nil : (q : A → Bool) (xs : List A) → select q xs ≡ [] → All (λ x. q x ≡ false) xs
  select_nil q [] e = tt
  select_nil q (x ∷ xs) e = elim (Bool-cases (q x)) [
    | inl t ↦ let kept : x ∷ select q xs ≡ [] = rw t at e in absurd cc
    | inr f ↦ (f, select_nil q xs (rw f at e))
  ]

  -- Each element is one of the list.
  pub All-Some : (xs : List A) → All (λ x. Some (λ y. y ≡ x) xs) xs
  All-Some [] = tt
  All-Some (x ∷ xs) = (
    inl refl,
    All-map (λ z. Some (λ y. y ≡ z) xs) (λ z. Some (λ y. y ≡ z) (x ∷ xs)) (λ z s. inr s) xs
        (All-Some xs),
  )

  pub All-of_map :
      {B : Type 0} (P : B → Type 0) (f : A → B) (xs : List A)
      → All P (map f xs) ↔ All (λ x. P (f x)) xs
  All-of_map P f [] = (λ _. tt, λ _. tt)
  All-of_map P f (x ∷ xs) =
      let rest = All-of_map P f xs in (λ (a, b). (a, rest.0 b), λ (a, b). (a, rest.1 b))

module _ {N : Type 0} (h : MatchHost N) where
  All-insert :
      (P : ScoredCandidate N → Type 0) (c : ScoredCandidate N) (ds : List (ScoredCandidate N))
      → All P (insert h c ds) ↔ All P (c ∷ ds)
  unfolding insert
  All-insert P c [] = (λ a. a, λ a. a)
  All-insert P c (d ∷ ds) = elim (Bool-cases (comes_first h c d)) [
    | inl first ↦ rw first (λ a. a, λ a. a)
    | inr later ↦
        let rest = All-insert P c ds in
        rw later (λ (a, b). let (x, y) = rest.0 b in (x, (a, y)), λ (x, (a, y)). (a, rest.1 (x, y)))
  ]

  pub All-sort :
      (P : ScoredCandidate N → Type 0) (cs : List (ScoredCandidate N))
      → All P (sort h cs) ↔ All P cs
  unfolding sort
  All-sort P [] = (λ a. a, λ a. a)
  All-sort P (c ∷ cs) =
      let one = All-insert P c (sort h cs) in
      let rest = All-sort P cs in
      (λ a. let (x, y) = one.0 a in (x, rest.0 y), λ (x, y). one.1 (x, rest.1 y))
