-- ===== src/Executor/TopoOrder/Found.antt =====
-- packages/executor/src/topo-order.ts: what a look-up by id finds.
use rote.Prelude.{
  String, Option, some, Bool, true, false, List, [], ◌∷◌, same, same_iff, String-discrete, ◌≡◌,
  refl, subst, inl, inr, All, Option-cases, if◌then◌else◌,
}
use rote.Executor.Playbook.{Step}
use rote.Executor.TopoOrder.{find_step}

module _ {N : Type 0} where
  if_some :
      (b : Bool) (s u : Step N)
      → (if b then some s else Option.none) ≡ some u
      → (b ≡ true) × (s ≡ u)
  if_some true s u e = (refl, cc)
  if_some false s u e = absurd cc

  -- The step that is found is one of the list, and it has the id.
  pub find_step-All :
      (P : Step N → Type 0) (ss : List (Step N)) (id : String) (u : Step N)
      → All P ss
      → find_step id ss ≡ some u
      → P u × (u.id ≡ id)
  unfolding find_step
  find_step-All P [] id u h e = absurd cc
  find_step-All P (s ∷ ss) id u h e = elim (Option-cases (find_step id ss)) [
    | inl missing ↦
        let (same_id, same_step) = if_some (same String-discrete s.id id) s u (rw missing at e) in
        subst (λ v. P v × (v.id ≡ id)) same_step (h.0, (same_iff String-discrete s.id id).0 same_id)
    | inr (v, found) ↦ let one : some v ≡ some u = rw found at e in find_step-All P ss id u h.1 cc
  ]

  All-Unit : (ss : List (Step N)) → All (λ s. Unit {0}) ss
  All-Unit [] = tt
  All-Unit (s ∷ ss) = (tt, All-Unit ss)

  pub find_step-id :
      (ss : List (Step N)) (id : String) (u : Step N) → find_step id ss ≡ some u → u.id ≡ id
  find_step-id ss id u e = (find_step-All (λ s. Unit {0}) ss id u (All-Unit ss) e).1
