-- ===== src/Agent/History/Counts.antt =====
-- packages/agent/src/history-compaction.ts: how often each kind of action stands in a list.
use rote.Prelude.{
  ℕ, suc, String, Option, Bool, List, [], ◌∷◌, same, same_iff, ◌≡◌, refl, subst, Bool-cases, inl,
  inr,
}
use rote.Agent.Action.{Target, DropTarget, BrowserExpect, PlannerFailure, BrowserAction}
use rote.Agent.History.{Kind, Kind-discrete, KindCounts, kind_of, count_of, count_action_kinds}

-- Which actions are of a kind.
pub data IsOfKind : Kind → BrowserAction → Type 0 where
  is_navigate :
      (u : String) (e : Option BrowserExpect) → IsOfKind Kind.navigate (BrowserAction.navigate u e)
  is_fill :
      (t : Target) (v : String) (e : Option BrowserExpect)
      → IsOfKind Kind.fill (BrowserAction.fill t v e)
  is_select :
      (t : Target) (v : String) (e : Option BrowserExpect)
      → IsOfKind Kind.select (BrowserAction.select t v e)
  is_click : (t : Target) (e : Option BrowserExpect) → IsOfKind Kind.click (BrowserAction.click t e)
  is_hover : (t : Target) (e : Option BrowserExpect) → IsOfKind Kind.hover (BrowserAction.hover t e)
  is_press :
      (t : Target) (c : String) (e : Option BrowserExpect)
      → IsOfKind Kind.press (BrowserAction.press t c e)
  is_upload :
      (t : Target) (f : String) (e : Option BrowserExpect)
      → IsOfKind Kind.upload (BrowserAction.upload t f e)
  is_drag_and_drop :
      (t : Target) (o : DropTarget) (e : Option BrowserExpect)
      → IsOfKind Kind.drag_and_drop (BrowserAction.drag_and_drop t o e)
  is_done :
      (s : Bool) (t : String) (f : Option PlannerFailure)
      → IsOfKind Kind.done (BrowserAction.done s t f)

-- So many of a list have the property.
pub data Counts (P : BrowserAction → Type 0) : List BrowserAction → ℕ → Type 0 where
  no_more : Counts P [] 0
  one_more :
      {xs : List BrowserAction} {n : ℕ} (a : BrowserAction)
      → P a
      → Counts P xs n
      → Counts P (a ∷ xs) (suc n)
  another :
      {xs : List BrowserAction} {n : ℕ} (a : BrowserAction)
      → (P a → ⊥)
      → Counts P xs n
      → Counts P (a ∷ xs) n

pub record AreCounts (xs : List BrowserAction) (c : KindCounts) : Type 0 where
  pub of_navigate : Counts (IsOfKind Kind.navigate) xs c.navigate
  pub of_fill : Counts (IsOfKind Kind.fill) xs c.fill
  pub of_select : Counts (IsOfKind Kind.select) xs c.select
  pub of_click : Counts (IsOfKind Kind.click) xs c.click
  pub of_hover : Counts (IsOfKind Kind.hover) xs c.hover
  pub of_press : Counts (IsOfKind Kind.press) xs c.press
  pub of_upload : Counts (IsOfKind Kind.upload) xs c.upload
  pub of_drag_and_drop : Counts (IsOfKind Kind.drag_and_drop) xs c.drag_and_drop
  pub of_done : Counts (IsOfKind Kind.done) xs c.done

kind_of-IsOfKind : (a : BrowserAction) → IsOfKind (kind_of a) a
kind_of-IsOfKind (BrowserAction.navigate u e) = is_navigate u e
kind_of-IsOfKind (BrowserAction.fill t v e) = is_fill t v e
kind_of-IsOfKind (BrowserAction.select t v e) = is_select t v e
kind_of-IsOfKind (BrowserAction.click t e) = is_click t e
kind_of-IsOfKind (BrowserAction.hover t e) = is_hover t e
kind_of-IsOfKind (BrowserAction.press t c e) = is_press t c e
kind_of-IsOfKind (BrowserAction.upload t f e) = is_upload t f e
kind_of-IsOfKind (BrowserAction.drag_and_drop t o e) = is_drag_and_drop t o e
kind_of-IsOfKind (BrowserAction.done s t f) = is_done s t f

IsOfKind-kind : (k : Kind) (a : BrowserAction) → IsOfKind k a → kind_of a ≡ k
IsOfKind-kind _ _ (is_navigate u e) = refl
IsOfKind-kind _ _ (is_fill t v e) = refl
IsOfKind-kind _ _ (is_select t v e) = refl
IsOfKind-kind _ _ (is_click t e) = refl
IsOfKind-kind _ _ (is_hover t e) = refl
IsOfKind-kind _ _ (is_press t c e) = refl
IsOfKind-kind _ _ (is_upload t f e) = refl
IsOfKind-kind _ _ (is_drag_and_drop t o e) = refl
IsOfKind-kind _ _ (is_done s t f) = refl

count_of-Counts : (k : Kind) (xs : List BrowserAction) → Counts (IsOfKind k) xs (count_of k xs)
count_of-Counts k [] = no_more
count_of-Counts k (a ∷ xs) = elim (Bool-cases (same Kind-discrete (kind_of a) k)) [
  | inl t ↦ rw t (
      one_more a
        (subst (λ x. IsOfKind x a) ((same_iff Kind-discrete (kind_of a) k).0 t)
          (kind_of-IsOfKind a))
        (count_of-Counts k xs))
  | inr f ↦ rw f (
      another a
        (λ h. absurd (cc (f, (same_iff Kind-discrete (kind_of a) k).1 (IsOfKind-kind k a h))))
        (count_of-Counts k xs))
]

pub count_action_kinds-AreCounts : (xs : List BrowserAction) → AreCounts xs (count_action_kinds xs)
unfolding count_action_kinds
count_action_kinds-AreCounts xs = record {
  of_navigate = count_of-Counts Kind.navigate xs;
  of_fill = count_of-Counts Kind.fill xs;
  of_select = count_of-Counts Kind.select xs;
  of_click = count_of-Counts Kind.click xs;
  of_hover = count_of-Counts Kind.hover xs;
  of_press = count_of-Counts Kind.press xs;
  of_upload = count_of-Counts Kind.upload xs;
  of_drag_and_drop = count_of-Counts Kind.drag_and_drop xs;
  of_done = count_of-Counts Kind.done xs;
}
