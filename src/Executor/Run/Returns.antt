-- ===== src/Executor/Run/Returns.antt =====
-- packages/executor/src/executor.ts: when a replay returns.
use rote.Prelude.{
  ℕ, String, Option, some, true, List, [], ◌∷◌, includes, String-discrete, Result, ok, ◌≡◌, Bool,
}
use rote.Executor.Json.{Json, Host}
use rote.Executor.Playbook.{Expect, StepKind, judgment, Playbook}
use rote.Executor.WorldState.{WorldState}
use rote.Executor.ExpectEvaluator.{evaluate_expect}
use rote.Executor.Attempt.{
  Bindings, Templates, ToolOutcome, fill, judge, Boundary, Run, Receipt, remap_expect,
}

abbrev pub IsOk : {E A : Type 0} → Result E A → Type 0
IsOk {A = A} m = (a : A) × (m ≡ ok a)

-- Every parameter is bound, nothing rejects, and a judgment is one of its options.
pub record IsReliable {N : Type 0} (t : Templates N) (b : Boundary N) : Type 0 where
  pub args : (v : ℕ) (j : Json N) (bs : Bindings N) → (x : Json N) × (t.render_args v j bs ≡ some x)
  pub prompts :
      (v : ℕ) (s : String) (bs : Bindings N) → (x : String) × (t.render_text v s bs ≡ some x)
  pub expects :
      (v : ℕ) (e : Expect N) (bs : Bindings N) → (x : Expect N) × (t.render_expect v e bs ≡ some x)
  pub calls : (n : ℕ) (s : String) (j : Json N) → (x : ToolOutcome N) × (b.call n s j ≡ some x)
  pub fills : (n : ℕ) (s : String) (m : ℕ) → (x : String) × (b.complete n (fill s m) ≡ some x)
  pub judgments :
      (n : ℕ) (s o : String) (os : List String)
      → (x : String) × (b.complete n (judge s (o ∷ os)) ≡ some x)
        × (includes String-discrete (o ∷ os) x ≡ true)

-- However a check renders, it holds or fails: its pattern, if it has one, is a regular expression.
abbrev pub IsEvaluable : {N : Type 0} → Host N → Templates N → (version : ℕ) → Expect N → Type 0
IsEvaluable {N} h t version e =
    (bs : Bindings N) (x : Expect N) (w : WorldState N)
    → t.render_expect version e bs ≡ some x
    → (holds : Bool) × (evaluate_expect h x w ≡ some holds)

-- The check of a step, at whatever selector the tool resolved.
abbrev pub IsChecked :
    {N : Type 0} → Host N → Templates N → (version : ℕ) → Option (Expect N) → Type 0
IsChecked {N} h t version o =
    (r : Option Receipt) (e : Expect N) → remap_expect o r ≡ some e → IsEvaluable h t version e

-- A judgment has options.
abbrev pub Offers : {N : Type 0} → StepKind N → Type 0
Offers (judgment prompt []) = ⊥
Offers _ = Unit
