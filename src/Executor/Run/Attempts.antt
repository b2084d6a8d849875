-- ===== src/Executor/Run/Attempts.antt =====
-- packages/executor/src/executor.ts: what attempts at a step change of the run. The step is none of
-- those that an earlier session completed.
use rote.Prelude.{
  ℕ, zero, suc, ◌+◌, ◌≤◌, String, Option, some, none, Bool, true, false, List, [], ◌∷◌, same,
  includes, String-discrete, same_iff, if◌then◌else◌, Result, ok, err, ◌>>=◌, bind_ok, ◌≡◌, refl,
  sym, subst, ◌∙◌, All, All-append, Bool-cases, ◌⊎◌, inl, inr, arith,
}
use rote.Executor.Json.{Json, string, Host}
use rote.Executor.Playbook.{Step, StepKind, deterministic, slot, judgment}
use rote.Executor.WorldState.{
  assign, merge_world_state, observation_from_result, observation_from_text,
}
use rote.Executor.Attempt.{
  Templates, Boundary, ToolOutcome, succeeded, failed, Thrown, Dispatch, Run, AttemptResult,
  note_attempt, count_call, record_dispatch, bind, check_expect, after_tool, call_tool, after_text,
  attempt_kind, attempt_all, require, unbound_param, tool_rejected, llm_rejected,
  judgment_out_of_enum, fill, judge, target_resolution_from_result, remap_expect, is_repaired,
}

-- A pair whose key is `k` joins the pairs, or the value of that key changes.
pub All-assign :
    {V : Type 0} (P : String × V → Type 0) (k : String) (v : V) (ps : List (String × V))
    → P (k, v)
    → All P ps
    → All P (assign k v ps)
unfolding assign
All-assign P k v [] h _ = (h, tt)
All-assign P k v ((l, w) ∷ ps) h hs = elim (Bool-cases (same String-discrete l k)) [
  | inl e ↦ rw e (subst (λ x. P (x, v)) (sym ((same_iff String-discrete l k).0 e)) h, hs.1)
  | inr e ↦ rw e (hs.0, All-assign P k v ps h hs.1)
]

abbrev pub IsFresh : {N : Type 0} → List String → Dispatch N → Type 0
IsFresh done d = includes String-discrete done d.step_id ≡ false

checked_same :
    {N : Type 0} (m : Result Thrown Bool) (f : Bool → AttemptResult N) (r u : Run N)
    (a : AttemptResult N)
    → ◌>>=◌ {B = AttemptResult N × Run N} m (λ pass. ok (f pass, r)) ≡ ok (a, u)
    → r ≡ u
checked_same (ok pass) f r u a e = cc
checked_same (err x) f r u a e = absurd cc

-- What a call needs is there, or the attempt throws.
pub require_ok :
    {A B : Type 0} (x : Thrown) (o : Option A) (f : A → Result Thrown B) (b : B)
    → (require x o >>= f) ≡ ok b
    → (a : A) × (f a ≡ ok b)
require_ok x (some a) f b e = (a, e)
require_ok x none f b e = absurd cc

stopped_or :
    {A B : Type 0} (passed : Bool) (p : A × B) (rest : Result Thrown (A × B)) (a : A) (u : B)
    → (if passed then ok p else rest) ≡ ok (a, u)
    → (p.1 ≡ u) ⊎ (rest ≡ ok (a, u))
stopped_or true (x, y) rest a u e = inl cc
stopped_or false p rest a u e = inr e

module _ {N : Type 0} (done : List String) where
  -- What holds of the run across one attempt.
  pub record Kept (r u : Run N) : Type 0 where
    pub attempts : u.attempts ≡ r.attempts
    pub completed : u.completed_step_ids ≡ r.completed_step_ids
    pub fresh : All (IsFresh done) r.trajectory → All (IsFresh done) u.trajectory

  Kept-refl : (r : Run N) → Kept r r
  Kept-refl r = record { attempts = refl; completed = refl; fresh = λ h. h }

  module _ (h : Host N) (t : Templates N) (b : Boundary N) (version : ℕ) (s : Step N)
      (new : includes String-discrete done s.id ≡ false) where
    after_tool_same :
        (o : ToolOutcome N) (r u : Run N) (a : AttemptResult N)
        → after_tool h t b version s o r ≡ ok (a, u)
        → r ≡ u
    unfolding after_tool
    after_tool_same (failed c) r u a e = cc
    after_tool_same (succeeded v) r u a e =
        let resolution = target_resolution_from_result v in
        let world = merge_world_state h r.world (observation_from_result v) v in
        checked_same
          (check_expect h t b version (remap_expect s.expect resolution) r.bindings world)
          (λ pass. record {
            pass = pass;
            code = none;
            world = world;
            repaired = is_repaired resolution;
          })
          r u a e

    after_text_same :
        (c : String) (r u : Run N) (a : AttemptResult N)
        → after_text h t b version s c r ≡ ok (a, u)
        → r ≡ u
    unfolding after_text
    after_text_same c r u a e =
        let world = merge_world_state h r.world (observation_from_text c) (string c) in
        checked_same (check_expect h t b version s.expect r.bindings world)
          (λ pass. record { pass = pass; code = none; world = world; repaired = false }) r u a e

    dispatched-Kept :
        (d : Dispatch N) (r : Run N) → d.step_id ≡ s.id → Kept r (record_dispatch d (count_call r))
    unfolding record_dispatch count_call
    dispatched-Kept d r same_id = record {
      attempts = refl;
      completed = refl;
      fresh = λ k. All-append (IsFresh done) r.trajectory (d ∷ []) k (rw same_id new, tt);
    }

    bound-Kept : (k c : String) (r : Run N) → Kept r (bind k c (count_call r))
    unfolding bind count_call
    bound-Kept k c r = record { attempts = refl; completed = refl; fresh = λ k. k }

    called-Kept :
        (tool : String) (args : Json N) (r u : Run N) (a : AttemptResult N)
        → call_tool h t b version s tool args r ≡ ok (a, u)
        → Kept r u
    unfolding call_tool
    called-Kept tool args r u a e =
        let (outcome, after) =
          require_ok tool_rejected (b.call r.calls tool args)
            (λ o. after_tool h t b version s o (
              record_dispatch (record { step_id = s.id; tool = tool; args = args; outcome = o })
                (count_call r)))
            (a, u) e in
        subst (λ v. Kept r v) (after_tool_same outcome _ u a after) (dispatched-Kept _ r refl)

    abbrev judged : List String → Run N → String → Result Thrown (AttemptResult N × Run N)
    judged options r c =
        if includes String-discrete options c
        then after_text h t b version s c (bind s.id c (count_call r))
        else err (judgment_out_of_enum s.id c)

    judged-Kept :
        (options : List String) (c : String) (r u : Run N) (a : AttemptResult N)
        → judged options r c ≡ ok (a, u)
        → Kept r u
    judged-Kept options c r u a e = elim (Bool-cases (includes String-discrete options c)) [
      | inl one_of ↦
          subst (λ v. Kept r v) (after_text_same c _ u a (rw one_of at e)) (bound-Kept s.id c r)
      | inr other ↦
          let threw : err (judgment_out_of_enum s.id c) ≡ ok (a, u) = rw other at e in absurd cc
    ]

    attempt_kind-Kept :
        (k : StepKind N) (r u : Run N) (a : AttemptResult N)
        → attempt_kind h t b version s k r ≡ ok (a, u)
        → Kept r u
    unfolding attempt_kind call_tool
    attempt_kind-Kept (deterministic tool args) r u a e =
        let (rendered, called) =
          require_ok unbound_param (t.render_args version args r.bindings)
            (λ x. call_tool h t b version s tool x r) (a, u) e in
        called-Kept tool rendered r u a called
    attempt_kind-Kept (slot prompt max_tokens into) r u a e =
        let (rendered, called) =
          require_ok unbound_param (t.render_text version prompt r.bindings)
            (λ x. require llm_rejected (b.complete r.calls (fill x max_tokens)) >>= λ c.
              after_text h t b version s c (bind into c (count_call r)))
            (a, u) e in
        let (c, after) =
          require_ok llm_rejected (b.complete r.calls (fill rendered max_tokens))
            (λ c. after_text h t b version s c (bind into c (count_call r))) (a, u) called in
        subst (λ v. Kept r v) (after_text_same c _ u a after) (bound-Kept into c r)
    attempt_kind-Kept (judgment prompt options) r u a e =
        let (rendered, called) =
          require_ok unbound_param (t.render_text version prompt r.bindings)
            (λ x. require llm_rejected (b.complete r.calls (judge x options)) >>= λ c.
              judged options r c)
            (a, u) e in
        let (c, after) =
          require_ok llm_rejected (b.complete r.calls (judge rendered options)) (judged options r)
            (a, u) called in
        judged-Kept options c r u a after

    -- What holds of the run across all attempts at the step, of which at most `limit` are made.
    pub record Spent (limit : ℕ) (r u : Run N) : Type 1 where
      pub completed : u.completed_step_ids ≡ r.completed_step_ids
      pub fresh : All (IsFresh done) r.trajectory → All (IsFresh done) u.trajectory
      pub counted :
          (P : String × ℕ → Type 0)
          → ((n : ℕ) → n ≤ limit → P (s.id, n))
          → All P r.attempts
          → All P u.attempts

    Spent-trans : (limit : ℕ) (r u v : Run N) → Spent limit r u → Spent limit u v → Spent limit r v
    Spent-trans limit r u v x y = record {
      completed = y.completed ∙ x.completed;
      fresh = λ k. y.fresh (x.fresh k);
      counted = λ P p k. y.counted P p (x.counted P p k);
    }

    -- One attempt, number `n`.
    noted-Spent :
        (n limit : ℕ) (r u : Run N) → n ≤ limit → Kept (note_attempt s.id n r) u → Spent limit r u
    unfolding note_attempt
    noted-Spent n limit r u le k = record {
      completed = k.completed;
      fresh = k.fresh;
      counted = λ P p x. rw k.attempts (All-assign P s.id n r.attempts (p n le) x);
    }

    pub attempt_all-Spent :
        (left n limit : ℕ) (result a : AttemptResult N) (r u : Run N)
        → left + n ≤ suc limit
        → attempt_all h t b version left n s result r ≡ ok (a, u)
        → Spent limit r u
    unfolding attempt_all
    attempt_all-Spent zero n limit result a r u le e =
        let same_run : r ≡ u = cc in
        subst (λ v. Spent limit r v) same_run
          (record { completed = refl; fresh = λ k. k; counted = λ P p k. k })
    attempt_all-Spent (suc left) n limit result a r u le e =
        let (p, tried, after) =
          bind_ok (attempt_kind h t b version s s.kind (note_attempt s.id n r))
            (λ p. if p.0.pass then ok p else attempt_all h t b version left (n + 1) s p.0 p.1)
            (a, u) e in
        let first =
          noted-Spent n limit r p.1 (omega arith)
            (attempt_kind-Kept s.kind (note_attempt s.id n r) p.1 p.0 tried) in
        elim (stopped_or p.0.pass p (attempt_all h t b version left (n + 1) s p.0 p.1) a u after) [
          | inl same_run ↦ subst (λ v. Spent limit r v) same_run first
          | inr again ↦
              Spent-trans limit r p.1 u first
                (attempt_all-Spent left (n + 1) limit p.0 a p.1 u (omega arith) again)
        ]
