-- ===== src/Continuation/CheckpointStore/Sequence.antt =====
-- packages/continuation/src/checkpoint-store.ts: every log is numbered 0, 1, 2, … in its own task.
use rote.Prelude.{
  ℕ, suc, ◌+◌, String, some, List, [], ◌∷◌, ◌++◌, same, ◌==◌, ==_iff, String-discrete, same_iff,
  same_refl, same_ne, ◌≡◌, ◌≢◌, refl, sym, subst, ◌∙◌, ◌↔◌, inl, inr, Bool-cases, length, ok, arith,
  if◌then◌else◌,
}
use rote.Continuation.Checkpoint.{TaskCheckpoint}
use rote.Continuation.CheckpointStore.{
  LogEntry, log_of, set_log, last, latest, expected_after, append,
}

-- The checkpoints of task `t` from number `n` on.
abbrev pub IsNumbered : String → ℕ → List TaskCheckpoint → Type 0
IsNumbered t n [] = Unit
IsNumbered t n (c ∷ cs) = ((c.task_id ≡ t) × (c.seq ≡ n)) × IsNumbered t (suc n) cs

IsNumbered-append :
    (t : String) (n : ℕ) (cs : List TaskCheckpoint) (c : TaskCheckpoint)
    → IsNumbered t n cs
    → c.task_id ≡ t
    → c.seq ≡ n + length cs
    → IsNumbered t n (cs ++ c ∷ [])
IsNumbered-append t n [] c h same_task e = ((same_task, omega arith), tt)
IsNumbered-append t n (b ∷ cs) c h same_task e =
    (h.0, IsNumbered-append t (suc n) cs c h.1 same_task (omega arith))

expected-last :
    (t : String) (n : ℕ) (c : TaskCheckpoint) (cs : List TaskCheckpoint)
    → IsNumbered t n (c ∷ cs)
    → expected_after (last (c ∷ cs)) ≡ n + suc (length cs)
expected-last t n c [] h = omega (arith, h.0.1)
expected-last t n c (d ∷ cs) h = omega (arith, expected-last t (suc n) d cs h.1)

-- The next number is the length of the log.
pub expected-length :
    (t : String) (cs : List TaskCheckpoint)
    → IsNumbered t 0 cs
    → expected_after (last cs) ≡ length cs
expected-length t [] h = refl
expected-length t (c ∷ cs) h = omega (arith, expected-last t 0 c cs h)

log_of-set_log :
    (t u : String) (l : List TaskCheckpoint) (es : List LogEntry)
    → log_of u (set_log t l es) ≡ (if same String-discrete t u then l else log_of u es)
unfolding log_of set_log
log_of-set_log t u l [] = refl
log_of-set_log t u l (e ∷ es) = ground (
  arith,
  same_iff String-discrete e.task_id t,
  same_iff String-discrete e.task_id u,
  same_iff String-discrete t u,
  log_of-set_log t u l es,
)

-- A store whose logs were only appended to.
pub data Written : List LogEntry → Type 0 where
  created : Written []
  appended : {s u : List LogEntry} (c : TaskCheckpoint) → Written s → append c s ≡ ok u → Written u

-- An accepted checkpoint continues the numbers of its task, whose log it joins.
append-ok :
    (c : TaskCheckpoint) (s u : List LogEntry)
    → append c s ≡ ok u
    → (c.seq ≡ expected_after (last (log_of c.task_id s)))
      × (set_log c.task_id (log_of c.task_id s ++ c ∷ []) s ≡ u)
unfolding append
append-ok c s u e =
    let n = expected_after (last (log_of c.task_id s)) in
    elim (Bool-cases (c.seq == n)) [
      | inl same_seq ↦ ((==_iff c.seq n).0 same_seq, cc)
      | inr different ↦ absurd (ground arith)
    ]

joined-IsNumbered :
    (c : TaskCheckpoint) (s : List LogEntry) (t : String)
    → IsNumbered c.task_id 0 (log_of c.task_id s)
    → IsNumbered t 0 (log_of t s)
    → c.seq ≡ expected_after (last (log_of c.task_id s))
    → IsNumbered t 0 (log_of t (set_log c.task_id (log_of c.task_id s ++ c ∷ []) s))
joined-IsNumbered c s t own other e =
    rw (log_of-set_log c.task_id t (log_of c.task_id s ++ c ∷ []) s)
      (elim (Bool-cases (same String-discrete c.task_id t)) [
        | inl h ↦
            let joined : IsNumbered c.task_id 0 (log_of c.task_id s ++ c ∷ []) =
              IsNumbered-append c.task_id 0 (log_of c.task_id s) c own refl
                (omega (arith, e, expected-length c.task_id (log_of c.task_id s) own)) in
            rw h (
              subst (λ x. IsNumbered x 0 (log_of c.task_id s ++ c ∷ []))
                ((same_iff String-discrete c.task_id t).0 h) joined)
        | inr h ↦ rw h other
      ])

-- However checkpoints are appended: the log of each task holds its own checkpoints only, with
-- sequence numbers 0, 1, 2, … without a gap.
pub Written-IsNumbered : {s : List LogEntry} (t : String) → Written s → IsNumbered t 0 (log_of t s)
unfolding log_of
Written-IsNumbered t created = tt
Written-IsNumbered t (appended {s = s} c w e) =
    let (next, same_store) = append-ok c s _ e in
    subst (λ u. IsNumbered t 0 (log_of t u)) same_store
      (joined-IsNumbered c s t (Written-IsNumbered c.task_id w) (Written-IsNumbered t w) next)

-- A store whose logs were only appended to accepts a checkpoint exactly when its number is the length
-- of its task's log: there is no other refusal, and no number is written twice or skipped.
pub append_iff :
    (c : TaskCheckpoint) (s : List LogEntry)
    → Written s
    → ((u : List LogEntry) × (append c s ≡ ok u)) ↔ (c.seq ≡ length (log_of c.task_id s))
unfolding append
append_iff c s w =
    let numbers = expected-length c.task_id (log_of c.task_id s) (Written-IsNumbered c.task_id w) in
    (
      λ (u, e). (append-ok c s u e).0 ∙ numbers,
      λ e. (
        set_log c.task_id (log_of c.task_id s ++ c ∷ []) s,
        rw ((==_iff c.seq _).1 (e ∙ sym numbers)) refl,
      ),
    )

last-append : (cs : List TaskCheckpoint) (c : TaskCheckpoint) → last (cs ++ c ∷ []) ≡ some c
last-append [] c = refl
last-append (b ∷ []) c = refl
last-append (b ∷ d ∷ cs) c = last-append (d ∷ cs) c

-- An accepted checkpoint is the latest of its task, and every other task keeps its whole log.
pub latest-append :
    (c : TaskCheckpoint) (s u : List LogEntry)
    → append c s ≡ ok u
    → (latest c.task_id u ≡ some c) × ((t : String) → t ≢ c.task_id → log_of t u ≡ log_of t s)
unfolding latest
latest-append c s u e =
    let l = log_of c.task_id s ++ c ∷ [] in
    let same_store = (append-ok c s u e).1 in
    (
      subst (λ v. last (log_of c.task_id v) ≡ some c) same_store
          (rw (log_of-set_log c.task_id c.task_id l s)
            (rw (same_refl String-discrete c.task_id) (last-append (log_of c.task_id s) c))),
      λ t other.
          subst (λ v. log_of t v ≡ log_of t s) same_store
            (rw (log_of-set_log c.task_id t l s)
              (rw (same_ne String-discrete c.task_id t (λ p. other (sym p))) refl)),
    )

pub log_of-append :
    (c : TaskCheckpoint) (s u : List LogEntry)
    → append c s ≡ ok u
    → log_of c.task_id u ≡ log_of c.task_id s ++ c ∷ []
log_of-append c s u e =
    let l = log_of c.task_id s ++ c ∷ [] in
    subst (λ v. log_of c.task_id v ≡ l) (append-ok c s u e).1
      (rw (log_of-set_log c.task_id c.task_id l s) (rw (same_refl String-discrete c.task_id) refl))
