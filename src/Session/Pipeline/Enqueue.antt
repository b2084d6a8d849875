-- ===== src/Session/Pipeline/Enqueue.antt =====
-- What `enqueue` lets into the table.
use rote.Prelude.{
  ◌≤◌, ◌<◌, String, Option, some, none, false, List, [], ◌∷◌, ◌++◌, ◌≡◌, refl, arith, length,
  length-append, leb, ltb, same, same_iff, All, All-append, String-discrete, Bool-cases, ◌||◌, inl,
  inr,
}
use rote.Session.Pipeline.{
  Config, SpeculativeStep, PendingStep, StepState, Pipeline, Refusal, budget_exhausted,
  invalid_step, duplicate, confidence_below_threshold, depth_exceeded, new_pipeline, has_step, log,
  enqueue, cancel,
}

module _ {Q : Type 0} where
  -- No two entries have one id.
  abbrev pub HasDistinctIds : List (PendingStep Q) → Type 0
  HasDistinctIds [] = Unit
  HasDistinctIds (e ∷ es) = (has_step e.step.step_id es ≡ false) × HasDistinctIds es

  abbrev pub IsWithin : Config → PendingStep Q → Type 0
  IsWithin c e = (c.confidence_threshold ≤ e.step.confidence) × (e.step.depth ≤ c.max_depth)

  pub record IsAdmitted (p : Pipeline Q) : Type 0 where
    pub few : length p.steps ≤ p.config.max_steps
    pub distinct : HasDistinctIds p.steps
    pub within : All (IsWithin p.config) p.steps

  has_step-append :
      (id : String) (es : List (PendingStep Q)) (e : PendingStep Q)
      → has_step id es ≡ false
      → same String-discrete e.step.step_id id ≡ false
      → has_step id (es ++ e ∷ []) ≡ false
  has_step-append id [] e h n = ground arith
  has_step-append id (x ∷ es) e h n = ground (arith, has_step-append id es e)

  HasDistinctIds-append :
      (es : List (PendingStep Q)) (e : PendingStep Q)
      → HasDistinctIds es
      → has_step e.step.step_id es ≡ false
      → HasDistinctIds (es ++ e ∷ [])
  HasDistinctIds-append [] e h n = (refl, tt)
  HasDistinctIds-append (x ∷ es) e h n = (
    has_step-append x.step.step_id es e h.0 (
        ground (
          arith,
          same_iff String-discrete x.step.step_id e.step.step_id,
          same_iff String-discrete e.step.step_id x.step.step_id,
        )),
    HasDistinctIds-append es e h.1 (ground arith),
  )

  -- The two ways in which a call of `enqueue` ends.
  data Enqueued (input : Option (SpeculativeStep Q)) (p : Pipeline Q)
      (r : Option Refusal × Pipeline Q) : Type 0 where
    refusal : (why : Refusal) → r ≡ (some why, p) → Enqueued input p r
    admission :
        (s : SpeculativeStep Q) (u : Pipeline Q)
        → input ≡ some s
        → r ≡ (none, u)
        → u.config ≡ p.config
        → u.steps ≡ p.steps ++ record { step = s; state = StepState.queued } ∷ []
        → length p.steps < p.config.max_steps
        → has_step s.step_id p.steps ≡ false
        → p.config.confidence_threshold ≤ s.confidence
        → s.depth ≤ p.config.max_depth
        → Enqueued input p r

  enqueue-Enqueued :
      (input : Option (SpeculativeStep Q)) (p : Pipeline Q) → Enqueued input p (enqueue input p)
  unfolding enqueue
  enqueue-Enqueued none p =
      elim (Bool-cases (p.is_running || (p.was_quiesced || p.was_cancelled))) [
        | inl shut ↦ simp shut (refusal budget_exhausted refl)
        | inr open_still ↦ simp open_still (refusal invalid_step refl)
      ]
  enqueue-Enqueued (some s) p =
      elim (Bool-cases (p.is_running || (p.was_quiesced || p.was_cancelled))) [
        | inl shut ↦ simp shut (refusal budget_exhausted refl)
        | inr is_open ↦ elim (Bool-cases (has_step s.step_id p.steps)) [
          | inl twice ↦ simp (is_open, twice) (refusal duplicate refl)
          | inr fresh ↦ elim (Bool-cases (leb p.config.max_steps (length p.steps))) [
            | inl full ↦ simp (is_open, fresh, full) (refusal budget_exhausted refl)
            | inr room ↦ elim (Bool-cases (ltb s.confidence p.config.confidence_threshold)) [
              | inl low ↦ simp (is_open, fresh, room, low) (refusal confidence_below_threshold refl)
              | inr sure ↦ elim (Bool-cases (ltb p.config.max_depth s.depth)) [
                | inl deep ↦ simp (is_open, fresh, room, sure, deep) (refusal depth_exceeded refl)
                | inr near ↦
                    simp (is_open, fresh, room, sure, near)
                      (admission s _ refl refl refl refl (ground arith) fresh (ground arith)
                        (ground arith))
              ]
            ]
          ]
        ]
      ]

  Enqueued-IsAdmitted :
      (input : Option (SpeculativeStep Q)) (p : Pipeline Q) (r : Option Refusal × Pipeline Q)
      → Enqueued input p r
      → IsAdmitted p
      → IsAdmitted r.1
  Enqueued-IsAdmitted input p r (refusal why e) a = rw e a
  Enqueued-IsAdmitted input p r (admission s u given e ec es room fresh sure near) a =
      rw e (record {
        few =
            rw (es, ec)
              (omega (
                arith,
                length-append p.steps (record { step = s; state = StepState.queued } ∷ []),
              ));
        distinct = rw es (HasDistinctIds-append p.steps _ a.distinct fresh);
        within = rw (es, ec) (All-append (IsWithin p.config) p.steps _ a.within ((sure, near), tt));
      })

  cancel-IsAdmitted : (p : Pipeline Q) → IsAdmitted p → IsAdmitted (cancel p)
  unfolding cancel log
  cancel-IsAdmitted p a = elim (Bool-cases (p.was_cancelled || p.was_quiesced)) [
    | inl done ↦ simp done a
    | inr still_open ↦
        simp still_open (record { few = a.few; distinct = a.distinct; within = a.within })
  ]

  -- Calls made before `run`.
  pub data Filled (c : Config) : Pipeline Q → Type 0 where
    created : Filled c (new_pipeline c)
    enqueued :
        {p : Pipeline Q} (input : Option (SpeculativeStep Q))
        → Filled c p
        → Filled c (enqueue input p).1
    cancelled_at : {p : Pipeline Q} → Filled c p → Filled c (cancel p)

  -- Whatever is enqueued, the table holds at most `max_steps` entries with distinct ids, each of a
  -- confidence that reaches the threshold and of a depth of at most `max_depth`.
  pub Filled-IsAdmitted : {c : Config} {p : Pipeline Q} → Filled c p → IsAdmitted p
  unfolding new_pipeline
  Filled-IsAdmitted created = record { few = omega arith; distinct = tt; within = tt }
  Filled-IsAdmitted (enqueued {p = p} input f) =
      Enqueued-IsAdmitted input p _ (enqueue-Enqueued input p) (Filled-IsAdmitted f)
  Filled-IsAdmitted (cancelled_at {p = p} f) = cancel-IsAdmitted p (Filled-IsAdmitted f)
