-- ===== src/Session/Pipeline/Starvation.antt =====
-- The loop of `startReady` breaks at the first entry that has left the queue, so nothing behind it
-- starts.
use rote.Prelude.{
  ℕ, zero, suc, ◌+◌, ◌≤◌, ◌<◌, ◌++◌, String, Option, some, none, Bool, true, false, not, ◌&&◌, ◌||◌,
  List, [], ◌∷◌, ◌≡◌, refl, ap, ◌∙◌, ◌⊎◌, inl, inr, arith, length, length-append, leb, Bool-cases,
  List-cases, some_of, if◌then◌else◌,
}
use rote.Session.EffectFence.{Outcome}
use rote.Session.Pipeline.Quiet.{
  head_is_queued, HeadIsFree, Quiet, Starts, head-set_state, free-set_state, head-set_state_self,
  drain-Quiet, quiesce-Quiet, cancel-Quiet, start_from-stuck, start_from-Starts, Quiet-trans,
  Quiet-refl,
}
use rote.Session.Pipeline.{
  find_step, set_state, Config, PendingStep, StepState, Pipeline, Run, Round, cancelled,
  duration_cap, cycle_detected, fence_failure, is_queued, is_running_state, begin_step, start_step,
  start_from, start_ready, before_wait, after_wait, heed_cancel, heed_time, may_start, at_end, pick,
  complete, settle_call, settle_entry, loop, run,
}

length-pick : (n : ℕ) (a : String) (rest : List String) → length (pick n a rest).1 ≡ length rest
length-pick zero a rest = refl
length-pick (suc n) a [] = refl
length-pick (suc n) a (b ∷ bs) = ap suc (length-pick n b bs)

module _ {Q O : Type 0} where
  -- A step that depends on nothing starts, unless no call may be in flight.
  start_step-free :
      (e : PendingStep Q) (r : Run Q O) → e.step.depends_on ≡ [] → start_step e r ≡ begin_step e r
  unfolding start_step
  start_step-free e r free = simp free refl

  head-begin_step :
      (e : PendingStep Q) (es : List (PendingStep Q)) (r : Run Q O)
      → r.pipeline.steps ≡ e ∷ es
      → head_is_queued (begin_step e r).pipeline.steps ≡ false
  unfolding begin_step
  head-begin_step e es r at = simp at (head-set_state_self e StepState.running es refl)

  abbrev HasBegun : Run Q O → Type 0
  HasBegun u = (u.active ≡ []) ⊎ (head_is_queued u.pipeline.steps ≡ false)

  first_from :
      (e : PendingStep Q) (es : List (PendingStep Q)) (r : Run Q O)
      → r.pipeline.steps ≡ e ∷ es
      → e.step.depends_on ≡ []
      → r.active ≡ []
      → HasBegun (start_from (e ∷ es) r)
  first_from e es r at free idle =
      let begun : head_is_queued (start_from es (start_step e r)).pipeline.steps ≡ false =
        (start_from-Starts es (start_step e r)).head
          (rw (start_step-free e r free) (head-begin_step e es r at)) in
      elim (Bool-cases
        (leb r.pipeline.config.max_concurrency (length r.active) || not (is_queued e.state))) [
          | inl stop ↦ inl (unfold start_from in simp stop idle)
          | inr go ↦ inr (unfold start_from in simp go begun)
        ]

  from_table :
      (es : List (PendingStep Q)) (r : Run Q O)
      → r.pipeline.steps ≡ es
      → HeadIsFree es
      → r.active ≡ []
      → HasBegun (start_from es r)
  from_table [] r at free idle = inl (unfold start_from in idle)
  from_table (e ∷ es) r at free idle = first_from e es r at free idle

  start_ready-Starts : (r : Run Q O) → Starts r (start_ready r)
  unfolding start_ready
  start_ready-Starts r = start_from-Starts r.pipeline.steps r

  -- What holds at the head of the loop: either nothing has happened, or the first step has left the
  -- queue and no call will start any more.
  record IsStarved (c : Config) (r : Run Q O) : Type 0 where
    config : r.pipeline.config ≡ c
    capped : length r.promoted + length r.active ≤ c.max_concurrency
    free : HeadIsFree r.pipeline.steps
    begun : ((r.promoted ≡ []) × (r.active ≡ [])) ⊎ (head_is_queued r.pipeline.steps ≡ false)

  Quiet-IsStarved : (c : Config) (r u : Run Q O) → Quiet r u → IsStarved c r → IsStarved c u
  Quiet-IsStarved c r u q v = record {
    config = q.config ∙ v.config;
    capped = rw (q.promoted, q.active) v.capped;
    free = q.free v.free;
    begun = elim v.begun [
      | inl (p, a) ↦ inl (q.promoted ∙ p, q.active ∙ a)
      | inr h ↦ inr (q.head h)
    ];
  }

  -- Behind the start of calls the first alternative only remains with no call in flight.
  record IsPast (c : Config) (r : Run Q O) : Type 0 where
    starved : IsStarved c r
    past : HasBegun r

  start_ready-stuck : (r : Run Q O) → head_is_queued r.pipeline.steps ≡ false → start_ready r ≡ r
  unfolding start_ready
  start_ready-stuck r h = start_from-stuck r.pipeline.steps r h

  start_ready-first :
      (r : Run Q O) → HeadIsFree r.pipeline.steps → r.active ≡ [] → HasBegun (start_ready r)
  unfolding start_ready
  start_ready-first r free idle = from_table r.pipeline.steps r refl free idle

  start_ready-IsPast : (c : Config) (r : Run Q O) → IsStarved c r → IsPast c (start_ready r)
  start_ready-IsPast c r v = elim v.begun [
    | inl (p, a) ↦
        let u = start_ready r in
        let st : Starts r u = start_ready-Starts r in
        let first : HasBegun u = start_ready-first r v.free a in
        let none_yet : u.promoted ≡ [] = st.promoted ∙ p in
        record {
          starved = record {
            config = st.config ∙ v.config;
            capped = omega (
              arith,
              ap length none_yet,
              ap length a,
              ap (λ (k : Config). k.max_concurrency) v.config,
              st.capped,
            );
            free = st.free v.free;
            begun = elim first [ inl idle ↦ inl (none_yet, idle) | inr h ↦ inr h ];
          };
          past = first;
        }
    | inr h ↦ rw (start_ready-stuck r h) (record { starved = v; past = inr h })
  ]

  -- Where no call starts, a run that has begun stays so.
  idle-IsPast : (c : Config) (r : Run Q O) → IsStarved c r → IsPast c r
  idle-IsPast c r v = record {
    starved = v;
    past = elim v.begun [ inl (p, a) ↦ inl a | inr h ↦ inr h ];
  }

  if-Quiet : (b : Bool) (r u : Run Q O) → Quiet r u → Quiet r (if b then u else r)
  if-Quiet true r u q = q
  if-Quiet false r u q = Quiet-refl r

  before_start-Quiet : (w : Round O) (r : Run Q O) → Quiet r (heed_time w (heed_cancel r))
  before_start-Quiet w r =
      let b = heed_cancel r in
      let qb : Quiet r b =
        unfold heed_cancel in if-Quiet r.pipeline.was_cancelled r _ (drain-Quiet cancelled r) in
      let qc : Quiet b (heed_time w b) =
        unfold heed_time in if-Quiet w.expired b _ (quiesce-Quiet duration_cap b) in
      Quiet-trans r b (heed_time w b) qb qc

  after_wait-Quiet : (w : Round O) (r : Run Q O) → Quiet r (after_wait w r)
  after_wait-Quiet w r = unfold after_wait in if-Quiet w.cancels r _ (cancel-Quiet r)

  may_start-stuck :
      (r : Run Q O) → head_is_queued r.pipeline.steps ≡ false → (may_start r).active ≡ r.active
  may_start-stuck r h =
      elim (Bool-cases (not r.pipeline.was_quiesced && not r.pipeline.was_cancelled)) [
        | inl starts ↦ unfold may_start in simp starts (ap (λ x. x.active) (start_ready-stuck r h))
        | inr idle ↦ unfold may_start in simp idle refl
      ]

  -- Behind the first start nothing starts any more.
  before_wait-stuck :
      (w : Round O) (r : Run Q O)
      → head_is_queued r.pipeline.steps ≡ false
      → (before_wait w r).active ≡ r.active
  unfolding before_wait
  before_wait-stuck w r h =
      let q = before_start-Quiet w r in may_start-stuck _ (q.head h) ∙ q.active

  may_start-IsPast : (c : Config) (r : Run Q O) → IsStarved c r → IsPast c (may_start r)
  may_start-IsPast c r v =
      elim (Bool-cases (not r.pipeline.was_quiesced && not r.pipeline.was_cancelled)) [
        | inl starts ↦ unfold may_start in simp starts (start_ready-IsPast c r v)
        | inr idle ↦ unfold may_start in simp idle (idle-IsPast c r v)
      ]

  before_wait-IsPast :
      (c : Config) (w : Round O) (r : Run Q O) → IsStarved c r → IsPast c (before_wait w r)
  unfolding before_wait
  before_wait-IsPast c w r v =
      may_start-IsPast c _ (Quiet-IsStarved c r _ (before_start-Quiet w r) v)

  -- One call less in flight, and at most one promotion more.
  complete-IsStarved :
      (c : Config) (id : String) (o : Outcome O) (r : Run Q O)
      → r.pipeline.config ≡ c
      → suc (length r.promoted + length r.active) ≤ c.max_concurrency
      → HeadIsFree r.pipeline.steps
      → head_is_queued r.pipeline.steps ≡ false
      → IsStarved c (complete id o r)
  unfolding complete
  complete-IsStarved c id (Outcome.promoted x) r e room free h = record {
    config = e;
    capped = omega (arith, length-append r.promoted (id ∷ []));
    free = free-set_state id StepState.promoted r.pipeline.steps free;
    begun = inr (head-set_state id StepState.promoted r.pipeline.steps refl h);
  }
  complete-IsStarved c id (Outcome.discarded f) r e room free h =
      Quiet-IsStarved c _ _ (quiesce-Quiet (fence_failure f) _) (record {
        config = e;
        capped = omega arith;
        free = free-set_state id StepState.discarded r.pipeline.steps free;
        begun = inr (head-set_state id StepState.discarded r.pipeline.steps refl h);
      })

  settle_entry-IsStarved :
      (c : Config) (x : Option (PendingStep Q)) (id : String) (o : Outcome O) (r : Run Q O)
      → r.pipeline.config ≡ c
      → suc (length r.promoted + length r.active) ≤ c.max_concurrency
      → HeadIsFree r.pipeline.steps
      → head_is_queued r.pipeline.steps ≡ false
      → IsStarved c (settle_entry x id o r)
  unfolding settle_entry
  settle_entry-IsStarved c none id o r e room free h = record {
    config = e;
    capped = omega arith;
    free = free;
    begun = inr h;
  }
  settle_entry-IsStarved c (some x) id o r e room free h =
      elim (Bool-cases (is_running_state x.state)) [
        | inl live ↦ simp live (complete-IsStarved c id o r e room free h)
        | inr late ↦
            simp late (record { config = e; capped = omega arith; free = free; begun = inr h })
      ]

  end-le :
      (c : Config) (r : Run Q O) → IsStarved c r → length (at_end r).promoted ≤ c.max_concurrency
  end-le c r v =
      elim (Bool-cases (
        not r.pipeline.was_quiesced
        && (not r.pipeline.was_cancelled && some_of (λ e. is_queued e.state) r.pipeline.steps))) [
          | inl stuck ↦
              let q = quiesce-Quiet cycle_detected r in
              unfold at_end in simp stuck (omega (arith, v.capped, ap length q.promoted))
          | inr done ↦ unfold at_end in simp done (omega (arith, v.capped))
        ]

  -- What a call that ends leaves of the calls in flight and of the first step.
  record Settles (r u : Run Q O) : Type 0 where
    active : u.active ≡ r.active
    head : head_is_queued r.pipeline.steps ≡ false → head_is_queued u.pipeline.steps ≡ false

  complete-Settles : (id : String) (o : Outcome O) (r : Run Q O) → Settles r (complete id o r)
  unfolding complete
  complete-Settles id (Outcome.promoted x) r = record {
    active = refl;
    head = λ h. head-set_state id StepState.promoted r.pipeline.steps refl h;
  }
  complete-Settles id (Outcome.discarded f) r =
      let q = quiesce-Quiet (fence_failure f) (record r {
        pipeline = record (r.pipeline) {
          steps = set_state id StepState.discarded r.pipeline.steps;
        };
        discarded = r.discarded ++ id ∷ [];
      }) in
      record {
        active = q.active;
        head = λ h. q.head (head-set_state id StepState.discarded r.pipeline.steps refl h);
      }

  settle_entry-Settles :
      (x : Option (PendingStep Q)) (id : String) (o : Outcome O) (r : Run Q O)
      → Settles r (settle_entry x id o r)
  unfolding settle_entry
  settle_entry-Settles none id o r = record { active = refl; head = λ h. h }
  settle_entry-Settles (some x) id o r = elim (Bool-cases (is_running_state x.state)) [
    | inl live ↦ simp live (complete-Settles id o r)
    | inr late ↦ simp late (record { active = refl; head = λ h. h })
  ]

  -- The state in which the call that ended is looked at.
  abbrev waited : Round O → Run Q O → String → List String → Run Q O
  waited w r a rest = after_wait w (record r { active = (pick w.winner a rest).1 })

  abbrev settled : Round O → Run Q O → String → List String → Run Q O
  settled w r a rest = settle_call (pick w.winner a rest).0 w.outcome (waited w r a rest)

  -- The head of the loop again, with one call less in flight.
  record IsLess (c : Config) (r u : Run Q O) : Type 0 where
    starved : IsStarved c u
    head : head_is_queued u.pipeline.steps ≡ false
    fewer : suc (length u.active) ≡ length r.active

  next-IsLess :
      (c : Config) (w : Round O) (r : Run Q O) (a : String) (rest : List String)
      → r.active ≡ a ∷ rest
      → IsPast c r
      → IsLess c r (settled w r a rest)
  next-IsLess c w r a rest at v =
      let others = (pick w.winner a rest).1 in
      let x = waited w r a rest in
      let q : Quiet (record r { active = others }) x =
        after_wait-Quiet w (record r { active = others }) in
      let h : head_is_queued x.pipeline.steps ≡ false = q.head (elim v.past [
        | inl idle ↦ absurd (omega (arith, ap length at, ap length idle))
        | inr h ↦ h
      ]) in
      let left = length-pick w.winner a rest in
      let entry = find_step (pick w.winner a rest).0 x.pipeline.steps in
      let s : Settles x (settled w r a rest) =
        unfold settle_call in settle_entry-Settles entry (pick w.winner a rest).0 w.outcome x in
      record {
        starved =
            unfold settle_call in
            settle_entry-IsStarved c entry (pick w.winner a rest).0 w.outcome x
              (q.config ∙ v.starved.config)
              (omega (
                arith,
                v.starved.capped,
                ap length at,
                left,
                ap length q.promoted,
                ap length q.active,
              ))
              (q.free v.starved.free) h;
        head = s.head h;
        fewer = omega (arith, ap length s.active, ap length q.active, left, ap length at);
      }

  -- Fuel for every call in flight and the last turn; before the first start, for every call that may
  -- ever be in flight.
  abbrev IsEnough : Config → ℕ → Run Q O → Type 0
  IsEnough c fuel r =
      ((head_is_queued r.pipeline.steps ≡ false) × (length r.active < fuel))
      ⊎ (suc c.max_concurrency < fuel)

  active_lt :
      (c : Config) (fuel : ℕ) (w : Round O) (r : Run Q O)
      → IsStarved c r
      → IsEnough c (suc fuel) r
      → length (before_wait w r).active ≤ fuel
  active_lt c fuel w r v (inl (h, few)) = omega (arith, few, ap length (before_wait-stuck w r h))
  active_lt c fuel w r v (inr many) =
      let past = before_wait-IsPast c w r v in omega (arith, many, past.starved.capped)

  Ends : Config → Option (Run Q O) → Type 0
  Ends c x = (u : Run Q O) × (x ≡ some u) × (length u.promoted ≤ c.max_concurrency)

  -- The loop behind `startReady`, by the calls that are in flight.
  abbrev turn : ℕ → (ℕ → Round O) → Run Q O → List String → Option (Run Q O)
  turn fuel rounds b xs = elim xs [
    | [] ↦ some (at_end b)
    | a ∷ rest ↦ loop fuel rounds (settled (rounds fuel) b a rest)
  ]

  last_turn :
      (fuel : ℕ) (rounds : ℕ → Round O) (r : Run Q O)
      → (before_wait (rounds fuel) r).active ≡ []
      → loop (suc fuel) rounds r ≡ some (at_end (before_wait (rounds fuel) r))
  unfolding loop
  last_turn fuel rounds r idle = ap (turn fuel rounds (before_wait (rounds fuel) r)) idle

  loop-Ends :
      (c : Config) (fuel : ℕ) (rounds : ℕ → Round O) (r : Run Q O)
      → IsStarved c r
      → IsEnough c fuel r
      → Ends c (loop fuel rounds r)
  unfolding loop Ends
  loop-Ends c zero rounds r v (inl (h, few)) = absurd (omega (arith, few))
  loop-Ends c zero rounds r v (inr many) = absurd (omega (arith, many))
  loop-Ends c (suc fuel) rounds r v enough =
      let w = rounds fuel in
      let b = before_wait w r in
      let past = before_wait-IsPast c w r v in
      let room = active_lt c fuel w r v enough in
      elim (List-cases b.active) [
        | inl idle ↦ (at_end b, last_turn fuel rounds r idle, end-le c b past.starved)
        | inr (a, rest, busy) ↦
            let less = next-IsLess c w b a rest busy past in
            let (u, e, le) =
              loop-Ends c fuel rounds (settled w b a rest) less.starved
                (inl (less.head, omega (arith, less.fewer, room))) in
            (u, rw (busy, loop) e, le)
      ]

-- The loop of `startReady` breaks where it should continue: if the step that was enqueued first
-- depends on nothing, then a whole run ends, within `max_concurrency` + 2 turns, and promotes at
-- most `max_concurrency` steps, however many were enqueued, whatever they depend on, and whatever
-- the speculator answers and the caller cancels.
pub run-promotes_le :
    {Q O : Type 0} (fuel : ℕ) (rounds : ℕ → Round O) (p : Pipeline Q)
    → HeadIsFree p.steps
    → p.config.max_concurrency + 2 ≤ fuel
    → (u : Run Q O) × (run fuel rounds p ≡ some u) × (length u.promoted ≤ p.config.max_concurrency)
unfolding run Ends
run-promotes_le fuel rounds p free enough =
    loop-Ends p.config fuel rounds _
      (record { config = refl; capped = omega arith; free = free; begun = inl (refl, refl) })
      (inr (omega (arith, enough)))
