-- ===== src/Action/Settledness/Quiet.antt =====
-- packages/action/src/settledness.ts: what an answer promises.
use rote.Prelude.{
  ℕ, zero, suc, ◌+◌, ◌-◌, ◌<◌, ◌≤◌, Option, some, none, false, ◌||◌, leb, ltb, ◌==◌, Result, ok,
  err, ◌≡◌, refl, sym, ap, true, ◌↔◌, arith, Bool-cases, inl, inr, if◌then◌else◌,
}
use rote.Action.Settledness.{
  ActivitySample, SettleOptions, same_version, is_changed, changed_at, is_settled, turns,
  wait_for_settled,
}

same_version_iff : (a b : Option ℕ) → (same_version a b ≡ true) ↔ (a ≡ b)
same_version_iff none none = (λ _. refl, λ _. refl)
same_version_iff (some a) (some b) = ground arith
same_version_iff none (some b) = (λ h. cc, λ h. cc)
same_version_iff (some a) none = (λ h. cc, λ h. cc)

unchanged_iff :
    (p s : ActivitySample)
    → (is_changed (some p) s ≡ false)
      ↔ ((s.mutation_version ≡ p.mutation_version) × (s.network_version ≡ p.network_version))
unchanged_iff p s = ground (arith, same_version_iff s.network_version p.network_version)

module _ (o : SettleOptions) (started : ℕ) (now : ℕ → ℕ) (sample : ℕ → ActivitySample) where
  -- Between two turns neither version changed, and in the later one few enough requests were pending.
  pub record IsQuiet (n : ℕ) : Type 0 where
    pub same_mutations : (sample (suc n)).mutation_version ≡ (sample n).mutation_version
    pub same_network : (sample (suc n)).network_version ≡ (sample n).network_version
    pub few : (sample (suc n)).pending_requests ≤ o.max_pending

  -- Quiet from one turn to a later one.
  pub data Steady (m : ℕ) : ℕ → Type 0 where
    now_on : Steady m m
    longer : {n : ℕ} → Steady m n → IsQuiet n → Steady m (suc n)

  pub record Settled (s : ActivitySample) : Type 0 where
    pub since : ℕ
    pub until : ℕ
    pub steady : Steady since until
    pub returned : s ≡ sample until
    pub few : (sample until).pending_requests ≤ o.max_pending
    pub long : o.quiet_window ≤ now until - now since

  after_turn :
      (n m : ℕ) (s : ActivitySample) (rest : Option (Result ActivitySample ActivitySample))
      → Steady m n
      → (if is_settled o (sample n) (now n) (now m)
          then some (ok (sample n))
          else if leb o.timeout (now n - started)
          then some (err (sample n))
          else rest)
        ≡ some (ok s)
      → (rest ≡ some (ok s) → Settled s)
      → Settled s
  after_turn n m s rest steady e later =
      elim (Bool-cases (is_settled o (sample n) (now n) (now m))) [
        | inl settled ↦
            let same_sample : sample n ≡ s = cc (rw settled at e) in
            record {
              since = m;
              until = n;
              steady = steady;
              returned = sym same_sample;
              few = ground (arith, settled);
              long = ground (arith, settled);
            }
        | inr unsettled ↦ elim (Bool-cases (leb o.timeout (now n - started))) [
          | inl late ↦
              let threw : some (err (sample n)) ≡ some (ok s) = rw (unsettled, late) at e in
              absurd cc
          | inr still ↦ later (rw (unsettled, still) at e)
        ]
      ]

  turns-Settled :
      (fuel n m : ℕ) (s : ActivitySample)
      → Steady m n
      → turns o started now sample fuel (suc n) (some (sample n)) (now m) ≡ some (ok s)
      → Settled s
  unfolding turns changed_at
  turns-Settled zero n m s steady e = absurd cc
  turns-Settled (suc fuel) n m s steady e =
      elim (Bool-cases (
        is_changed (some (sample n)) (sample (suc n))
        || ltb o.max_pending (sample (suc n)).pending_requests)) [
          | inl moved ↦
              after_turn (suc n) (suc n) s _ now_on (rw (moved, turns, changed_at) at e)
                (λ k. turns-Settled fuel (suc n) (suc n) s now_on k)
          | inr quiet ↦
              let alike = (unchanged_iff (sample n) (sample (suc n))).0 (ground (arith, quiet)) in
              let longer_steady : Steady m (suc n) = longer steady (record {
                same_mutations = alike.0;
                same_network = alike.1;
                few = ground (arith, quiet);
              }) in
              after_turn (suc n) m s _ longer_steady (rw (quiet, turns, changed_at) at e)
                (λ k. turns-Settled fuel (suc n) m s longer_steady k)
        ]

  -- A sample that is returned ends a stretch of turns, at least as long as the quiet window by the
  -- clock, over which neither the mutation version nor the network version changed; at no turn of
  -- the stretch but perhaps the first, and not in the sample that is returned, were more requests
  -- pending than tolerated.
  pub wait_for_settled-Settled :
      (fuel : ℕ) (s : ActivitySample)
      → wait_for_settled o started now sample fuel ≡ some (ok s)
      → Settled s
  unfolding wait_for_settled turns changed_at
  wait_for_settled-Settled zero s e = absurd cc
  wait_for_settled-Settled (suc fuel) s e =
      after_turn 0 0 s _ now_on e (λ k. turns-Settled fuel 0 0 s now_on k)

  changed_at_le :
      (previous : Option ActivitySample) (s : ActivitySample) (t last : ℕ)
      → last ≤ t
      → changed_at o previous s t last ≤ t
  unfolding changed_at
  changed_at_le previous s t last h =
      elim (Bool-cases (is_changed previous s || ltb o.max_pending s.pending_requests)) [
        | inl e ↦ rw e (omega arith)
        | inr e ↦ rw e h
      ]

  -- Some sample is returned.
  Answers : Option (Result ActivitySample ActivitySample) → Type 0
  Answers r = (s : ActivitySample) × (r ≡ some (ok s))

  module _ (k n : ℕ) (quiet : (i : ℕ) → k ≤ i → i < n → IsQuiet i)
      (in_time : (i : ℕ) → i < n → now i - started < o.timeout)
      (window : now k + o.quiet_window ≤ now n) where
    quiet_turns :
        (fuel i last : ℕ)
        → k ≤ i
        → i < n
        → n < fuel + suc i
        → last ≤ now k
        → Answers (turns o started now sample fuel (suc i) (some (sample i)) last)
    unfolding turns changed_at Answers
    quiet_turns zero i last after before enough old = absurd (omega (arith, before, enough))
    quiet_turns (suc fuel) i last after before enough old =
        let q = quiet i after before in
        let stays : (is_changed (some (sample i)) (sample (suc i))
              || ltb o.max_pending (sample (suc i)).pending_requests)
            ≡ false =
          ground (arith, (unchanged_iff _ _).1 (q.same_mutations, q.same_network), q.few) in
        elim (Bool-cases (is_settled o (sample (suc i)) (now (suc i)) last)) [
          | inl settled ↦ (sample (suc i), rw (stays, settled, turns, changed_at) refl)
          | inr unsettled ↦ elim (Bool-cases (suc i == n)) [
            | inl last_turn ↦
                let there : suc i ≡ n = ground (arith, last_turn) in
                let same_time : now (suc i) ≡ now n = ap now there in
                absurd (ground (arith, unsettled, q.few, window, old, same_time))
            | inr more ↦
                let earlier : suc i < n = ground (arith, before, more) in
                let still : leb o.timeout (now (suc i) - started) ≡ false =
                  ground (arith, in_time (suc i) earlier) in
                rw (stays, unsettled, still, turns, changed_at)
                  (quiet_turns fuel (suc i) last (omega (arith, after)) earlier
                    (omega (arith, enough)) old)
          ]
        ]

    early_turns :
        ((i : ℕ) → now i ≤ now (suc i))
        → k < n
        → (fuel j last : ℕ) (previous : Option ActivitySample) → j ≤ k
        → n < fuel + j
        → last ≤ now j
        → Answers (turns o started now sample fuel j previous last)
    unfolding turns Answers
    early_turns forward before zero j last previous early enough old =
        absurd (omega (arith, early, enough, before))
    early_turns forward before (suc fuel) j last previous early enough old =
        let moved = changed_at o previous (sample j) (now j) last in
        let moved_le : moved ≤ now j = changed_at_le previous (sample j) (now j) last old in
        elim (Bool-cases (is_settled o (sample j) (now j) moved)) [
          | inl settled ↦ (sample j, rw (settled, turns) refl)
          | inr unsettled ↦
              let still : leb o.timeout (now j - started) ≡ false =
                ground (arith, in_time j (omega (arith, early, before))) in
              rw (unsettled, still, turns)
                (elim (Bool-cases (j == k)) [
                  | inl at_k ↦
                      let there : j ≡ k = ground (arith, at_k) in
                      let same_time : now j ≡ now k = ap now there in
                      quiet_turns fuel j moved (omega (arith, there)) (omega (arith, there, before))
                        (omega (arith, enough)) (omega (arith, moved_le, same_time))
                  | inr sooner ↦
                      early_turns forward before fuel (suc j) moved (some (sample j))
                        (ground (arith, early, sooner)) (omega (arith, enough))
                        (omega (arith, moved_le, forward j))
                ])
        ]

    -- If the browser falls quiet at some turn and stays so until a later turn, at which the quiet window
    -- has passed by a clock that does not go back and before which the timeout was not reached, then
    -- the wait returns a sample, by that turn.
    pub wait_for_settled_answers :
        ((i : ℕ) → now i ≤ now (suc i))
        → started ≤ now 0
        → k < n
        → (fuel : ℕ) → n < fuel
        → (s : ActivitySample) × (wait_for_settled o started now sample fuel ≡ some (ok s))
    unfolding wait_for_settled Answers
    wait_for_settled_answers forward begun before fuel enough =
        early_turns forward before fuel 0 started none (omega arith) (omega (arith, enough)) begun
