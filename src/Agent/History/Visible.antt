-- ===== src/Agent/History/Visible.antt =====
-- packages/agent/src/history-compaction.ts: how much of the history stays visible, and what of it.
use native.Mathlib.Nat.{mod-lt, div-add-mod'}
use rote.Prelude.{
  ℕ, zero, suc, ◌+◌, ◌-◌, ◌*◌, ◌/◌, ◌≤◌, ◌<◌, String, some, none, true, false, List, [], ◌∷◌, ◌++◌,
  ◌==◌, ==_iff, leb, leb→le, length, length-append, ok, ◌≡◌, refl, ap, subst, ◌∙◌, ◌⊎◌, inl, inr,
  Bool-cases, arith,
}
use rote.Agent.Action.{BrowserAction}
use rote.Agent.History.{
  KindCounts, HistoryCompactionPolicy, is_policy, PlannerActionHistory, take, drop, reversed, pick,
  select_representatives, uncompacted_history, compacted_count, compacted_history,
  build_planner_action_history, count_action_kinds,
}
use rote.Agent.History.Counts.{AreCounts, count_action_kinds-AreCounts}
use rote.Agent.History.Representatives.{Sublist, HasDistinctKeys, Picks, pick-Picks}

reversed-append :
    (xs : List BrowserAction) (a : BrowserAction) → reversed (xs ++ a ∷ []) ≡ a ∷ reversed xs
reversed-append [] a = refl
reversed-append (x ∷ xs) a = ap (λ ys. ys ++ x ∷ []) (reversed-append xs a)

reversed-reversed : (xs : List BrowserAction) → reversed (reversed xs) ≡ xs
reversed-reversed [] = refl
reversed-reversed (x ∷ xs) =
    reversed-append (reversed xs) x ∙ ap (λ ys. x ∷ ys) (reversed-reversed xs)

take-drop : (n : ℕ) (xs : List BrowserAction) → take n xs ++ drop n xs ≡ xs
take-drop zero xs = refl
take-drop (suc n) [] = refl
take-drop (suc n) (x ∷ xs) = ap (λ ys. x ∷ ys) (take-drop n xs)

length-take : (n : ℕ) (xs : List BrowserAction) → n ≤ length xs → length (take n xs) ≡ n
length-take zero xs h = refl
length-take (suc n) [] h = absurd (omega arith)
length-take (suc n) (x ∷ xs) h = ap suc (length-take n xs (omega arith))

-- What of the actions a planner request shows under a policy.
pub data IsBounded (digest : List BrowserAction → String) (p : HistoryCompactionPolicy)
    (actions : List BrowserAction) : PlannerActionHistory → Type 0 where
  whole :
      (length actions ≤ p.max_actions_before_compaction)
        ⊎ (length actions < p.recent_action_count + p.compaction_interval)
      → IsBounded digest p actions (record { visible_actions = actions; compaction = none })
  compacted :
      (older recent shown : List BrowserAction) (n k : ℕ) (counts : KindCounts)
      → older ++ recent ≡ actions
      → length older ≡ n
      → n ≡ k * p.compaction_interval
      → 0 < n
      → p.recent_action_count ≤ length recent
      → length recent < p.recent_action_count + p.compaction_interval
      → Sublist shown older
      → HasDistinctKeys shown
      → length shown ≤ p.representative_action_limit
      → AreCounts older counts
      → IsBounded digest p actions (record {
        visible_actions = shown ++ recent;
        compaction = some (record {
          compacted_action_count = n;
          through_action_index = n - 1;
          retained_representative_count = length shown;
          history_digest = digest older;
          kind_counts = counts;
        });
      })

-- Rounding down to a multiple of the interval.
rounded :
    (n interval : ℕ)
    → 0 < interval
    → (n / interval * interval ≤ n) × (n < n / interval * interval + interval)
rounded n interval h =
    (omega (arith, div-add-mod' n interval), omega (arith, div-add-mod' n interval, mod-lt n h))

module _ (digest : List BrowserAction → String) (p : HistoryCompactionPolicy)
    (actions : List BrowserAction) where
  compacted-IsBounded :
      (n k : ℕ)
      → n ≡ k * p.compaction_interval
      → 0 < n
      → n + p.recent_action_count ≤ length actions
      → length actions < n + (p.recent_action_count + p.compaction_interval)
      → IsBounded digest p actions (compacted_history digest p actions n)
  unfolding compacted_history select_representatives
  compacted-IsBounded n k e some_older enough near =
      let older = take n actions in
      let shown = pick p.representative_action_limit [] (reversed older) in
      let picks : Picks p.representative_action_limit [] (reversed older) shown =
        pick-Picks p.representative_action_limit [] (reversed older) in
      let same_length = length-take n actions (omega arith) in
      let split = length-append older (drop n actions) in
      let whole_length = ap length (take-drop n actions) in
      compacted older (drop n actions) shown n k (count_action_kinds older) (take-drop n actions)
        same_length e some_older (omega (arith, same_length, split, whole_length))
        (omega (arith, same_length, split, whole_length))
        (subst (Sublist shown) (reversed-reversed older) picks.chosen) picks.distinct picks.few
        (count_action_kinds-AreCounts older)

  uncompacted :
      (length actions ≤ p.max_actions_before_compaction)
        ⊎ (length actions < p.recent_action_count + p.compaction_interval)
      → IsBounded digest p actions (uncompacted_history actions)
  unfolding uncompacted_history
  uncompacted h = whole h

  -- The three ways of a valid policy.
  build_small :
      is_policy p ≡ true
      → leb (length actions) p.max_actions_before_compaction ≡ true
      → build_planner_action_history digest actions (some p) ≡ ok (uncompacted_history actions)
  unfolding build_planner_action_history
  build_small valid small = rw (valid, small) refl

  build_early :
      is_policy p ≡ true
      → leb (length actions) p.max_actions_before_compaction ≡ false
      → (compacted_count p actions == 0) ≡ true
      → build_planner_action_history digest actions (some p) ≡ ok (uncompacted_history actions)
  unfolding build_planner_action_history
  build_early valid large early = rw (valid, large, early) refl

  build_large :
      is_policy p ≡ true
      → leb (length actions) p.max_actions_before_compaction ≡ false
      → (compacted_count p actions == 0) ≡ false
      → build_planner_action_history digest actions (some p)
        ≡ ok (compacted_history digest p actions (compacted_count p actions))
  unfolding build_planner_action_history
  build_large valid large late = rw (valid, large, late) refl

  -- Under a valid policy there is always a history. It shows all actions, where these are at most
  -- the maximum before compaction or fewer than the recent count and one interval; or the newest
  -- actions exactly, at least the recent count and fewer than one interval more, behind at most the
  -- limit of the older ones, in their order and with distinct keys, where the older are a multiple
  -- of the interval and the record has their number, their digest and, for each kind of action, how
  -- many of them are of it.
  pub build-IsBounded :
      is_policy p ≡ true
      → (h : PlannerActionHistory) × (build_planner_action_history digest actions (some p) ≡ ok h)
        × IsBounded digest p actions h
  build-IsBounded valid =
      let interval : 0 < p.compaction_interval = ground arith in
      let recent : p.recent_action_count < p.max_actions_before_compaction = ground arith in
      let (below, above) =
        rounded (length actions - p.recent_action_count) p.compaction_interval interval in
      elim (Bool-cases (leb (length actions) p.max_actions_before_compaction)) [
        | inl small ↦ (
          uncompacted_history actions,
          build_small valid small,
          uncompacted (inl (leb→le _ _ small)),
        )
        | inr large ↦
            let more : p.max_actions_before_compaction < length actions = ground arith in
            elim (Bool-cases (compacted_count p actions == 0)) [
              | inl early ↦
                  let none_older = (==_iff (compacted_count p actions) 0).0 early in
                  (
                    uncompacted_history actions,
                    build_early valid large early,
                    uncompacted (inr (omega (arith, none_older, above))),
                  )
              | inr late ↦
                  let some_older : 0 < compacted_count p actions = ground arith in
                  (
                    compacted_history digest p actions (compacted_count p actions),
                    build_large valid large late,
                    compacted-IsBounded (compacted_count p actions)
                        ((length actions - p.recent_action_count) / p.compaction_interval) refl
                        some_older (omega (arith, below, more, recent))
                        (omega (arith, above, more, recent)),
                  )
            ]
      ]
