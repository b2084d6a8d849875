-- ===== src/Agent/History/Tests.antt =====
-- packages/agent/src/history-compaction.ts: a history of five actions under a small policy.
use rote.Prelude.{String, some, none, true, List, [], ◌∷◌, ok, ◌≡◌, refl}
use rote.Agent.Action.{BrowserAction, navigate, click}
use rote.Agent.History.{
  HistoryCompactionPolicy, is_policy, default_history_compaction_policy, PlannerActionHistory,
  build_planner_action_history, select_representatives, Key-discrete, pick,
}
use rote.Agent.History.Visible.{IsBounded, build-IsBounded}

abbrev small_policy : HistoryCompactionPolicy
small_policy = record {
  max_actions_before_compaction = 3;
  compaction_interval = 2;
  recent_action_count = 1;
  representative_action_limit = 3;
}

abbrev click_on : String → BrowserAction
click_on s =
    click
      (record {
        selector = s;
        stable_id = none;
        context_hash = none;
        role = none;
        name = none;
        text = none;
      })
      none

abbrev five_actions : List BrowserAction
five_actions =
    navigate "/a" none ∷ click_on "x" ∷ click_on "x" ∷ navigate "/b" none ∷ click_on "y" ∷ []

-- The later of two actions with one key stands for both.
representatives : select_representatives five_actions 2 ≡ navigate "/b" none ∷ click_on "y" ∷ []
unfolding select_representatives pick Key-discrete
representatives = refl

default_is_policy : is_policy default_history_compaction_policy ≡ true
default_is_policy = refl

build-IsBounded_example :
    (h : PlannerActionHistory) × (build_planner_action_history
        (λ xs. "digest")
        five_actions
        (some small_policy)
      ≡ ok h)
    × IsBounded (λ xs. "digest") small_policy five_actions h
build-IsBounded_example = build-IsBounded (λ xs. "digest") small_policy five_actions refl
