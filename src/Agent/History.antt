-- ===== src/Agent/History.antt =====
-- packages/agent/src/history-compaction.ts: which earlier actions a planner request shows. The text of
-- the history, JSON of the same parts, is left out; SHA-256 of the older actions is a parameter. The
-- parts of a representative's key are joined by NUL, which none of them holds: the key is their tuple.
pub mod Counts
pub mod Representatives
pub mod Visible
mod Tests
use rote.Prelude.{
  ℕ, zero, suc, ◌+◌, ◌-◌, ◌*◌, ◌/◌, String, Option, some, none, Bool, true, false, not, ◌||◌, ◌&&◌,
  List, [], ◌∷◌, ◌++◌, same, leb, ltb, ◌==◌, length, includes, String-discrete, if◌then◌else◌,
  Result, ok, err,
}
use rote.Agent.Action.{Target, BrowserAction}

pub data Kind : Type 0 where
  navigate fill select click hover press upload drag_and_drop done : Kind

unfoldable pub Kind-discrete : Discrete Kind
Kind-discrete = hlevel

pub record HistoryCompactionPolicy : Type 0 where
  pub max_actions_before_compaction : ℕ
  pub compaction_interval : ℕ
  pub recent_action_count : ℕ
  pub representative_action_limit : ℕ

-- What `HistoryCompactionPolicySchema` accepts.
abbrev pub is_policy : HistoryCompactionPolicy → Bool
is_policy p =
    ltb 0 p.max_actions_before_compaction
    && (ltb 0 p.compaction_interval
        && (ltb 0 p.recent_action_count
            && (ltb p.recent_action_count p.max_actions_before_compaction
                && leb p.compaction_interval p.max_actions_before_compaction)))

abbrev pub default_history_compaction_policy : HistoryCompactionPolicy
default_history_compaction_policy = record {
  max_actions_before_compaction = 24;
  compaction_interval = 16;
  recent_action_count = 8;
  representative_action_limit = 8;
}

pub record KindCounts : Type 0 where
  pub navigate : ℕ
  pub fill : ℕ
  pub select : ℕ
  pub click : ℕ
  pub hover : ℕ
  pub press : ℕ
  pub upload : ℕ
  pub drag_and_drop : ℕ
  pub done : ℕ

pub record HistoryCompactionRecord : Type 0 where
  pub compacted_action_count : ℕ
  pub through_action_index : ℕ
  pub retained_representative_count : ℕ
  pub history_digest : String
  pub kind_counts : KindCounts

pub record PlannerActionHistory : Type 0 where
  pub visible_actions : List BrowserAction
  pub compaction : Option HistoryCompactionRecord

abbrev pub kind_of : BrowserAction → Kind
kind_of (BrowserAction.navigate u e) = Kind.navigate
kind_of (BrowserAction.fill t v e) = Kind.fill
kind_of (BrowserAction.select t v e) = Kind.select
kind_of (BrowserAction.click t e) = Kind.click
kind_of (BrowserAction.hover t e) = Kind.hover
kind_of (BrowserAction.press t c e) = Kind.press
kind_of (BrowserAction.upload t f e) = Kind.upload
kind_of (BrowserAction.drag_and_drop t o e) = Kind.drag_and_drop
kind_of (BrowserAction.done s t f) = Kind.done

pub data Key : Type 0 where
  alone : Kind → Key
  stable : Kind → String → Key
  described : Kind → (role label selector : String) → Key

unfoldable pub Key-discrete : Discrete Key
Key-discrete = hlevel (String-discrete, Kind-discrete)

abbrev pub or_empty : Option String → String
or_empty none = ""
or_empty (some s) = s

-- `action.name ?? action.text ?? ''`.
abbrev pub label_of : Option String → Option String → String
label_of none text = or_empty text
label_of (some name) text = name

abbrev pub target_key : Kind → Target → Option String → Key
target_key k t (some id) = stable k id
target_key k t none = described k (or_empty t.role) (label_of t.name t.text) t.selector

abbrev pub representative_key : BrowserAction → Key
representative_key (BrowserAction.navigate u e) = alone Kind.navigate
representative_key (BrowserAction.fill t v e) = target_key Kind.fill t t.stable_id
representative_key (BrowserAction.select t v e) = target_key Kind.select t t.stable_id
representative_key (BrowserAction.click t e) = target_key Kind.click t t.stable_id
representative_key (BrowserAction.hover t e) = target_key Kind.hover t t.stable_id
representative_key (BrowserAction.press t c e) = target_key Kind.press t t.stable_id
representative_key (BrowserAction.upload t f e) = target_key Kind.upload t t.stable_id
representative_key (BrowserAction.drag_and_drop t o e) = target_key Kind.drag_and_drop t t.stable_id
representative_key (BrowserAction.done s t f) = alone Kind.done

abbrev pub take : ℕ → List BrowserAction → List BrowserAction
take zero xs = []
take (suc n) [] = []
take (suc n) (x ∷ xs) = x ∷ take n xs

abbrev pub drop : ℕ → List BrowserAction → List BrowserAction
drop zero xs = xs
drop (suc n) [] = []
drop (suc n) (x ∷ xs) = drop n xs

abbrev pub reversed : List BrowserAction → List BrowserAction
reversed [] = []
reversed (x ∷ xs) = reversed xs ++ x ∷ []

-- The loop from the last action to the first; the sort by index puts them back in their order.
unfoldable pub pick : ℕ → List Key → List BrowserAction → List BrowserAction
pick zero seen xs = []
pick (suc limit) seen [] = []
pick (suc limit) seen (a ∷ xs) =
    let skipped = pick (suc limit) seen xs in
    let taken = pick limit (representative_key a ∷ seen) xs in
    if includes Key-discrete seen (representative_key a) then skipped else taken ++ a ∷ []

unfoldable pub select_representatives : List BrowserAction → ℕ → List BrowserAction
unfolding pick
select_representatives actions limit = pick limit [] (reversed actions)

abbrev pub count_of : Kind → List BrowserAction → ℕ
count_of k [] = 0
count_of k (a ∷ xs) =
    if same Kind-discrete (kind_of a) k then suc (count_of k xs) else count_of k xs

unfoldable pub count_action_kinds : List BrowserAction → KindCounts
count_action_kinds xs = record {
  navigate = count_of Kind.navigate xs;
  fill = count_of Kind.fill xs;
  select = count_of Kind.select xs;
  click = count_of Kind.click xs;
  hover = count_of Kind.hover xs;
  press = count_of Kind.press xs;
  upload = count_of Kind.upload xs;
  drag_and_drop = count_of Kind.drag_and_drop xs;
  done = count_of Kind.done xs;
}

unfoldable pub uncompacted_history : List BrowserAction → PlannerActionHistory
uncompacted_history actions = record { visible_actions = actions; compaction = none }

abbrev pub compacted_count : HistoryCompactionPolicy → List BrowserAction → ℕ
compacted_count p actions =
    (length actions - p.recent_action_count) / p.compaction_interval * p.compaction_interval

module _ (digest : List BrowserAction → String) where
  unfoldable pub compacted_history :
      HistoryCompactionPolicy → List BrowserAction → ℕ → PlannerActionHistory
  unfolding select_representatives count_action_kinds
  compacted_history p actions n =
      let representatives = select_representatives (take n actions) p.representative_action_limit in
      record {
        visible_actions = representatives ++ drop n actions;
        compaction = some (record {
          compacted_action_count = n;
          through_action_index = n - 1;
          retained_representative_count = length representatives;
          history_digest = digest (take n actions);
          kind_counts = count_action_kinds (take n actions);
        });
      }

  -- `none` is the policy `false`; a policy that its schema rejects throws.
  unfoldable pub build_planner_action_history :
      List BrowserAction
      → Option HistoryCompactionPolicy
      → Result HistoryCompactionPolicy PlannerActionHistory
  unfolding uncompacted_history compacted_history
  build_planner_action_history actions none = ok (uncompacted_history actions)
  build_planner_action_history actions (some p) =
      if not (is_policy p)
      then err p
      else if leb (length actions) p.max_actions_before_compaction
      then ok (uncompacted_history actions)
      else if compacted_count p actions == 0
      then ok (uncompacted_history actions)
      else ok (compacted_history p actions (compacted_count p actions))
