-- ===== src/Perception/Diff/Tests.antt =====
-- A page on which one node changed, one vanished and one came.
use rote.Prelude.{String, none, true, List, [], ◌∷◌, ◌≡◌, refl, String-discrete, ok, ℕ_discrete}
use rote.Perception.Node.{DistilledNode, v2, DistilledNode-discrete}
use rote.Perception.Diff.{ObservationDiff, diff_observations, apply_observation_diff}
use rote.Perception.Diff.Roundtrip.{apply-diff}

abbrev node : String → String → DistilledNode
node h name = record {
  id = v2 h "top" "body";
  role = "button";
  name = name;
  tag = "button";
  selector_hint = none;
  depth = 2;
  interactive = true;
  context = none;
  state = none;
  affordance = none;
}

abbrev base : List DistilledNode
base = node "a" "Save" ∷ node "b" "Cancel" ∷ node "c" "Help" ∷ []

abbrev current : List DistilledNode
current = node "d" "Next" ∷ node "c" "Help" ∷ node "a" "Saved" ∷ []

diff_runs :
    diff_observations base current
    ≡ ok (record {
      added = node "d" "Next" ∷ [];
      updated = node "a" "Saved" ∷ [];
      removed = "b" ∷ [];
      order = "d" ∷ "c" ∷ "a" ∷ [];
    })
unfolding diff_observations String-discrete DistilledNode-discrete ℕ_discrete
diff_runs = refl

apply-diff_example :
    (d : ObservationDiff) × (diff_observations base current ≡ ok d)
    × (apply_observation_diff base d ≡ ok current)
unfolding String-discrete
apply-diff_example = apply-diff base current (refl, (refl, (refl, tt))) (refl, (refl, (refl, tt)))
