-- ===== src/Perception/Diff.antt =====
-- packages/perception/src/diff.ts. A `Map` from stable ids to nodes is the list of its nodes, in the
-- order of insertion: each key is its node's own hash. A `Set` of ids is a list without repetition.
pub mod Maps
pub mod Order
pub mod Roundtrip
mod Tests
use rote.Prelude.{
  ℕ, String, Option, some, none, Bool, true, false, not, ◌&&◌, ◌||◌, List, [], ◌∷◌, ◌++◌, map, same,
  length, includes, select, ◌==◌, String-discrete, if◌then◌else◌, Result, ok, err, ◌>>=◌,
}
use rote.Perception.Node.{DistilledNode, hash, DistilledNode-discrete}

pub data Field : Type 0 where
  removed order : Field

-- `ObservationIdentityError` is `duplicate_node`; the others are the `ObservationDiffError`s.
pub data DiffError : Type 0 where
  duplicate_node : String → DiffError
  duplicate_ids : Field → DiffError
  removed_missing updated_inactive added_exists order_references_missing : String → DiffError
  order_incomplete : DiffError

pub record ObservationDiff : Type 0 where
  pub added : List DistilledNode
  pub updated : List DistilledNode
  pub removed : List String
  pub order : List String

-- `map.get(id)`.
abbrev pub get : String → List DistilledNode → Option DistilledNode
get id [] = none
get id (n ∷ ns) = if same String-discrete (hash n) id then some n else get id ns

abbrev pub is_some : {A : Type 0} → Option A → Bool
is_some none = false
is_some (some a) = true

abbrev pub has : String → List DistilledNode → Bool
has id ns = is_some (get id ns)

-- `map.set(node.id.hash, node)`: a key that is there keeps its place.
abbrev pub put : DistilledNode → List DistilledNode → List DistilledNode
put n [] = n ∷ []
put n (m ∷ ms) = if same String-discrete (hash m) (hash n) then n ∷ ms else m ∷ put n ms

-- `map.delete(id)`.
abbrev pub delete : String → List DistilledNode → List DistilledNode
delete id [] = []
delete id (m ∷ ms) = if same String-discrete (hash m) id then ms else m ∷ delete id ms

unfoldable pub node_map_from :
    List DistilledNode → List DistilledNode → Result DiffError (List DistilledNode)
node_map_from mapped [] = ok mapped
node_map_from mapped (n ∷ ns) =
    let rest = node_map_from (put n mapped) ns in
    if has (hash n) mapped then err (duplicate_node (hash n)) else rest

unfoldable pub unique_node_map : List DistilledNode → Result DiffError (List DistilledNode)
unfolding node_map_from
unique_node_map ns = node_map_from [] ns

-- `new Set(ids)`.
unfoldable pub set_from : List String → List String → List String
set_from seen [] = seen
set_from seen (i ∷ is) =
    set_from (if includes String-discrete seen i then seen else seen ++ i ∷ []) is

unfoldable pub unique_ids : List String → Field → Result DiffError (List String)
unfolding set_from
unique_ids ids f =
    let unique = set_from [] ids in
    if length unique == length ids then ok unique else err (duplicate_ids f)

-- The body of the first loop: which list a node of `current` goes to.
abbrev pub is_added : List DistilledNode → DistilledNode → Bool
is_added base n = not (has (hash n) base)

abbrev pub differs : DistilledNode → Option DistilledNode → Bool
differs n none = false
differs n (some previous) = not (same DistilledNode-discrete previous n)

abbrev pub is_updated : List DistilledNode → DistilledNode → Bool
is_updated base n = differs n (get (hash n) base)

abbrev pub diff_of : List DistilledNode → List DistilledNode → ObservationDiff
diff_of base current = record {
  added = select (is_added base) current;
  updated = select (is_updated base) current;
  removed = map hash (select (λ n. not (has (hash n) current)) base);
  order = map hash current;
}

unfoldable pub diff_observations :
    List DistilledNode → List DistilledNode → Result DiffError ObservationDiff
unfolding unique_node_map
diff_observations base current = unique_node_map base >>= λ base_by_id.
    unique_node_map current >>= λ current_by_id. ok (record {
      added = select (is_added base_by_id) current;
      updated = select (is_updated base_by_id) current;
      removed = map hash (select (λ n. not (has (hash n) current_by_id)) base);
      order = map hash current;
    })

-- A validation loop: the error at the first element that fails the test.
abbrev pub check :
    {A : Type 0} → (A → Bool) → (A → DiffError) → List A → Result DiffError (Unit {0})
check bad e [] = ok tt
check bad e (x ∷ xs) = if bad x then err (e x) else check bad e xs

unfoldable pub delete_all : List String → List DistilledNode → List DistilledNode
delete_all [] ns = ns
delete_all (i ∷ is) ns = delete_all is (delete i ns)

unfoldable pub put_all : List DistilledNode → List DistilledNode → List DistilledNode
put_all [] ns = ns
put_all (c ∷ cs) ns = put_all cs (put c ns)

-- `diff.order.map(…)`.
unfoldable pub in_order : List DistilledNode → List String → Result DiffError (List DistilledNode)
in_order ns [] = ok []
in_order ns (i ∷ is) =
    let rest = in_order ns is in
    elim (get i ns) [ none ↦ err (order_references_missing i) | some n ↦ rest >>= λ r. ok (n ∷ r) ]

unfoldable pub reorder : List DistilledNode → List String → Result DiffError (List DistilledNode)
unfolding in_order unique_ids
reorder nodes order_ids = unique_ids order_ids order >>= λ unique.
    if length unique == length nodes then in_order nodes order_ids else err order_incomplete

unfoldable pub apply_observation_diff :
    List DistilledNode → ObservationDiff → Result DiffError (List DistilledNode)
unfolding unique_node_map unique_ids delete_all put_all reorder
apply_observation_diff base d = unique_node_map base >>= λ nodes.
    unique_ids d.removed removed >>= λ gone. unique_node_map (d.updated ++ d.added) >>= λ changed.
    check (λ i. not (has i nodes)) removed_missing gone >>= λ _.
    check (λ n. not (has (hash n) nodes) || includes String-discrete gone (hash n))
      (λ n. updated_inactive (hash n)) d.updated
    >>= λ _.
        check (λ n. has (hash n) nodes && not (includes String-discrete gone (hash n)))
          (λ n. added_exists (hash n)) d.added
        >>= λ _. reorder (put_all changed (delete_all gone nodes)) d.order
