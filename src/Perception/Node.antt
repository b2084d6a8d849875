-- ===== src/Perception/Node.antt =====
-- packages/perception/src/types.ts, and the context coordinate of packages/browser/src/types.ts.
-- A value of these types is one that its schema parsed, so `version` fields are left out.
use rote.Prelude.{ℕ, String, Option, Bool, List, String-discrete, ℕ_discrete}
use rote.Core.ActionContract.{Control, EnterBehavior, FormMethod}

pub data ShadowMode : Type 0 where
  open_root closed_root : ShadowMode

pub data ContextSegment : Type 0 where
  frame : (key_hash origin_hash : String) → ContextSegment
  shadow : (key_hash : String) (mode : ShadowMode) → ContextSegment

pub record ContextCoordinate : Type 0 where
  pub path : List ContextSegment
  pub context_hash : String
  pub document_token : String

pub data StableNodeId : Type 0 where
  v1 : (hash : String) → StableNodeId
  v2 : (hash context_hash container_hash : String) → StableNodeId

pub record NodeAffordance : Type 0 where
  pub control : Control
  pub input_type : Option String
  pub enter_behavior : EnterBehavior
  pub destination_hash : Option String
  pub form_method : Option FormMethod
  pub enabled : Bool
  pub draggable : Bool

pub record DistilledNode : Type 0 where
  pub id : StableNodeId
  pub role : String
  pub name : String
  pub tag : String
  pub selector_hint : Option String
  pub depth : ℕ
  pub interactive : Bool
  pub context : Option ContextCoordinate
  -- `state`, and its `checked`.
  pub state : Option (Option Bool)
  pub affordance : Option NodeAffordance

abbrev pub id_hash : StableNodeId → String
id_hash (v1 h) = h
id_hash (v2 h c k) = h

-- `node.id.hash`.
abbrev pub hash : DistilledNode → String
hash n = id_hash n.id

-- `sameNode`: nodes have the same JSON text exactly when they are equal.
unfoldable pub DistilledNode-discrete : Discrete DistilledNode
DistilledNode-discrete = hlevel (String-discrete, ℕ_discrete)
