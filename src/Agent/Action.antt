-- ===== src/Agent/Action.antt =====
-- packages/agent/src/types.ts: `BrowserAction`, and `BrowserExpect` of
-- packages/core/src/schemas/expect.ts. A value is one that its schema parsed.
use rote.Prelude.{String, Option, Bool}

pub data BrowserExpect : Type 0 where
  selector_visible selector_absent : String → BrowserExpect
  input_value : (selector equals : String) → BrowserExpect
  url_contains text_visible : String → BrowserExpect

pub record Target : Type 0 where
  pub selector : String
  pub stable_id : Option String
  pub context_hash : Option String
  pub role : Option String
  pub name : Option String
  pub text : Option String

pub record DropTarget : Type 0 where
  pub selector : String
  pub stable_id : Option String
  pub role : Option String
  pub name : Option String
  pub text : Option String

-- `recall_unavailable` is the only classification that a planner may give.
pub data PlannerFailure : Type 0 where
  recall_unavailable : PlannerFailure

pub data BrowserAction : Type 0 where
  navigate : (url : String) (expect : Option BrowserExpect) → BrowserAction
  fill select : (target : Target) (value : String) (expect : Option BrowserExpect) → BrowserAction
  click hover : (target : Target) (expect : Option BrowserExpect) → BrowserAction
  press : (target : Target) (chord : String) (expect : Option BrowserExpect) → BrowserAction
  upload : (target : Target) (file_id : String) (expect : Option BrowserExpect) → BrowserAction
  drag_and_drop :
      (target : Target) (onto : DropTarget) (expect : Option BrowserExpect) → BrowserAction
  done :
      (success : Bool) (summary : String) (failure_classification : Option PlannerFailure)
      → BrowserAction
