-- ===== src/Executor/Playbook.antt =====
-- packages/core/src/schemas/playbook.ts and expect.ts: playbooks and the closed language of their
-- assertions. A value of these types is one that its schema parsed.
use rote.Prelude.{ℕ, String, Option, List}
use rote.Executor.Json.{Json}

pub data Expect (N : Type 0) : Type 0 where
  exit_code : N → Expect N
  selector_visible selector_absent : String → Expect N
  input_value : (selector equals : String) → Expect N
  url_contains text_visible json_path_exists : String → Expect N
  json_path_equals : (path : String) (equals : Option (Json N)) → Expect N
  output_matches : String → Expect N
  nonempty : Expect N

pub data OnFail : Type 0 where
  retry repair fallback : OnFail

pub data StepKind (N : Type 0) : Type 0 where
  deterministic : (tool : String) (args : Json N) → StepKind N
  slot : (prompt : String) (max_tokens : ℕ) (into : String) → StepKind N
  judgment : (prompt : String) (options : List String) → StepKind N

pub record Step (N : Type 0) : Type 0 where
  pub id : String
  pub depends_on : List String
  pub expect : Option (Expect N)
  pub on_fail : OnFail
  pub kind : StepKind N

pub data ParamType : Type 0 where
  string number boolean money : ParamType

pub record Param : Type 0 where
  pub name : String
  pub type : ParamType

-- The intent, the environment and the confidence are read neither by a replay nor by the checks.
pub record Playbook (N : Type 0) : Type 0 where
  pub playbook : String
  pub version : ℕ
  pub params : List Param
  pub steps : List (Step N)
  pub verify : List (Expect N)
