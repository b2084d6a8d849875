-- ===== src/Executor/Run/Tests.antt =====
-- packages/executor/src/executor.ts: a replay of two steps, of which the first was completed by an
-- earlier session and the second fails once. Numbers of JSON are natural numbers.
use rote.Prelude.{
  String, All, ◌<◌, ℕ, some, none, true, false, [], ◌∷◌, same, String-discrete, ℕ_discrete,
  if◌then◌else◌, ◌==◌,
}
use rote.Executor.Json.{null, string, object, no_field, field, Host}
use rote.Executor.Playbook.{Step, url_contains, OnFail, retry, deterministic, Playbook}
use rote.Executor.Attempt.{
  LlmRequest, fill, judge, Templates, ToolOutcome, succeeded, failed, Boundary,
}
use rote.Executor.Run.{success, ExecutorDeps, ExecutorResult}

abbrev host : Host ℕ
host = record {
  show_number = λ n. "n";
  same_number = ℕ_discrete;
  stringify = λ v. "{}";
  contains = λ t s. same String-discrete t s;
  matches = λ q t. if same String-discrete q "(" then none else some false;
  segments = λ q. [];
  index_of = λ s. none;
  is_inherited = λ s. false;
}

abbrev plain : Templates ℕ
plain = record {
  render_args = λ v j bs. some j;
  render_text = λ v s bs. some s;
  render_expect = λ v e bs. some e;
}

-- The first call fails.
abbrev answer : ℕ → ToolOutcome ℕ
answer n =
    if n == 0
    then failed (some "BUSY")
    else succeeded (object (field "url" (string "/done") no_field))

abbrev completion : LlmRequest → String
completion (fill prompt max_tokens) = "text"
completion (judge prompt []) = ""
completion (judge prompt (option ∷ options)) = option

abbrev boundary : Boundary ℕ
boundary = record {
  call = λ n tool args. some (answer n);
  complete = λ n q. some (completion q);
  on_step_completed = λ n e. true;
}

abbrev deps : ExecutorDeps ℕ
deps = record {
  boundary = boundary;
  max_attempts = 3;
  resume = record { completed_step_ids = "open" ∷ []; step_bindings = [] };
  reports_steps = true;
  stop_after_step_id = none;
}

abbrev book : Playbook ℕ
book = record {
  playbook = "book";
  version = 1;
  params = [];
  steps =
      record {
        id = "open";
        depends_on = [];
        expect = none;
        on_fail = OnFail.fallback;
        kind = deterministic "browser.open" null;
      }
      ∷ record {
        id = "send";
        depends_on = "open" ∷ [];
        expect = some (url_contains "/done");
        on_fail = retry;
        kind = deterministic "browser.click" null;
      }
      ∷ [];
  verify = url_contains "/done" ∷ [];
}

abbrev replayed : ExecutorResult
replayed = record {
  outcome = success;
  completed_step_ids = "open" ∷ "send" ∷ [];
  failed_step_id = none;
  failure_code = none;
  attempts = ("send", 2) ∷ [];
  repaired_step_ids = [];
}

abbrev rank : String → ℕ
rank id = if same String-discrete id "send" then 1 else 0

abbrev Falls : Step ℕ → Type 0
Falls s = All (λ d. rank d < rank s.id) s.depends_on
