-- ===== src/Lib.antt =====
-- rote records how an agent performs a web task, distils the record into a playbook and replays it.
-- This library models the parts of its TypeScript packages that decide what may run and what is
-- believed, as functions on values:
--
-- - Core.ActionContract: packages/core/src/schemas/action-contract.ts, the semantic contract of one
--   browser action and the comparison of two contracts.
-- - Core.Evidence: packages/core/src/schemas/verification-evidence.ts, redacted evidence and the policy
--   that demands it. Agent.EvidenceGate: packages/agent/src/evidence.ts, the verifier that applies the
--   policy to what its adapters collect.
-- - Session.Manager: packages/session/src/index.ts, the live and shadow sessions of a browser.
-- - Perception.Node, Perception.Diff: packages/perception/src/types.ts and diff.ts, the distilled
--   nodes of a page and the difference of two observations.
-- - Action.SpeculationFence: packages/action/src/speculation-fence.ts, the class of effect that an
--   action may have before anybody has confirmed it. It reads an action contract.
-- - Action.ContractGate: packages/action/src/action-contract-gate.ts, the contract of a verb on a live node
--   and the gate before it is dispatched. Action.Settledness: packages/action/src/settledness.ts, the
--   wait until a page is quiet.
-- - Session.Prefetch: packages/session/src/shadow-prefetch.ts, which fetches predicted reads in a
--   shadow. It asks the fence.
-- - Session.EffectFence: packages/session/src/effect-fenced-speculation.ts, which runs one predicted
--   action in a shadow context where the fence allows it, and promotes its observation where the
--   receipt is exact.
-- - Session.Pipeline: packages/session/src/speculative-pipeline.ts, the queue of predicted steps over
--   that speculator.
-- - Core.Hex: the hexadecimal digits that the patterns of references and digests ask for.
-- - Core.Template: packages/core/src/template.ts, the references of a template and their rendering.
-- - Executor.DependencyCycle, Executor.PlaybookSchema: packages/core/src/schemas/playbook.ts, the search
--   for a cycle of dependencies and the other checks that a playbook passes before it is replayed. They
--   read the references of templates.
-- - Executor.Playbook, Executor.Json, Executor.WorldState, Executor.ExpectEvaluator,
--   Executor.TopoOrder, Executor.Attempt, Executor.Run: packages/executor/src (executor.ts,
--   topo-order.ts, world-state.ts, expect-evaluator.ts, json-path.ts) and the schemas that it reads in
--   packages/core/src/schemas, the replay of a playbook. A replay that resumes skips what a
--   checkpoint's session completed.
-- - Matcher.Match: packages/matcher/src/match.ts, the choice of a playbook for a task, for any score of a
--   text against an intent.
-- - Agent.Action, Agent.History: packages/agent/src/types.ts and history-compaction.ts, the part of the
--   earlier actions that a planner request shows.
-- - Continuation.Checkpoint, Continuation.CheckpointStore, Continuation.ResumeGate,
--   Continuation.ContinueTask: packages/core/src/schemas/task-checkpoint.ts and
--   packages/continuation/src (checkpoint-store.ts, resume-gate.ts, continue-task.ts), the log from
--   which a task resumes, the gate that it passes first, and the session that adds to the log.
--
-- A class is a record of its fields, a method a function from the object to the object and its
-- result, a thrown error an `err` or, where nothing else is returned, the kind of the error. The
-- values that zod parses are typed: an input that a schema rejects is `none`, and literal `version`
-- fields are left out. A `Map` or a `Set` is a list in the order of insertion.
--
-- An asynchronous method is cut at its awaits. `speculate` is the steps `start`, `settle` and
-- `promote`; between them other calls run, and `Session.EffectFence.Budget` has their interleavings
-- as sequences of steps. `run` of the pipeline waits for the race of its calls: a `Round` says what
-- happened during one wait (a cancellation, the time, which call ended and how), and the rounds are
-- numbered from the last to the first, so that the fuel left is the number of the round. A method of the
-- session manager that awaits is its beginning and its end, and `Session.Manager.Lifetime` has the steps
-- of calls that overlap; a stored session is an object in a list, which calls hold by its position. Fuel of
-- `run` counts rounds; two more than `max_concurrency` are enough where the first step depends on nothing.
-- `topo_order` of the executor has fuel for the depth of its recursion, gives no order where that runs
-- out, and a fuel above every step's rank is enough;
-- the cycle search of the schema has fuel for one more than the steps, and the wait for a quiet page
-- for one more turn than its timeout has milliseconds.
--
-- Not under the packages' sources and so parameters: the executor and the promotion callback of the
-- speculator, the tools and the model that a replay calls, the clock, SHA-256, regular expressions, the
-- schema library's test of a date.
-- A replay takes its templates as an interface, which Core.Template does not fill: the schemas give
-- some rendered values a type that a parameter of another type breaks. The replay is an interface of
-- the session that continues a task. Numbers that are only compared, such as a
-- confidence, are natural numbers in a common unit. The texts of error messages and reasons are left
-- out.
--
-- Not modelled: the rest of the agent's loop, the browser driver, the language-model clients, the
-- recorder, the command line, benchmarks and web pages, which are mostly input and output; and the
-- distiller, the predictor, the site memory and the scores of the matcher.
pub mod Prelude
pub mod Core
pub mod Perception
pub mod Action
pub mod Session
pub mod Continuation
pub mod Executor
pub mod Agent
pub mod Matcher
