-- ===== src/Lib.antt =====
-- Home Sentinel: the callback boundary, the scenario pipeline, admission to resources,
-- correlation of observations, and health, modelled from the Go sources.
--
-- Callback (internal/security/callback) is the edge that admits signed callbacks. Claims holds the
-- claims of a token, its options and `validate`; Token is `Signer.Sign`, `NewKeyring`,
-- `Keyring.Sign` and `Keyring.Verify`; Replay is `ReplayGuard.Consume` with its map and its queue;
-- Accept is `Acceptor.Accept`, which verifies, compares the binding, and consumes, in that order.
-- HMAC-SHA256, base64 and JSON are the parameter `Crypto`; what is relied on is the record `Lawful`.
-- An instant is a count of nanoseconds from the zero time of Go, so that `IsZero` is equality with
-- 0; the seconds of a claim are taken to be those that `time.Unix` does not wrap. The clocks are
-- arguments. A mutex makes each call one step, so runs are lists of calls.
--
-- Scenario (internal/scenario) is the pipeline from a user's automation to a plan. Model holds the
-- types of model/step.go, flow.go and expression.go. Safety is `ApplySafetyPass` of
-- compiler/safety.go: one function for each branch of its walk, on the nodes of the two graphs, the
-- augmentations and the external effects. Conflicts is `StaticConflictAnalysis` of
-- compiler/static_analysis.go, one function for each of its closures. Tree lists the steps of a flow
-- independently of these walks. Each recursive walk is structural on the flow, so no fuel is used.
--
-- Expression and Validate are `Validate` of expressions, steps and flows, and `collectFlowStepIDs`;
-- Validate/Gate joins validation and the safety pass.
--
-- Types is `Normalize`, `Validate` and `Compatible` of model/type.go, where the depth of a type is
-- the fuel of `Compatible` and is shown to be enough; Values is `canonical` of model/value.go over a
-- parameter for JSON and floats; Checking is `CheckExpr` and `validateFlowTypes`, Evaluator is
-- `Evaluate` of simulator/evaluator.go. Evaluator/Sound joins the two for how values decode, and
-- Evaluator/Kinds for the kinds that the values carry.
--
-- Capability is internal/scenario/capability: Version is version.go, Descriptor, with Validate, is
-- descriptor.go, schema.go, ui_hints.go and permission.go, Entity is entity.go, Arguments is action.go
-- and Registry is registry.go. `Remove` and `RemoveEntity` give up the lock while they ask who uses a
-- capability; the model has their two parts, and any operations run between them. The resolver of uses
-- is a record of functions. A map is a list, and the theorems hold for every order of it. `Snapshot`
-- and `Digest` are left out. Values/Sample is an instance of the JSON parameter for tests.
--
-- Temporal is `AnalyzeTemporal` of compiler/temporal.go, and Classify is `ClassifyRuntime` of
-- compiler/classify.go, with the part of `Compile` that selects the runtime of a scenario.
-- Simulator is `Simulate` of simulator/simulator.go from the triggers on, with what `EvaluateBool`
-- says of an expression as a parameter, and a missing payload, which the source dereferences, as a
-- signal of its own.
--
-- Catalog is the catalog of scenarios and revisions: Dependency is dependency.go, Operations (drafts)
-- and Releases (publication, rollback, status) are the operations of catalog.go on the types of
-- model.go, and Runs is its calls in any order. The compiler, the validation of a scenario and SHA-256
-- are parameters of the operations.
--
-- Orchestration/ResourceGuard (internal/orchestration/resourceguard) is `Check`, the admission test
-- for an execution that is to own a physical resource. The durable store is a parameter; in
-- Exclusive it is a map that loses nothing, a check and the start that it allows are one step (the
-- source asks its callers to serialize them), and an execution that is over stays so.
--
-- Correlation (internal/correlation) is `Correlator`: `Ingest`, `remember` and `Prune`. The hash that
-- names a group is a parameter; confidence, dwell time and artifacts are left out, being floats.
--
-- Health (internal/health, internal/watchdog) is the registry with `Set`, `Snapshot` and `Overall`,
-- `Diagnose`, and the probe loop of the watchdog, one round for each outcome of the probe. Durations
-- are taken to be under 2 ^ 62 nanoseconds, where doubling does not wrap.
--
-- Base holds the Boolean tests, lists, maps as association lists, text as code points, the order of texts,
-- trimming and decimals.
-- Display text (titles, descriptions, messages, hints) is left out, save in Capability, which trims
-- and tests it. The HTTP server, the device drivers, the databases and the command lines are left
-- out too, being mostly input and output.
mod Base
pub mod Callback
pub mod Scenario
pub mod Orchestration
pub mod Correlation
pub mod Health
