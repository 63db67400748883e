-- ===== src/Scenario.antt =====
-- internal/scenario: the scenario model and the passes of its compiler.
pub mod Model
pub mod Safety
pub mod Tree
pub mod Conflicts
pub mod Expression
pub mod Validate
pub mod Simulator
pub mod Temporal
pub mod Types
pub mod Values
pub mod Checking
pub mod Evaluator
pub mod Classify
pub mod Capability
pub mod Catalog
