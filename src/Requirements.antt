-- ===== src/Requirements.antt =====
-- Requirement rules and their evaluation: app/requirements.
pub mod Conditions
pub mod Validity
pub mod Validated
pub mod Comparisons
pub mod Evaluation
pub mod Information
pub mod Raising
pub mod Taxonomy
pub mod Rules
pub mod Ranked
pub mod Ordered
pub mod Reconcile
pub mod Sources
pub mod Evaluator
pub mod Backed
pub mod Conflicts
mod Tests
mod ResultTests
