-- ===== src/Licensing.antt =====
-- Compliance cases: app/licensing and the stage transition of
-- app/services/compliance_case_service.py.
pub mod Stages
pub mod Every
pub mod Transition
pub mod Permitted
pub mod CaseRows
pub mod CaseService
pub mod History
pub mod Reached
pub mod Control
pub mod Routes
mod Tests
