-- ===== src/Deadlines.antt =====
-- Deadlines: app/deadlines/business_days.py, recurrence.py and escalation.py, and the escalations
-- of app/services/deadline_service.py.
pub mod Dates
pub mod Holidays
pub mod Calendar
pub mod Search
pub mod Adjust
pub mod Recurrence
pub mod Occurrences
pub mod Expansion
pub mod Expanded
pub mod Escalation
pub mod Keys
pub mod Windows
pub mod Sweeps
pub mod Climb
mod Tests
mod EscalationTests
