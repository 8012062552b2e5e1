-- ===== src/Portals.antt =====
-- Assisted work in the portals of regulators and vendors: app/portals and the services of a portal
-- run.
pub mod Vocabulary
pub mod Policies
pub mod Rows
pub mod Results
pub mod Governance
pub mod RunService
pub mod Snapshots
pub mod Sessions
pub mod Handoffs
pub mod HumanActions
pub mod Submission
pub mod Evidence
pub mod Outcomes
pub mod Sound
pub mod Writes
pub mod Withdrawn
pub mod RunKept
pub mod SnapshotsKept
pub mod SessionsKept
pub mod ActionsKept
pub mod SubmissionKept
pub mod EntryKept
pub mod Steps
pub mod Bound
pub mod Governed
pub mod Settled
pub mod Reported
pub mod Advanced
pub mod Cleared
pub mod Captured
pub mod Latest
pub mod Approved
pub mod Reopened
mod Example
mod Tests
pub mod Entry
