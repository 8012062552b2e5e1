-- ===== src/Jobs.antt =====
-- The durable queue of Graph jobs: app/jobs/enums.py, app/jobs/repository.py, the failure policy of
-- app/jobs/service.py, and the unique constraints of app/models/job.py.
pub mod Table
pub mod Requests
pub mod Queue
pub mod Order
pub mod Claim
pub mod Enqueue
pub mod Spread
pub mod Attempts
mod Tests
