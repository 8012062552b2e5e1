-- ===== src/Email.antt =====
-- The processing pipeline of an email: app/domain and app/services/email_state.py.
pub mod States
pub mod Legal
pub mod Service
pub mod Pipeline
pub mod Moved
pub mod Log
mod Tests
