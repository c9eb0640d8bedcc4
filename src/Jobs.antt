-- ===== src/Jobs.antt =====
-- The hosted job queue of backend/app/hosted/jobs.py.
pub mod Rows
pub mod Lease
pub mod Claim
pub mod Sound
pub mod Steps
pub mod Recovery
pub mod Owner
pub mod History
pub mod Candidates
pub mod Fair
pub mod Spend
pub mod Library
pub mod Commit
pub mod Ceiling
pub mod Spending
pub mod Retry
pub mod Stale
pub mod Worker
mod Tests
mod SpendTests
