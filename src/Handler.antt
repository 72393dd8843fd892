-- ===== src/Handler.antt =====
-- src/DeadlineRequestHandler.hpp and src/DeadlineRequestHandler.cpp: requests are queued, gathered
-- in batches, computed side by side and validated one by one.
pub mod State
pub mod Validate
pub mod Distribute
pub mod ValidateLaws
pub mod Forwarded
pub mod Stale
pub mod DistributeLaws
pub mod DistributeRuns
pub mod Batch
pub mod Construct
pub mod BatchLaws
pub mod Validator
mod Tests
