-- ===== src/RateLimiter.antt =====
-- src/RateLimiter.hpp: a token bucket for each key, taken from by many threads without a lock.
pub mod Bucket
pub mod Limiter
pub mod Contention
pub mod Alone
pub mod Bound
mod Tests
mod BoundTests
