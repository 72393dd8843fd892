-- ===== src/Session/QueuedLaws.antt =====
-- src/Session.cpp: when a request for a deadline is queued.
use cpp_burst_pool_node.Base.Dict.{text_eq}
use cpp_burst_pool_node.RateLimiter.Limiter.{RateLimiter}
