-- ===== src/Session.antt =====
-- src/Session.hpp and src/Session.cpp: the requests of the miners and the answers to them.
pub mod Response
pub mod Url
pub mod UrlLaws
pub mod Request
pub mod RequestLaws
pub mod QueuedLaws
pub mod ComputableLaws
pub mod Connection
pub mod ConnectionLaws
mod Tests
