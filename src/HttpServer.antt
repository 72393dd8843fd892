-- ===== src/HttpServer.antt =====
-- src/server.cpp: a server of its own, which answers each request of a connection with a bad request
-- and is not part of the build.
pub mod Session
pub mod SessionLaws
pub mod Listener
pub mod ListenerLaws
mod Tests
