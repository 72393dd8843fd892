-- ===== src/Server.antt =====
-- src/Server.cpp: the listener, and `main` with the objects that it starts from.
pub mod Listener
pub mod ListenerLaws
pub mod Main
pub mod MainLaws
mod Tests
