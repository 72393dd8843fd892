-- ===== src/System.antt =====
-- The parts together: sessions of src/Session.cpp, the loop and the threads of
-- src/DeadlineRequestHandler.cpp, and the refreshes of src/Wallet.cpp, in any order.
pub mod Steps
pub mod Loops
pub mod Rounds
pub mod Counts
pub mod Grows
pub mod Invariant
pub mod Runs
pub mod Reached
pub mod Safety
pub mod Drains
pub mod Sessions
pub mod SessionsLaws
pub mod Served
pub mod Sent
pub mod Connected
pub mod Begins
mod Tests
mod AnswerTests
mod StartTests
mod ConnectedTests
