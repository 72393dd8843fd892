-- ===== src/Wallet/Threads.antt =====
-- src/Wallet.cpp: the thread of `refresh_blocks` among the threads that read the wallet.
pub mod Mutex
pub mod Reader
pub mod Refresher
pub mod Steps
pub mod Progress
pub mod Shown
pub mod Invariant
pub mod Copies
pub mod Readers
pub mod ReadsLaws
pub mod Moves
pub mod Laws
pub mod Heights
pub mod Seen
pub mod Sharing
pub mod Returns
pub mod Finishes
mod Tests
