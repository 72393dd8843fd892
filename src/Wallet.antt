-- ===== src/Wallet.antt =====
-- src/Wallet.hpp and src/Wallet.cpp: the current block, the mining info that is served, and the
-- rounds of the pool's miners.
pub mod State
pub mod Info
pub mod Refresh
pub mod Miners
pub mod InfoLaws
pub mod RefreshLaws
pub mod MinersLaws
pub mod Construct
pub mod QueryLaws
pub mod ConstructLaws
pub mod Threads
mod Tests
