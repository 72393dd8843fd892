-- ===== src/Wallet/Threads/Mutex.antt =====
-- src/Wallet.hpp: what the wallet uses of the shared mutex `new_block_mu_`, which is Boost's.
use cpp_burst_pool_node.Base.{ℕ, ◌+◌, ◌-◌, ◌≡◌, Bool, true, false, Option, some}

-- Each operation gives no result while it would wait. `upgraded` says that a thread has upgrade
-- ownership or, from it, unique ownership: one thread at a time, next to which others can have
-- shared ownership only. `sharers` counts those. A lock for upgrades waits only while a thread has
-- upgrade ownership, and the change to a unique one only for the sharers.
pub record SharedMutex : Type 1 where
  pub Mutex : Type 0
  pub free : Mutex
  pub lock_shared : Mutex → Option Mutex
  pub unlock_shared : Mutex → Mutex
  pub lock_upgrade : Mutex → Option Mutex
  pub unlock_upgrade : Mutex → Mutex
  pub upgrade_to_unique : Mutex → Option Mutex
  pub unlock_unique : Mutex → Mutex
  pub upgraded : Mutex → Bool
  pub upgraded-free : upgraded free ≡ false
  pub upgraded-lock_shared : (m m' : Mutex) → lock_shared m ≡ some m' → upgraded m' ≡ upgraded m
  pub upgraded-unlock_shared : (m : Mutex) → upgraded (unlock_shared m) ≡ upgraded m
  pub upgraded-lock_upgrade :
      (m m' : Mutex) → lock_upgrade m ≡ some m' → (upgraded m ≡ false) × (upgraded m' ≡ true)
  pub upgraded-unlock_upgrade : (m : Mutex) → upgraded (unlock_upgrade m) ≡ false
  pub upgraded-upgrade_to_unique :
      (m m' : Mutex) → upgrade_to_unique m ≡ some m' → upgraded m' ≡ upgraded m
  pub upgraded-unlock_unique : (m : Mutex) → upgraded (unlock_unique m) ≡ false
  pub sharers : Mutex → ℕ
  pub sharers-free : sharers free ≡ 0
  pub sharers-lock_shared : (m m' : Mutex) → lock_shared m ≡ some m' → sharers m' ≡ sharers m + 1
  pub sharers-unlock_shared : (m : Mutex) → sharers (unlock_shared m) ≡ sharers m - 1
  pub sharers-lock_upgrade : (m m' : Mutex) → lock_upgrade m ≡ some m' → sharers m' ≡ sharers m
  pub sharers-unlock_upgrade : (m : Mutex) → sharers (unlock_upgrade m) ≡ sharers m
  pub sharers-upgrade_to_unique :
      (m m' : Mutex) → upgrade_to_unique m ≡ some m' → sharers m' ≡ sharers m
  pub sharers-unlock_unique : (m : Mutex) → sharers (unlock_unique m) ≡ sharers m
  pub lock_upgrade-enters :
      (m : Mutex) → upgraded m ≡ false → (m' : Mutex) × (lock_upgrade m ≡ some m')
  pub upgrade_to_unique-enters :
      (m : Mutex)
      → upgraded m ≡ true
      → sharers m ≡ 0
      → (m' : Mutex) × (upgrade_to_unique m ≡ some m')
