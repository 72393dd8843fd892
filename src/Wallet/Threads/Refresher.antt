-- ===== src/Wallet/Threads/Refresher.antt =====
-- src/Wallet.cpp: `refresh_block`, step by step.
use cpp_burst_pool_node.Base.{ℕ, Bool, true, false, ◌==◌, if◌then◌else◌}
use cpp_burst_pool_node.Wallet.State.{Text, Block, Wallet}
use cpp_burst_pool_node.Wallet.Info.{MiningInfo}
use cpp_burst_pool_node.Wallet.Refresh.{Transfer}

-- The transfer and the info are those of the running call; `new` is the block that it writes, of
-- which `fields` are written.
pub data Refresher : Type 0 where
  asleep : Refresher
  awake : Refresher
  has_read : Transfer → MiningInfo → Refresher
  is_higher : Transfer → MiningInfo → Refresher
  has_upgrade_lock : Transfer → MiningInfo → Refresher
  has_unique_lock : Transfer → MiningInfo → Refresher
  writing : Transfer → MiningInfo → (new : Block) → (fields : ℕ) → Refresher
  assigning : Transfer → MiningInfo → (new : Block) → Refresher
  assigned : Transfer → MiningInfo → (new : Block) → Refresher
  published : Refresher

-- The two stores of the buffers' end: the text into the buffer that is not served, and the index.
unfoldable pub assign_text : Text → Wallet → Wallet
assign_text text w =
    if w.cache_idx == 0
    then record w { mining_info_1 = text }
    else record w { mining_info_0 = text }

unfoldable pub turn_index : Wallet → Wallet
turn_index w = if w.cache_idx == 0 then record w { cache_idx = 1 } else record w { cache_idx = 0 }

-- Upgrade or unique ownership of the mutex.
abbrev pub holds_lock : Refresher → Bool
holds_lock asleep = false
holds_lock awake = false
holds_lock (has_read t info) = false
holds_lock (is_higher t info) = false
holds_lock (has_upgrade_lock t info) = true
holds_lock (has_unique_lock t info) = true
holds_lock (writing t info new k) = true
holds_lock (assigning t info new) = true
holds_lock (assigned t info new) = true
holds_lock published = true

abbrev pub is_asleep : Refresher → Bool
is_asleep asleep = true
is_asleep awake = false
is_asleep (has_read t info) = false
is_asleep (is_higher t info) = false
is_asleep (has_upgrade_lock t info) = false
is_asleep (has_unique_lock t info) = false
is_asleep (writing t info new k) = false
is_asleep (assigning t info new) = false
is_asleep (assigned t info new) = false
is_asleep published = false

abbrev pub is_assigning : Refresher → Bool
is_assigning asleep = false
is_assigning awake = false
is_assigning (has_read t info) = false
is_assigning (is_higher t info) = false
is_assigning (has_upgrade_lock t info) = false
is_assigning (has_unique_lock t info) = false
is_assigning (writing t info new k) = false
is_assigning (assigning t info new) = true
is_assigning (assigned t info new) = false
is_assigning published = false

abbrev pub is_published : Refresher → Bool
is_published asleep = false
is_published awake = false
is_published (has_read t info) = false
is_published (is_higher t info) = false
is_published (has_upgrade_lock t info) = false
is_published (has_unique_lock t info) = false
is_published (writing t info new k) = false
is_published (assigning t info new) = false
is_published (assigned t info new) = false
is_published published = true
