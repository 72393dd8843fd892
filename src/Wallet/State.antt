-- ===== src/Wallet/State.antt =====
-- src/Wallet.hpp: the data of the wallet. A `MinerRound` is shared: the map holds its place in
-- `rounds`, the store of all the rounds ever made.
use cpp_burst_pool_node.Base.{
  ℕ, ◌-◌, ◌^◌, Bool, Option, none, some, List, ◌==◌, if◌then◌else◌, get_elem?, ◌>>=◌,
}
use cpp_burst_pool_node.Base.Dict.{nat_eq, lookup}

abbrev pub Text : Type 0
Text = List ℕ

pub record Block : Type 0 where
  pub height : ℕ
  pub base_target : ℕ
  pub scoop : ℕ
  pub gensig : List ℕ

-- `locked` says that a thread holds the mutex `mu`.
pub record MinerRound : Type 0 where
  pub locked : Bool
  pub deadline : ℕ
  pub height : ℕ
  pub recip_id : ℕ

pub record Wallet : Type 0 where
  pub current_block : Block
  pub cache_idx : ℕ
  pub mining_info_0 : Text
  pub mining_info_1 : Text
  pub mining_info_res : Text
  pub rounds : List MinerRound
  pub miners : List (ℕ × ℕ)
  pub deadline_limit : ℕ

abbrev pub max_deadline : ℕ
max_deadline = 2 ^ 64 - 1

unfoldable pub get_current_block : Wallet → Block
get_current_block w = w.current_block

-- The buffer that `cache_idx_`, as a reader has loaded it, names.
unfoldable pub read_buffer : ℕ → Wallet → Text
read_buffer i w = if i == 0 then w.mining_info_0 else w.mining_info_1

unfoldable pub get_cached_mining_info : Wallet → Text
unfolding read_buffer
get_cached_mining_info w = read_buffer w.cache_idx w

-- The place of a miner's round; `none` for the null pointer.
unfoldable pub get_miner_round : Wallet → ℕ → Option ℕ
get_miner_round w account_id = lookup account_id w.miners

abbrev recip_of : Option MinerRound → ℕ
recip_of none = 0
recip_of (some r) = r.recip_id

-- Zero for an account that is no miner of the pool.
unfoldable pub get_reward_recipient : Wallet → ℕ → ℕ
unfolding get_miner_round
get_reward_recipient w account_id = recip_of (get_miner_round w account_id >>= get_elem? w.rounds)
