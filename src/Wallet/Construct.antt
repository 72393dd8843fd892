-- ===== src/Wallet/Construct.antt =====
-- src/Wallet.hpp: the constructor of `Wallet`.
use cpp_burst_pool_node.Base.{
  ℕ, zero, suc, ◌+◌, ◌-◌, Option, none, some, List, [], ◌∷◌, ◌++◌, ◌==◌, if◌then◌else◌, codes,
  length, set, replicate, ◌>>=◌,
}
use cpp_burst_pool_node.Base.Dict.{nat_eq}
use cpp_burst_pool_node.Base.Decimal.{to_string}
use cpp_burst_pool_node.Burstmath.Shabal.{Shabal}
use cpp_burst_pool_node.Wallet.State.{Text, Wallet}
use cpp_burst_pool_node.Wallet.Info.{Json}
use cpp_burst_pool_node.Wallet.Refresh.{Transfer, refresh_block}
use cpp_burst_pool_node.Wallet.Miners.{cache_miners}

-- `recip_query_` before the loop over the pools.
abbrev pub select : Text
select =
    codes
      "SELECT CAST(account_id AS UNSIGNED), CAST(recip_id AS UNSIGNED) FROM reward_recip_assign WHERE recip_id IN ("

unfoldable pub pool_item : ℕ → Text
pool_item pool_id = codes "CAST(" ++ to_string pool_id ++ codes " AS SIGNED),"

-- The loop over the pools.
unfoldable pub add_pools : Text → List ℕ → Text
add_pools recip_query [] = recip_query
add_pools recip_query (pool_id ∷ rest) = add_pools (recip_query ++ pool_item pool_id) rest

-- The last character becomes `)`.
unfoldable pub close_list : Text → Text
close_list recip_query = set recip_query (length recip_query - 1) 41 ++ codes " AND latest = 1"

unfoldable pub recip_query : List ℕ → Text
recip_query pool_ids = close_list (add_pools select pool_ids)

-- What a try to connect gives: a connection, or an exception (`none`), which goes on after ten.
unfoldable pub after_try {ℓ} : {A : Type ℓ} → Option A → ℕ → Option A → Option A
after_try (some con) tries rest = some con
after_try none tries rest = if tries == 10 then none else rest

unfoldable pub connect_loop {ℓ} : {A : Type ℓ} → (ℕ → Option A) → ℕ → ℕ → Option A
connect_loop connect zero tries = none
connect_loop connect (suc fuel) tries =
    after_try (connect tries) (tries + 1) (connect_loop connect fuel (tries + 1))

-- The members of the one wallet, which is a global object and so begins as zeros.
unfoldable pub initial : ℕ → Wallet
initial deadline_limit = record {
  current_block = record { height = 0; base_target = 0; scoop = 0; gensig = replicate 32 0 };
  cache_idx = 0;
  mining_info_0 = [];
  mining_info_1 = [];
  mining_info_res = [];
  rounds = [];
  miners = [];
  deadline_limit = deadline_limit;
}

-- Once connected: the first block, and the miners at its height.
unfoldable pub construct : Shabal → Json → Transfer → ℕ → List (ℕ × ℕ) → Option Wallet
construct s j t deadline_limit rows = do
  refreshed ← refresh_block s j t (initial deadline_limit)
  some (cache_miners refreshed.0.current_block.height rows refreshed.0)
