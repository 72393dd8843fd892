-- ===== src/Wallet/Miners.antt =====
-- src/Wallet.cpp: `cache_miners`.
use cpp_burst_pool_node.Base.{ℕ, false, Option, none, some, List, [], ◌∷◌, ◌++◌, length, set}
use cpp_burst_pool_node.Base.Dict.{nat_eq, lookup, insert}
use cpp_burst_pool_node.Wallet.State.{MinerRound, Wallet, max_deadline}

-- A round that nobody has found a deadline for. The writes wait for the mutex, and leave it free.
abbrev pub fresh_round : ℕ → ℕ → MinerRound
fresh_round height recip_id = record {
  locked = false;
  deadline = max_deadline;
  height = height;
  recip_id = recip_id;
}

-- The store and the place of the row's round: a new one, or the miner's own, reset.
unfoldable pub reset_round : ℕ → ℕ → Option ℕ → List MinerRound → List MinerRound × ℕ
reset_round height recip_id none rounds =
    (rounds ++ fresh_round height recip_id ∷ [], length rounds)
reset_round height recip_id (some p) rounds = (set rounds p (fresh_round height recip_id), p)

-- The loop over the rows of the query. `new_miners` is built up, and copied to `miners_` in each
-- turn, so that the next row is looked up in it.
unfoldable pub cache_rows : ℕ → List (ℕ × ℕ) → List (ℕ × ℕ) → Wallet → Wallet
cache_rows height new_miners [] w = w
cache_rows height new_miners ((account_id, recip_id) ∷ rows) w =
    let (rounds, p) = reset_round height recip_id (lookup account_id w.miners) w.rounds in
    let new_miners' = insert account_id p new_miners in
    cache_rows height new_miners' rows (record w { rounds = rounds; miners = new_miners' })

unfoldable pub cache_miners : ℕ → List (ℕ × ℕ) → Wallet → Wallet
cache_miners height rows w = cache_rows height [] rows w
