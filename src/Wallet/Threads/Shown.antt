-- ===== src/Wallet/Threads/Shown.antt =====
-- src/Wallet.cpp: what other threads see of the wallet in the middle of a `refresh_block`.
use cpp_burst_pool_node.Base.{◌≡◌, sym, ap, ◌∙◌, false, arith}
use mathlib.Core.Path.{subst}
use cpp_burst_pool_node.Burstmath.Shabal.{Shabal}
use cpp_burst_pool_node.Wallet.State.{Text, Block, Wallet, read_buffer, get_cached_mining_info}
use cpp_burst_pool_node.Wallet.Info.{Json}
use cpp_burst_pool_node.Wallet.Refresh.{Transfer, get_mining_info}
use cpp_burst_pool_node.Wallet.Threads.Refresher.{
  Refresher, asleep, awake, has_read, is_higher, has_upgrade_lock, has_unique_lock, writing,
  assigning, assigned, published, assign_text, holds_lock,
}
use cpp_burst_pool_node.Wallet.Threads.Progress.{received, with_block, Progress, received-block}

-- What is seen of the wallet without its lock.
pub record Shown (w now : Wallet) : Type 0 where
  pub index : now.cache_idx ≡ w.cache_idx
  pub served : get_cached_mining_info now ≡ get_cached_mining_info w
  pub same_miners : now.miners ≡ w.miners
  pub same_rounds : now.rounds ≡ w.rounds

same-Shown : {w now : Wallet} → now ≡ w → Shown w now
same-Shown e = record {
  index = ap (λ (v : Wallet). v.cache_idx) e;
  served = ap get_cached_mining_info e;
  same_miners = ap (λ (v : Wallet). v.miners) e;
  same_rounds = ap (λ (v : Wallet). v.rounds) e;
}

received-Shown : (t : Transfer) (w : Wallet) → Shown w (received t w)
unfolding get_mining_info get_cached_mining_info read_buffer
received-Shown t w = record {
  index = ground arith;
  served = ground arith;
  same_miners = ground arith;
  same_rounds = ground arith;
}

block-Shown : {w v : Wallet} (b : Block) → Shown w v → Shown w (with_block b v)
unfolding get_cached_mining_info read_buffer
block-Shown b h = record {
  index = h.index;
  served = h.served;
  same_miners = h.same_miners;
  same_rounds = h.same_rounds;
}

assign-Shown : {w v : Wallet} (text : Text) → Shown w v → Shown w (assign_text text v)
unfolding assign_text get_cached_mining_info read_buffer
assign-Shown {w} {v} text h = record {
  index = ground (arith, h.index);
  served = ground (arith, h.served);
  same_miners = ground (arith, h.same_miners);
  same_rounds = ground (arith, h.same_rounds);
}

read-Shown : (t : Transfer) {w now : Wallet} → now ≡ received t w → Shown w now
read-Shown t {w} e = subst (Shown w) (sym e) (received-Shown t w)

same_block : {w now : Wallet} → now ≡ w → now.current_block ≡ w.current_block
same_block e = ap (λ (v : Wallet). v.current_block) e

read_block :
    (t : Transfer) (w now : Wallet) → now ≡ received t w → now.current_block ≡ w.current_block
read_block t w now e = same_block e ∙ received-block t w

module _ (s : Shabal) (j : Json) where
  pub Progress-Shown : (w now : Wallet) (r : Refresher) → Progress s j w now r → Shown w now
  Progress-Shown w now asleep e = same-Shown e
  Progress-Shown w now awake e = same-Shown e
  Progress-Shown w now (has_read t info) (e, _) = read-Shown t e
  Progress-Shown w now (is_higher t info) (e, _) = read-Shown t e
  Progress-Shown w now (has_upgrade_lock t info) (e, _) = read-Shown t e
  Progress-Shown w now (has_unique_lock t info) (e, _) = read-Shown t e
  Progress-Shown w now (writing t info new k) (e, _, _) =
      subst (Shown w) (sym e) (block-Shown _ (received-Shown t w))
  Progress-Shown w now (assigning t info new) (e, _, _) =
      subst (Shown w) (sym e) (block-Shown _ (received-Shown t w))
  Progress-Shown w now (assigned t info new) (e, _, _) =
      subst (Shown w) (sym e) (assign-Shown _ (block-Shown new (received-Shown t w)))
  Progress-Shown w now published e = same-Shown e

  -- While it does not hold the lock, the block is whole.
  pub Progress-block :
      (w now : Wallet) (r : Refresher)
      → Progress s j w now r
      → holds_lock r ≡ false
      → now.current_block ≡ w.current_block
  Progress-block w now asleep e h = same_block e
  Progress-block w now awake e h = same_block e
  Progress-block w now (has_read t info) (e, _) h = read_block t w now e
  Progress-block w now (is_higher t info) (e, _) h = read_block t w now e
  Progress-block w now (has_upgrade_lock t info) p h = cc
  Progress-block w now (has_unique_lock t info) p h = cc
  Progress-block w now (writing t info new k) p h = cc
  Progress-block w now (assigning t info new) p h = cc
  Progress-block w now (assigned t info new) p h = cc
  Progress-block w now published p h = cc
