-- ===== src/Wallet/Threads/Steps.antt =====
-- src/Wallet.cpp: the thread of `refresh_blocks` and the threads that read, interleaved at each lock,
-- each assignment to a field of the block, and each load and store of the buffers and their index.
use cpp_burst_pool_node.Base.{
  ℕ, suc, ◌<◌, ◌≡◌, true, false, none, some, List, [], ◌∷◌, map, ltb, All,
}
use cpp_burst_pool_node.Base.Takes.{Takes}
use cpp_burst_pool_node.Burstmath.Shabal.{Shabal}
use cpp_burst_pool_node.Burstmath.Scoop.{calculate_scoop}
use cpp_burst_pool_node.Wallet.State.{Block, Wallet, get_current_block}
use cpp_burst_pool_node.Wallet.Info.{
  Json, MiningInfo, parse_mining_info, scan_gensig, adapted_mining_info,
}
use cpp_burst_pool_node.Wallet.Refresh.{Transfer, get_mining_info, block_of}
use cpp_burst_pool_node.Wallet.Threads.Mutex.{SharedMutex}
use cpp_burst_pool_node.Wallet.Threads.Reader.{
  copy_field, idle, Thread, sleeps, wakes, spoils, Reads,
}
use cpp_burst_pool_node.Wallet.Threads.Refresher.{
  Refresher, asleep, awake, has_read, is_higher, has_upgrade_lock, has_unique_lock, writing,
  assigning, assigned, published, assign_text, turn_index,
}

-- The wallet, its mutex, the place of the thread of `refresh_blocks`, the other threads in any
-- order, and the transfers of the refreshes that are done, the last first.
pub record State (x : SharedMutex) : Type 0 where
  pub mutex : x.Mutex
  pub wallet : Wallet
  pub refresher : Refresher
  pub threads : List Thread
  pub done : List Transfer

module _ (x : SharedMutex) (s : Shabal) (j : Json) where
  -- The end of a refresh: it IsCounted as done, and the thread falls asleep.
  abbrev pub ends : Transfer → State x → State x
  ends t st = record st { refresher = asleep; threads = map sleeps st.threads; done = t ∷ st.done }

  pub data Step (st : State x) : State x → Type 0 where
    reads :
        {m : x.Mutex} {before after : Thread} {rest : List Thread}
        → Takes before st.threads rest
        → Reads x st.wallet st.mutex before m after
        → Step st (record st { mutex = m; threads = after ∷ rest })
    wakes_up :
        st.refresher ≡ asleep
        → Step st (record st { refresher = awake; threads = map wakes st.threads })
    reads_none :
        (t : Transfer)
        → st.refresher ≡ awake
        → parse_mining_info j (get_mining_info t st.wallet).1 ≡ none
        → Step st (ends t (record st { wallet = (get_mining_info t st.wallet).0 }))
    reads_info :
        (t : Transfer) {info : MiningInfo}
        → st.refresher ≡ awake
        → parse_mining_info j (get_mining_info t st.wallet).1 ≡ some info
        → Step st
            (record st { wallet = (get_mining_info t st.wallet).0; refresher = has_read t info })
    -- The block is compared under a lock of its own, that of `get_current_block`.
    finds_old :
        {t : Transfer} {info : MiningInfo} {m : x.Mutex}
        → st.refresher ≡ has_read t info
        → x.lock_upgrade st.mutex ≡ some m
        → ltb (get_current_block st.wallet).height info.height ≡ false
        → Step st (ends t (record st { mutex = x.unlock_upgrade m }))
    finds_new :
        {t : Transfer} {info : MiningInfo} {m : x.Mutex}
        → st.refresher ≡ has_read t info
        → x.lock_upgrade st.mutex ≡ some m
        → ltb (get_current_block st.wallet).height info.height ≡ true
        → Step st (record st { mutex = x.unlock_upgrade m; refresher = is_higher t info })
    locks_upgrade :
        {t : Transfer} {info : MiningInfo} {m : x.Mutex}
        → st.refresher ≡ is_higher t info
        → x.lock_upgrade st.mutex ≡ some m
        → Step st (record st { mutex = m; refresher = has_upgrade_lock t info })
    locks_unique :
        {t : Transfer} {info : MiningInfo} {m : x.Mutex}
        → st.refresher ≡ has_upgrade_lock t info
        → x.upgrade_to_unique st.mutex ≡ some m
        → Step st (record st { mutex = m; refresher = has_unique_lock t info })
    -- The signature and the scoop, both the thread's own.
    scans :
        {t : Transfer} {info : MiningInfo} {gensig : List ℕ} {scoop : ℕ}
        → st.refresher ≡ has_unique_lock t info
        → scan_gensig 32 info.gensig_str ≡ some gensig
        → calculate_scoop s info.height gensig ≡ some scoop
        → Step st (record st { refresher = writing t info (block_of info gensig scoop) 0 })
    writes :
        {t : Transfer} {info : MiningInfo} {new : Block} {k : ℕ}
        → st.refresher ≡ writing t info new k
        → k < 4
        → Step st (record st {
          wallet = record st.wallet { current_block = copy_field k new st.wallet.current_block };
          refresher = writing t info new (suc k);
        })
    begins_to_assign :
        {t : Transfer} {info : MiningInfo} {new : Block}
        → st.refresher ≡ writing t info new 4
        → Step st (record st {
          refresher = assigning t info new;
          threads = map (spoils st.wallet.cache_idx) st.threads;
        })
    assigns :
        {t : Transfer} {info : MiningInfo} {new : Block}
        → st.refresher ≡ assigning t info new
        → Step st (record st {
          wallet = assign_text (adapted_mining_info info st.wallet.deadline_limit) st.wallet;
          refresher = assigned t info new;
        })
    turns :
        {t : Transfer} {info : MiningInfo} {new : Block}
        → st.refresher ≡ assigned t info new
        → Step st
            (record st { wallet = turn_index st.wallet; refresher = published; done = t ∷ st.done })
    leaves :
        st.refresher ≡ published
        → Step st (record st {
          mutex = x.unlock_unique st.mutex;
          refresher = asleep;
          threads = map sleeps st.threads;
        })

  -- From a wallet whose mutex is free, with threads that have read nothing yet.
  pub data Reach (w : Wallet) : State x → Type 0 where
    starts :
        (threads : List Thread)
        → All (λ (t : Thread). t ≡ record { reader = idle; log = [] }) threads
        → Reach w (record {
          mutex = x.free;
          wallet = w;
          refresher = asleep;
          threads = threads;
          done = [];
        })
    later : {st st' : State x} → Reach w st → Step st st' → Reach w st'
