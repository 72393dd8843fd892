-- ===== src/Wallet/Threads/Invariant.antt =====
-- src/Wallet.cpp: what holds between two steps of the threads.
use cpp_burst_pool_node.Base.{ℕ, ◌+◌, ◌≡◌, true, false, some, List, [], ◌∷◌, if◌then◌else◌, All}
use cpp_burst_pool_node.Base.Takes.{total}
use cpp_burst_pool_node.Burstmath.Shabal.{Shabal}
use cpp_burst_pool_node.Wallet.State.{
  Text, Block, Wallet, get_current_block, read_buffer, get_cached_mining_info, get_reward_recipient,
}
use cpp_burst_pool_node.Wallet.Info.{Json}
use cpp_burst_pool_node.Wallet.Refresh.{Transfer}
use cpp_burst_pool_node.Wallet.Threads.Mutex.{SharedMutex}
use cpp_burst_pool_node.Wallet.Threads.Reader.{
  Copy, Reader, idle, copying_block, copying_text, searching, Read, block_read, text_read,
  garbled_read, recipient_read, Thread, same_buffer,
}
use cpp_burst_pool_node.Wallet.Threads.Refresher.{
  Refresher, holds_lock, is_asleep, is_assigning, is_published,
}
use cpp_burst_pool_node.Wallet.Threads.Steps.{State}
use cpp_burst_pool_node.Wallet.Threads.Progress.{copied, replay, Progress}

-- `Earlier us ts`: the refreshes `ts` are `us` and then more.
pub data Earlier : List Transfer → List Transfer → Type 0 where
  same : {ts : List Transfer} → Earlier ts ts
  and_one : {us ts : List Transfer} {t : Transfer} → Earlier us ts → Earlier us (t ∷ ts)

-- What a call of a read gives on the wallet `w`.
abbrev pub Shows : Wallet → Read → Type 0
Shows w (block_read b) = b ≡ get_current_block w
Shows w (text_read text) = text ≡ get_cached_mining_info w
Shows w (garbled_read text) = Unit
Shows w (recipient_read a r) = r ≡ get_reward_recipient w a

-- A copy that began when the text served was `text`, in a wallet of which the index and the buffer
-- of the copy are given, with the place of the thread of `refresh_blocks`.
pub record IsCopy (text : Text) (w : Wallet) (r : Refresher) (c : Copy) : Type 0 where
  pub clean : c.spoiled ≡ false → read_buffer c.slot w ≡ text
  pub safe : c.slept ≡ false → c.spoiled ≡ false
  pub on_time :
      c.fell_asleep ≡ false → is_published r ≡ false → same_buffer c.slot w.cache_idx ≡ true
  pub dozing : c.fell_asleep ≡ true → c.slept ≡ false → is_asleep r ≡ true
  pub apart : c.spoiled ≡ false → is_assigning r ≡ true → same_buffer c.slot w.cache_idx ≡ true

abbrev pub holds_upgrade : Reader → ℕ
holds_upgrade idle = 0
holds_upgrade (copying_block k b) = 1
holds_upgrade (copying_text c) = 0
holds_upgrade (searching a) = 0

abbrev pub holds : Thread → ℕ
holds th = holds_upgrade th.reader

module _ (s : Shabal) (j : Json) (w0 : Wallet) where
  -- `w` is what whole refreshes with the transfers `us`, the first ones of `ts`, make of `w0`.
  pub record After (ts us : List Transfer) (w : Wallet) : Type 0 where
    pub earlier : Earlier us ts
    pub replayed : replay s j us w0 ≡ some w

  -- Each read of a log, the last first, is that of a wallet after some of the refreshes `ts`, and
  -- the reads before it are of wallets after no more of them.
  abbrev pub IsLog : List Transfer → List Read → Type 0
  IsLog ts [] = Unit
  IsLog ts (r ∷ log) =
      (us : List Transfer) × (w : Wallet) × After ts us w × Shows w r × IsLog us log

  -- `w` is the wallet after the refreshes `ts`, and `now` as it stands.
  abbrev pub IsReader : List Transfer → Wallet → Wallet → Refresher → Reader → List Read → Type 0
  IsReader ts w now r idle log = IsLog ts log
  IsReader ts w now r (copying_block k b) log =
      ((to : Block) × (b ≡ copied k w.current_block to)) × IsLog ts log
  IsReader ts w now r (copying_text c) log =
      (us : List Transfer) × (v : Wallet) × After ts us v
      × IsCopy (get_cached_mining_info v) now r c
      × IsLog us log
  IsReader ts w now r (searching a) log = IsLog ts log

  abbrev pub IsThread : List Transfer → Wallet → Wallet → Refresher → Thread → Type 0
  IsThread ts w now r th = IsReader ts w now r th.reader th.log

  pub record IsThreaded (x : SharedMutex) (st : State x) : Type 0 where
    pub settled : Wallet
    pub replayed : replay s j st.done w0 ≡ some settled
    pub progress : Progress s j settled st.wallet st.refresher
    pub counted :
        total holds st.threads + (if holds_lock st.refresher then 1 else 0)
        ≡ (if x.upgraded st.mutex then 1 else 0)
    pub threads : All (IsThread st.done settled st.wallet st.refresher) st.threads
