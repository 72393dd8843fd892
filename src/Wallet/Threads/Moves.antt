-- ===== src/Wallet/Threads/Moves.antt =====
-- src/Wallet.cpp: what is to be shown of a step of the thread of `refresh_blocks`.
use mathlib.Core.Path.{subst}
use cpp_burst_pool_node.Base.{
  ℕ, ◌+◌, ◌≡◌, refl, sym, ap, Bool, true, Option, some, List, ◌∷◌, ◌⊎◌, map, ltb, if◌then◌else◌,
  arith,
}
use cpp_burst_pool_node.Base.Takes.{total}
use cpp_burst_pool_node.Burstmath.Shabal.{Shabal}
use cpp_burst_pool_node.Wallet.State.{Text, Block, Wallet, get_current_block}
use cpp_burst_pool_node.Wallet.Info.{Json, MiningInfo, parse_mining_info}
use cpp_burst_pool_node.Wallet.Refresh.{Transfer, get_mining_info, refresh_block}
use cpp_burst_pool_node.Wallet.Threads.Mutex.{SharedMutex}
use cpp_burst_pool_node.Wallet.Threads.Reader.{Copy, Thread}
use cpp_burst_pool_node.Wallet.Threads.Refresher.{Refresher, holds_lock}
use cpp_burst_pool_node.Wallet.Threads.Steps.{State}
use cpp_burst_pool_node.Wallet.Threads.Progress.{
  with_block, received, received-block, replay, Progress,
}
use cpp_burst_pool_node.Wallet.Threads.Invariant.{IsCopy, holds, IsThreaded}
use cpp_burst_pool_node.Wallet.Threads.Copies.{SameBuffers}
use cpp_burst_pool_node.Wallet.Threads.Readers.{
  on_thread, total-on_thread, map_same, steps-threads, ends-threads,
}

pub received-SameBuffers : (t : Transfer) (w : Wallet) → SameBuffers w (received t w)
unfolding get_mining_info
received-SameBuffers t w = record {
  index = ground arith;
  first = ground arith;
  second = ground arith;
}

pub with_own_block :
    (t : Transfer) (w : Wallet) → with_block w.current_block (received t w) ≡ received t w
with_own_block t w = ap (λ (b : Block). with_block b (received t w)) (sym (received-block t w))

pub block-SameBuffers : (b : Block) (w : Wallet) → SameBuffers w (record w { current_block = b })
block-SameBuffers b w = record { index = refl; first = refl; second = refl }

pub same-SameBuffers : (w : Wallet) → SameBuffers w w
same-SameBuffers w = record { index = refl; first = refl; second = refl }

module _ (x : SharedMutex) (s : Shabal) (j : Json) (w0 : Wallet) where
  replay_one :
      (t : Transfer) (ts : List Transfer) {w w' : Wallet} {b : Bool}
      → replay s j ts w0 ≡ some w
      → refresh_block s j t w ≡ some (w', b)
      → replay s j (t ∷ ts) w0 ≡ some w'
  unfolding replay
  replay_one t ts e h = rw (e, h) refl

  abbrev pub IsCounted : x.Mutex → ℕ → Refresher → Type 0
  IsCounted m n r = n + (if holds_lock r then 1 else 0) ≡ (if x.upgraded m then 1 else 0)

  -- A step within a refresh.
  pub moves :
      (st : State x) (m : x.Mutex) (now : Wallet) (r : Refresher) (f : Copy → Copy)
      (h : IsThreaded s j w0 x st)
      → Progress s j h.settled now r
      → IsCounted m (total holds st.threads) r
      → ((text : Text) (c : Copy) → IsCopy text st.wallet st.refresher c → IsCopy text now r (f c))
      → IsThreaded s j w0 x (record st {
        mutex = m;
        wallet = now;
        refresher = r;
        threads = map (on_thread f) st.threads;
      })
  moves st m now r f h p c copies = record {
    settled = h.settled;
    replayed = h.replayed;
    progress = p;
    counted = omega (arith, total-on_thread f st.threads);
    threads =
        steps-threads s j w0 f st.wallet now st.refresher r copies st.done h.settled st.threads
          h.threads;
  }

  -- The step that ends one.
  pub settles :
      (st : State x) (t : Transfer) (m : x.Mutex) (w now : Wallet) (r : Refresher) (f : Copy → Copy)
      {b : Bool} (h : IsThreaded s j w0 x st)
      → refresh_block s j t h.settled ≡ some (w, b)
      → Progress s j w now r
      → IsCounted m (total holds st.threads) r
      → (total holds st.threads ≡ 0) ⊎ (w.current_block ≡ h.settled.current_block)
      → ((text : Text) (c : Copy) → IsCopy text st.wallet st.refresher c → IsCopy text now r (f c))
      → IsThreaded s j w0 x (record {
        mutex = m;
        wallet = now;
        refresher = r;
        threads = map (on_thread f) st.threads;
        done = t ∷ st.done;
      })
  settles st t m w now r f h e p c k copies = record {
    settled = w;
    replayed = replay_one t st.done h.replayed e;
    progress = p;
    counted = omega (arith, total-on_thread f st.threads);
    threads =
        ends-threads s j w0 f st.wallet now st.refresher r copies t st.done h.settled w st.threads k
          h.threads;
  }

  abbrev with_threads : State x → List Thread → State x
  with_threads st ths = record st { threads = ths }

  -- The threads stay as they are.
  pub stays :
      (st : State x)
      → IsThreaded s j w0 x (with_threads st (map (on_thread (λ c. c)) st.threads))
      → IsThreaded s j w0 x st
  stays st h =
      subst (λ (ths : List Thread). IsThreaded s j w0 x (with_threads st ths)) (map_same st.threads)
        h

  pub at_refresher :
      (st : State x) (h : IsThreaded s j w0 x st) {r : Refresher}
      → st.refresher ≡ r
      → Progress s j h.settled st.wallet r × IsCounted st.mutex (total holds st.threads) r
  at_refresher st h e = (
    subst (Progress s j h.settled st.wallet) e h.progress,
    subst (IsCounted st.mutex (total holds st.threads)) e h.counted,
  )

  -- A lock that is let in finds no reader of the block.
  pub none_upgraded :
      (m m' : x.Mutex) (n : ℕ) (r : Refresher)
      → x.lock_upgrade m ≡ some m'
      → IsCounted m n r
      → (n ≡ 0) × (x.upgraded m' ≡ true)
  none_upgraded m m' n r e c =
      (ground (arith, x.upgraded-lock_upgrade m m' e), (x.upgraded-lock_upgrade m m' e).1)

  pub none_locked :
      (m : x.Mutex) (n : ℕ) (r : Refresher) → holds_lock r ≡ true → IsCounted m n r → n ≡ 0
  none_locked m n r e c = ground arith

  pub parsed :
      (t : Transfer) (o : Option MiningInfo) {w v : Wallet}
      → w ≡ v
      → parse_mining_info j (get_mining_info t w).1 ≡ o
      → parse_mining_info j (get_mining_info t v).1 ≡ o
  parsed t o e h = subst (λ (w : Wallet). parse_mining_info j (get_mining_info t w).1 ≡ o) e h

  pub compared :
      (info : MiningInfo) (b : Bool) {w v : Wallet}
      → w ≡ v
      → ltb (get_current_block w).height info.height ≡ b
      → ltb v.current_block.height info.height ≡ b
  unfolding get_current_block
  compared info b e h = subst (λ (w : Wallet). ltb w.current_block.height info.height ≡ b) e h
