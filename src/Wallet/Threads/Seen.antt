-- ===== src/Wallet/Threads/Seen.antt =====
-- src/Wallet.cpp: what the threads see of the wallet, whatever the interleaving.
use mathlib.Core.Path.{subst}
use cpp_burst_pool_node.Base.{
  ℕ, ◌≤◌, ◌≡◌, refl, sym, ap, ◌∙◌, ◌⊎◌, inl, inr, false, some, List, [], ◌∷◌, All, All-imp, arith,
}
use cpp_burst_pool_node.Base.Takes.{Takes, total, All-Takes}
use cpp_burst_pool_node.Burstmath.Shabal.{Shabal}
use cpp_burst_pool_node.Wallet.State.{
  Block, Wallet, get_current_block, read_buffer, get_cached_mining_info,
}
use cpp_burst_pool_node.Wallet.Info.{Json, MiningInfo, adapted_mining_info}
use cpp_burst_pool_node.Wallet.Refresh.{Transfer}
use cpp_burst_pool_node.Wallet.Threads.Mutex.{SharedMutex}
use cpp_burst_pool_node.Wallet.Threads.Reader.{
  Copy, Reader, idle, copying_block, copying_text, searching, Read, block_read, text_read,
  garbled_read, recipient_read, Thread,
}
use cpp_burst_pool_node.Wallet.Threads.Refresher.{Refresher, asleep}
use cpp_burst_pool_node.Wallet.Threads.Steps.{State, Reach, starts, later}
use cpp_burst_pool_node.Wallet.Threads.Progress.{replay, Progress}
use cpp_burst_pool_node.Wallet.Threads.Heights.{IsServed, replay-IsServed, Earlier-height}
use cpp_burst_pool_node.Wallet.Threads.Invariant.{
  Earlier, same, and_one, Shows, holds, After, IsLog, IsReader, IsThread, IsThreaded,
}
use cpp_burst_pool_node.Wallet.Threads.Laws.{Step-IsThreaded}

Earlier-trans : {us ts vs : List Transfer} → Earlier us ts → Earlier ts vs → Earlier us vs
Earlier-trans h same = h
Earlier-trans h (and_one k) = and_one (Earlier-trans h k)

module _ (x : SharedMutex) (s : Shabal) (j : Json) (w : Wallet) where
  none_yet :
      (ths : List Thread)
      → All (λ (th : Thread). th ≡ record { reader = idle; log = [] }) ths
      → (total holds ths ≡ 0) × All (IsThread s j w [] w w asleep) ths
  none_yet [] h = (refl, tt)
  none_yet (th ∷ ths) (e, h) =
      let (n, k) = none_yet ths h in
      (omega (arith, ap holds e), (subst (IsThread s j w [] w w asleep) (sym e) tt, k))

  pub Reach-IsThreaded : (st : State x) → Reach x s j w st → IsThreaded s j w x st
  unfolding replay
  Reach-IsThreaded st (starts threads fresh) = record {
    settled = w;
    replayed = refl;
    progress = refl;
    counted = ground (arith, (none_yet threads fresh).0, x.upgraded-free);
    threads = (none_yet threads fresh).1;
  }
  Reach-IsThreaded st (later {st = st0} r step) =
      Step-IsThreaded x s j w st0 st (Reach-IsThreaded st0 r) step

  -- While the thread of `refresh_blocks` is asleep, the wallet is as the refreshes that are done
  -- make it when each is run whole, one after the other, whatever the threads have done between
  -- their steps.
  pub Reach-replays :
      (st : State x)
      → Reach x s j w st
      → st.refresher ≡ asleep
      → replay s j st.done w ≡ some st.wallet
  Reach-replays st r e =
      let h = Reach-IsThreaded st r in
      h.replayed ∙ ap some (sym (subst (Progress s j h.settled st.wallet) e h.progress))

  IsLog-later :
      {us ts : List Transfer} (log : List Read)
      → Earlier us ts
      → IsLog s j w us log
      → IsLog s j w ts log
  IsLog-later [] e h = tt
  IsLog-later (r ∷ log) e (vs, v, a, h, l) =
      (vs, v, record { earlier = Earlier-trans a.earlier e; replayed = a.replayed }, h, l)

  reader-IsLog :
      (ts : List Transfer) (v now : Wallet) (r : Refresher) (reader : Reader) (log : List Read)
      → IsReader s j w ts v now r reader log
      → IsLog s j w ts log
  reader-IsLog ts v now r idle log h = h
  reader-IsLog ts v now r (copying_block k b) log h = h.1
  reader-IsLog ts v now r (copying_text c) log (us, _, a, _, l) = IsLog-later log a.earlier l
  reader-IsLog ts v now r (searching a) log h = h

  -- Whatever the interleaving, each block that a thread has read is whole, and it, each recipient and
  -- each text that was not assigned to while it was copied are what the function returns on the
  -- wallet after some first ones of the refreshes done, each run whole; and what a thread reads
  -- later is of no fewer of them.
  pub Reach-IsLog :
      (st : State x)
      → Reach x s j w st
      → All (λ (th : Thread). IsLog s j w st.done th.log) st.threads
  Reach-IsLog st r =
      let h = Reach-IsThreaded st r in
      All-imp (λ th k. reader-IsLog st.done h.settled st.wallet st.refresher th.reader th.log k)
        st.threads h.threads

  abbrev pub IsIntact : State x → Copy → Type 0
  IsIntact st c =
      (c.spoiled ≡ false)
      × (us : List Transfer) × (v : Wallet) × After s j w st.done us v
      × (read_buffer c.slot st.wallet ≡ get_cached_mining_info v)

  -- A thread that is copying the mining info, if the thread of `refresh_blocks` has not fallen
  -- asleep and then woken up since the copy began, copies from a buffer that nobody has assigned to
  -- since, and that still has the text which was served after some first ones of the refreshes
  -- done.
  pub Reach-IsIntact :
      (st : State x) (c : Copy) {log : List Read} {rest : List Thread}
      → Reach x s j w st
      → Takes (record { reader = copying_text c; log = log }) st.threads rest
      → c.slept ≡ false
      → IsIntact st c
  Reach-IsIntact st c r taken e =
      let h = Reach-IsThreaded st r in
      let ((us, v, a, k, _), _) =
        All-Takes (IsThread s j w st.done h.settled st.wallet st.refresher) taken h.threads in
      (k.safe e, us, v, a, k.clean (k.safe e))

  -- A read that tells the height `h`.
  abbrev IsOf : ℕ → Read → Type 0
  IsOf h (block_read b) = b.height ≡ h
  IsOf h (text_read text) =
      ((text ≡ get_cached_mining_info w) × (h ≡ w.current_block.height))
      ⊎ ((info : MiningInfo) × (text ≡ adapted_mining_info info w.deadline_limit)
          × (h ≡ info.height))
  IsOf h (garbled_read text) = Unit
  IsOf h (recipient_read a r) = Unit

  -- From the last read on, each is of a height that is at most that of the reads after it.
  abbrev pub Descends : ℕ → List Read → Type 0
  Descends k [] = Unit
  Descends k (r ∷ log) = (h : ℕ) × (h ≤ k) × IsOf h r × Descends h log

  Shows-IsOf :
      (v : Wallet) (r : Read) → IsServed s j w v → Shows v r → IsOf v.current_block.height r
  unfolding get_current_block
  Shows-IsOf v (block_read b) h e = ap (λ (k : Block). k.height) e
  Shows-IsOf v (text_read text) h e = elim h.served [
    | inl (same_text, height) ↦ inl (e ∙ same_text, height)
    | inr (info, new_text, height) ↦ inr (info, e ∙ new_text, height)
  ]
  Shows-IsOf v (garbled_read text) h e = tt
  Shows-IsOf v (recipient_read a r) h e = tt

  IsLog-Descends :
      (ts : List Transfer) (v : Wallet) (log : List Read)
      → replay s j ts w ≡ some v
      → IsLog s j w ts log
      → Descends v.current_block.height log
  IsLog-Descends ts v [] e h = tt
  IsLog-Descends ts v (r ∷ log) e (us, u, a, shows, l) = (
    u.current_block.height,
    Earlier-height s j w u v a.earlier a.replayed e,
    Shows-IsOf u r (replay-IsServed s j us w u a.replayed) shows,
    IsLog-Descends us u log a.replayed l,
  )

  -- Whatever the interleaving, no thread goes back: of the blocks that it has read, and of the texts
  -- that were not assigned to while it copied them, none is of a height below that of one it has
  -- read before. A text is of the height that is written in it, or is the one served at first.
  pub Reach-Descends :
      (st : State x)
      → Reach x s j w st
      → All (λ (th : Thread). (k : ℕ) × Descends k th.log) st.threads
  Reach-Descends st r =
      let h = Reach-IsThreaded st r in
      All-imp
        (λ th l.
          (h.settled.current_block.height, IsLog-Descends st.done h.settled th.log h.replayed l))
        st.threads (Reach-IsLog st r)
