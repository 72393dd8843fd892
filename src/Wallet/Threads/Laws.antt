-- ===== src/Wallet/Threads/Laws.antt =====
-- src/Wallet.cpp: what the threads read, whatever the interleaving.
use cpp_burst_pool_node.Base.{suc, refl, sym, ap, ◌∙◌, true, false, none, some, inl, inr, arith}
use cpp_burst_pool_node.Base.Takes.{total, All-Takes, total-Takes}
use cpp_burst_pool_node.Burstmath.Shabal.{Shabal}
use cpp_burst_pool_node.Wallet.State.{Block, Wallet}
use cpp_burst_pool_node.Wallet.Info.{Json}
use cpp_burst_pool_node.Wallet.Refresh.{block_of}
use cpp_burst_pool_node.Wallet.Threads.Mutex.{SharedMutex}
use cpp_burst_pool_node.Wallet.Threads.Reader.{copy_field}
use cpp_burst_pool_node.Wallet.Threads.Refresher.{
  asleep, awake, has_read, is_higher, has_upgrade_lock, has_unique_lock, writing, assigning,
  assigned, published, assign_text, turn_index, is_asleep, is_assigning, is_published,
}
use cpp_burst_pool_node.Wallet.Threads.Steps.{
  State, Step, reads, wakes_up, reads_none, reads_info, finds_old, finds_new, locks_upgrade,
  locks_unique, scans, writes, begins_to_assign, assigns, turns, leaves,
}
use cpp_burst_pool_node.Wallet.Threads.Progress.{
  copied_all, with_block, text_of, received, received-block, refresh_none, refresh_old, refresh_new,
  higher_received,
}
use cpp_burst_pool_node.Wallet.Threads.Invariant.{holds, IsThread, IsThreaded}
use cpp_burst_pool_node.Wallet.Threads.Copies.{
  keeps-IsCopy, sleeps-IsCopy, wakes-IsCopy, spoils-IsCopy, assigns-IsCopy, turns-IsCopy,
}
use cpp_burst_pool_node.Wallet.Threads.ReadsLaws.{Reads-IsThread}
use cpp_burst_pool_node.Wallet.Threads.Moves.{
  moves, settles, stays, at_refresher, none_upgraded, none_locked, parsed, compared, with_own_block,
  received-SameBuffers, block-SameBuffers, same-SameBuffers,
}

module _ (x : SharedMutex) (s : Shabal) (j : Json) (w0 : Wallet) where
  pub Step-IsThreaded :
      (st st' : State x) → IsThreaded s j w0 x st → Step x s j st st' → IsThreaded s j w0 x st'
  Step-IsThreaded st st' h (reads {m} {before} {after} {rest} taken read) =
      let (hb, hr) =
        All-Takes (IsThread s j w0 st.done h.settled st.wallet st.refresher) taken h.threads in
      let (ha, c) =
        Reads-IsThread x s j w0 st.done h.settled st.wallet st.refresher h.replayed h.progress
          (total holds rest) read (omega (arith, h.counted, total-Takes holds taken)) hb in
      record {
        settled = h.settled;
        replayed = h.replayed;
        progress = h.progress;
        counted = c;
        threads = (ha, hr);
      }
  Step-IsThreaded st st' h (wakes_up e) =
      let (p, c) = at_refresher x s j w0 st h e in
      moves x s j w0 st st.mutex st.wallet awake _ h p c
        (λ text c. wakes-IsCopy st.refresher awake (ap is_published e) refl)
  Step-IsThreaded st st' h (reads_none t e q) =
      let (p, c) = at_refresher x s j w0 st h e in
      settles x s j w0 st t st.mutex (received t h.settled) (received t st.wallet) asleep _ h
        (refresh_none s j t h.settled (parsed x s j w0 t none p q)) (ap (received t) p) c
        (inr (received-block t h.settled))
        (λ text c. sleeps-IsCopy (received-SameBuffers t st.wallet) st.refresher)
  Step-IsThreaded st st' h (reads_info t {info} e q) =
      let (p, c) = at_refresher x s j w0 st h e in
      stays x s j w0 _ (
        moves x s j w0 st st.mutex (received t st.wallet) (has_read t info) (λ c. c) h
          (ap (received t) p, parsed x s j w0 t (some info) p q) c
          (λ text c.
            keeps-IsCopy (received-SameBuffers t st.wallet) st.refresher (has_read t info)
              (ap is_asleep e) (ap is_published e) refl))
  Step-IsThreaded st st' h (finds_old {t} {info} {m} e l old) =
      let ((p, q), c) = at_refresher x s j w0 st h e in
      settles x s j w0 st t (x.unlock_upgrade m) (received t h.settled) st.wallet asleep _ h
        (refresh_old s j t h.settled info q (compared x s j w0 info false p old)) p
        (ground (
          arith,
          none_upgraded x s j w0 st.mutex m (total holds st.threads) (has_read t info) l c,
          x.upgraded-unlock_upgrade m,
        ))
        (inr (received-block t h.settled))
        (λ text c. sleeps-IsCopy (same-SameBuffers st.wallet) st.refresher)
  Step-IsThreaded st st' h (finds_new {t} {info} {m} e l higher) =
      let ((p, q), c) = at_refresher x s j w0 st h e in
      stays x s j w0 _ (
        moves x s j w0 st (x.unlock_upgrade m) st.wallet (is_higher t info) (λ c. c) h
          (p, (q, higher_received s j t h.settled info (compared x s j w0 info true p higher)))
          (ground (
            arith,
            none_upgraded x s j w0 st.mutex m (total holds st.threads) (has_read t info) l c,
            x.upgraded-unlock_upgrade m,
          ))
          (λ text c.
            keeps-IsCopy (same-SameBuffers st.wallet) st.refresher (is_higher t info)
              (ap is_asleep e) (ap is_published e) refl))
  Step-IsThreaded st st' h (locks_upgrade {t} {info} {m} e l) =
      let (p, c) = at_refresher x s j w0 st h e in
      stays x s j w0 _ (
        moves x s j w0 st m st.wallet (has_upgrade_lock t info) (λ c. c) h p
          (ground (
            arith,
            none_upgraded x s j w0 st.mutex m (total holds st.threads) (is_higher t info) l c,
          ))
          (λ text c.
            keeps-IsCopy (same-SameBuffers st.wallet) st.refresher (has_upgrade_lock t info)
              (ap is_asleep e) (ap is_published e) refl))
  Step-IsThreaded st st' h (locks_unique {t} {info} {m} e l) =
      let (p, c) = at_refresher x s j w0 st h e in
      stays x s j w0 _ (
        moves x s j w0 st m st.wallet (has_unique_lock t info) (λ c. c) h p
          (ground (arith, c, x.upgraded-upgrade_to_unique st.mutex m l))
          (λ text c.
            keeps-IsCopy (same-SameBuffers st.wallet) st.refresher (has_unique_lock t info)
              (ap is_asleep e) (ap is_published e) refl))
  Step-IsThreaded st st' h (scans {t} {info} {gensig} {scoop} e g k) =
      let ((p, q), c) = at_refresher x s j w0 st h e in
      stays x s j w0 _ (
        moves x s j w0 st st.mutex st.wallet (writing t info (block_of info gensig scoop) 0)
          (λ c. c) h (p ∙ sym (with_own_block t h.settled), q, (gensig, scoop, g, k, refl)) c
          (λ text c.
            keeps-IsCopy (same-SameBuffers st.wallet) st.refresher
              (writing t info (block_of info gensig scoop) 0) (ap is_asleep e) (ap is_published e)
              refl))
  Step-IsThreaded st st' h (writes {t} {info} {new} {k} e lt) =
      let ((p, q, n), c) = at_refresher x s j w0 st h e in
      stays x s j w0 _ (
        moves x s j w0 st st.mutex _ (writing t info new (suc k)) (λ c. c) h
          (ap (λ (v : Wallet). with_block (copy_field k new v.current_block) v) p, q, n) c
          (λ text c.
            keeps-IsCopy (block-SameBuffers _ st.wallet) st.refresher (writing t info new (suc k))
              (ap is_asleep e) (ap is_published e) refl))
  Step-IsThreaded st st' h (begins_to_assign {t} {info} {new} e) =
      let ((p, q, n), c) = at_refresher x s j w0 st h e in
      moves x s j w0 st st.mutex st.wallet (assigning t info new) _ h
        (
          p
              ∙ ap (λ (b : Block). with_block b (received t h.settled))
                  (copied_all new h.settled.current_block),
          q,
          n,
        )
        c
        (λ text c.
          spoils-IsCopy st.refresher (assigning t info new) (ap is_asleep e) (ap is_published e))
  Step-IsThreaded st st' h (assigns {t} {info} {new} e) =
      let ((p, q, n), c) = at_refresher x s j w0 st h e in
      stays x s j w0 _ (
        moves x s j w0 st st.mutex _ (assigned t info new) (λ c. c) h
          (ap (λ (v : Wallet). assign_text (text_of v info) v) p, q, n) c
          (λ text c.
            assigns-IsCopy _ st.refresher (assigned t info new) (ap is_asleep e) (ap is_published e)
              (ap is_assigning e) refl))
  Step-IsThreaded st st' h (turns {t} {info} {new} e) =
      let ((p, q, n), c) = at_refresher x s j w0 st h e in
      stays x s j w0 _ (
        settles x s j w0 st t st.mutex _ (turn_index st.wallet) published (λ c. c) h
          (refresh_new s j t h.settled info new q n) (ap turn_index p) c
          (inl (none_locked x s j w0 st.mutex _ (assigned t info new) refl c))
          (λ text c. turns-IsCopy st.refresher (ap is_asleep e)))
  Step-IsThreaded st st' h (leaves e) =
      let (p, c) = at_refresher x s j w0 st h e in
      moves x s j w0 st (x.unlock_unique st.mutex) st.wallet asleep _ h p
        (ground (
          arith,
          none_locked x s j w0 st.mutex (total holds st.threads) published refl c,
          x.upgraded-unlock_unique st.mutex,
        ))
        (λ text c. sleeps-IsCopy (same-SameBuffers st.wallet) st.refresher)
