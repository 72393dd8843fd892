-- ===== src/Wallet/Threads/Sharing.antt =====
-- src/Wallet.cpp: who shares the mutex, and how far copies of blocks are, between two steps.
use mathlib.Core.Path.{subst}
use cpp_burst_pool_node.Base.{ℕ, ◌+◌, ◌≤◌, ◌≡◌, refl, sym, ap, ◌∙◌, List, [], ◌∷◌, map, All, arith}
use cpp_burst_pool_node.Base.Takes.{total, All-Takes, total-Takes}
use cpp_burst_pool_node.Burstmath.Shabal.{Shabal}
use cpp_burst_pool_node.Wallet.State.{Wallet}
use cpp_burst_pool_node.Wallet.Info.{Json}
use cpp_burst_pool_node.Wallet.Threads.Mutex.{SharedMutex}
use cpp_burst_pool_node.Wallet.Threads.Reader.{
  Copy, Reader, idle, copying_block, copying_text, searching, Thread, on_copy, Reads, locks, copies,
  unlocks, loads, returns, returns_garbled, locks_shared, finds,
}
use cpp_burst_pool_node.Wallet.Threads.Refresher.{
  Refresher, asleep, awake, has_read, is_higher, has_upgrade_lock, has_unique_lock, writing,
  assigning, assigned, published,
}
use cpp_burst_pool_node.Wallet.Threads.Steps.{
  State, Step, reads, wakes_up, reads_none, reads_info, finds_old, finds_new, locks_upgrade,
  locks_unique, scans, writes, begins_to_assign, assigns, turns, leaves, Reach, starts, later,
}
use cpp_burst_pool_node.Wallet.Threads.Readers.{on_thread}

abbrev pub reader_shares : Reader → ℕ
reader_shares idle = 0
reader_shares (copying_block k b) = 0
reader_shares (copying_text c) = 0
reader_shares (searching a) = 1

abbrev pub shares : Thread → ℕ
shares th = reader_shares th.reader

abbrev pub IsWithin : Reader → Type 0
IsWithin idle = Unit
IsWithin (copying_block k b) = k ≤ 4
IsWithin (copying_text c) = Unit
IsWithin (searching a) = Unit

abbrev pub IsWriting : Refresher → Type 0
IsWriting asleep = Unit
IsWriting awake = Unit
IsWriting (has_read t info) = Unit
IsWriting (is_higher t info) = Unit
IsWriting (has_upgrade_lock t info) = Unit
IsWriting (has_unique_lock t info) = Unit
IsWriting (writing t info new k) = k ≤ 4
IsWriting (assigning t info new) = Unit
IsWriting (assigned t info new) = Unit
IsWriting published = Unit

shares-on_copy : (f : Copy → Copy) (r : Reader) → reader_shares (on_copy f r) ≡ reader_shares r
shares-on_copy f idle = refl
shares-on_copy f (copying_block k b) = refl
shares-on_copy f (copying_text c) = refl
shares-on_copy f (searching a) = refl

IsWithin-on_copy : (f : Copy → Copy) (r : Reader) → IsWithin r → IsWithin (on_copy f r)
IsWithin-on_copy f idle h = tt
IsWithin-on_copy f (copying_block k b) h = h
IsWithin-on_copy f (copying_text c) h = tt
IsWithin-on_copy f (searching a) h = tt

abbrev pub AllWithin : List Thread → Type 0
AllWithin ths = All (λ (th : Thread). IsWithin th.reader) ths

IsWithin-map :
    (f : Copy → Copy) (ths : List Thread) → AllWithin ths → AllWithin (map (on_thread f) ths)
IsWithin-map f [] h = tt
IsWithin-map f (th ∷ ths) h = (IsWithin-on_copy f th.reader h.0, IsWithin-map f ths h.1)

total-shares :
    (f : Copy → Copy) (ths : List Thread) → total shares (map (on_thread f) ths) ≡ total shares ths
total-shares f [] = refl
total-shares f (th ∷ ths) = omega (arith, shares-on_copy f th.reader, total-shares f ths)

module _ (x : SharedMutex) where
  pub record IsShared (st : State x) : Type 0 where
    pub sharing : x.sharers st.mutex ≡ total shares st.threads
    pub within : All (λ (th : Thread). IsWithin th.reader) st.threads
    pub writing_within : IsWriting st.refresher

  Reads-Shares :
      (w : Wallet) (n : ℕ) {m m' : x.Mutex} {before after : Thread}
      → Reads x w m before m' after
      → x.sharers m ≡ shares before + n
      → IsWithin before.reader
      → (x.sharers m' ≡ shares after + n) × IsWithin after.reader
  Reads-Shares w n (locks block {m} {m'} e) h k =
      (omega (arith, h, x.sharers-lock_upgrade m m' e), omega arith)
  Reads-Shares w n (copies lt) h k = (h, omega (arith, lt))
  Reads-Shares w n (unlocks {m}) h k = (omega (arith, h, x.sharers-unlock_upgrade m), tt)
  Reads-Shares w n loads h k = (h, tt)
  Reads-Shares w n (returns e) h k = (h, tt)
  Reads-Shares w n (returns_garbled text e) h k = (h, tt)
  Reads-Shares w n (locks_shared a {m} {m'} e) h k =
      (omega (arith, h, x.sharers-lock_shared m m' e), tt)
  Reads-Shares w n (finds {m}) h k = (omega (arith, h, x.sharers-unlock_shared m), tt)

  module _ (s : Shabal) (j : Json) where
    Step-IsShared : (st st' : State x) → IsShared st → Step x s j st st' → IsShared st'
    Step-IsShared st st' h (reads {m} {before} {after} {rest} taken read) =
        let (hb, hr) = All-Takes (λ (th : Thread). IsWithin th.reader) taken h.within in
        let (e, k) =
          Reads-Shares st.wallet (total shares rest) read (h.sharing ∙ total-Takes shares taken)
            hb in
        record { sharing = e; within = (k, hr); writing_within = h.writing_within }
    Step-IsShared st st' h (wakes_up e) = record {
      sharing = h.sharing ∙ sym (total-shares _ st.threads);
      within = IsWithin-map _ st.threads h.within;
      writing_within = tt;
    }
    Step-IsShared st st' h (reads_none t e q) = record {
      sharing = h.sharing ∙ sym (total-shares _ st.threads);
      within = IsWithin-map _ st.threads h.within;
      writing_within = tt;
    }
    Step-IsShared st st' h (reads_info t e q) = record {
      sharing = h.sharing;
      within = h.within;
      writing_within = tt;
    }
    Step-IsShared st st' h (finds_old {m = m} e l old) = record {
      sharing =
          x.sharers-unlock_upgrade m
          ∙ x.sharers-lock_upgrade st.mutex m l
          ∙ h.sharing
          ∙ sym (total-shares _ st.threads);
      within = IsWithin-map _ st.threads h.within;
      writing_within = tt;
    }
    Step-IsShared st st' h (finds_new {m = m} e l new) = record {
      sharing = x.sharers-unlock_upgrade m ∙ x.sharers-lock_upgrade st.mutex m l ∙ h.sharing;
      within = h.within;
      writing_within = tt;
    }
    Step-IsShared st st' h (locks_upgrade {m = m} e l) = record {
      sharing = x.sharers-lock_upgrade st.mutex m l ∙ h.sharing;
      within = h.within;
      writing_within = tt;
    }
    Step-IsShared st st' h (locks_unique {m = m} e l) = record {
      sharing = x.sharers-upgrade_to_unique st.mutex m l ∙ h.sharing;
      within = h.within;
      writing_within = tt;
    }
    Step-IsShared st st' h (scans e g k) = record {
      sharing = h.sharing;
      within = h.within;
      writing_within = omega arith;
    }
    Step-IsShared st st' h (writes e lt) = record {
      sharing = h.sharing;
      within = h.within;
      writing_within = omega (arith, lt);
    }
    Step-IsShared st st' h (begins_to_assign e) = record {
      sharing = h.sharing ∙ sym (total-shares _ st.threads);
      within = IsWithin-map _ st.threads h.within;
      writing_within = tt;
    }
    Step-IsShared st st' h (assigns e) = record {
      sharing = h.sharing;
      within = h.within;
      writing_within = tt;
    }
    Step-IsShared st st' h (turns e) = record {
      sharing = h.sharing;
      within = h.within;
      writing_within = tt;
    }
    Step-IsShared st st' h (leaves e) = record {
      sharing = x.sharers-unlock_unique st.mutex ∙ h.sharing ∙ sym (total-shares _ st.threads);
      within = IsWithin-map _ st.threads h.within;
      writing_within = tt;
    }

    idle_threads :
        (ths : List Thread)
        → All (λ (th : Thread). th ≡ record { reader = idle; log = [] }) ths
        → (total shares ths ≡ 0) × AllWithin ths
    idle_threads [] h = (refl, tt)
    idle_threads (th ∷ ths) (e, h) =
        let (n, k) = idle_threads ths h in
        (omega (arith, ap shares e), (subst (λ (th : Thread). IsWithin th.reader) (sym e) tt, k))

    pub Reach-IsShared : (w : Wallet) (st : State x) → Reach x s j w st → IsShared st
    Reach-IsShared w st (starts threads fresh) = record {
      sharing = x.sharers-free ∙ sym (idle_threads threads fresh).0;
      within = (idle_threads threads fresh).1;
      writing_within = tt;
    }
    Reach-IsShared w st (later {st = st0} r step) =
        Step-IsShared st0 st (Reach-IsShared w st0 r) step
