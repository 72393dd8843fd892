-- ===== src/Wallet/Threads/Finishes.antt =====
-- src/Wallet.cpp: no thread keeps another from its end.
use cpp_burst_pool_node.Base.{
  ℕ, zero, suc, ◌+◌, ◌-◌, ◌≡◌, refl, ap, ◌∙◌, inl, inr, Bool, Bool-cases, some, List, ltb, arith,
}
use cpp_burst_pool_node.Burstmath.Shabal.{Shabal}
use cpp_burst_pool_node.Burstmath.Scoop.{calculate_scoop_lem}
use cpp_burst_pool_node.Wallet.State.{Block, Wallet, get_current_block}
use cpp_burst_pool_node.Wallet.Info.{Json, MiningInfo, scan_gensig}
use cpp_burst_pool_node.Wallet.InfoLaws.{length-scan_gensig}
use cpp_burst_pool_node.Wallet.Refresh.{Transfer}
use cpp_burst_pool_node.Wallet.Threads.Mutex.{SharedMutex}
use cpp_burst_pool_node.Wallet.Threads.Refresher.{
  Refresher, asleep, awake, has_read, is_higher, has_upgrade_lock, has_unique_lock, writing,
  assigning, assigned, published, holds_lock,
}
use cpp_burst_pool_node.Wallet.Threads.Steps.{
  State, finds_old, finds_new, locks_upgrade, locks_unique, scans, writes, begins_to_assign,
  assigns, turns, leaves, Reach,
}
use cpp_burst_pool_node.Wallet.Threads.Sharing.{IsWriting, Reach-IsShared}
use cpp_burst_pool_node.Wallet.Threads.Returns.{
  AllIdle, AllIdle-map, total-AllIdle, Goes, stops, goes_on, Goes-Reach, all_return,
}
use cpp_burst_pool_node.Wallet.Threads.Seen.{Reach-IsThreaded}

abbrev HasBytes : MiningInfo → Type 0
HasBytes info = (bytes : List ℕ) × (scan_gensig 32 info.gensig_str ≡ some bytes)

-- No transfer is awaited, and the signature of an info that has been read and is still to be scanned is
-- of 32 bytes in hexadecimal digits.
abbrev pub IsReadable : Refresher → Type 0
IsReadable asleep = Unit
IsReadable awake = ⊥
IsReadable (has_read t info) = HasBytes info
IsReadable (is_higher t info) = HasBytes info
IsReadable (has_upgrade_lock t info) = HasBytes info
IsReadable (has_unique_lock t info) = HasBytes info
IsReadable (writing t info new k) = Unit
IsReadable (assigning t info new) = Unit
IsReadable (assigned t info new) = Unit
IsReadable published = Unit

module _ (x : SharedMutex) (s : Shabal) (j : Json) (w : Wallet) (first : State x)
    (r : Reach x s j w first) where
  -- All threads have returned, and only the refresher goes on.
  record IsQuiet (st : State x) : Type 0 where
    from : Goes x s j first st
    idle : AllIdle st.threads

  -- It comes to its sleep.
  abbrev pub Sleeps : Type 0
  Sleeps = (end : State x) × Goes x s j first end × (end.refresher ≡ asleep) × AllIdle end.threads

  upgraded_of :
      (st : State x) {p : Refresher} {b : Bool}
      → IsQuiet st
      → st.refresher ≡ p
      → holds_lock p ≡ b
      → x.upgraded st.mutex ≡ b
  upgraded_of st q e h =
      let i = Reach-IsThreaded x s j w st (Goes-Reach x s j w r q.from) in
      ground (arith, i.counted, (total-AllIdle st.threads q.idle).0, ap holds_lock e)

  from_published : (st : State x) → IsQuiet st → st.refresher ≡ published → Sleeps
  from_published st q e = (_, goes_on q.from (leaves e), refl, AllIdle-map _ st.threads q.idle)

  from_assigned :
      (st : State x) {t : Transfer} {info : MiningInfo} {new : Block}
      → IsQuiet st
      → st.refresher ≡ assigned t info new
      → Sleeps
  from_assigned st q e =
      from_published _ (record { from = goes_on q.from (turns e); idle = q.idle }) refl

  from_assigning :
      (st : State x) {t : Transfer} {info : MiningInfo} {new : Block}
      → IsQuiet st
      → st.refresher ≡ assigning t info new
      → Sleeps
  from_assigning st q e =
      from_assigned _ (record { from = goes_on q.from (assigns e); idle = q.idle }) refl

  from_writing :
      (n k : ℕ) (st : State x) {t : Transfer} {info : MiningInfo} {new : Block}
      → k + n ≡ 4
      → IsQuiet st
      → st.refresher ≡ writing t info new k
      → Sleeps
  from_writing zero k st {t} {info} {new} sum q e =
      let all : st.refresher ≡ writing t info new 4 = e ∙ ap (writing t info new) (omega arith) in
      from_assigning _
        (record {
          from = goes_on q.from (begins_to_assign all);
          idle = AllIdle-map _ st.threads q.idle;
        })
        refl
  from_writing (suc n) k st sum q e =
      from_writing n (suc k) _ (omega arith)
        (record { from = goes_on q.from (writes e (omega arith)); idle = q.idle }) refl

  from_unique :
      (st : State x) {t : Transfer} {info : MiningInfo}
      → HasBytes info
      → IsQuiet st
      → st.refresher ≡ has_unique_lock t info
      → Sleeps
  from_unique st {t} {info} (bytes, g) q e =
      let (c, _) =
        calculate_scoop_lem s info.height bytes (length-scan_gensig 32 info.gensig_str bytes g) in
      from_writing 4 0 _ refl (record { from = goes_on q.from (scans e g c); idle = q.idle }) refl

  from_upgrade :
      (st : State x) {t : Transfer} {info : MiningInfo}
      → HasBytes info
      → IsQuiet st
      → st.refresher ≡ has_upgrade_lock t info
      → Sleeps
  from_upgrade st h q e =
      let shared = Reach-IsShared x s j w st (Goes-Reach x s j w r q.from) in
      let (m, locked) =
        x.upgrade_to_unique-enters st.mutex (upgraded_of st q e refl)
          (shared.sharing ∙ (total-AllIdle st.threads q.idle).1) in
      from_unique _ h (record { from = goes_on q.from (locks_unique e locked); idle = q.idle }) refl

  from_higher :
      (st : State x) {t : Transfer} {info : MiningInfo}
      → HasBytes info
      → IsQuiet st
      → st.refresher ≡ is_higher t info
      → Sleeps
  from_higher st h q e =
      let (m, locked) = x.lock_upgrade-enters st.mutex (upgraded_of st q e refl) in
      from_upgrade _ h (record { from = goes_on q.from (locks_upgrade e locked); idle = q.idle })
        refl

  from_read :
      (st : State x) {t : Transfer} {info : MiningInfo}
      → HasBytes info
      → IsQuiet st
      → st.refresher ≡ has_read t info
      → Sleeps
  from_read st {t} {info} h q e =
      let (m, locked) = x.lock_upgrade-enters st.mutex (upgraded_of st q e refl) in
      elim (Bool-cases (ltb (get_current_block st.wallet).height info.height)) [
        | inl higher ↦
            from_higher _ h
              (record { from = goes_on q.from (finds_new e locked higher); idle = q.idle }) refl
        | inr old ↦
            (_, goes_on q.from (finds_old e locked old), refl, AllIdle-map _ st.threads q.idle)
      ]

  comes_to_sleep :
      (st : State x) (p : Refresher)
      → st.refresher ≡ p
      → IsReadable p
      → IsWriting p
      → IsQuiet st
      → Sleeps
  comes_to_sleep st asleep e h k q = (st, q.from, e, q.idle)
  comes_to_sleep st awake e h k q = absurd h
  comes_to_sleep st (has_read t info) e h k q = from_read st h q e
  comes_to_sleep st (is_higher t info) e h k q = from_higher st h q e
  comes_to_sleep st (has_upgrade_lock t info) e h k q = from_upgrade st h q e
  comes_to_sleep st (has_unique_lock t info) e h k q = from_unique st h q e
  comes_to_sleep st (writing t info new i) e h k q = from_writing (4 - i) i st (omega arith) q e
  comes_to_sleep st (assigning t info new) e h k q = from_assigning st q e
  comes_to_sleep st (assigned t info new) e h k q = from_assigned st q e
  comes_to_sleep st published e h k q = from_published st q e

  -- The locks never bring the threads to a standstill: from every state that is reached, if the thread of
  -- `refresh_blocks` does not wait for a transfer, and the signature that it has still to scan is
  -- of 32 bytes in hexadecimal digits, steps lead on to one where that thread is asleep and every
  -- other has returned.
  pub Reach-Sleeps : IsReadable first.refresher → Sleeps
  Reach-Sleeps h =
      let shared = Reach-IsShared x s j w first r in
      let (m, ths, go, idle) =
        all_return x s j first first _ first.mutex first.threads refl shared.within stops in
      comes_to_sleep _ first.refresher refl h shared.writing_within
        (record { from = go; idle = idle })
