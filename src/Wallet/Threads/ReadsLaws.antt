-- ===== src/Wallet/Threads/ReadsLaws.antt =====
-- src/Wallet.cpp: a step of a thread that reads keeps what holds between the steps.
use cpp_burst_pool_node.Base.{
  ℕ, suc, ◌+◌, ◌≡◌, refl, sym, ap, ◌∙◌, Bool, false, some, List, if◌then◌else◌, arith,
}
use cpp_burst_pool_node.Burstmath.Shabal.{Shabal}
use cpp_burst_pool_node.Wallet.State.{
  Block, Wallet, get_current_block, get_reward_recipient, get_miner_round,
}
use cpp_burst_pool_node.Wallet.Info.{Json}
use cpp_burst_pool_node.Wallet.Refresh.{Transfer}
use cpp_burst_pool_node.Wallet.Threads.Mutex.{SharedMutex}
use cpp_burst_pool_node.Wallet.Threads.Reader.{
  copy_field, Thread, Reads, locks, copies, unlocks, loads, returns, returns_garbled, locks_shared,
  finds,
}
use cpp_burst_pool_node.Wallet.Threads.Refresher.{Refresher, holds_lock}
use cpp_burst_pool_node.Wallet.Threads.Progress.{copied, copied_all, replay, Progress}
use cpp_burst_pool_node.Wallet.Threads.Shown.{Shown, Progress-Shown, Progress-block}
use cpp_burst_pool_node.Wallet.Threads.Invariant.{same, holds, After, IsThread}
use cpp_burst_pool_node.Wallet.Threads.Copies.{loads-IsCopy}

-- The recipients are read from the map and the rounds only.
recipient-Shown :
    {w now : Wallet} (a : ℕ) → Shown w now → get_reward_recipient now a ≡ get_reward_recipient w a
unfolding get_reward_recipient get_miner_round
recipient-Shown a h = rw (h.same_miners, h.same_rounds) refl

module _ (x : SharedMutex) (s : Shabal) (j : Json) (w0 : Wallet) (ts : List Transfer)
    (w now : Wallet) (r : Refresher) (replayed : replay s j ts w0 ≡ some w)
    (progress : Progress s j w now r) where
  shown : Shown w now
  shown = Progress-Shown s j w now r progress

  -- The wallet of now, for a read that ends now.
  present : After s j w0 ts ts w
  present = record { earlier = same; replayed = replayed }

  abbrev IsCounted : x.Mutex → ℕ → Type 0
  IsCounted m n = n + (if holds_lock r then 1 else 0) ≡ (if x.upgraded m then 1 else 0)

  alone : (m : x.Mutex) (n : ℕ) → IsCounted m (1 + n) → holds_lock r ≡ false
  alone m n c = ground arith

  field :
      (m : x.Mutex) (k n : ℕ) (b to : Block)
      → IsCounted m (1 + n)
      → b ≡ copied k w.current_block to
      → copy_field k now.current_block b ≡ copied (suc k) w.current_block to
  field m k n b to c e =
      ap (λ (from : Block). copy_field k from b) (Progress-block s j w now r progress (alone m n c))
      ∙ ap (copy_field k w.current_block) e

  pub Reads-IsThread :
      (n : ℕ) {m m' : x.Mutex} {before after : Thread}
      → Reads x now m before m' after
      → IsCounted m (holds before + n)
      → IsThread s j w0 ts w now r before
      → IsThread s j w0 ts w now r after × IsCounted m' (holds after + n)
  unfolding get_current_block
  Reads-IsThread n (locks block {m} {m'} e) c h =
      (((block, refl), h), ground (arith, x.upgraded-lock_upgrade m m' e))
  Reads-IsThread n (copies {m} {k} {b} lt) c ((to, e), l) = (((to, field m k n b to (c) e), l), c)
  Reads-IsThread n (unlocks {m}) c ((to, e), l) = (
    (ts, w, present, e ∙ copied_all w.current_block to, l),
    ground (arith, x.upgraded-unlock_upgrade m),
  )
  Reads-IsThread n loads c h = ((ts, w, present, loads-IsCopy _ now r shown.served, h), c)
  Reads-IsThread n (returns e) c (us, v, a, h, l) = ((us, v, a, h.clean e, l), c)
  Reads-IsThread n (returns_garbled text e) c (us, v, a, h, l) = ((us, v, a, tt, l), c)
  Reads-IsThread n (locks_shared account_id {m} {m'} e) c h =
      (h, c ∙ ap (λ (b : Bool). if b then 1 else 0) (sym (x.upgraded-lock_shared m m' e)))
  Reads-IsThread n (finds {m} {account_id}) c h = (
    (ts, w, present, recipient-Shown account_id shown, h),
    c ∙ ap (λ (b : Bool). if b then 1 else 0) (sym (x.upgraded-unlock_shared m)),
  )
