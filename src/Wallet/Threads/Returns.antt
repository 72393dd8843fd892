-- ===== src/Wallet/Threads/Returns.antt =====
-- src/Wallet.cpp: the threads that read can always return.
use mathlib.Core.Path.{subst}
use cpp_burst_pool_node.Base.{
  ℕ, zero, suc, ◌+◌, ◌-◌, ◌≡◌, refl, ap, inl, inr, ◌⊎◌, Bool-cases, List, [], ◌∷◌, map, All, arith,
}
use cpp_burst_pool_node.Base.Takes.{Takes, here, later, total, All-Takes, total-Takes}
use cpp_burst_pool_node.Burstmath.Shabal.{Shabal}
use cpp_burst_pool_node.Wallet.State.{Block, Wallet}
use cpp_burst_pool_node.Wallet.Info.{Json}
use cpp_burst_pool_node.Wallet.Threads.Mutex.{SharedMutex}
use cpp_burst_pool_node.Wallet.Threads.Reader.{
  Copy, Reader, idle, copying_block, copying_text, searching, Read, Thread, on_copy, copies,
  unlocks, returns, returns_garbled, finds,
}
use cpp_burst_pool_node.Wallet.Threads.Steps.{State, Step, reads, Reach}
use cpp_burst_pool_node.Wallet.Threads.Steps
use cpp_burst_pool_node.Wallet.Threads.Invariant.{holds_upgrade, holds}
use cpp_burst_pool_node.Wallet.Threads.Readers.{on_thread}
use cpp_burst_pool_node.Wallet.Threads.Sharing.{IsWithin, AllWithin, reader_shares, shares}

abbrev pub AllIdle : List Thread → Type 0
AllIdle ths = All (λ (th : Thread). th.reader ≡ idle) ths

pub AllIdle-map :
    (f : Copy → Copy) (ths : List Thread) → AllIdle ths → AllIdle (map (on_thread f) ths)
AllIdle-map f [] h = tt
AllIdle-map f (th ∷ ths) (e, h) = (ap (on_copy f) e, AllIdle-map f ths h)

pub total-AllIdle :
    (ths : List Thread) → AllIdle ths → (total holds ths ≡ 0) × (total shares ths ≡ 0)
total-AllIdle [] h = (refl, refl)
total-AllIdle (th ∷ ths) (e, h) =
    let (a, b) = total-AllIdle ths h in
    (omega (arith, ap holds_upgrade e, a), omega (arith, ap reader_shares e, b))

abbrev pub is_busy : Reader → ℕ
is_busy idle = 0
is_busy (copying_block k b) = 1
is_busy (copying_text c) = 1
is_busy (searching a) = 1

abbrev pub busy : Thread → ℕ
busy th = is_busy th.reader

-- A thread that has not returned, if there is one.
abbrev Found : List Thread → Type 0
Found ths = (th : Thread) × (rest : List Thread) × Takes th ths rest × (busy th ≡ 1)

idle_or_busy : (r : Reader) → (r ≡ idle) ⊎ (is_busy r ≡ 1)
idle_or_busy idle = inl refl
idle_or_busy (copying_block k b) = inr refl
idle_or_busy (copying_text c) = inr refl
idle_or_busy (searching a) = inr refl

find_busy : (ths : List Thread) → AllIdle ths ⊎ Found ths
find_busy [] = inl tt
find_busy (th ∷ ths) = elim (idle_or_busy th.reader) [
  | inr works ↦ inr (th, ths, here, works)
  | inl rests ↦ elim (find_busy ths) [
    | inl h ↦ inl (rests, h)
    | inr (b, rest, taken, works) ↦ inr (b, th ∷ rest, later taken, works)
  ]
]

module _ (x : SharedMutex) (s : Shabal) (j : Json) where
  pub data Goes (st : State x) : State x → Type 0 where
    stops : Goes st st
    goes_on : {st' st'' : State x} → Goes st st' → Step x s j st' st'' → Goes st st''

  pub Goes-Reach :
      (w : Wallet) {st st' : State x} → Reach x s j w st → Goes st st' → Reach x s j w st'
  Goes-Reach w r stops = r
  Goes-Reach w r (goes_on before step) = Steps.later (Goes-Reach w r before) step

  module _ (first st : State x) where
    abbrev pub at : x.Mutex → List Thread → State x
    at m ths = record st { mutex = m; threads = ths }

    -- One thread has returned.
    abbrev Returned : List Thread → Type 0
    Returned rest =
        (m : x.Mutex) × (log : List Read) × Goes first
          (at m (record { reader = idle; log = log } ∷ rest))

    copy_returns :
        (n k : ℕ) (b : Block) (log : List Read) (m : x.Mutex) (ths rest : List Thread)
        → k + n ≡ 4
        → Takes (record { reader = copying_block k b; log = log }) ths rest
        → Goes first (at m ths)
        → Returned rest
    copy_returns zero k b log m ths rest e taken go =
        let all : Takes (record { reader = copying_block 4 b; log = log }) ths rest =
          subst (λ (i : ℕ). Takes (record { reader = copying_block i b; log = log }) ths rest)
            (omega arith) taken in
        (_, _, goes_on go (reads all unlocks))
    copy_returns (suc n) k b log m ths rest e taken go =
        copy_returns n (suc k) _ log m _ rest (omega arith) here
          (goes_on go (reads taken (copies (omega arith))))

    reader_returns :
        (r : Reader) (log : List Read) (m : x.Mutex) (ths rest : List Thread)
        → is_busy r ≡ 1
        → IsWithin r
        → Takes (record { reader = r; log = log }) ths rest
        → Goes first (at m ths)
        → Returned rest
    reader_returns idle log m ths rest e k taken go = cc
    reader_returns (copying_block i b) log m ths rest e k taken go =
        copy_returns (4 - i) i b log m ths rest (omega arith) taken go
    reader_returns (copying_text c) log m ths rest e k taken go = elim (Bool-cases c.spoiled) [
      | inl bad ↦ (_, _, goes_on go (reads taken (returns_garbled [] bad)))
      | inr good ↦ (_, _, goes_on go (reads taken (returns good)))
    ]
    reader_returns (searching a) log m ths rest e k taken go =
        (_, _, goes_on go (reads taken finds))

    pub all_return :
        (n : ℕ) (m : x.Mutex) (ths : List Thread)
        → total busy ths ≡ n
        → AllWithin ths
        → Goes first (at m ths)
        → (m' : x.Mutex) × (ths' : List Thread) × Goes first (at m' ths') × AllIdle ths'
    all_return zero m ths e k go = elim (find_busy ths) [
      | inl h ↦ (m, ths, go, h)
      | inr (th, rest, taken, works) ↦ absurd (omega (arith, e, works, total-Takes busy taken))
    ]
    all_return (suc n) m ths e k go = elim (find_busy ths) [
      | inl h ↦ (m, ths, go, h)
      | inr (th, rest, taken, works) ↦
          let (one, others) = All-Takes (λ (th : Thread). IsWithin th.reader) taken k in
          let (m', log, more) = reader_returns th.reader th.log m ths rest works one taken go in
          all_return n m' _ (omega (arith, e, works, total-Takes busy taken)) (tt, others) more
    ]
