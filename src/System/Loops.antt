-- ===== src/System/Loops.antt =====
-- src/DeadlineRequestHandler.cpp: what holds of all requests that the loop has, while it turns, and
-- while batches are taken from it.
use cpp_burst_pool_node.Base.{
  ℕ, ◌+◌, ◌≡◌, inl, inr, List, [], ◌∷◌, ◌++◌, take, All, All-append, Bool-cases, arith,
}
use cpp_burst_pool_node.Base.Takes.{
  Takes, here, later, Swaps, All-Takes, All-Swaps, total, total-append, total-Swaps,
  All-append_split, All-set,
}
use cpp_burst_pool_node.Handler.State.{CalcDeadlineReq}
use cpp_burst_pool_node.Handler.Distribute.{Batch, Loop, is_due, post, enque_req}
use cpp_burst_pool_node.Handler.DistributeLaws.{
  content, contents, history, filled, emptied, next, IsLoop, IsBatch,
}

-- A predicate of each request, the padding included.
module _ (P : CalcDeadlineReq → Type 0) where
  pub record Holding (l : Loop) : Type 0 where
    pub gathered : All P l.reqs
    pub queued : All P l.q
    pub batches : All (λ (b : Batch). All P b.reqs) l.posted

  pub enque_req-Holding :
      (r : CalcDeadlineReq) (l : Loop) → P r → Holding l → Holding (enque_req r l)
  unfolding enque_req
  enque_req-Holding r l p h = record {
    gathered = h.gathered;
    queued = All-append P l.q (r ∷ []) h.queued (p, tt);
    batches = h.batches;
  }

  post-Holding : (l : Loop) → Holding l → Holding (post l)
  unfolding post
  post-Holding l h = record {
    gathered = h.gathered;
    queued = h.queued;
    batches = All-append _ l.posted _ h.batches (h.gathered, tt);
  }

  filled-Holding :
      (parallel : ℕ) (q : List CalcDeadlineReq) (l : Loop)
      → All P q
      → Holding l
      → Holding (filled parallel q l)
  filled-Holding parallel [] l p h = record {
    gathered = h.gathered;
    queued = h.queued;
    batches = h.batches;
  }
  filled-Holding parallel (r ∷ rest) l p h = record {
    gathered = All-set P l.reqs l.pending r h.gathered p.0;
    queued = p.1;
    batches = h.batches;
  }

  emptied-Holding : (parallel : ℕ) (l : Loop) → Holding l → Holding (emptied parallel l)
  emptied-Holding parallel l h = elim (Bool-cases (is_due parallel l)) [
    | inl due ↦ rw due (post-Holding l h)
    | inr early ↦ rw early h
  ]

  pub next-Holding : (parallel : ℕ) (l : Loop) → Holding l → Holding (next parallel l)
  next-Holding parallel l h =
      let e = emptied-Holding parallel l h in
      filled-Holding parallel (emptied parallel l).q (emptied parallel l) e.queued e

  contents-Takes :
      {b : Batch} {bs rest : List Batch}
      → Takes b bs rest
      → All P (contents bs)
      → All P (content b) × All P (contents rest)
  unfolding contents
  contents-Takes {b} {rest = rest} here h = All-append_split P (content b) (contents rest) h
  contents-Takes (later {y = c} {xs = bs} {ys = rest} t) h =
      let (p, q) = All-append_split P (content c) (contents bs) h in
      let (x, y) = contents-Takes t q in (x, All-append P (content c) (contents rest) p y)

  -- A batch taken from the loop, and what is left.
  pub history-Takes :
      {b : Batch} {rest : List Batch} (l : Loop)
      → Takes b l.posted rest
      → All P (history l)
      → All P (content b) × All P (history (record l { posted = rest }))
  history-Takes {b} {rest} l t h =
      let (p, q) = All-append_split P (contents l.posted) (take l.pending l.reqs ++ l.q) h in
      let (x, y) = contents-Takes t p in
      (x, All-append P (contents rest) (take l.pending l.reqs ++ l.q) y q)

  pub history-Swaps :
      {q : List CalcDeadlineReq} (l : Loop)
      → Swaps l.q q
      → All P (history l)
      → All P (history (record l { q = q }))
  history-Swaps {q} l t h =
      let (p, k) = All-append_split P (contents l.posted) (take l.pending l.reqs ++ l.q) h in
      let (g, w) = All-append_split P (take l.pending l.reqs) l.q k in
      All-append P (contents l.posted) (take l.pending l.reqs ++ q) p
        (All-append P (take l.pending l.reqs) q g (All-Swaps P t w))

module _ (f : CalcDeadlineReq → ℕ) where
  total-contents-Takes :
      {b : Batch} {bs rest : List Batch}
      → Takes b bs rest
      → total f (contents bs) ≡ total f (content b) + total f (contents rest)
  unfolding contents
  total-contents-Takes {b} {rest = rest} here = total-append f (content b) (contents rest)
  total-contents-Takes (later {y = c} {xs = bs} {ys = rest} t) = omega (
    arith,
    total-append f (content c) (contents bs),
    total-append f (content c) (contents rest),
    total-contents-Takes t,
  )

  -- Sums over the requests, likewise.
  pub total-history-Takes :
      {b : Batch} {rest : List Batch} (l : Loop)
      → Takes b l.posted rest
      → total f (history l) ≡ total f (content b) + total f (history (record l { posted = rest }))
  total-history-Takes {b} {rest} l t =
      let tail = take l.pending l.reqs ++ l.q in
      omega (
        arith,
        total-append f (contents l.posted) tail,
        total-append f (contents rest) tail,
        total-contents-Takes t,
      )

  pub total-history-Swaps :
      {q : List CalcDeadlineReq} (l : Loop)
      → Swaps l.q q
      → total f (history l) ≡ total f (history (record l { q = q }))
  total-history-Swaps {q} l t = omega (
    arith,
    total-append f (contents l.posted) (take l.pending l.reqs ++ l.q),
    total-append f (contents l.posted) (take l.pending l.reqs ++ q),
    total-append f (take l.pending l.reqs) l.q,
    total-append f (take l.pending l.reqs) q,
    total-Swaps f t,
  )

module _ (parallel : ℕ) where
  -- The loop stays valid.
  pub IsLoop-Takes :
      {b : Batch} {rest : List Batch} (l : Loop)
      → Takes b l.posted rest
      → IsLoop parallel l
      → IsBatch parallel b × IsLoop parallel (record l { posted = rest })
  IsLoop-Takes l t v =
      let (x, y) = All-Takes (IsBatch parallel) t v.batches in
      (x, record { pending_le = v.pending_le; full = v.full; batches = y })
