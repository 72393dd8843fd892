-- ===== src/Handler/Distribute.antt =====
-- src/DeadlineRequestHandler.cpp: `enque_req` and the loop of `distribute_deadline_reqs`. The queue
-- and the thread pool's service are libraries: a list each, filled at the end. `parallel` is
-- PARALLEL_VALIDATIONS, 8 with AVX2 and 4 without.
use cpp_burst_pool_node.Base.{
  ℕ, ◌+◌, Bool, Option, none, some, List, [], ◌∷◌, ◌++◌, ◌&&◌, ◌||◌, ltb, ◌==◌, if◌then◌else◌,
  length, set,
}
use cpp_burst_pool_node.Handler.State.{CalcDeadlineReq}

-- A call that is posted to the service: the array of requests, and how many of them count.
pub record Batch : Type 0 where
  pub reqs : List CalcDeadlineReq
  pub pending : ℕ

-- The locals of the loop, the queue and what has been posted. `waited` is an `int` of the source,
-- which 2 ^ 31 turns with nothing to gather would take past its end; here it has none.
pub record Loop : Type 0 where
  pub q : List CalcDeadlineReq
  pub posted : List Batch
  pub reqs : List CalcDeadlineReq
  pub pending : ℕ
  pub waited : ℕ

unfoldable pub enque_req : CalcDeadlineReq → Loop → Loop
enque_req req s = record s { q = s.q ++ req ∷ [] }

-- `reqs` holds requests that were never filled in but for their base target, 1.
unfoldable pub init : List CalcDeadlineReq → Loop
init padding = record { q = []; posted = []; reqs = padding; pending = 0; waited = 0 }

unfoldable pub is_due : ℕ → Loop → Bool
is_due parallel s = (s.pending == parallel) || (ltb 0 s.pending && ltb 50 s.waited)

unfoldable pub post : Loop → Loop
post s = record s {
  posted = s.posted ++ record { reqs = s.reqs; pending = s.pending } ∷ [];
  pending = 0;
  waited = 0;
}

-- `try_dequeue(reqs[pending])`: a write outside the array is a fault.
unfoldable pub dequeue : List CalcDeadlineReq → Loop → Option Loop
dequeue [] s = some (record s { waited = s.waited + 1 })
dequeue (req ∷ rest) s =
    if ltb s.pending (length s.reqs)
    then some (record s { q = rest; reqs = set s.reqs s.pending req; pending = s.pending + 1 })
    else none

-- One turn of the loop.
unfoldable pub turn : ℕ → Loop → Option Loop
turn parallel s = let s' = if is_due parallel s then post s else s in dequeue s'.q s'
