-- ===== src/System/Safety.antt =====
-- What the server as a whole promises, however its threads interleave.
use cpp_burst_pool_node.Base.{
  ℕ, ◌+◌, ◌<◌, ◌≡◌, refl, sym, some, List, [], length, take_zero, All, arith,
}
use mathlib.Core.Path.{subst}
use cpp_burst_pool_node.Base.Takes.{All-each, total}
use cpp_burst_pool_node.Burstmath.Bytes.{gendata_size}
use cpp_burst_pool_node.Burstmath.Shabal.{Shabal}
use cpp_burst_pool_node.Wallet.Info.{Json}
use cpp_burst_pool_node.RateLimiter.Bucket.{Double}
use cpp_burst_pool_node.Handler.State.{CalcDeadlineReq, Node}
use cpp_burst_pool_node.Handler.Distribute.{Batch, Loop, init, turn}
use cpp_burst_pool_node.Handler.DistributeLaws.{contents, history, next, turn-Turned}
use cpp_burst_pool_node.Handler.Batch.{Limits}
use cpp_burst_pool_node.Handler.BatchLaws.{IsComputable, validate_each}
use cpp_burst_pool_node.Handler.ValidateLaws.{IsSoundNode}
use cpp_burst_pool_node.Handler.Validator.{Validator}
use cpp_burst_pool_node.Session.Request.{Shared}
use cpp_burst_pool_node.Session.RequestLaws.{handle_request-Handled}
use cpp_burst_pool_node.Session.ComputableLaws.{IsBlock}
use cpp_burst_pool_node.System.Steps.{
  Asked, Task, tasks_of, Work, Reach, starts, handles, works, turns, swaps, computes, validates,
  contends, refreshes,
}
use cpp_burst_pool_node.System.Rounds.{IsAnswer, IsRight}
use cpp_burst_pool_node.System.Counts.{asks, answers, same}
use cpp_burst_pool_node.System.Invariant.{IsSystem, turn-IsSystem, swap-IsSystem, handle-IsSystem}
use cpp_burst_pool_node.System.Runs.{posted-Runs}
use cpp_burst_pool_node.System.Reached.{
  compute-IsSystem, validate-IsSystem, lock-IsSystem, refresh-IsSystem,
}

-- The state once the constructors are done: a block has been read, the padding of the batches can be
-- computed, and nothing has been asked.
pub record IsBegun {d : Double} (parallel : ℕ) (st : Shared d) : Type 0 where
  pub block : IsBlock st.node.wallet.current_block
  pub sound : IsSoundNode st.node
  pub no_calls : st.node.client.calls ≡ []
  pub no_replies : st.node.replies ≡ []
  pub padding : List CalcDeadlineReq
  pub loop : st.loop ≡ init padding
  pub padding_full : length padding ≡ parallel
  pub padding_computable : All IsComputable padding

init-IsSystem :
    (s : Shabal) (limits : Limits) (parallel : ℕ) (n : Node) (padding : List CalcDeadlineReq)
    → IsBlock n.wallet.current_block
    → IsSoundNode n
    → n.client.calls ≡ []
    → n.replies ≡ []
    → length padding ≡ parallel
    → All IsComputable padding
    → IsSystem s limits parallel n.client.pool_id_to_server [] [] n (init padding)
unfolding init contents
init-IsSystem s limits parallel n padding block sound no_calls no_replies full computable = record {
  block = block;
  valid = record { pending_le = omega arith; full = full; batches = tt };
  computable = record { gathered = computable; queued = tt; batches = tt };
  made = rw (take_zero padding) tt;
  kept = record {
    sound = sound;
    same_servers = refl;
    calls = rw no_calls tt;
    replies = rw no_replies tt;
  };
  computed = tt;
  conserved = λ a. rw (no_replies, take_zero padding) refl;
}

module _ {d : Double} {s : Shabal} {limits : Limits} {parallel : ℕ} (j : Json)
    (v : Validator s limits parallel) (pos : 0 < parallel) where
  pub Work-IsSystem :
      (requests : List Asked) {tasks tasks' : List Task} {st st' : Shared d}
      {servers : List (ℕ × List ℕ)}
      → Work j v tasks st tasks' st'
      → IsSystem s limits parallel servers requests tasks st.node st.loop
      → IsSystem s limits parallel servers requests tasks' st'.node st'.loop
  Work-IsSystem requests (turns {tasks} {st} {l} e) i =
      turn-IsSystem s limits parallel _ pos requests tasks st.node st.loop l i e
  Work-IsSystem requests (swaps {tasks} {st} {q} t) i =
      swap-IsSystem s limits parallel _ requests tasks st.node st.loop q i t
  Work-IsSystem requests (computes stack {tasks} {st} {b = k} {rest} {ds} sized t e) i =
      compute-IsSystem v _ requests tasks st.node st.loop stack k rest ds pos sized i t e
  Work-IsSystem requests (validates {tasks} {rest} {st} {t} k) i =
      validate-IsSystem v _ requests tasks rest st.node st.loop t i k
  Work-IsSystem requests (contends p held {tasks} {st} {r} e) i =
      lock-IsSystem v _ requests tasks st.node st.loop p r held i
  Work-IsSystem requests (refreshes t {tasks} {st} {w} {b = c} e p) i =
      refresh-IsSystem v _ j t requests tasks st.node st.loop w c i e p

module _ {d : Double} {s : Shabal} {limits : Limits} {parallel : ℕ} (j : Json)
    (v : Validator s limits parallel) (pos : 0 < parallel) (begun : Shared d)
    (b : IsBegun parallel begun) where
  pub Reach-IsSystem :
      {requests : List Asked} {tasks : List Task} {st : Shared d}
      → Reach j v begun requests tasks st
      → IsSystem s limits parallel begun.node.client.pool_id_to_server requests tasks st.node
          st.loop
  Reach-IsSystem starts =
      subst (IsSystem s limits parallel begun.node.client.pool_id_to_server [] [] begun.node)
        (sym b.loop)
        (init-IsSystem s limits parallel begun.node b.padding b.block b.sound b.no_calls
          b.no_replies b.padding_full b.padding_computable)
  Reach-IsSystem (handles now addr session target {requests} {tasks} {st} r) =
      handle-IsSystem s limits parallel _ pos requests tasks session target st _ (Reach-IsSystem r)
        (handle_request-Handled d now addr session target st)
  Reach-IsSystem (works {requests = requests} r w) =
      Work-IsSystem j v pos requests w (Reach-IsSystem r)

  -- From a state after the constructors, with a block whose base target is above zero, padding that
  -- can be computed, no calls and no answers, through any requests to the server, turns of the loop,
  -- reorderings of its queue, batches on any threads, mutexes of rounds taken and let go, and
  -- refreshes that bring base targets above zero, in any order: each call that was ever started has
  -- the account and the nonce of a request that was handled, and the height of the block that was
  -- current then; its deadline is the one that the reference gives them for that block, as PoC2 or
  -- not, which is within the limit; and it went to the server of the account's recipient in the
  -- wallet of that time, which is not zero.
  pub Reach-IsRight :
      {requests : List Asked} {tasks : List Task} {st : Shared d}
      → Reach j v begun requests tasks st
      → All
          (IsRight s limits.deadline_limit begun.node.client.pool_id_to_server requests)
          st.node.client.calls
  Reach-IsRight r = (Reach-IsSystem r).kept.calls

  -- In every state reached from a begun one (`IsBegun`) by the steps of `Reach`, with `parallel` above
  -- zero: each answer that was ever given is for a request of its session that was handled. It is the
  -- mining info of the wallet of that time, or one of the errors given at once; or, with the account
  -- and the nonce of that request, the text with the deadline that the reference gives them for the
  -- block of that time, as PoC2 or not, where it is within the limit, or the error 1008 for one
  -- above it.
  pub Reach-IsAnswer :
      {requests : List Asked} {tasks : List Task} {st : Shared d}
      → Reach j v begun requests tasks st
      → All
          (IsAnswer s limits.deadline_limit begun.node.client.pool_id_to_server requests)
          st.node.replies
  Reach-IsAnswer r = (Reach-IsSystem r).kept.replies

  -- In every state reached from a begun one (`IsBegun`) by the steps of `Reach`, with `parallel` above
  -- zero, of each session: the answers that it has been given and its requests that wait, in the
  -- queue, in the batch that is filled, in those posted or with a thread that has computed them, are
  -- as many as its requests that were handled. So none is lost, and none is answered twice.
  pub Reach-conserves :
      {requests : List Asked} {tasks : List Task} {st : Shared d}
      → Reach j v begun requests tasks st
      → (a : ℕ)
      → total (same a) requests
        ≡ total (answers a) st.node.replies
          + total (asks a) (history st.loop)
          + total (λ (t : Task). asks a t.0) tasks
  Reach-conserves r = (Reach-IsSystem r).conserved

  -- A batch that is computed without a fault, and comes to its validations one after the other.
  abbrev pub IsRun : List ℕ → Batch → Type 0
  IsRun stack k =
      (ds : List ℕ) × (v.compute stack k ≡ some ds)
      × ((n : Node)
          → v.validate_deadlines stack k n
            ≡ some (validate_each limits.deadline_limit (tasks_of k.pending k.reqs ds) n))

  -- In every state reached from a begun one (`IsBegun`) by the steps of `Reach`, with `parallel` above
  -- zero, and a stack of the right size: the next turn of the loop does not fault, and no batch that
  -- is posted does when it is computed on that stack; and `validate_deadlines`, called on such a
  -- batch as a whole, comes to what its validations come to one after the other.
  pub Reach-runs :
      (stack : List ℕ) {requests : List Asked} {tasks : List Task} {st : Shared d}
      → length stack ≡ gendata_size
      → Reach j v begun requests tasks st
      → ((l : Loop) × (turn parallel st.loop ≡ some l)) × All (IsRun stack) st.loop.posted
  Reach-runs stack {st} sized r =
      let i = Reach-IsSystem r in
      (
        (next parallel st.loop, (turn-Turned parallel st.loop pos i.valid).0),
        All-each (IsRun stack) st.loop.posted (λ k rest t.
            let runs = posted-Runs v _ stack pos sized i t in (runs.ds, runs.returns, runs.whole)),
      )
