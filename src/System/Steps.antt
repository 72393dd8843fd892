-- ===== src/System/Steps.antt =====
-- The steps that the threads of the program take on what they share. A thread of the service
-- computes a batch and then validates its requests, in between the steps of the others; batches are
-- computed, and computed requests validated, in any order, and the queue, which keeps no order between the
-- sessions that fill it, may give its requests in any order.
use cpp_burst_pool_node.Base.{
  ℕ, zero, suc, ◌++◌, ◌<◌, ◌≡◌, Bool, some, List, [], ◌∷◌, length, get_elem?, set,
}
use cpp_burst_pool_node.Base.Takes.{Takes, Swaps}
use cpp_burst_pool_node.Burstmath.Bytes.{gendata_size}
use cpp_burst_pool_node.Burstmath.Shabal.{Shabal}
use cpp_burst_pool_node.Wallet.State.{MinerRound, Wallet}
use cpp_burst_pool_node.Wallet.Info.{Json}
use cpp_burst_pool_node.Wallet.Refresh.{Transfer, refresh_block}
use cpp_burst_pool_node.RateLimiter.Bucket.{Double}
use cpp_burst_pool_node.Handler.State.{CalcDeadlineReq, Node}
use cpp_burst_pool_node.Handler.Distribute.{Batch, Loop, turn}
use cpp_burst_pool_node.Handler.Batch.{Limits}
use cpp_burst_pool_node.Handler.Validate.{validate_deadline}
use cpp_burst_pool_node.Handler.Validator.{Validator}
use cpp_burst_pool_node.Session.Request.{Shared, handle_request}

-- A request that the server has handled, with the wallet as it was then.
pub record Asked : Type 0 where
  pub session : ℕ
  pub target : List ℕ
  pub wallet : Wallet

abbrev pub with_loop : {d : Double} → Loop → Shared d → Shared d
with_loop l st = record st { loop = l }

abbrev pub with_queue : {d : Double} → List CalcDeadlineReq → Shared d → Shared d
with_queue q st = record st { loop = record st.loop { q = q } }

abbrev pub with_posted : {d : Double} → List Batch → Shared d → Shared d
with_posted rest st = record st { loop = record st.loop { posted = rest } }

abbrev pub with_node : {d : Double} → Node → Shared d → Shared d
with_node n st = record st { node = n }

-- A request with its deadline, to be validated by the thread that has computed it.
abbrev pub Task : Type 0
Task = CalcDeadlineReq × ℕ

-- The validations of the last loop of `validate_deadlines`.
unfoldable pub tasks_of : ℕ → List CalcDeadlineReq → List ℕ → List Task
tasks_of zero creqs deadlines = []
tasks_of (suc i) [] deadlines = []
tasks_of (suc i) (r ∷ creqs) [] = []
tasks_of (suc i) (r ∷ creqs) (d ∷ deadlines) = (r, d) ∷ tasks_of i creqs deadlines

abbrev pub with_wallet : {d : Double} → Wallet → Shared d → Shared d
with_wallet w st = record st { node = record st.node { wallet = w } }

-- The mutex of a round, taken or let go.
abbrev pub with_lock : {d : Double} → ℕ → MinerRound → Bool → Shared d → Shared d
with_lock p r held st =
    with_wallet
      (record st.node.wallet { rounds = set st.node.wallet.rounds p (record r { locked = held }) })
      st

abbrev pub asked_of : ℕ → List ℕ → Wallet → Asked
asked_of session target w = record { session = session; target = target; wallet = w }

module _ {d : Double} {s : Shabal} {limits : Limits} {parallel : ℕ} (j : Json)
    (v : Validator s limits parallel) where
  -- The steps of the threads behind the sessions. The list is of the validations that threads have
  -- still to do.
  pub data Work : List Task → Shared d → List Task → Shared d → Type 1 where
    turns :
        {tasks : List Task} {st : Shared d} {l : Loop}
        → turn parallel st.loop ≡ some l
        → Work tasks st tasks (with_loop l st)
    swaps :
        {tasks : List Task} {st : Shared d} {q : List CalcDeadlineReq}
        → Swaps st.loop.q q
        → Work tasks st tasks (with_queue q st)
    computes :
        (stack : List ℕ) {tasks : List Task} {st : Shared d} {b : Batch} {rest : List Batch}
        {ds : List ℕ}
        → length stack ≡ gendata_size
        → Takes b st.loop.posted rest
        → v.compute stack b ≡ some ds
        → Work tasks st (tasks_of b.pending b.reqs ds ++ tasks) (with_posted rest st)
    validates :
        {tasks rest : List Task} {st : Shared d} {t : Task}
        → Takes t tasks rest
        → Work tasks st rest
            (with_node (validate_deadline limits.deadline_limit t.0 t.1 st.node) st)
    -- Another thread takes the mutex of a round or lets it go.
    contends :
        (p : ℕ) (held : Bool) {tasks : List Task} {st : Shared d} {r : MinerRound}
        → get_elem? st.node.wallet.rounds p ≡ some r
        → Work tasks st tasks (with_lock p r held st)
    -- The node of the wallet sends base targets above zero.
    refreshes :
        (t : Transfer) {tasks : List Task} {st : Shared d} {w : Wallet} {b : Bool}
        → refresh_block s j t st.node.wallet ≡ some (w, b)
        → 0 < w.current_block.base_target
        → Work tasks st tasks (with_wallet w st)

  -- Any number of them.
  pub data Works : List Task → Shared d → List Task → Shared d → Type 1 where
    rests : {tasks : List Task} {st : Shared d} → Works tasks st tasks st
    goes_on :
        {tasks tasks' tasks'' : List Task} {st st' st'' : Shared d}
        → Works tasks st tasks' st'
        → Work tasks' st' tasks'' st''
        → Works tasks st tasks'' st''

  module _ (begun : Shared d) where
    -- The states that can come about, with the requests that have been handled, the last first.
    pub data Reach : List Asked → List Task → Shared d → Type 1 where
      starts : Reach [] [] begun
      handles :
          (now : d.F) (addr : List ℕ) (session : ℕ) (target : List ℕ) {requests : List Asked}
          {tasks : List Task} {st : Shared d}
          → Reach requests tasks st
          → Reach
              (asked_of session target st.node.wallet ∷ requests)
              tasks
              (handle_request d now addr session target st)
      works :
          {requests : List Asked} {tasks tasks' : List Task} {st st' : Shared d}
          → Reach requests tasks st
          → Work tasks st tasks' st'
          → Reach requests tasks' st'

    pub Works-Reach :
        {requests : List Asked} {tasks tasks' : List Task} {st st' : Shared d}
        → Reach requests tasks st
        → Works tasks st tasks' st'
        → Reach requests tasks' st'
    Works-Reach r rests = r
    Works-Reach r (goes_on before w) = works (Works-Reach r before) w
