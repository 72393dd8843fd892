-- ===== src/System/Drains.antt =====
-- The server can always come to rest, with every request answered.
use mathlib.Core.Path.{subst}
use cpp_burst_pool_node.Base.{
  All, ℕ, zero, suc, ◌+◌, ◌<◌, ◌≡◌, refl, sym, ap, some-eq-some, some, List, [], ◌∷◌, take_zero,
  replicate, length-replicate, >>=-eq-some, arith,
}
use cpp_burst_pool_node.Base.Takes.{Takes, here, total}
use cpp_burst_pool_node.Burstmath.Bytes.{gendata_size}
use cpp_burst_pool_node.Burstmath.Shabal.{Shabal}
use cpp_burst_pool_node.Wallet.Info.{Json}
use cpp_burst_pool_node.RateLimiter.Bucket.{Double}
use cpp_burst_pool_node.Handler.Distribute.{Batch, Loop, turn}
use cpp_burst_pool_node.Handler.DistributeLaws.{contents, history}
use cpp_burst_pool_node.Handler.DistributeRuns.{repeat_turn, draining_turns}
use cpp_burst_pool_node.Handler.Batch.{Limits}
use cpp_burst_pool_node.Handler.Validator.{Validator}
use cpp_burst_pool_node.Session.Request.{Shared}
use cpp_burst_pool_node.System.Steps.{
  Asked, Task, turns, computes, validates, Works, rests, goes_on, Reach, Works-Reach, with_loop,
  with_posted,
}
use cpp_burst_pool_node.System.Counts.{asks, answers, same}
use cpp_burst_pool_node.System.Safety.{IsBegun, Reach-IsSystem, IsRun, Reach-runs}

-- Nothing waits in the loop.
pub record IsIdle (l : Loop) : Type 0 where
  pub empty : l.q ≡ []
  pub none_pending : l.pending ≡ 0
  pub none_posted : l.posted ≡ []

idle_history : (l : Loop) → IsIdle l → history l ≡ []
unfolding contents
idle_history l i = rw (i.none_posted, i.none_pending, i.empty, take_zero l.reqs)

settled : (k n a : ℕ) (l : Loop) → history l ≡ [] → k ≡ n + total (asks a) (history l) + 0 → k ≡ n
settled k n a l e h = omega (arith, h, ap (total (asks a)) e)

module _ {d : Double} {s : Shabal} {limits : Limits} {parallel : ℕ} (j : Json)
    (v : Validator s limits parallel) (pos : 0 < parallel) (begun : Shared d)
    (b : IsBegun parallel begun) {requests : List Asked} {first : List Task} {from : Shared d}
    (r : Reach j v begun requests first from) where
  -- Turns of the loop are steps of the whole.
  pub repeat_turn-Works :
      (n : ℕ) {tasks : List Task} {st : Shared d} (l : Loop)
      → Works j v first from tasks st
      → repeat_turn parallel n st.loop ≡ some l
      → Works j v first from tasks (with_loop l st)
  unfolding repeat_turn
  repeat_turn-Works zero {tasks} {st} l w e =
      subst (λ (k : Loop). Works j v first from tasks (with_loop k st)) (some-eq-some e) w
  repeat_turn-Works (suc n) {st = st} l w e =
      let (k, f, g) = >>=-eq-some (turn parallel st.loop) (repeat_turn parallel n) e in
      repeat_turn-Works n l (goes_on w (turns f)) g

  -- An idle state, reached from `from` without a request and without a block.
  record Idles (tasks : List Task) : Type 1 where
    st : Shared d
    reached : Works j v first from tasks st
    idle : IsIdle st.loop

  run_posted :
      (posted : List Batch) {tasks : List Task} (st : Shared d)
      → st.loop.posted ≡ posted
      → st.loop.q ≡ []
      → st.loop.pending ≡ 0
      → Works j v first from tasks st
      → (more : List Task) × Idles more
  run_posted [] {tasks} st e q p w = (
    tasks,
    record { st = st; reached = w; idle = record { empty = q; none_pending = p; none_posted = e } },
  )
  run_posted (k ∷ rest) st e q p w =
      let stack = replicate gendata_size 0 in
      let sized = length-replicate gendata_size 0 in
      let t = subst (λ ks. Takes k ks rest) (sym e) here in
      let (ds, f, _) =
        (subst (All (IsRun j v pos begun b stack)) e
          (Reach-runs j v pos begun b stack sized (Works-Reach j v begun r w)).1).0 in
      run_posted rest (with_posted rest st) refl q p (goes_on w (computes stack sized t f))

  run_tasks : (tasks : List Task) → Idles tasks → Idles []
  run_tasks [] i = i
  run_tasks (t ∷ tasks) i =
      run_tasks tasks
        (record { st = _; reached = goes_on i.reached (validates here); idle = i.idle })

  -- From every state reached from a begun one (`IsBegun`) by the steps of `Reach`, with `parallel`
  -- above zero, turns of the loop, computations and validations, with no more requests and no more
  -- blocks, lead on to a state where no request waits and each session has as many answers as it
  -- made requests.
  pub Reach-drains :
      (st : Shared d) × Works j v first from [] st
      × (history st.loop ≡ [])
      × ((a : ℕ) → total (same a) requests ≡ total (answers a) st.node.replies)
  Reach-drains =
      let i = Reach-IsSystem j v pos begun b r in
      let (l, w, q, p) = draining_turns parallel pos from.loop.q _ from.loop refl refl i.valid in
      let (more, posted) =
        run_posted l.posted (with_loop l from) refl q p (repeat_turn-Works _ l rests w.reached) in
      let end = run_tasks more posted in
      let none_left = idle_history end.st.loop end.idle in
      (
        end.st,
        end.reached,
        none_left,
        λ a.
            settled _ _ a end.st.loop none_left
              ((Reach-IsSystem j v pos begun b (Works-Reach j v begun r end.reached)).conserved a),
      )
