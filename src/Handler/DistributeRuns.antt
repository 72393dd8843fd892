-- ===== src/Handler/DistributeRuns.antt =====
-- src/DeadlineRequestHandler.cpp: the loop over any interleaving of arrivals and turns.
use mathlib.Core.List.{append_assoc, append-nil}
use mathlib.Core.Path.{ap₂}
use cpp_burst_pool_node.Base.{
  ℕ, zero, suc, ◌+◌, ◌<◌, ◌≡◌, refl, sym, ap, ◌∙◌, inr, Option, some, List, [], ◌∷◌, ◌++◌, length,
  take, take_zero, ◌>>=◌, arith,
}
use cpp_burst_pool_node.Handler.State.{CalcDeadlineReq}
use cpp_burst_pool_node.Handler.Distribute.{Loop, enque_req, init, turn}
use cpp_burst_pool_node.Handler.DistributeLaws.{
  contents, history, IsLoop, next, turn-Turned, next_queue, Waits, next-Waits,
}

pub data Event : Type 0 where
  arrives : CalcDeadlineReq → Event
  turns : Event

abbrev pub arrivals : List Event → List CalcDeadlineReq
arrivals [] = []
arrivals (arrives req ∷ es) = req ∷ arrivals es
arrivals (turns ∷ es) = arrivals es

unfoldable pub run : ℕ → List Event → Loop → Option Loop
run parallel [] s = some s
run parallel (arrives req ∷ es) s = run parallel es (enque_req req s)
run parallel (turns ∷ es) s = turn parallel s >>= run parallel es

unfoldable pub repeat_turn : ℕ → ℕ → Loop → Option Loop
repeat_turn parallel zero s = some s
repeat_turn parallel (suc n) s = turn parallel s >>= repeat_turn parallel n

pub enque_req-history :
    (req : CalcDeadlineReq) (s : Loop) → history (enque_req req s) ≡ history s ++ req ∷ []
unfolding enque_req
enque_req-history req s =
    ap (◌++◌ (contents s.posted)) (sym (append_assoc (take s.pending s.reqs) s.q (req ∷ [])))
    ∙ sym (append_assoc (contents s.posted) (take s.pending s.reqs ++ s.q) (req ∷ []))

module _ (parallel : ℕ) (pos : 0 < parallel) where
  pub enque_req-IsLoop :
      (req : CalcDeadlineReq) (s : Loop) → IsLoop parallel s → IsLoop parallel (enque_req req s)
  unfolding enque_req
  enque_req-IsLoop req s v = record {
    pending_le = v.pending_le;
    full = v.full;
    batches = v.batches;
  }

  -- From a valid loop no run faults, and its requests are those so far and then the arrivals.
  run-history :
      (es : List Event) (s : Loop)
      → IsLoop parallel s
      → (s' : Loop) × (run parallel es s ≡ some s')
        × IsLoop parallel s'
        × (history s' ≡ history s ++ arrivals es)
  unfolding run
  run-history [] s v = (s, refl, v, sym (append-nil (history s)))
  run-history (arrives req ∷ es) s v =
      let (s', e, w, h) = run-history es (enque_req req s) (enque_req-IsLoop req s v) in
      (
        s',
        e,
        w,
        h
            ∙ ap (λ xs. xs ++ arrivals es) (enque_req-history req s)
            ∙ append_assoc (history s) (req ∷ []) (arrivals es),
      )
  run-history (turns ∷ es) s v =
      let (e, t) = turn-Turned parallel s pos v in
      let (s', f, w, h) = run-history es (next parallel s) t.valid in
      (s', rw e f, w, h ∙ ap (λ xs. xs ++ arrivals es) t.kept)

  -- The loop started on an array of the right length.
  init-IsLoop :
      (padding : List CalcDeadlineReq) → length padding ≡ parallel → IsLoop parallel (init padding)
  unfolding init
  init-IsLoop padding h = record { pending_le = omega arith; full = h; batches = tt }

  init-history : (padding : List CalcDeadlineReq) → history (init padding) ≡ []
  unfolding init contents
  init-history padding = rw (take_zero padding)

  -- Started on an array of `parallel` requests, `parallel` above zero, every run of the loop over
  -- any arrivals and turns goes on without a fault; it has posted or still holds exactly the
  -- requests that arrived, in the order in which they did; each batch has from one to `parallel`
  -- of them pending.
  pub run_init_history :
      (es : List Event) (padding : List CalcDeadlineReq)
      → length padding ≡ parallel
      → (s : Loop) × (run parallel es (init padding) ≡ some s)
        × IsLoop parallel s
        × (history s ≡ arrivals es)
  run_init_history es padding h =
      let (s, e, w, k) = run-history es (init padding) (init-IsLoop padding h) in
      (s, e, w, k ∙ ap (λ xs. xs ++ arrivals es) (init-history padding))

  flushed_history : (s : Loop) → s.q ≡ [] → s.pending ≡ 0 → history s ≡ contents s.posted
  flushed_history s q p =
      ap₂ (λ (n : ℕ) (xs : List CalcDeadlineReq). contents s.posted ++ (take n s.reqs ++ xs)) p q
      ∙ ap (λ (xs : List CalcDeadlineReq). contents s.posted ++ (xs ++ [])) (take_zero s.reqs)
      ∙ append-nil (contents s.posted)

  -- What some turns lead to.
  pub record Repeated (n : ℕ) (s s' : Loop) : Type 0 where
    pub reached : repeat_turn parallel n s ≡ some s'
    pub valid : IsLoop parallel s'
    pub kept : history s' ≡ history s

  one_more :
      (n : ℕ) (s s' : Loop)
      → IsLoop parallel s
      → Repeated n (next parallel s) s'
      → Repeated (suc n) s s'
  unfolding repeat_turn
  one_more n s s' v r =
      let (e, t) = turn-Turned parallel s pos v in
      record { reached = rw e r.reached; valid = r.valid; kept = r.kept ∙ t.kept }

  idle_turns :
      (n : ℕ) (s : Loop)
      → IsLoop parallel s
      → Waits parallel n s
      → (s' : Loop) × Repeated n s s' × (s'.q ≡ []) × (s'.pending ≡ 0)
  unfolding repeat_turn
  idle_turns zero s v (e, w) =
      (s, record { reached = refl; valid = v; kept = refl }, e, ground arith)
  idle_turns (suc n) s v w =
      let (e, t) = turn-Turned parallel s pos v in
      let (s', r, q, p) = idle_turns n (next parallel s) t.valid (next-Waits parallel n s w) in
      (s', one_more n s s' v r, q, p)

  pub draining_turns :
      (q : List CalcDeadlineReq) (n : ℕ) (s : Loop)
      → s.q ≡ q
      → n ≡ length q + 52
      → IsLoop parallel s
      → (s' : Loop) × Repeated n s s' × (s'.q ≡ []) × (s'.pending ≡ 0)
  draining_turns [] n s e c v = idle_turns n s v (e, inr (omega arith, omega arith))
  draining_turns (req ∷ rest) zero s e c v = absurd (omega arith)
  draining_turns (req ∷ rest) (suc n) s e c v =
      let (_, t) = turn-Turned parallel s pos v in
      let (s', r, q, p) =
        draining_turns rest n (next parallel s) (next_queue parallel s req rest e) (omega arith)
          t.valid in
      (s', one_more n s s' v r, q, p)

  -- From a valid loop, `parallel` above zero, with no more arrivals, as many turns as there are
  -- requests in the queue and 52 more post every request there was and was not yet posted, in
  -- order.
  pub turns_post_all :
      (s : Loop)
      → IsLoop parallel s
      → (s' : Loop) × (repeat_turn parallel (length s.q + 52) s ≡ some s')
        × (contents s'.posted ≡ history s)
        × (s'.pending ≡ 0)
  turns_post_all s v =
      let (s', r, q, p) = draining_turns s.q (length s.q + 52) s refl refl v in
      (s', r.reached, sym (flushed_history s' q p) ∙ r.kept, p)
