-- ===== src/System/Runs.antt =====
-- src/DeadlineRequestHandler.cpp: a thread can compute any batch that has been posted.
use mathlib.Core.Path.{subst}
use cpp_burst_pool_node.Base.{
  map, length-map, ◌∙◌, ℕ, ◌<◌, ◌≡◌, refl, sym, ap, Bool, some, List, [], ◌∷◌, length, All, arith,
}
use cpp_burst_pool_node.Base.Takes.{Takes, All-Takes}
use cpp_burst_pool_node.Burstmath.Bytes.{gendata_size}
use cpp_burst_pool_node.Burstmath.Shabal.{Shabal}
use cpp_burst_pool_node.Handler.State.{CalcDeadlineReq, Node}
use cpp_burst_pool_node.Handler.Distribute.{Batch, Loop}
use cpp_burst_pool_node.Handler.DistributeLaws.{content, IsBatch}
use cpp_burst_pool_node.Handler.Batch.{Limits}
use cpp_burst_pool_node.Handler.BatchLaws.{
  IsComputable, validate_each, batch_of, batch_poc2, deadline_for, with_deadlines,
}
use cpp_burst_pool_node.Handler.Validator.{Validator, in_parts}
use cpp_burst_pool_node.System.Loops.{IsLoop-Takes}
use cpp_burst_pool_node.System.Steps.{Asked, Task, tasks_of}
use cpp_burst_pool_node.System.Counts.{tasks_of_lem, validate_pending-tasks_of}
use cpp_burst_pool_node.System.Invariant.{IsSystem}

nonempty {ℓ} : {A : Type ℓ} (xs : List A) → 0 < length xs → (x : A) × (ys : List A) × (xs ≡ x ∷ ys)
nonempty [] h = absurd (omega (arith, h))
nonempty (x ∷ xs) h = (x, xs, refl)

module _ {s : Shabal} {limits : Limits} {parallel : ℕ} (v : Validator s limits parallel)
    (servers : List (ℕ × List ℕ)) where
  abbrev pub tasks_with : Bool → Batch → List Task
  tasks_with poc2 b = with_deadlines (deadline_for s poc2) (content b)

  -- A batch that is run: no fault, and its tasks with the deadlines of the reference.
  pub record Runs (stack : List ℕ) (b : Batch) : Type 0 where
    pub ds : List ℕ
    pub poc2 : Bool
    pub returns : v.compute stack b ≡ some ds
    pub tasks : tasks_of b.pending b.reqs ds ≡ tasks_with poc2 b
    pub whole :
        (n : Node)
        → v.validate_deadlines stack b n
          ≡ some (validate_each limits.deadline_limit (tasks_of b.pending b.reqs ds) n)

  batch-Runs :
      (stack : List ℕ) (b : Batch)
      → length stack ≡ gendata_size
      → 0 < length b.reqs
      → All IsComputable b.reqs
      → IsBatch parallel b
      → Runs stack b
  batch-Runs stack b sized p c i =
      let (first, others, e) = nonempty b.reqs p in
      let poc2 = batch_poc2 limits first in
      let same_batch : batch_of first others b.pending ≡ b =
        ap (λ (rs : List CalcDeadlineReq). record { reqs = rs; pending = b.pending }) (sym e) in
      subst (Runs stack) same_batch (record {
        ds = map (deadline_for s poc2) (first ∷ others);
        poc2 = poc2;
        returns =
            v.computes stack sized first others b.pending (subst (All IsComputable) e c)
              (ap length (sym e) ∙ i.full);
        tasks =
            tasks_of_lem b.pending (deadline_for s poc2) (first ∷ others)
              (omega (arith, i.pending_le, i.full, ap length e));
        whole = λ n.
            v.splits stack (batch_of first others b.pending) n
            ∙ ap (λ o. in_parts limits o (batch_of first others b.pending) n)
                (v.computes stack sized first others b.pending (subst (All IsComputable) e c)
                  (ap length (sym e) ∙ i.full))
            ∙ validate_pending-tasks_of limits.deadline_limit b.pending (first ∷ others) _ n
                (omega (arith, i.pending_le, i.full, ap length e))
                (omega (
                  arith,
                  i.pending_le,
                  i.full,
                  ap length e,
                  length-map (first ∷ others) (deadline_for s poc2),
                ));
      })

  -- In a state with the invariant, any batch that has been posted can be run.
  pub posted-Runs :
      {requests : List Asked} {tasks : List Task} {n : Node} {l : Loop} (stack : List ℕ) {b : Batch}
      {rest : List Batch}
      → 0 < parallel
      → length stack ≡ gendata_size
      → IsSystem s limits parallel servers requests tasks n l
      → Takes b l.posted rest
      → Runs stack b
  posted-Runs {n} {l} stack {b} pos sized i t =
      let (c, _) = All-Takes (λ (k : Batch). All IsComputable k.reqs) t i.computable.batches in
      let (x, _) = IsLoop-Takes parallel l t i.valid in
      batch-Runs stack b sized (omega (arith, x.full)) c x
