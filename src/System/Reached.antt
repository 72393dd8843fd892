-- ===== src/System/Reached.antt =====
-- Every state that the threads reach has the invariant.
use mathlib.Core.Path.{subst, subst₂}
use cpp_burst_pool_node.Base.{
  All-append, ◌∙◌, ◌++◌, some-eq-some, ℕ, set, ◌<◌, ◌≡◌, sym, ap, Bool, some, List, length, All,
  arith,
}
use cpp_burst_pool_node.Base.Takes.{Takes, All-Takes, total-append, total-Takes}
use cpp_burst_pool_node.Burstmath.Bytes.{gendata_size}
use cpp_burst_pool_node.Burstmath.Shabal.{Shabal}
use cpp_burst_pool_node.Wallet.State.{MinerRound, Wallet}
use cpp_burst_pool_node.Wallet.Info.{Json}
use cpp_burst_pool_node.Wallet.Refresh.{Transfer, refresh_block}
use cpp_burst_pool_node.Wallet.RefreshLaws.{refresh_block-miners}
use cpp_burst_pool_node.Wallet.MinersLaws.{IsSound, set-IsSound}
use cpp_burst_pool_node.Handler.State.{Node}
use cpp_burst_pool_node.Handler.Distribute.{Batch, Loop}
use cpp_burst_pool_node.Handler.DistributeLaws.{content}
use cpp_burst_pool_node.Handler.Batch.{Limits}
use cpp_burst_pool_node.Handler.BatchLaws.{IsComputable, deadline_for}
use cpp_burst_pool_node.Handler.Validate.{validate_deadline}
use cpp_burst_pool_node.Handler.Validator.{Validator}
use cpp_burst_pool_node.System.Loops.{history-Takes, total-history-Takes, IsLoop-Takes}
use cpp_burst_pool_node.System.Steps.{Asked, Task, tasks_of}
use cpp_burst_pool_node.System.Rounds.{
  IsMade, IsTask, task-IsKept, tasks-IsTask, same_block-validate_deadline,
}
use cpp_burst_pool_node.System.Counts.{asks, total-validate_deadline, total-with_deadlines}
use cpp_burst_pool_node.System.Runs.{tasks_with, posted-Runs}
use cpp_burst_pool_node.System.Invariant.{IsSystem, refresh_block-IsBlock}

module _ {s : Shabal} {limits : Limits} {parallel : ℕ} (v : Validator s limits parallel)
    (servers : List (ℕ × List ℕ)) where
  batch-IsSystem :
      (requests : List Asked) (tasks : List Task) (n : Node) (l : Loop) (b : Batch)
      (rest : List Batch) (poc2 : Bool)
      → IsSystem s limits parallel servers requests tasks n l
      → Takes b l.posted rest
      → IsSystem s limits parallel servers requests
          (tasks_with v servers poc2 b ++ tasks)
          n
          (record l { posted = rest })
  batch-IsSystem requests tasks n l b rest poc2 i t =
      let (m, left) = history-Takes (IsMade requests) l t i.made in
      let (_, c) = All-Takes (λ (k : Batch). All IsComputable k.reqs) t i.computable.batches in
      let (_, valid) = IsLoop-Takes parallel l t i.valid in
      record {
        block = i.block;
        valid = valid;
        computable = record {
          gathered = i.computable.gathered;
          queued = i.computable.queued;
          batches = c;
        };
        made = left;
        kept = i.kept;
        computed =
            All-append _ (tasks_with v servers poc2 b) tasks
              (tasks-IsTask s limits.deadline_limit servers requests poc2 (content b) m) i.computed;
        conserved = λ a. omega (
          arith,
          i.conserved a,
          total-history-Takes (asks a) l t,
          total-append (λ (k : Task). asks a k.0) (tasks_with v servers poc2 b) tasks,
          total-with_deadlines a (deadline_for s poc2) (content b),
        );
      }

  -- A thread has computed a batch.
  pub compute-IsSystem :
      (requests : List Asked) (tasks : List Task) (n : Node) (l : Loop) (stack : List ℕ) (b : Batch)
      (rest : List Batch) (ds : List ℕ)
      → 0 < parallel
      → length stack ≡ gendata_size
      → IsSystem s limits parallel servers requests tasks n l
      → Takes b l.posted rest
      → v.compute stack b ≡ some ds
      → IsSystem s limits parallel servers requests
          (tasks_of b.pending b.reqs ds ++ tasks)
          n
          (record l { posted = rest })
  compute-IsSystem requests tasks n l stack b rest ds pos sized i t e =
      let r = posted-Runs v servers stack pos sized i t in
      let same_tasks =
        ap (tasks_of b.pending b.reqs) (some-eq-some (sym e ∙ r.returns)) ∙ r.tasks in
      subst
        (λ (ts : List Task).
          IsSystem s limits parallel servers requests (ts ++ tasks) n (record l { posted = rest }))
        (sym same_tasks) (batch-IsSystem requests tasks n l b rest r.poc2 i t)

  -- A thread has validated a request.
  pub validate-IsSystem :
      (requests : List Asked) (tasks rest : List Task) (n : Node) (l : Loop) (t : Task)
      → IsSystem s limits parallel servers requests tasks n l
      → Takes t tasks rest
      → IsSystem s limits parallel servers requests rest
          (validate_deadline limits.deadline_limit t.0 t.1 n)
          l
  validate-IsSystem requests tasks rest n l t i k =
      let (h, left) = All-Takes (IsTask s limits.deadline_limit servers requests) k i.computed in
      let same_block = same_block-validate_deadline limits.deadline_limit t.1 t.0 n in
      record {
        block = rw same_block i.block;
        valid = i.valid;
        computable = i.computable;
        made = i.made;
        kept = task-IsKept s limits.deadline_limit servers requests t n h i.kept;
        computed = left;
        conserved = λ a. omega (
          arith,
          i.conserved a,
          total-Takes (λ (x : Task). asks a x.0) k,
          total-validate_deadline limits.deadline_limit a t n i.kept.sound,
        );
      }

  pub lock-IsSystem :
      (requests : List Asked) (tasks : List Task) (n : Node) (l : Loop) (p : ℕ) (r : MinerRound)
      (held : Bool)
      → IsSystem s limits parallel servers requests tasks n l
      → IsSystem s limits parallel servers requests tasks
          (record n {
            wallet = record n.wallet {
              rounds = set n.wallet.rounds p (record r { locked = held });
            };
          })
          l
  lock-IsSystem requests tasks n l p r held i = record {
    block = i.block;
    valid = i.valid;
    computable = i.computable;
    made = i.made;
    kept = record {
      sound = set-IsSound i.kept.sound p (record r { locked = held });
      same_servers = i.kept.same_servers;
      calls = i.kept.calls;
      replies = i.kept.replies;
    };
    computed = i.computed;
    conserved = i.conserved;
  }

  pub refresh-IsSystem :
      (j : Json) (tr : Transfer) (requests : List Asked) (tasks : List Task) (n : Node) (l : Loop)
      (w : Wallet) (b : Bool)
      → IsSystem s limits parallel servers requests tasks n l
      → refresh_block s j tr n.wallet ≡ some (w, b)
      → 0 < w.current_block.base_target
      → IsSystem s limits parallel servers requests tasks (record n { wallet = w }) l
  refresh-IsSystem j tr requests tasks n l w b i e p =
      let (same_miners, same_rounds) = refresh_block-miners s j tr n.wallet w b e in
      record {
        block = refresh_block-IsBlock s j tr n.wallet w b i.block e p;
        valid = i.valid;
        computable = i.computable;
        made = i.made;
        kept = record {
          sound = subst₂ IsSound (sym same_miners) (sym same_rounds) i.kept.sound;
          same_servers = i.kept.same_servers;
          calls = i.kept.calls;
          replies = i.kept.replies;
        };
        computed = i.computed;
        conserved = i.conserved;
      }
