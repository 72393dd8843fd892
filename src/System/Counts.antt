-- ===== src/System/Counts.antt =====
-- src/DeadlineRequestHandler.cpp: how many requests and answers a session has, and the validations of
-- a batch one after the other.
use cpp_burst_pool_node.Base.{
  ℕ, zero, suc, length, take, ◌+◌, ◌≤◌, ◌≡◌, refl, ap, ◌∙◌, some, List, [], ◌∷◌, ◌==◌, map,
  if◌then◌else◌, arith,
}
use cpp_burst_pool_node.Base.Takes.{total, total-append}
use cpp_burst_pool_node.Base.Dict.{nat_eq}
use cpp_burst_pool_node.Session.Response.{Response}
use cpp_burst_pool_node.Handler.State.{CalcDeadlineReq, Node}
use cpp_burst_pool_node.Handler.Validate.{validate_deadline}
use cpp_burst_pool_node.Handler.ValidateLaws.{IsSoundNode, validate_deadline-Validated}
use cpp_burst_pool_node.Handler.Batch.{validate_pending}
use cpp_burst_pool_node.System.Steps.{Task, tasks_of, Asked}
use cpp_burst_pool_node.Handler.BatchLaws.{validate_each, with_deadlines}

-- The requests of a session, and its answers.
abbrev pub asks : ℕ → CalcDeadlineReq → ℕ
asks a c = if c.session == a then 1 else 0

abbrev pub answers : ℕ → ℕ × Response → ℕ
answers a p = if p.0 == a then 1 else 0

abbrev pub same : ℕ → Asked → ℕ
same a r = if r.session == a then 1 else 0

-- A validation gives one answer.
pub total-validate_deadline :
    (limit a : ℕ) (t : Task) (n : Node)
    → IsSoundNode n
    → total (answers a) (validate_deadline limit t.0 t.1 n).replies
      ≡ total (answers a) n.replies + asks a t.0
total-validate_deadline limit a t n v =
    let w = validate_deadline-Validated limit t.0 t.1 n v in
    ap (total (answers a)) w.replies ∙ total-append (answers a) n.replies _ ∙ omega arith

pub total-with_deadlines :
    (a : ℕ) (f : CalcDeadlineReq → ℕ) (cs : List CalcDeadlineReq)
    → total (λ (t : Task). asks a t.0) (with_deadlines f cs) ≡ total (asks a) cs
total-with_deadlines a f [] = refl
total-with_deadlines a f (c ∷ cs) = omega (arith, total-with_deadlines a f cs)

pub tasks_of_lem :
    (i : ℕ) (f : CalcDeadlineReq → ℕ) (cs : List CalcDeadlineReq)
    → i ≤ length cs
    → tasks_of i cs (map f cs) ≡ with_deadlines f (take i cs)
unfolding tasks_of take
tasks_of_lem zero f cs h = refl
tasks_of_lem (suc i) f [] h = absurd (omega arith)
tasks_of_lem (suc i) f (c ∷ cs) h =
    ap (λ (ts : List Task). (c, f c) ∷ ts) (tasks_of_lem i f cs (omega arith))

-- The last loop of `validate_deadlines` does its validations one after the other.
pub validate_pending-tasks_of :
    (limit i : ℕ) (cs : List CalcDeadlineReq) (ds : List ℕ) (n : Node)
    → i ≤ length cs
    → i ≤ length ds
    → validate_pending limit i cs ds n ≡ some (validate_each limit (tasks_of i cs ds) n)
unfolding validate_pending validate_each tasks_of
validate_pending-tasks_of limit zero cs ds n h k = refl
validate_pending-tasks_of limit (suc i) [] ds n h k = absurd (omega arith)
validate_pending-tasks_of limit (suc i) (c ∷ cs) [] n h k = absurd (omega arith)
validate_pending-tasks_of limit (suc i) (c ∷ cs) (d ∷ ds) n h k =
    validate_pending-tasks_of limit i cs ds (validate_deadline limit c d n) (omega arith)
      (omega arith)
