-- ===== src/Handler/Batch.antt =====
-- src/DeadlineRequestHandler.cpp: `validate_deadlines`, in its SSE4 and its AVX2 version.
use cpp_burst_pool_node.Base.{
  ℕ, zero, suc, Option, none, some, List, [], ◌∷◌, map, leb, get_elem?, ◌>>=◌,
}
use cpp_burst_pool_node.Burstmath.Shabal.{Shabal, MultiShabal}
use cpp_burst_pool_node.Burstmath.Deadline.{calculate_deadlines_sse4, calculate_deadlines_avx2}
use cpp_burst_pool_node.Handler.State.{CalcDeadlineReq, Node, lane_of}
use cpp_burst_pool_node.Handler.Validate.{validate_deadline}
use cpp_burst_pool_node.Handler.Distribute.{Batch}

-- The limits of the configuration that the handler keeps.
pub record Limits : Type 0 where
  pub deadline_limit : ℕ
  pub poc2_start_height : ℕ

-- for (int i = 0; i < pending; i++) validate_deadline(creqs[i], deadlines[i])
unfoldable pub validate_pending : ℕ → ℕ → List CalcDeadlineReq → List ℕ → Node → Option Node
validate_pending limit zero creqs deadlines n = some n
validate_pending limit (suc i) [] deadlines n = none
validate_pending limit (suc i) (r ∷ creqs) [] n = none
validate_pending limit (suc i) (r ∷ creqs) (d ∷ deadlines) n =
    validate_pending limit i creqs deadlines (validate_deadline limit r d n)

module _ {s : Shabal} (limits : Limits) (stack : List ℕ) where
  -- The first request's height decides for all lanes.
  unfoldable pub validate_deadlines_sse4 : MultiShabal s 4 → Batch → Node → Option Node
  validate_deadlines_sse4 m b n = do
    first ← get_elem? b.reqs 0
    deadlines ←
        calculate_deadlines_sse4 m (leb limits.poc2_start_height first.height)
          (map (lane_of stack) b.reqs)
    validate_pending limits.deadline_limit b.pending b.reqs deadlines n

  unfoldable pub validate_deadlines_avx2 : MultiShabal s 8 → Batch → Node → Option Node
  validate_deadlines_avx2 m b n = do
    first ← get_elem? b.reqs 0
    deadlines ←
        calculate_deadlines_avx2 m (leb limits.poc2_start_height first.height)
          (map (lane_of stack) b.reqs)
    validate_pending limits.deadline_limit b.pending b.reqs deadlines n
