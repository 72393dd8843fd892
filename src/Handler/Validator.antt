-- ===== src/Handler/Validator.antt =====
-- src/DeadlineRequestHandler.cpp: the two versions of `validate_deadlines` behind one interface, for
-- what does not depend on how many lanes there are.
use cpp_burst_pool_node.Base.{
  ℕ, ◌≡◌, ◌∙◌, ap, inl, inr, Option, some, List, ◌∷◌, map, leb, length, length-map, get_elem?,
  Option-cases, All, ◌>>=◌,
}
use cpp_burst_pool_node.Burstmath.Bytes.{gendata_size}
use cpp_burst_pool_node.Burstmath.Shabal.{Shabal, MultiShabal}
use cpp_burst_pool_node.Burstmath.Deadline.{calculate_deadlines_sse4, calculate_deadlines_avx2}
use cpp_burst_pool_node.Burstmath.DeadlineCorrect.{
  calculate_deadlines_sse4_lem, calculate_deadlines_avx2_lem,
}
use cpp_burst_pool_node.Handler.State.{CalcDeadlineReq, Node, lane_of}
use cpp_burst_pool_node.Handler.Distribute.{Batch}
use cpp_burst_pool_node.Handler.Batch.{
  Limits, validate_pending, validate_deadlines_sse4, validate_deadlines_avx2,
}
use cpp_burst_pool_node.Handler.BatchLaws.{
  IsComputable, deadline_for, batch_of, batch_poc2, all_deadlines, lanes-IsLane,
}

-- The last loop, once the deadlines are computed.
abbrev pub in_parts : Limits → Option (List ℕ) → Batch → Node → Option Node
in_parts limits computed b n =
    computed >>= λ ds. validate_pending limits.deadline_limit b.pending b.reqs ds n

-- The deadlines of all requests of a batch.
abbrev pub batch_deadlines : Shabal → Limits → CalcDeadlineReq → List CalcDeadlineReq → List ℕ
batch_deadlines s limits first others =
    map (deadline_for s (batch_poc2 limits first)) (first ∷ others)

-- The part of `validate_deadlines` before its last loop.
module _ {s : Shabal} (limits : Limits) (stack : List ℕ) where
  unfoldable pub compute_sse4 : MultiShabal s 4 → Batch → Option (List ℕ)
  compute_sse4 m b = do
    first ← get_elem? b.reqs 0
    calculate_deadlines_sse4 m (leb limits.poc2_start_height first.height)
        (map (lane_of stack) b.reqs)

  unfoldable pub compute_avx2 : MultiShabal s 8 → Batch → Option (List ℕ)
  compute_avx2 m b = do
    first ← get_elem? b.reqs 0
    calculate_deadlines_avx2 m (leb limits.poc2_start_height first.height)
        (map (lane_of stack) b.reqs)

  pub splits_sse4 :
      (m : MultiShabal s 4) (b : Batch) (n : Node)
      → validate_deadlines_sse4 limits stack m b n ≡ in_parts limits (compute_sse4 m b) b n
  unfolding validate_deadlines_sse4 compute_sse4
  splits_sse4 m b n = elim (Option-cases (get_elem? b.reqs 0)) [
    | inl absent ↦ rw absent
    | inr (first, found) ↦ rw found
  ]

  pub splits_avx2 :
      (m : MultiShabal s 8) (b : Batch) (n : Node)
      → validate_deadlines_avx2 limits stack m b n ≡ in_parts limits (compute_avx2 m b) b n
  unfolding validate_deadlines_avx2 compute_avx2
  splits_avx2 m b n = elim (Option-cases (get_elem? b.reqs 0)) [
    | inl absent ↦ rw absent
    | inr (first, found) ↦ rw found
  ]

  module _ (sized : length stack ≡ gendata_size) (first : CalcDeadlineReq)
      (others : List CalcDeadlineReq) (pending : ℕ)
      (computable : All IsComputable (first ∷ others)) where
    pub compute_sse4_lem :
        (m : MultiShabal s 4)
        → length (first ∷ others) ≡ 4
        → compute_sse4 m (batch_of first others pending)
          ≡ some (batch_deadlines s limits first others)
    unfolding compute_sse4
    compute_sse4_lem m full =
        calculate_deadlines_sse4_lem m (map (lane_of stack) (first ∷ others))
          (length-map (first ∷ others) (lane_of stack) ∙ full)
          (lanes-IsLane stack sized (first ∷ others) computable) (batch_poc2 limits first)
        ∙ ap some (all_deadlines s (batch_poc2 limits first) stack (first ∷ others))

    pub compute_avx2_lem :
        (m : MultiShabal s 8)
        → length (first ∷ others) ≡ 8
        → compute_avx2 m (batch_of first others pending)
          ≡ some (batch_deadlines s limits first others)
    unfolding compute_avx2
    compute_avx2_lem m full =
        calculate_deadlines_avx2_lem m (map (lane_of stack) (first ∷ others))
          (length-map (first ∷ others) (lane_of stack) ∙ full)
          (lanes-IsLane stack sized (first ∷ others) computable) (batch_poc2 limits first)
        ∙ ap some (all_deadlines s (batch_poc2 limits first) stack (first ∷ others))

pub record Validator (s : Shabal) (limits : Limits) (parallel : ℕ) : Type 0 where
  pub validate_deadlines : List ℕ → Batch → Node → Option Node
  pub compute : List ℕ → Batch → Option (List ℕ)
  pub splits :
      (stack : List ℕ) (b : Batch) (n : Node)
      → validate_deadlines stack b n ≡ in_parts limits (compute stack b) b n
  pub computes :
      (stack : List ℕ)
      → length stack ≡ gendata_size
      → (first : CalcDeadlineReq) (others : List CalcDeadlineReq) (pending : ℕ)
      → All IsComputable (first ∷ others)
      → length (first ∷ others) ≡ parallel
      → compute stack (batch_of first others pending) ≡ some (batch_deadlines s limits first others)

abbrev pub sse4_validator : {s : Shabal} (limits : Limits) → MultiShabal s 4 → Validator s limits 4
sse4_validator {s} limits m = record {
  validate_deadlines = λ stack b n. validate_deadlines_sse4 limits stack m b n;
  compute = λ stack b. compute_sse4 limits stack m b;
  splits = λ stack b n. splits_sse4 limits stack m b n;
  computes = λ stack sized first others pending c full.
      compute_sse4_lem limits stack sized first others pending c m full;
}

abbrev pub avx2_validator : {s : Shabal} (limits : Limits) → MultiShabal s 8 → Validator s limits 8
avx2_validator {s} limits m = record {
  validate_deadlines = λ stack b n. validate_deadlines_avx2 limits stack m b n;
  compute = λ stack b. compute_avx2 limits stack m b;
  splits = λ stack b n. splits_avx2 limits stack m b n;
  computes = λ stack sized first others pending c full.
      compute_avx2_lem limits stack sized first others pending c m full;
}
