-- ===== src/Burstmath/Tests.antt =====
-- src/burstmath.c: the theorems at concrete inputs.
use cpp_burst_pool_node.Base.{
  ℕ, ◌^◌, List, All, ◌<◌, ◌≡◌, refl, some, true, false, map, replicate, length-replicate,
}
use cpp_burst_pool_node.Burstmath.Toy.{
  toy, toys, four_lanes, eight_lanes, four_lanes-IsLane, eight_lanes-IsLane,
}
use cpp_burst_pool_node.Burstmath.Deadline.{calculate_deadlines_sse4, calculate_deadlines_avx2}
use cpp_burst_pool_node.Burstmath.Reference.{deadline_of}
use cpp_burst_pool_node.Burstmath.DeadlineCorrect.{
  calculate_deadlines_sse4_lem, calculate_deadlines_avx2_lem,
}
use cpp_burst_pool_node.Burstmath.Bounds.{calculate_deadlines_lt}
use cpp_burst_pool_node.Burstmath.Scoop.{calculate_scoop, scoop_number, calculate_scoop_lem}

calculate_deadlines_sse4_lem_example :
    calculate_deadlines_sse4 (toys 4) true four_lanes ≡ some (map (deadline_of toy true) four_lanes)
calculate_deadlines_sse4_lem_example =
    calculate_deadlines_sse4_lem (toys 4) four_lanes refl four_lanes-IsLane true

calculate_deadlines_avx2_lem_example :
    calculate_deadlines_avx2 (toys 8) false eight_lanes
    ≡ some (map (deadline_of toy false) eight_lanes)
calculate_deadlines_avx2_lem_example =
    calculate_deadlines_avx2_lem (toys 8) eight_lanes refl eight_lanes-IsLane false

calculate_scoop_lem_example :
    (calculate_scoop toy 500000 (replicate 32 7) ≡ some (scoop_number toy 500000 (replicate 32 7)))
    × (scoop_number toy 500000 (replicate 32 7) < 4096)
calculate_scoop_lem_example =
    calculate_scoop_lem toy 500000 (replicate 32 7) (length-replicate 32 7)

calculate_deadlines_lt_example :
    (ds : List ℕ) × (calculate_deadlines_sse4 (toys 4) false four_lanes ≡ some ds)
    × (calculate_deadlines_avx2 (toys 4) false four_lanes ≡ some ds)
    × All (λ d. d < 2 ^ 64) ds
calculate_deadlines_lt_example =
    calculate_deadlines_lt (toys 4) four_lanes refl four_lanes-IsLane false
