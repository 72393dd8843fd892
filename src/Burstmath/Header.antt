-- ===== src/Burstmath/Header.antt =====
-- src/burstmath.h: the three functions that it declares, as an interface of their own. A build
-- defines one of the two that compute deadlines. A `Lane` has the arguments of one number.
use cpp_burst_pool_node.Base.{ℕ, ◌<◌, ◌≡◌, Bool, Option, some, List, map, length, All}
use cpp_burst_pool_node.Burstmath.Bytes.{num_scoops, hash_size}
use cpp_burst_pool_node.Burstmath.Shabal.{Shabal, MultiShabal}
use cpp_burst_pool_node.Burstmath.Plot.{Lane}
use cpp_burst_pool_node.Burstmath.Reference.{deadline_of}
use cpp_burst_pool_node.Burstmath.Scoop.{calculate_scoop, scoop_number, calculate_scoop_lem}
use cpp_burst_pool_node.Burstmath.Deadline.{calculate_deadlines_sse4, calculate_deadlines_avx2}
use cpp_burst_pool_node.Burstmath.DeadlineCorrect.{
  IsLane, calculate_deadlines_sse4_lem, calculate_deadlines_avx2_lem,
}

record BurstmathHeader (s : Shabal) : Type 0 where
  calculate_scoop : (height : ℕ) (gensig : List ℕ) → Option ℕ
  calculate_deadlines_sse4 : (poc2 : Bool) → List Lane → Option (List ℕ)
  calculate_deadlines_avx2 : (poc2 : Bool) → List Lane → Option (List ℕ)
  scoop_law :
      (height : ℕ) (gensig : List ℕ)
      → length gensig ≡ hash_size
      → (calculate_scoop height gensig ≡ some (scoop_number s height gensig))
        × (scoop_number s height gensig < num_scoops)
  sse4_law :
      (poc2 : Bool) (ls : List Lane)
      → length ls ≡ 4
      → All IsLane ls
      → calculate_deadlines_sse4 poc2 ls ≡ some (map (deadline_of s poc2) ls)
  avx2_law :
      (poc2 : Bool) (ls : List Lane)
      → length ls ≡ 8
      → All IsLane ls
      → calculate_deadlines_avx2 poc2 ls ≡ some (map (deadline_of s poc2) ls)

-- src/burstmath.c behind it.
abbrev burstmath : (s : Shabal) → MultiShabal s 4 → MultiShabal s 8 → BurstmathHeader s
burstmath s m n = record {
  calculate_scoop = calculate_scoop s;
  calculate_deadlines_sse4 = calculate_deadlines_sse4 m;
  calculate_deadlines_avx2 = calculate_deadlines_avx2 n;
  scoop_law = calculate_scoop_lem s;
  sse4_law = λ poc2 ls full valid. calculate_deadlines_sse4_lem m ls full valid poc2;
  avx2_law = λ poc2 ls full valid. calculate_deadlines_avx2_lem n ls full valid poc2;
}
