-- ===== src/Burstmath/Bounds.antt =====
-- src/burstmath.c: the deadlines fit their uint64_t.
use native.Mathlib.Nat.{div-le_self}
use cpp_burst_pool_node.Base.{
  ℕ, ◌^◌, ◌<◌, ◌≡◌, Bool, some, List, [], ◌∷◌, zero, suc, map, length, length-take, take, All,
  arith,
}
use cpp_burst_pool_node.Burstmath.Bytes.{le_value, le_value-lt}
use cpp_burst_pool_node.Burstmath.Shabal.{Shabal, MultiShabal}
use cpp_burst_pool_node.Burstmath.Plot.{Lane}
use cpp_burst_pool_node.Burstmath.Deadline.{calculate_deadlines_sse4, calculate_deadlines_avx2}
use cpp_burst_pool_node.Burstmath.Reference.{scoop_of, target_result, deadline_of}
use cpp_burst_pool_node.Burstmath.DeadlineCorrect.{
  IsLane, calculate_deadlines_sse4_lem, calculate_deadlines_avx2_lem,
}

All-take {ℓ κ} : {A : Type ℓ} (P : A → Type κ) (n : ℕ) (xs : List A) → All P xs → All P (take n xs)
unfolding take
All-take P zero xs h = tt
All-take P (suc n) [] h = tt
All-take P (suc n) (x ∷ xs) h = (h.0, All-take P n xs h.1)

target_result-lt : (s : Shabal) (poc2 : Bool) (l : Lane) → target_result s poc2 l < 2 ^ 64
unfolding target_result
target_result-lt s poc2 l =
    let c = s.update (s.update s.init l.gensig) (scoop_of s poc2 l) in
    let eight : length (take 8 (s.close c)) ≡ 8 =
      omega (arith, length-take 8 (s.close c), s.length-close c) in
    let bound : le_value (take 8 (s.close c)) < 256 ^ length (take 8 (s.close c)) =
      le_value-lt (take 8 (s.close c)) (All-take (λ b. b < 256) 8 (s.close c) (s.close-bytes c)) in
    rw eight at bound

deadline_of-lt : (s : Shabal) (poc2 : Bool) (l : Lane) → deadline_of s poc2 l < 2 ^ 64
unfolding deadline_of
deadline_of-lt s poc2 l =
    omega (arith, target_result-lt s poc2 l, div-le_self (target_result s poc2 l) l.base_target)

All-lt :
    (s : Shabal) (poc2 : Bool) (ls : List Lane)
    → All (λ d. d < 2 ^ 64) (map (deadline_of s poc2) ls)
All-lt s poc2 [] = tt
All-lt s poc2 (l ∷ ls) = (deadline_of-lt s poc2 l, All-lt s poc2 ls)

-- For lanes with an array of the right size, a generation signature of 32 bytes, a scoop below 4096
-- and a base target above zero, as many as the hash takes side by side, the SSE4 and the AVX2 loop
-- give the same deadlines, and each fits a uint64_t.
pub calculate_deadlines_lt :
    {s : Shabal} {lanes : ℕ} (m : MultiShabal s lanes) (ls : List Lane)
    → length ls ≡ lanes
    → All IsLane ls
    → (poc2 : Bool)
    → (ds : List ℕ) × (calculate_deadlines_sse4 m poc2 ls ≡ some ds)
      × (calculate_deadlines_avx2 m poc2 ls ≡ some ds)
      × All (λ d. d < 2 ^ 64) ds
calculate_deadlines_lt {s} m ls full valid poc2 = (
  map (deadline_of s poc2) ls,
  calculate_deadlines_sse4_lem m ls full valid poc2,
  calculate_deadlines_avx2_lem m ls full valid poc2,
  All-lt s poc2 ls,
)
