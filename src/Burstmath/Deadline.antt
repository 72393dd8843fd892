-- ===== src/Burstmath/Deadline.antt =====
-- src/burstmath.c: `calculate_deadlines_sse4` and `calculate_deadlines_avx2`.
use cpp_burst_pool_node.Base.{
  ℕ, ◌+◌, ◌-◌, ◌*◌, ◌/◌, ◌%◌, ◌^◌, Bool, Option, none, some, List, ◌++◌, ◌==◌, if◌then◌else◌, read,
  traverse, traverse₂, ◌>>=◌,
}
use cpp_burst_pool_node.Burstmath.Bytes.{scoop_size, nonce_size, hash_size, le_value}
use cpp_burst_pool_node.Burstmath.Shabal.{Shabal, MultiShabal}
use cpp_burst_pool_node.Burstmath.Plot.{Lane, set_lane, fill_loop_sse4, fill_loop_avx2, mask_plots}

-- The products and differences of scoop numbers are of type uint32_t.
abbrev pub u32 : ℕ → ℕ
u32 n = n % 2 ^ 32

-- The 64 bytes of a scoop: both halves of one, or the second half of its mirror image for PoC2.
unfoldable pub read_scoop : Bool → Lane → List ℕ → Option (List ℕ)
read_scoop poc2 l gendata = do
  low ← read gendata (u32 (l.scoop_nr * scoop_size)) 32
  high ←
      read gendata
        ((if poc2
            then u32 (u32 (4095 + 2 ^ 32 - l.scoop_nr) * scoop_size)
            else u32 (l.scoop_nr * scoop_size))
          + 32)
        32
  some (low ++ high)

-- A division by zero is a fault.
unfoldable pub quotient : ℕ → ℕ → Option ℕ
quotient a b = if b == 0 then none else some (a / b)

unfoldable pub lane_deadline : Lane → List ℕ → Option ℕ
unfolding quotient
lane_deadline l final = do
  target_result ← read final 0 8
  quotient (le_value target_result) l.base_target

-- One turn for each hash of the plot, and one to leave the loop.
abbrev pub fill_fuel : ℕ
fill_fuel = nonce_size / hash_size + 1

module _ {s : Shabal} {lanes : ℕ} (m : MultiShabal s lanes) where
  -- What both versions do once the plots are filled.
  unfoldable pub finish : Bool → List Lane → List (List ℕ) → Option (List ℕ)
  finish poc2 ls filled = do
    gendata ← mask_plots m filled
    gensigs ← traverse (λ (l : Lane). read l.gensig 0 hash_size) ls
    scoops ← traverse₂ (read_scoop poc2) ls gendata
    traverse₂ lane_deadline ls (m.close (m.update (m.update m.init gensigs) scoops))

  unfoldable pub calculate_deadlines_sse4 : Bool → List Lane → Option (List ℕ)
  calculate_deadlines_sse4 poc2 ls = do
    seeded ← traverse set_lane ls
    filled ← fill_loop_sse4 m fill_fuel nonce_size seeded
    finish poc2 ls filled

  unfoldable pub calculate_deadlines_avx2 : Bool → List Lane → Option (List ℕ)
  calculate_deadlines_avx2 poc2 ls = do
    seeded ← traverse set_lane ls
    filled ← fill_loop_avx2 m fill_fuel nonce_size seeded
    finish poc2 ls filled
