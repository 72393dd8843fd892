-- ===== src/Burstmath/DeadlineCorrect.antt =====
-- The deadlines computed side by side are those of the reference.
use cpp_burst_pool_node.Base.{
  ℕ, zero, suc, ◌+◌, ◌-◌, ◌*◌, ◌/◌, ◌≤◌, ◌<◌, ◌≡◌, refl, ap, ◌∙◌, Bool, true, false, some, ◌==◌,
  ◌^◌, List, ◌++◌, map, length, take, drop, length-append, length-take, length-drop, take_all,
  drop_all, drop_zero, All, All-imp, splice, read, read_lem, write_lem, length-splice, drop-splice,
  drop-splice_add, traverse_lem, traverse₂_left, arith,
}
use cpp_burst_pool_node.Burstmath.Bytes.{
  scoop_size, num_scoops, nonce_size, hash_size, hash_cap, gendata_size, be64, length-be64,
  le_value,
}
use cpp_burst_pool_node.Burstmath.Shabal.{Shabal, MultiShabal, hash, close_second}
use cpp_burst_pool_node.Burstmath.Plot.{Lane, set_lane, fill_loop_sse4, mask_plots}
use cpp_burst_pool_node.Burstmath.Deadline.{
  u32, read_scoop, quotient, lane_deadline, fill_fuel, finish, calculate_deadlines_sse4,
  calculate_deadlines_avx2,
}
use cpp_burst_pool_node.Burstmath.Reference.{
  grow, seed, plot_of, masked_plot, scoop_of, target_result, deadline_of,
}
use cpp_burst_pool_node.Burstmath.PlotCorrect.{Holds, fill_loop_sse4_lem, fill_loop_avx2_lem}
use cpp_burst_pool_node.Burstmath.MaskCorrect.{length-mask, mask_plots_lem}

-- What the code relies on: an array of the right size, a whole generation signature, a scoop
-- number in range and a base target that can divide.
pub record IsLane (l : Lane) : Type 0 where
  pub stack_sized : length l.stack ≡ gendata_size
  pub gensig_sized : length l.gensig ≡ hash_size
  pub scoop_lt : l.scoop_nr < num_scoops
  pub target_pos : 0 < l.base_target

abbrev addressed : Lane → List ℕ
addressed l = splice l.stack nonce_size (be64 l.addr)

abbrev seeded : Lane → List ℕ
seeded l = splice (addressed l) (nonce_size + 8) (be64 l.nonce)

addressed-Holds :
    (l : Lane)
    → IsLane l
    → Holds nonce_size (addressed l) (be64 l.addr ++ drop (nonce_size + 8) l.stack)
unfolding be64
addressed-Holds l v = record {
  sized = length-splice l.stack (be64 l.addr) nonce_size fits ∙ v.stack_sized;
  tail = drop-splice l.stack (be64 l.addr) nonce_size fits;
}
  where
    fits : nonce_size + length (be64 l.addr) ≤ length l.stack
    fits = omega (arith, length-be64 l.addr, v.stack_sized)

splice_seed :
    (a b : ℕ) (rest : List ℕ)
    → length rest ≡ 8
    → splice (be64 a ++ rest) 8 (be64 b) ≡ be64 a ++ be64 b
unfolding be64 take drop
splice_seed a b rest h = rw (drop_all 8 rest (omega arith))

seeded-Holds : (l : Lane) → IsLane l → Holds nonce_size (seeded l) (seed l)
unfolding seed
seeded-Holds l v = record {
  sized = length-splice (addressed l) (be64 l.nonce) (nonce_size + 8) fits ∙ w.sized;
  tail =
      drop-splice_add nonce_size (nonce_size + 8) 8 (addressed l) (be64 l.nonce) refl
        (omega (arith, w.sized))
      ∙ ap (λ xs. splice xs 8 (be64 l.nonce)) w.tail
      ∙ splice_seed l.addr l.nonce (drop (nonce_size + 8) l.stack)
          (omega (arith, length-drop (nonce_size + 8) l.stack, v.stack_sized));
}
  where
    w : Holds nonce_size (addressed l) (be64 l.addr ++ drop (nonce_size + 8) l.stack)
    w = addressed-Holds l v

    fits : nonce_size + 8 + length (be64 l.nonce) ≤ length (addressed l)
    fits = omega (arith, length-be64 l.nonce, w.sized)

set_lane_lem : (l : Lane) → IsLane l → set_lane l ≡ some (seeded l)
unfolding set_lane
set_lane_lem l v =
    rw
      (write_lem l.stack (be64 l.addr) nonce_size
        (omega (arith, length-be64 l.addr, v.stack_sized)))
      (write_lem (addressed l) (be64 l.nonce) (nonce_size + 8)
        (omega (arith, length-be64 l.nonce, (addressed-Holds l v).sized)))

length-grow : (s : Shabal) (k : ℕ) (p : List ℕ) → length (grow s k p) ≡ 32 * k + length p
unfolding grow
length-grow s zero p = omega arith
length-grow s (suc k) p = omega (
  arith,
  length-grow s k (hash s (take hash_cap p) ++ p),
  length-append (hash s (take hash_cap p)) p,
  s.length-close (s.update s.init (take hash_cap p)),
)

length-plot_of : (s : Shabal) (l : Lane) → length (plot_of s l) ≡ gendata_size
unfolding plot_of be64
length-plot_of s l = length-grow s 8192 (seed l)

length-masked_plot : (s : Shabal) (l : Lane) → length (masked_plot s l) ≡ gendata_size
unfolding masked_plot
length-masked_plot s l = length-mask 0 nonce_size _ (plot_of s l) ∙ length-plot_of s l

module _ (s : Shabal) (l : Lane) (v : IsLane l) where
  abbrev half_at : ℕ → List ℕ
  half_at off = take 32 (drop off (masked_plot s l))

  length-half_at : (off : ℕ) → off + 32 ≤ gendata_size → length (half_at off) ≡ 32
  length-half_at off h = omega (
    arith,
    length-take 32 (drop off (masked_plot s l)),
    length-drop off (masked_plot s l),
    length-masked_plot s l,
  )

  -- A read of half a scoop, at an offset that is a number in range.
  read-half_at :
      (pos off : ℕ)
      → pos ≡ off
      → off + 32 ≤ gendata_size
      → read (masked_plot s l) pos 32 ≡ some (half_at off)
  read-half_at pos off e h =
      rw e (read_lem (masked_plot s l) off 32 (omega (arith, length-masked_plot s l)))

  length-scoop_of : (poc2 : Bool) → length (scoop_of s poc2 l) ≡ scoop_size
  unfolding scoop_of
  length-scoop_of true =
      length-append (half_at (l.scoop_nr * scoop_size))
        (half_at ((4095 - l.scoop_nr) * scoop_size + 32))
      ∙ omega (
        arith,
        length-half_at (l.scoop_nr * scoop_size),
        length-half_at ((4095 - l.scoop_nr) * scoop_size + 32),
        v.scoop_lt,
      )
  length-scoop_of false =
      length-append (half_at (l.scoop_nr * scoop_size)) (half_at (l.scoop_nr * scoop_size + 32))
      ∙ omega (
        arith,
        length-half_at (l.scoop_nr * scoop_size),
        length-half_at (l.scoop_nr * scoop_size + 32),
        v.scoop_lt,
      )

  -- The scoop lies within the plot, and no product wraps.
  read_scoop_lem : (poc2 : Bool) → read_scoop poc2 l (masked_plot s l) ≡ some (scoop_of s poc2 l)
  unfolding read_scoop scoop_of
  read_scoop_lem true = rw (
    read-half_at (u32 (l.scoop_nr * scoop_size)) (l.scoop_nr * scoop_size)
        (omega (arith, v.scoop_lt)) (omega (arith, v.scoop_lt)),
    read-half_at (u32 (u32 (4095 + 2 ^ 32 - l.scoop_nr) * scoop_size) + 32)
        ((4095 - l.scoop_nr) * scoop_size + 32) (omega (arith, v.scoop_lt))
        (omega (arith, v.scoop_lt)),
  )
  read_scoop_lem false = rw (
    read-half_at (u32 (l.scoop_nr * scoop_size)) (l.scoop_nr * scoop_size)
        (omega (arith, v.scoop_lt)) (omega (arith, v.scoop_lt)),
    read-half_at (u32 (l.scoop_nr * scoop_size) + 32) (l.scoop_nr * scoop_size + 32)
        (omega (arith, v.scoop_lt)) (omega (arith, v.scoop_lt)),
  )

  lane_deadline_lem :
      (poc2 : Bool)
      → lane_deadline l (s.close (s.update (s.update s.init l.gensig) (scoop_of s poc2 l)))
        ≡ some (deadline_of s poc2 l)
  unfolding lane_deadline deadline_of target_result quotient
  lane_deadline_lem poc2 =
      let final = s.close (s.update (s.update s.init l.gensig) (scoop_of s poc2 l)) in
      let pos : (l.base_target == 0) ≡ false = ground (arith, v.target_pos) in
      rw
        (
          read_lem final 0 8 (
              omega
                (arith, s.length-close (s.update (s.update s.init l.gensig) (scoop_of s poc2 l)))),
          pos,
        )
        (ap (λ (xs : List ℕ). some (le_value (take 8 xs) / l.base_target)) (drop_zero final))

  read-gensig : read l.gensig 0 hash_size ≡ some l.gensig
  read-gensig =
      read_lem l.gensig 0 32 (omega (arith, v.gensig_sized))
      ∙ ap some
          (ap (take 32) (drop_zero l.gensig) ∙ take_all 32 l.gensig (omega (arith, v.gensig_sized)))

module _ {s : Shabal} {lanes : ℕ} (m : MultiShabal s lanes) (ls : List Lane)
    (full : length ls ≡ lanes) (valid : All IsLane ls) where
  masks_lem : mask_plots m (map (plot_of s) ls) ≡ some (map (masked_plot s) ls)
  unfolding masked_plot
  masks_lem = mask_plots_lem m ls full (plot_of s) (All-imp (λ l v. length-plot_of s l) ls valid)

  finish_lem :
      (poc2 : Bool) → finish m poc2 ls (map (plot_of s) ls) ≡ some (map (deadline_of s poc2) ls)
  unfolding finish
  finish_lem poc2 =
      rw
        (
          masks_lem,
          traverse_lem (λ (l : Lane). read l.gensig 0 hash_size) (λ l. l.gensig) ls
              (All-imp (read-gensig s) ls valid),
          traverse₂_left (read_scoop poc2) (masked_plot s) (scoop_of s poc2) ls
              (All-imp (λ l v. read_scoop_lem s l v poc2) ls valid),
          close_second m ls full 32 64 (λ l. l.gensig) (scoop_of s poc2)
              (All-imp (λ l v. v.gensig_sized) ls valid)
              (All-imp (λ l v. length-scoop_of s l v poc2) ls valid),
        )
        (traverse₂_left lane_deadline _ (deadline_of s poc2) ls
          (All-imp (λ l v. lane_deadline_lem s l v poc2) ls valid))

  filled_lem : fill_loop_sse4 m fill_fuel nonce_size (map seeded ls) ≡ some (map (plot_of s) ls)
  unfolding plot_of
  filled_lem =
      fill_loop_sse4_lem m ls full 8192 fill_fuel nonce_size seeded seed (omega arith) refl
        (omega arith) (All-imp seeded-Holds ls valid)

  -- For lanes with an array of the right size, a generation signature of 32 bytes, a scoop below
  -- 4096 and a base target above zero, as many as the hash takes side by side: the SSE4 code
  -- touches nothing outside its arrays, leaves its loop, and gives the deadlines of the
  -- reference, in order, whatever the arrays held before.
  pub calculate_deadlines_sse4_lem :
      (poc2 : Bool) → calculate_deadlines_sse4 m poc2 ls ≡ some (map (deadline_of s poc2) ls)
  unfolding calculate_deadlines_sse4
  calculate_deadlines_sse4_lem poc2 =
      rw (traverse_lem set_lane seeded ls (All-imp set_lane_lem ls valid), filled_lem)
        (finish_lem poc2)

  -- For lanes with an array of the right size, a generation signature of 32 bytes, a scoop below 4096
  -- and a base target above zero, as many as the hash takes side by side: the AVX2 code touches
  -- nothing outside its arrays, leaves its loop, and gives the deadlines of the reference, in order.
  pub calculate_deadlines_avx2_lem :
      (poc2 : Bool) → calculate_deadlines_avx2 m poc2 ls ≡ some (map (deadline_of s poc2) ls)
  unfolding calculate_deadlines_avx2
  calculate_deadlines_avx2_lem poc2 =
      rw
        (
          traverse_lem set_lane seeded ls (All-imp set_lane_lem ls valid),
          fill_loop_avx2_lem m ls full fill_fuel nonce_size (map seeded ls),
          filled_lem,
        )
        (finish_lem poc2)
