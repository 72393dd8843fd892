-- ===== src/Burstmath/PlotCorrect.antt =====
-- The loops that fill the plots in place compute the grown plots of the reference.
use mathlib.Core.Path.{ap₂, fun_ext}
use cpp_burst_pool_node.Base.{
  ℕ, zero, suc, ◌+◌, ◌-◌, ◌*◌, ◌≤◌, ◌<◌, ◌≡◌, refl, ap, ◌∙◌, true, false, Option, some, List, ◌++◌,
  map, ltb, length, take, drop, All, All-imp, splice, read, read_lem, write_lem, length-splice,
  drop-splice, take_cap, length-take, length-drop, traverse-map, traverse₂_lem, map_congr, ◌>>=◌,
  arith,
}
use cpp_burst_pool_node.Burstmath.Bytes.{nonce_size, hash_size, hash_cap, gendata_size}
use cpp_burst_pool_node.Burstmath.Shabal.{Shabal, MultiShabal, hash, close_first}
use cpp_burst_pool_node.Burstmath.Plot.{
  Lane, chunk_len, store_hash, fill_round, fill_loop_sse4, fill_loop_avx2,
}
use cpp_burst_pool_node.Burstmath.Reference.{grow}

-- A buffer of the right size that holds `bytes` from position `i` on.
pub record Holds (i : ℕ) (buffer bytes : List ℕ) : Type 0 where
  pub sized : length buffer ≡ gendata_size
  pub tail : drop i buffer ≡ bytes

chunk_len-le : (i : ℕ) → i ≤ nonce_size → i + chunk_len i ≤ gendata_size
unfolding chunk_len
chunk_len-le i h = ground arith

take-chunk_len :
    (i : ℕ) (buffer : List ℕ)
    → length buffer ≡ gendata_size
    → take (chunk_len i) (drop i buffer) ≡ take hash_cap (drop i buffer)
unfolding chunk_len
take-chunk_len i buffer h =
    let e : length (drop i buffer) ≡ nonce_size + 16 - i = omega (arith, length-drop i buffer) in
    rw (← e) (take_cap hash_cap (drop i buffer))

module _ (s : Shabal) where
  -- The bytes of one more hash, stored before position `i`.
  abbrev stored : ℕ → List ℕ → List ℕ
  stored i buffer = splice buffer (i - 32) (hash s (take (chunk_len i) (drop i buffer)))

  stored-Holds :
      (i : ℕ) (buffer bytes : List ℕ)
      → 32 ≤ i
      → i ≤ nonce_size
      → Holds i buffer bytes
      → Holds (i - 32) (stored i buffer) (hash s (take hash_cap bytes) ++ bytes)
  stored-Holds i buffer bytes lo hi v = record {
    sized = length-splice buffer digest (i - 32) fits ∙ v.sized;
    tail =
        drop-splice buffer digest (i - 32) fits
        ∙ ap₂ ◌++◌ (ap (hash s) (take-chunk_len i buffer v.sized ∙ ap (take hash_cap) v.tail))
            (ap (λ k. drop k buffer) next ∙ v.tail);
  }
    where
      digest : List ℕ
      digest = hash s (take (chunk_len i) (drop i buffer))

      next : i - 32 + length digest ≡ i
      next = omega (arith, s.length-close (s.update s.init (take (chunk_len i) (drop i buffer))))

      fits : i - 32 + length digest ≤ length buffer
      fits = omega (arith, next, v.sized)

  store_hash_lem :
      (i : ℕ) (buffer bytes : List ℕ)
      → 32 ≤ i
      → i ≤ nonce_size
      → Holds i buffer bytes
      → store_hash i buffer (hash s (take (chunk_len i) (drop i buffer))) ≡ some (stored i buffer)
  unfolding store_hash
  store_hash_lem i buffer bytes lo hi v = ground (
    arith,
    v.sized,
    s.length-close (s.update s.init (take (chunk_len i) (drop i buffer))),
    write_lem buffer (hash s (take (chunk_len i) (drop i buffer))) (i - 32),
  )

module _ {s : Shabal} {lanes : ℕ} (m : MultiShabal s lanes) (ls : List Lane)
    (full : length ls ≡ lanes) where
  -- One turn of the loop stores one hash in each lane.
  fill_round_lem :
      (i : ℕ) (γ σ : Lane → List ℕ)
      → 32 ≤ i
      → i ≤ nonce_size
      → All (λ l. Holds i (γ l) (σ l)) ls
      → fill_round m i (map γ ls) ≡ some (map (λ l. stored s i (γ l)) ls)
  unfolding fill_round
  fill_round_lem i γ σ lo hi v =
      rw
        (
          traverse-map (λ g. read g i (chunk_len i)) γ (λ l. take (chunk_len i) (drop i (γ l))) ls
              (All-imp
                (λ l h. read_lem (γ l) i (chunk_len i) (omega (arith, h.sized, chunk_len-le i hi)))
                ls v),
          close_first m ls full (chunk_len i) (λ l. take (chunk_len i) (drop i (γ l)))
              (All-imp
                (λ l h. omega (
                  arith,
                  h.sized,
                  chunk_len-le i hi,
                  length-drop i (γ l),
                  length-take (chunk_len i) (drop i (γ l)),
                ))
                ls v),
        )
        (traverse₂_lem (store_hash i) γ (λ l. hash s (take (chunk_len i) (drop i (γ l))))
          (λ l. stored s i (γ l)) ls (All-imp (λ l h. store_hash_lem s i (γ l) (σ l) lo hi h) ls v))

  -- The loop of the SSE4 code, from any multiple of the hash size on.
  pub fill_loop_sse4_lem :
      (k fuel i : ℕ) (γ σ : Lane → List ℕ)
      → k < fuel
      → i ≡ hash_size * k
      → i ≤ nonce_size
      → All (λ l. Holds i (γ l) (σ l)) ls
      → fill_loop_sse4 m fuel i (map γ ls) ≡ some (map (λ l. grow s k (σ l)) ls)
  unfolding fill_loop_sse4 grow drop
  fill_loop_sse4_lem k zero i γ σ lt e hi v = elim lt [ ]
  fill_loop_sse4_lem zero (suc fuel) i γ σ lt e hi v =
      let done : ltb 0 i ≡ false = ground arith in
      let start : 0 ≡ i = omega arith in
      rw done
        (ap some (map_congr γ σ ls (All-imp (λ l h. ap (λ j. drop j (γ l)) start ∙ h.tail) ls v)))
  fill_loop_sse4_lem (suc k) (suc fuel) i γ σ lt e hi v =
      let more : ltb 0 i ≡ true = ground arith in
      rw (more, fill_round_lem i γ σ (omega arith) hi v)
        (fill_loop_sse4_lem k fuel (i - hash_size) (λ l. stored s i (γ l))
          (λ l. hash s (take hash_cap (σ l)) ++ σ l) (omega arith) (omega arith) (omega arith)
          (All-imp (λ l h. stored-Holds s i (γ l) (σ l) (omega arith) hi h) ls v))

  -- The loop of the AVX2 code tests another way and does the same.
  pub fill_loop_avx2_lem :
      (fuel i : ℕ) (gendata : List (List ℕ))
      → fill_loop_avx2 m fuel i gendata ≡ fill_loop_sse4 m fuel i gendata
  unfolding fill_loop_sse4 fill_loop_avx2
  fill_loop_avx2_lem zero i gendata = refl
  fill_loop_avx2_lem (suc fuel) i gendata = ground (
    arith,
    ap (λ (f : List (List ℕ) → Option (List (List ℕ))). fill_round m i gendata >>= f)
        (fun_ext (fill_loop_avx2_lem fuel (i - hash_size))),
  )
