-- ===== src/Burstmath/Plot.antt =====
-- src/burstmath.c: a nonce's plot, filled in place from the end of `gendata` and then masked. The
-- lanes go side by side; a read or a write outside an array is a fault (`none`).
use cpp_burst_pool_node.Base.{
  ℕ, zero, suc, ◌+◌, ◌-◌, ◌%◌, Option, none, some, List, ltb, leb, ◌==◌, if◌then◌else◌, get_elem?,
  set, read, write, traverse, traverse₂, ◌>>=◌, bit_xor,
}
use cpp_burst_pool_node.Burstmath.Bytes.{nonce_size, hash_size, hash_cap, gendata_size, be64}
use cpp_burst_pool_node.Burstmath.Shabal.{Shabal, MultiShabal}

-- The arguments of one lane; `stack` is what its `gendata` array holds on entry.
pub record Lane : Type 0 where
  pub base_target : ℕ
  pub scoop_nr : ℕ
  pub gensig : List ℕ
  pub addr : ℕ
  pub nonce : ℕ
  pub stack : List ℕ

-- SET_NONCE
unfoldable pub set_nonce : List ℕ → ℕ → ℕ → Option (List ℕ)
set_nonce gendata nonce offset = write gendata (nonce_size + offset) (be64 nonce)

unfoldable pub set_lane : Lane → Option (List ℕ)
unfolding set_nonce
set_lane l = do gendata ← set_nonce l.stack l.addr 0; set_nonce gendata l.nonce 8

-- The bytes that are hashed from `i` on.
unfoldable pub chunk_len : ℕ → ℕ
chunk_len i = let len = nonce_size + 16 - i in if ltb hash_cap len then hash_cap else len

-- A store at `i - HASH_SIZE`, which lies before the array if `i` is too small.
unfoldable pub store_hash : ℕ → List ℕ → List ℕ → Option (List ℕ)
store_hash i gendata digest = if leb hash_size i then write gendata (i - hash_size) digest else none

-- The loop that xors the `n` bytes from `i` on with the final hash.
unfoldable pub xor_loop : ℕ → ℕ → List ℕ → List ℕ → Option (List ℕ)
xor_loop zero i final gendata = some gendata
xor_loop (suc n) i final gendata = do
  a ← get_elem? gendata i
  b ← get_elem? final (i % 32)
  xor_loop n (i + 1) final (set gendata i (bit_xor a b))

module _ {s : Shabal} {lanes : ℕ} (m : MultiShabal s lanes) where
  -- The body of the loop that fills the plots.
  unfoldable pub fill_round : ℕ → List (List ℕ) → Option (List (List ℕ))
  fill_round i gendata = do
    chunks ← traverse (λ g. read g i (chunk_len i)) gendata
    traverse₂ (store_hash i) gendata (m.close (m.update m.init chunks))

  -- for (int i = NONCE_SIZE; i > 0; i -= HASH_SIZE), in the SSE4 code
  unfoldable pub fill_loop_sse4 : ℕ → ℕ → List (List ℕ) → Option (List (List ℕ))
  fill_loop_sse4 zero i gendata = none
  fill_loop_sse4 (suc fuel) i gendata =
      let rest = fill_round i gendata >>= fill_loop_sse4 fuel (i - hash_size) in
      if ltb 0 i then rest else some gendata

  -- for (int i = NONCE_SIZE; i;), in the AVX2 code
  unfoldable pub fill_loop_avx2 : ℕ → ℕ → List (List ℕ) → Option (List (List ℕ))
  fill_loop_avx2 zero i gendata = none
  fill_loop_avx2 (suc fuel) i gendata =
      let rest = fill_round i gendata >>= fill_loop_avx2 fuel (i - hash_size) in
      if i == 0 then some gendata else rest

  -- The hash of each whole plot, and the plots xored with theirs.
  unfoldable pub mask_plots : List (List ℕ) → Option (List (List ℕ))
  mask_plots gendata = do
    whole ← traverse (λ g. read g 0 gendata_size) gendata
    traverse₂ (λ g final. xor_loop nonce_size 0 final g) gendata (m.close (m.update m.init whole))
