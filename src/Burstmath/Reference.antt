-- ===== src/Burstmath/Reference.antt =====
-- What a deadline is: a plot grown from its seed by prepending hashes, masked by its own hash, and
-- one scoop of it hashed with the generation signature. Nothing is overwritten here.
use cpp_burst_pool_node.Base.{
  ℕ, zero, suc, ◌+◌, ◌-◌, ◌*◌, ◌/◌, ◌%◌, Bool, List, [], ◌∷◌, ◌++◌, if◌then◌else◌, take, drop,
  get_or, bit_xor,
}
use cpp_burst_pool_node.Burstmath.Bytes.{
  scoop_size, nonce_size, hash_size, hash_cap, be64, le_value,
}
use cpp_burst_pool_node.Burstmath.Shabal.{Shabal, hash}
use cpp_burst_pool_node.Burstmath.Plot.{Lane}

-- The first `n` bytes xored with the bytes of `final`, which repeat from position `i`.
unfoldable pub mask : ℕ → ℕ → List ℕ → List ℕ → List ℕ
mask i zero final xs = xs
mask i (suc n) final [] = []
mask i (suc n) final (x ∷ xs) = bit_xor x (get_or final (i % 32) 0) ∷ mask (i + 1) n final xs

-- The last 16 bytes of a plot.
unfoldable pub seed : Lane → List ℕ
seed l = be64 l.addr ++ be64 l.nonce

module _ (s : Shabal) where
  -- Each new hash is of at most `hash_cap` bytes from the front, and goes before them.
  unfoldable pub grow : ℕ → List ℕ → List ℕ
  grow zero plot = plot
  grow (suc n) plot = grow n (hash s (take hash_cap plot) ++ plot)

  unfoldable pub plot_of : Lane → List ℕ
  unfolding seed
  plot_of l = grow (nonce_size / hash_size) (seed l)

  unfoldable pub masked_plot : Lane → List ℕ
  masked_plot l = mask 0 nonce_size (hash s (plot_of l)) (plot_of l)

  -- The 64 bytes; PoC2 swaps the second half with that of the mirrored scoop.
  unfoldable pub scoop_of : Bool → Lane → List ℕ
  scoop_of poc2 l =
      take 32 (drop (l.scoop_nr * scoop_size) (masked_plot l))
      ++ take 32 (
          drop ((if poc2 then 4095 - l.scoop_nr else l.scoop_nr) * scoop_size + 32) (masked_plot l))

  unfoldable pub target_result : Bool → Lane → ℕ
  target_result poc2 l =
      le_value (take 8 (s.close (s.update (s.update s.init l.gensig) (scoop_of poc2 l))))

  unfoldable pub deadline_of : Bool → Lane → ℕ
  deadline_of poc2 l = target_result poc2 l / l.base_target
