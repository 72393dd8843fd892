-- ===== src/Burstmath/Scoop.antt =====
-- src/burstmath.c: `calculate_scoop`.
use Prim.Native.Nat.{bit_and, bit_or}
use cpp_burst_pool_node.Base.{
  ℕ, zero, suc, ◌+◌, ◌*◌, ◌%◌, ◌<◌, ◌≡◌, ap, ◌∙◌, Option, some, List, [], ◌∷◌, length, get_elem?,
  get_or, get_elem?-get_or, take, take_all, All, read, read_lem, drop_zero, ◌>>=◌, bit_and-nibble,
  bit_or-join, arith,
}
use cpp_burst_pool_node.Burstmath.Bytes.{be64}
use cpp_burst_pool_node.Burstmath.Shabal.{Shabal}

byte-lt : (xs : List ℕ) (i : ℕ) → All (λ b. b < 256) xs → get_or xs i 0 < 256
byte-lt [] i h = omega arith
byte-lt (x ∷ xs) zero h = h.0
byte-lt (x ∷ xs) (suc i) h = byte-lt xs i h.1

module _ (s : Shabal) where
  -- The generation signature of the round, hashed with the height.
  abbrev pub new_gensig : ℕ → List ℕ → List ℕ
  new_gensig height gensig = s.close (s.update (s.update s.init gensig) (be64 height))

  unfoldable pub calculate_scoop : ℕ → List ℕ → Option ℕ
  calculate_scoop height gensig = do
    bytes ← read gensig 0 32
    high ← get_elem? (new_gensig height bytes) 30
    low ← get_elem? (new_gensig height bytes) 31
    some (bit_or (bit_and high 0x0F * 256) low)

  -- The last two bytes of the round's hash, as one number, modulo the number of scoops.
  abbrev pub scoop_number : ℕ → List ℕ → ℕ
  scoop_number height gensig =
      (256 * get_or (new_gensig height gensig) 30 0 + get_or (new_gensig height gensig) 31 0) % 4096

  -- Of a generation signature of 32 bytes the masks and shifts make the number of the last two
  -- bytes of its hash with the height, modulo 4096, which is below 4096.
  pub calculate_scoop_lem :
      (height : ℕ) (gensig : List ℕ)
      → length gensig ≡ 32
      → (calculate_scoop height gensig ≡ some (scoop_number height gensig))
        × (scoop_number height gensig < 4096)
  unfolding calculate_scoop
  calculate_scoop_lem height gensig h = (
    rw
        (
          read_lem gensig 0 32 (omega arith)
              ∙ ap some (ap (take 32) (drop_zero gensig) ∙ take_all 32 gensig (omega arith)),
          get_elem?-get_or digest 30 0 (omega (arith, long)),
          get_elem?-get_or digest 31 0 (omega (arith, long)),
          bit_and-nibble (get_or digest 30 0) (byte-lt digest 30 bytes),
          bit_or-join (get_or digest 30 0 % 16) (get_or digest 31 0) (omega arith)
              (byte-lt digest 31 bytes),
        )
        (ap some (omega (arith, byte-lt digest 31 bytes))),
    omega arith,
  )
    where
      digest : List ℕ
      digest = new_gensig height gensig

      long : length digest ≡ 32
      long = s.length-close _

      bytes : All (λ b. b < 256) digest
      bytes = s.close-bytes _
