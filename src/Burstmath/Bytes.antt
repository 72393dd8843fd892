-- ===== src/Burstmath/Bytes.antt =====
-- src/burstmath.c: the constants, and 64-bit words in memory, in both byte orders.
use native.Mathlib.Nat.{pow-suc}
use cpp_burst_pool_node.Base.{
  ℕ, ◌+◌, ◌*◌, ◌/◌, ◌%◌, ◌^◌, ◌<◌, ◌≡◌, refl, List, [], ◌∷◌, length, All, arith,
}

abbrev pub scoop_size : ℕ
scoop_size = 64

abbrev pub num_scoops : ℕ
num_scoops = 4096

abbrev pub nonce_size : ℕ
nonce_size = num_scoops * scoop_size

abbrev pub hash_size : ℕ
hash_size = 32

abbrev pub hash_cap : ℕ
hash_cap = 4096

-- The bytes of `gendata`.
abbrev pub gendata_size : ℕ
gendata_size = 16 + nonce_size

-- Byte `k` of a word in the memory of the (little-endian) machine: `xv[k]`.
abbrev pub xv : ℕ → ℕ → ℕ
xv n k = n / 256 ^ k % 256

-- The word with its highest byte first, as `SET_NONCE` stores it and `htobe64` lays it out.
unfoldable pub be64 : ℕ → List ℕ
be64 n = xv n 7 ∷ xv n 6 ∷ xv n 5 ∷ xv n 4 ∷ xv n 3 ∷ xv n 2 ∷ xv n 1 ∷ xv n 0 ∷ []

-- The number that bytes stand for, lowest first: `*(uint64_t *)p` of eight bytes.
unfoldable pub le_value : List ℕ → ℕ
le_value [] = 0
le_value (b ∷ bs) = b + 256 * le_value bs

pub length-be64 : (n : ℕ) → length (be64 n) ≡ 8
unfolding be64
length-be64 n = refl

pub le_value-lt : (bs : List ℕ) → All (λ b. b < 256) bs → le_value bs < 256 ^ length bs
unfolding le_value
le_value-lt [] h = omega arith
le_value-lt (b ∷ bs) h = omega (arith, le_value-lt bs h.1, pow-suc 256 (length bs))
