-- ===== src/Base/Bits.antt =====
-- Bit operations on bytes, checked on every value.
use Prim.Native.Nat.{ℕ, zero, suc, ◌+◌, ◌*◌, ◌/◌, ◌%◌, ◌<◌, bit_and, bit_or}
use mathlib.Core.Path.{◌≡◌, refl, ap, ◌∙◌}
use mathlib.Core.Bool.{Bool, true, false}
use native.Mathlib.Omega.{arith}
use cpp_burst_pool_node.Base.Tests.{◌==◌, ==_iff, if◌then◌else◌}

-- Whether a test holds of `lo` and the `count` - 1 numbers after it.
holds_from : (ℕ → Bool) → ℕ → ℕ → Bool
holds_from test lo zero = true
holds_from test lo (suc count) = if test lo then holds_from test (lo + 1) count else false

first_holds :
    (test : ℕ → Bool) (lo count : ℕ) → holds_from test lo (suc count) ≡ true → test lo ≡ true
unfolding holds_from
first_holds test lo count all = ground arith

rest_hold :
    (test : ℕ → Bool) (lo count : ℕ)
    → holds_from test lo (suc count) ≡ true
    → holds_from test (lo + 1) count ≡ true
unfolding holds_from
rest_hold test lo count all = ground arith

holds_at :
    (test : ℕ → Bool) (count lo k : ℕ)
    → k < count
    → holds_from test lo count ≡ true
    → test (k + lo) ≡ true
holds_at test zero lo k small all = absurd (omega arith)
holds_at test (suc count) lo zero small all =
    let same : 0 + lo ≡ lo = omega arith in ap test same ∙ first_holds test lo count all
holds_at test (suc count) lo (suc k) small all =
    let shift : suc k + lo ≡ k + (lo + 1) = omega arith in
    ap test shift ∙ holds_at test count (lo + 1) k (omega arith) (rest_hold test lo count all)

holds_below : (test : ℕ → Bool) (n x : ℕ) → x < n → holds_from test 0 n ≡ true → test x ≡ true
holds_below test n x small all =
    let same : x ≡ x + 0 = omega arith in ap test same ∙ holds_at test n 0 x small all

nibbles : holds_from (λ b. bit_and b 15 == b % 16) 0 256 ≡ true
unfolding holds_from
nibbles = refl

-- `x & 0x0F` of a byte.
pub bit_and-nibble : (x : ℕ) → x < 256 → bit_and x 0x0f ≡ x % 16
bit_and-nibble x h =
    (==_iff (bit_and x 15) (x % 16)).0 (holds_below (λ b. bit_and b 15 == b % 16) 256 x h nibbles)

joins : holds_from (λ n. bit_or (n / 256 * 256) (n % 256) == n) 0 4096 ≡ true
unfolding holds_from
joins = refl

-- `x << 8 | y` of a nibble and a byte.
pub bit_or-join : (x y : ℕ) → x < 16 → y < 256 → bit_or (x * 256) y ≡ x * 256 + y
bit_or-join x y hx hy =
    let whole = x * 256 + y in
    let high : whole / 256 ≡ x = omega arith in
    let low : whole % 256 ≡ y = omega arith in
    let table : bit_or (whole / 256 * 256) (whole % 256) ≡ whole =
      (==_iff _ _).0
        (holds_below (λ n. bit_or (n / 256 * 256) (n % 256) == n) 4096 whole (omega arith) joins) in
    cc (table, high, low)
