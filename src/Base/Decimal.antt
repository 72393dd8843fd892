-- ===== src/Base/Decimal.antt =====
-- Decimal numbers in text: `std::to_string` of a uint64_t, and `std::stoull` in base 10.
use Prim.Native.Nat.{ℕ, zero, suc, ◌+◌, ◌-◌, ◌*◌, ◌/◌, ◌%◌, ◌^◌, ◌<◌}
use mathlib.Core.Path.{◌≡◌, refl, ap, ◌∙◌}
use mathlib.Core.Logic.{inl, inr}
use mathlib.Core.Bool.{Bool, true, false, ◌&&◌, ◌||◌}
use mathlib.Core.List.{List, [], ◌∷◌, ◌++◌}
use mathlib.Core.Option.{Option, none, some}
use mathlib.Core.List.{append_assoc}
use native.Mathlib.Nat.{pow-suc}
use native.Mathlib.Omega.{arith}
use cpp_burst_pool_node.Base.Tests.{ltb, leb, ◌==◌, if◌then◌else◌, Bool-cases}
use cpp_burst_pool_node.Base.Lists.{All, All-append}

unfoldable pub is_digit : ℕ → Bool
is_digit c = leb 48 c && leb c 57

-- `isspace`, in the C locale
unfoldable pub is_space : ℕ → Bool
is_space c = (c == 32) || (leb 9 c && leb c 13)

unfoldable pub digits_value : ℕ → List ℕ → ℕ
digits_value acc [] = acc
digits_value acc (c ∷ cs) = if is_digit c then digits_value (acc * 10 + (c - 48)) cs else acc

unfoldable pub skip_spaces : List ℕ → List ℕ
skip_spaces [] = []
skip_spaces (c ∷ cs) = if is_space c then skip_spaces cs else c ∷ cs

unfoldable pub starts_digit : List ℕ → Bool
starts_digit [] = false
starts_digit (c ∷ cs) = is_digit c

-- The magnitude; `none` for the exceptions `invalid_argument` and `out_of_range`.
unfoldable pub magnitude : List ℕ → Option ℕ
unfolding starts_digit digits_value is_digit
magnitude cs =
    if starts_digit cs
    then (if ltb (digits_value 0 cs) (2 ^ 64) then some (digits_value 0 cs) else none)
    else none

unfoldable pub negated : Option ℕ → Option ℕ
negated none = none
negated (some v) = some ((2 ^ 64 - v) % 2 ^ 64)

-- A sign may stand before the digits; `-` negates modulo 2 ^ 64.
unfoldable pub signed_value : List ℕ → Option ℕ
unfolding magnitude negated
signed_value [] = none
signed_value (c ∷ cs) =
    if c == 43
    then magnitude cs
    else (if c == 45 then negated (magnitude cs) else magnitude (c ∷ cs))

unfoldable pub stoull : List ℕ → Option ℕ
unfolding signed_value skip_spaces is_space
stoull s = signed_value (skip_spaces s)

-- At most `fuel` digits.
unfoldable pub decimal : ℕ → ℕ → List ℕ
decimal zero n = []
decimal (suc fuel) n =
    let more = decimal fuel (n / 10) ++ (48 + n % 10) ∷ [] in
    if ltb n 10 then (48 + n) ∷ [] else more

-- 2 ^ 64 has 20 digits.
unfoldable pub to_string : ℕ → List ℕ
to_string n = decimal 20 n

abbrev IsDigits : List ℕ → Type 0
IsDigits = All (λ c. is_digit c ≡ true)

digits_value-append :
    (acc : ℕ) (xs ys : List ℕ)
    → IsDigits xs
    → digits_value acc (xs ++ ys) ≡ digits_value (digits_value acc xs) ys
unfolding digits_value
digits_value-append acc [] ys h = refl
digits_value-append acc (x ∷ xs) ys h =
    rw (h.0, digits_value-append (acc * 10 + (x - 48)) xs ys h.1)

digit_IsDigit : (d : ℕ) → d < 10 → is_digit (48 + d) ≡ true
unfolding is_digit
digit_IsDigit d h = ground arith

decimal-IsDigits : (fuel n : ℕ) → IsDigits (decimal fuel n)
unfolding decimal
decimal-IsDigits zero n = tt
decimal-IsDigits (suc fuel) n = elim (Bool-cases (ltb n 10)) [
  | inl small ↦ rw small (digit_IsDigit n (ground arith), tt)
  | inr large ↦ rw large (
      All-append _ (decimal fuel (n / 10)) _ (decimal-IsDigits fuel (n / 10))
        (digit_IsDigit (n % 10) (omega arith), tt))
]

digits_value_stop :
    (acc : ℕ) (rest : List ℕ) → starts_digit rest ≡ false → digits_value acc rest ≡ acc
unfolding digits_value starts_digit
digits_value_stop acc [] e = refl
digits_value_stop acc (c ∷ rest) e = rw e

-- With a digit for each power of ten, the value is the number.
digits_value-digit : (acc d : ℕ) → d < 10 → digits_value acc ((48 + d) ∷ []) ≡ acc * 10 + d
unfolding digits_value
digits_value-digit acc d h = rw (digit_IsDigit d h) (omega arith)

div-lt-pow : (f n : ℕ) → n < 10 ^ suc f → n / 10 < 10 ^ f
div-lt-pow f n h = omega (arith, pow-suc 10 f)

-- With a digit for each power of ten, the value is the number.
digits_value-decimal : (fuel n : ℕ) → n < 10 ^ fuel → digits_value 0 (decimal fuel n) ≡ n
unfolding decimal digits_value
digits_value-decimal zero n h = omega arith
digits_value-decimal (suc fuel) n h = elim (Bool-cases (ltb n 10)) [
  | inl small ↦ rw small (digits_value-digit 0 n (ground arith) ∙ omega arith)
  | inr large ↦
      rw
        (
          large,
          digits_value-append 0 (decimal fuel (n / 10)) ((48 + n % 10) ∷ [])
              (decimal-IsDigits fuel (n / 10)),
          digits_value-decimal fuel (n / 10) (div-lt-pow fuel n h),
          digits_value-digit (n / 10) (n % 10) (omega arith),
        )
        (omega arith)
]

starts_digit-decimal :
    (fuel n : ℕ) (rest : List ℕ)
    → n < 10 ^ suc fuel
    → starts_digit (decimal (suc fuel) n ++ rest) ≡ true
unfolding decimal starts_digit
starts_digit-decimal zero n rest h =
    let small : ltb n 10 ≡ true = ground arith in rw small (digit_IsDigit n (omega arith))
starts_digit-decimal (suc fuel) n rest h = elim (Bool-cases (ltb n 10)) [
  | inl small ↦ rw small (digit_IsDigit n (ground arith))
  | inr large ↦
      rw (large, append_assoc (decimal (suc fuel) (n / 10)) ((48 + n % 10) ∷ []) rest)
        (starts_digit-decimal fuel (n / 10) ((48 + n % 10) ∷ rest) (div-lt-pow (suc fuel) n h))
]

stoull-digits :
    (s : List ℕ)
    → starts_digit s ≡ true
    → digits_value 0 s < 2 ^ 64
    → stoull s ≡ some (digits_value 0 s)
unfolding stoull
stoull-digits [] h lt = cc
stoull-digits (c ∷ cs) h lt = ground arith

-- A number below 2 ^ 64, printed and followed by any text that does not begin with a digit, is
-- read back.
pub stoull-to_string :
    (n : ℕ) (rest : List ℕ)
    → n < 2 ^ 64
    → starts_digit rest ≡ false
    → stoull (to_string n ++ rest) ≡ some n
unfolding to_string
stoull-to_string n rest h e =
    stoull-digits (decimal 20 n ++ rest) (starts_digit-decimal 19 n rest (omega arith)) (rw value h)
    ∙ ap some value
  where
    value : digits_value 0 (decimal 20 n ++ rest) ≡ n
    value =
        digits_value-append 0 (decimal 20 n) rest (decimal-IsDigits 20 n)
        ∙ digits_value_stop _ rest e
        ∙ digits_value-decimal 20 n (omega arith)
