-- ===== src/RateLimiter/BoundTests.antt =====
-- src/RateLimiter.hpp: the bound at a rate of one and a half tokens, with numbers counted in sixths.
use cpp_burst_pool_node.Base.{
  ◌+◌, ◌*◌, ◌/◌, ◌≡◌, refl, Bool, true, false, some, [], ◌∷◌, ◌==◌, length, if◌then◌else◌, arith,
}
use cpp_burst_pool_node.Base.Int.{ℤ, pos, negsuc, difference, ◌+ℤ◌, ◌-ℤ◌, ◌≤ℤ◌, ltb_ℤ, int_laws}
use cpp_burst_pool_node.RateLimiter.Bucket.{Double, available, attempt}
use cpp_burst_pool_node.RateLimiter.Contention.{
  outside, trying, System, Reach, start, later, load, exchange, retry,
}
use cpp_burst_pool_node.RateLimiter.Bound.{Exact, Reach-bound}

abbrev minus : ℤ → ℤ
minus (pos n) = difference 0 n
minus (negsuc n) = pos (n + 1)

abbrev times : ℤ → ℤ → ℤ
times (pos m) (pos n) = pos (m * n)
times (pos m) (negsuc n) = minus (pos (m * (n + 1)))
times (negsuc m) (pos n) = minus (pos ((m + 1) * n))
times (negsuc m) (negsuc n) = pos ((m + 1) * (n + 1))

abbrev over : ℤ → ℤ → ℤ
over (pos m) (pos n) = pos (m / n)
over (pos m) (negsuc n) = minus (pos (m / (n + 1)))
over (negsuc m) (pos n) = minus (pos ((m + 1) / n))
over (negsuc m) (negsuc n) = pos ((m + 1) / (n + 1))

abbrev same_ℤ : ℤ → ℤ → Bool
same_ℤ (pos m) (pos n) = m == n
same_ℤ (negsuc m) (negsuc n) = m == n
same_ℤ (pos m) (negsuc n) = false
same_ℤ (negsuc m) (pos n) = false

same_ℤ-eq : (a b : ℤ) → same_ℤ a b ≡ true → a ≡ b
same_ℤ-eq a b h = ground arith

-- Numbers in sixths, so that one and a half is 9.
abbrev sixths : Double
sixths = record {
  F = ℤ;
  zero = pos 0;
  one = pos 6;
  sub = ◌-ℤ◌;
  mul = λ a b. over (times a b) (pos 6);
  div = λ a b. over (times a (pos 6)) b;
  lt = ltb_ℤ;
  same = same_ℤ;
}

mul_lem : (a : ℤ) → over (times (a +ℤ a) (pos 9)) (pos 6) ≡ a +ℤ a +ℤ a
unfolding ◌+ℤ◌
mul_lem (pos n) = ground arith
mul_lem (negsuc n) = ground arith

div_lem : (a : ℤ) → over (times (a +ℤ a +ℤ a) (pos 6)) (pos 9) ≡ a +ℤ a
unfolding ◌+ℤ◌
div_lem (pos n) = ground arith
div_lem (negsuc n) = ground arith

sub_twice : (a b : ℤ) → (a +ℤ a) -ℤ (b +ℤ b) ≡ (a -ℤ b) +ℤ (a -ℤ b)
sub_twice a b = omega int_laws

sub_thrice : (a b : ℤ) → (a +ℤ a +ℤ a) -ℤ (b +ℤ b +ℤ b) ≡ (a -ℤ b) +ℤ (a -ℤ b) +ℤ (a -ℤ b)
sub_thrice a b = omega int_laws

lt_lem : (a b : ℤ) → ltb_ℤ (a +ℤ a +ℤ a) (b +ℤ b +ℤ b) ≡ ltb_ℤ a b
lt_lem a b = grind int_laws

-- A unit of time is a third of a second, and one of tokens is half a token.
abbrev one_and_a_half : Exact sixths (pos 9)
one_and_a_half = record {
  IsTime = λ x a. x ≡ a +ℤ a;
  IsTokens = λ x a. x ≡ a +ℤ a +ℤ a;
  sub-IsTime = λ x y a b h k. rw (h, k) (sub_twice a b);
  sub-IsTokens = λ x y a b h k. rw (h, k) (sub_thrice a b);
  mul-IsTokens = λ x a h. rw h (mul_lem a);
  div-IsTime = λ x a h. rw h (div_lem a);
  lt-eq = λ x y a b h k. rw (h, k) (lt_lem a b);
  same-eq = same_ℤ-eq;
}

-- A burst of 5 and 1 for each call. Two threads have loaded 0, one at 4 seconds and one at 5; the
-- first has exchanged it, and the second again after a load.
abbrev both_loaded : System sixths (pos 9) (pos 30) (pos 6)
both_loaded = record {
  zero_time = pos 0;
  locals = λ k.
      if 1 == k
      then trying (pos 30) (pos 0)
      else (if 0 == k then trying (pos 24) (pos 0) else outside);
  log = [];
}

abbrev one_through : System sixths (pos 9) (pos 30) (pos 6)
one_through = record {
  zero_time = pos 8;
  locals = λ k. if 0 == k then outside else both_loaded.locals k;
  log = pos 24 ∷ [];
}

abbrev loaded_again : System sixths (pos 9) (pos 30) (pos 6)
loaded_again = record one_through {
  locals = λ k. if 1 == k then trying (pos 30) (pos 8) else one_through.locals k;
}

abbrev both_through : System sixths (pos 9) (pos 30) (pos 6)
both_through = record {
  zero_time = pos 14;
  locals = λ k. if 1 == k then outside else loaded_again.locals k;
  log = pos 24 ∷ pos 30 ∷ [];
}

first_taken : attempt sixths (pos 24) (pos 9) (pos 30) (pos 6) (pos 0) ≡ some (pos 8)
unfolding attempt available ◌-ℤ◌
first_taken = refl

late_taken : attempt sixths (pos 30) (pos 9) (pos 30) (pos 6) (pos 0) ≡ some (pos 14)
unfolding attempt available ◌-ℤ◌
late_taken = refl

second_taken : attempt sixths (pos 30) (pos 9) (pos 30) (pos 6) (pos 8) ≡ some (pos 14)
unfolding attempt available ◌-ℤ◌
second_taken = refl

both_through-Reach : Reach sixths (pos 9) (pos 30) (pos 6) (pos 0) both_through
both_through-Reach =
    later
      (later
        (later (later (later start (load 0 (pos 24))) (load 1 (pos 30)))
          (exchange 0 refl first_taken refl))
        (retry 1 refl late_taken))
      (exchange 1 refl second_taken refl)

Reach-bound_example : pos (length both_through.log * 2) ≤ℤ pos 10 +ℤ (pos 15 -ℤ pos 12)
unfolding ◌+ℤ◌
Reach-bound_example =
    Reach-bound one_and_a_half (pos 30) (pos 6) 10 2 (pos 12) (pos 15) (pos 0) (pos 0) both_through
      refl refl refl both_through-Reach
      (pos 12, refl, omega arith, (pos 15, refl, omega arith, omega arith))
