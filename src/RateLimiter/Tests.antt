-- ===== src/RateLimiter/Tests.antt =====
-- src/RateLimiter.hpp: the theorems at a concrete input, with whole numbers for the doubles.
use cpp_burst_pool_node.Base.{
  ℕ, ◌/◌, ltb, true, ◌-◌, ◌*◌, ◌≡◌, refl, some, [], ◌∷◌, ◌==◌, ==_iff, if◌then◌else◌,
}
use cpp_burst_pool_node.RateLimiter.Bucket.{Double, available, attempt}
use cpp_burst_pool_node.RateLimiter.Contention.{
  outside, trying, System, Reach, start, later, load, exchange, replay, Reach-replay,
}
use cpp_burst_pool_node.RateLimiter.Alone.{Leaves, stops, turns_once, Alone-Leaves}

abbrev ticks : Double
ticks = record { F = ℕ; zero = 0; one = 1; sub = ◌-◌; mul = ◌*◌; div = ◌/◌; lt = ltb; same = ◌==◌ }

-- Two threads have loaded 0 at time 10; the first has exchanged it.
abbrev after_load : System ticks 1 5 1
after_load = record {
  zero_time = 0;
  locals = λ k. if 0 == k then trying 10 0 else outside;
  log = [];
}

abbrev after_exchange : System ticks 1 5 1
after_exchange = record {
  zero_time = 6;
  locals = λ k. if 0 == k then outside else after_load.locals k;
  log = 10 ∷ [];
}

taken : attempt ticks 10 1 5 1 0 ≡ some 6
unfolding attempt available
taken = refl

after_exchange-Reach : Reach ticks 1 5 1 0 after_exchange
after_exchange-Reach = later (later start (load 0 10)) (exchange 0 refl taken refl)

Reach-replay_example : replay ticks 1 5 1 (10 ∷ []) 0 ≡ some 6
Reach-replay_example =
    Reach-replay ticks 1 5 1 (λ a b. (==_iff a b).0) 0 after_exchange after_exchange-Reach

reflexive : (z : ℕ) → (z == z) ≡ true
reflexive z = (==_iff z z).1 refl

Alone-Leaves_example : Leaves ticks 1 5 1 2 0 1 after_exchange
Alone-Leaves_example =
    Alone-Leaves ticks 1 5 1 reflexive 0 {st = after_load} refl
      (turns_once (exchange 0 refl taken refl) refl stops)
