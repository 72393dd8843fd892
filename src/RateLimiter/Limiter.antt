-- ===== src/RateLimiter/Limiter.antt =====
-- src/RateLimiter.hpp: `RateLimiter::aquire`, a call that meets no other on its bucket.
use cpp_burst_pool_node.Base.{Bool, true, false, Option, none, some, List, []}
use cpp_burst_pool_node.Base.Dict.{text_eq, lookup, insert}
use cpp_burst_pool_node.RateLimiter.Bucket.{Double, Claim, refused, stored, bucket_aquire}
use cpp_burst_pool_node.Base.{ℕ}

-- The limiter's map holds the `_zero_time` of each bucket.
pub record RateLimiter (d : Double) : Type 0 where
  pub rate : d.F
  pub burst_size : d.F
  pub key_to_bucket : List (List ℕ × d.F)

module _ (d : Double) where
  -- `Bucket()`, by its `_zero_time`.
  abbrev new_bucket : d.F
  new_bucket = d.zero

  abbrev settle : RateLimiter d → List ℕ → Claim d → RateLimiter d × Bool
  settle rl key refused = (rl, false)
  settle rl key (stored old new) =
      (record rl { key_to_bucket = insert key new rl.key_to_bucket }, true)

  abbrev take_from : d.F → RateLimiter d → List ℕ → Option d.F → RateLimiter d × Bool
  take_from now rl key none =
      (record rl { key_to_bucket = insert key new_bucket rl.key_to_bucket }, true)
  take_from now rl key (some zero_time) =
      settle rl key (bucket_aquire d now rl.rate rl.burst_size d.one [] zero_time)

  -- A new key gets a bucket and is let through; any other takes one token.
  unfoldable pub aquire : d.F → List ℕ → RateLimiter d → RateLimiter d × Bool
  aquire now key rl = take_from now rl key (lookup key rl.key_to_bucket)

  unfoldable pub new_limiter : d.F → d.F → RateLimiter d
  new_limiter rate burst_size = record { rate = rate; burst_size = burst_size; key_to_bucket = [] }
