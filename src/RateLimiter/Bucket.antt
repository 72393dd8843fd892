-- ===== src/RateLimiter/Bucket.antt =====
-- src/RateLimiter.hpp: `Bucket`. The operations of `double` are a parameter.
use cpp_burst_pool_node.Base.{Bool, Option, none, some, List, [], ◌∷◌, if◌then◌else◌}

-- What the code does with a `double`. `same` is the comparison of `compare_exchange_weak`.
pub record Double : Type 1 where
  pub F : Type 0
  pub zero : F
  pub one : F
  pub sub : F → F → F
  pub mul : F → F → F
  pub div : F → F → F
  pub lt : F → F → Bool
  pub same : F → F → Bool

module _ (d : Double) where
  open d use {F, sub, mul, div, lt}

  -- `std::min(a, b)`
  abbrev pub min : F → F → F
  min a b = if lt b a then b else a

  unfoldable pub available : F → F → F → F → F
  available now rate burst_size zero_time = min (mul (sub now zero_time) rate) burst_size

  -- One turn of the loop up to the exchange: the new value, or `none` for too few tokens.
  unfoldable pub attempt : F → F → F → F → F → Option F
  unfolding available
  attempt now rate burst_size consume zero_time =
      let tokens = available now rate burst_size zero_time in
      if lt tokens consume then none else some (sub now (div (sub tokens consume) rate))

  -- Where the call ends.
  pub data Claim : Type 0 where
    refused : Claim
    stored : (old : F) → (new : F) → Claim

  -- The whole loop. `seen` holds the values that failed exchanges load, the exchange after them
  -- succeeds.
  unfoldable pub bucket_aquire : F → F → F → F → List F → F → Claim
  bucket_aquire now rate burst_size consume [] zero_time =
      elim (attempt now rate burst_size consume zero_time) [
        | none ↦ refused
        | some new ↦ stored zero_time new
      ]
  bucket_aquire now rate burst_size consume (x ∷ seen) zero_time =
      elim (attempt now rate burst_size consume zero_time) [
        | none ↦ refused
        | some _ ↦ bucket_aquire now rate burst_size consume seen x
      ]
