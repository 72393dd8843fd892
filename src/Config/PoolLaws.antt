-- ===== src/Config/PoolLaws.antt =====
-- src/Config.hpp: the map of the pools.
use mathlib.Core.List.{append-nil}
use cpp_burst_pool_node.Base.{
  ℕ, ◌<◌, ◌^◌, ◌≡◌, refl, sym, ap, ◌∙◌, true, Option, none, some, List, [], ◌∷◌, ◌==◌, map,
  if◌then◌else◌, All,
}
use cpp_burst_pool_node.Base.Dict.{nat_eq, lookup, insert, lookup-insert, Distinct, insert-Distinct}
use cpp_burst_pool_node.Base.Decimal.{stoull, to_string, starts_digit, stoull-to_string}
use cpp_burst_pool_node.Config.Load.{Values, checked, pool_entries}

abbrev Pools : Type 0
Pools = List (ℕ × List ℕ)

-- The address of the last pair with a number.
abbrev pub last_addr : ℕ → Pools → Option (List ℕ) → Option (List ℕ)
last_addr k [] found = found
last_addr k ((pool_id, addr) ∷ rest) found =
    last_addr k rest (if pool_id == k then some addr else found)

stoull-to_string_all : (n : ℕ) → n < 2 ^ 64 → stoull (to_string n) ≡ some n
unfolding starts_digit
stoull-to_string_all n h = ap stoull (sym (append-nil (to_string n))) ∙ stoull-to_string n [] h refl

module _ (v : Values) (text : List ℕ → v.Value)
    (is_text : (t : List ℕ) → v.is_string (text t) ≡ true)
    (the_text : (t : List ℕ) → v.get_string (text t) ≡ t) where
  abbrev pub entry : ℕ × List ℕ → v.Value × v.Value
  entry p = (text (to_string p.0), text p.1)

  pool_entries-entry :
      (ps m : Pools) (k : ℕ)
      → All (λ p. p.0 < 2 ^ 64) ps
      → Distinct m
      → (m' : Pools) × (pool_entries v (map entry ps) m ≡ some m')
        × (lookup k m' ≡ last_addr k ps (lookup k m))
        × Distinct m'
  unfolding pool_entries checked
  pool_entries-entry [] m k h d = (m, refl, refl, d)
  pool_entries-entry ((pool_id, addr) ∷ ps) m k h d =
      let (m', e, found, d') =
        pool_entries-entry ps (insert pool_id addr m) k h.1 (insert-Distinct pool_id addr m d) in
      (
        m',
        rw
            (
              is_text (to_string pool_id),
              is_text addr,
              the_text (to_string pool_id),
              the_text addr,
              stoull-to_string_all pool_id h.0,
            )
            e,
        found ∙ ap (last_addr k ps) (lookup-insert pool_id k addr m),
        d',
      )

  -- The pools that are read have distinct numbers.
  pub pool_entries-Distinct :
      (ps : Pools) (k : ℕ)
      → All (λ p. p.0 < 2 ^ 64) ps
      → (m : Pools) × (pool_entries v (map entry ps) [] ≡ some m)
        × (lookup k m ≡ last_addr k ps none)
        × Distinct m
  unfolding lookup
  pool_entries-Distinct ps k h = pool_entries-entry ps [] k h tt

  -- For any JSON library that has a string value for each text: pools written as an object from
  -- their numbers, below 2 ^ 64, in decimal, to their addresses are all read, and each number has
  -- the address of its last pair, and no other number one.
  pub lookup-pool_entries :
      (ps : Pools) (k : ℕ)
      → All (λ p. p.0 < 2 ^ 64) ps
      → (m : Pools) × (pool_entries v (map entry ps) [] ≡ some m)
        × (lookup k m ≡ last_addr k ps none)
  unfolding lookup
  lookup-pool_entries ps k h =
      let (m, e, found, d) = pool_entries-entry ps [] k h tt in (m, e, found)
