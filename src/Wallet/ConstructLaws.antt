-- ===== src/Wallet/ConstructLaws.antt =====
-- src/Wallet.hpp: the wallet that the constructor leaves.
use cpp_burst_pool_node.Base.{ℕ, ◌≡◌, sym, Bool, none, some, List, ◌∷◌}
use cpp_burst_pool_node.Base.Dict.{nat_eq, lookup}
use mathlib.Core.Path.{subst₂}
use cpp_burst_pool_node.Burstmath.Shabal.{Shabal}
use cpp_burst_pool_node.Wallet.State.{Wallet}
use cpp_burst_pool_node.Wallet.Info.{Json, parse_mining_info}
use cpp_burst_pool_node.Wallet.Refresh.{Transfer, get_mining_info, refresh_block}
use cpp_burst_pool_node.Wallet.RefreshLaws.{
  HasSignature, refresh_block-returns, refresh_block-miners,
}
use cpp_burst_pool_node.Wallet.Miners.{cache_miners}
use cpp_burst_pool_node.Wallet.MinersLaws.{IsSound, Cached, cache_miners-Cached}
use cpp_burst_pool_node.Wallet.Construct.{initial, construct}

pub initial-IsSound : (limit : ℕ) → IsSound (initial limit).miners (initial limit).rounds
unfolding lookup initial
initial-IsSound limit = record { in_range = λ a p h. cc; apart = λ a b p h k. cc }

-- If the query gives at least one row, and the signature of the first mining info, should there be
-- an info, is of 32 bytes in hexadecimal digits: the constructor ends, in a sound wallet with a
-- fresh round at the height of the first block for each account of the rows, and no other rounds
-- in the map.
construct-Cached :
    (s : Shabal) (j : Json) (t : Transfer) (limit x r : ℕ) (rows : List (ℕ × ℕ))
    → HasSignature s j (parse_mining_info j (get_mining_info t (initial limit)).1)
    → (w : Wallet) × (b : Bool) × (refresh_block s j t (initial limit) ≡ some (w, b))
      × (construct s j t limit ((x, r) ∷ rows)
          ≡ some (cache_miners w.current_block.height ((x, r) ∷ rows) w))
      × Cached w.current_block.height
          ((x, r) ∷ rows)
          (λ a. none)
          (cache_miners w.current_block.height ((x, r) ∷ rows) w)
unfolding construct
construct-Cached s j t limit x r rows h =
    let (w, b, e, _) = refresh_block-returns s j t (initial limit) h in
    let (same_miners, same_rounds) = refresh_block-miners s j t (initial limit) w b e in
    (
      w,
      b,
      e,
      rw e,
      cache_miners-Cached w.current_block.height x r rows w
          (subst₂ IsSound (sym same_miners) (sym same_rounds) (initial-IsSound limit)),
    )
