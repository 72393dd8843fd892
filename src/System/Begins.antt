-- ===== src/System/Begins.antt =====
-- src/Server.cpp: the global objects are a state for the server to begin in.
use mathlib.Core.Path.{subst, subst₂}
use cpp_burst_pool_node.Base.{
  ℕ, ◌<◌, ◌≡◌, refl, sym, some, List, [], ◌∷◌, length, All, some-eq-some, >>=-eq-some,
  length-replicate, arith,
}
use cpp_burst_pool_node.Burstmath.Shabal.{Shabal}
use cpp_burst_pool_node.Config.Load.{Config, load_config}
use cpp_burst_pool_node.Wallet.State.{Wallet}
use cpp_burst_pool_node.Wallet.Info.{Json}
use cpp_burst_pool_node.Wallet.Refresh.{Transfer, refresh_block}
use cpp_burst_pool_node.Wallet.RefreshLaws.{refresh_block-miners}
use cpp_burst_pool_node.Wallet.Miners.{cache_rows, cache_miners}
use cpp_burst_pool_node.Wallet.MinersLaws.{IsSound, cache_miners-Cached}
use cpp_burst_pool_node.Wallet.Construct.{initial, connect_loop, construct}
use cpp_burst_pool_node.Wallet.ConstructLaws.{initial-IsSound}
use cpp_burst_pool_node.RateLimiter.Bucket.{Double}
use cpp_burst_pool_node.RateLimiter.Limiter.{RateLimiter}
use cpp_burst_pool_node.NodeCom.Connect.{new_client}
use cpp_burst_pool_node.Handler.Construct.{new_handler}
use cpp_burst_pool_node.Handler.BatchLaws.{IsComputable}
use cpp_burst_pool_node.Server.Main.{World, Globals, new_wallet, globals, shared_of}
use cpp_burst_pool_node.System.Invariant.{refresh_block-IsSized, IsSized}
use cpp_burst_pool_node.System.Safety.{IsBegun}

initial-IsSized : (limit : ℕ) → IsSized (initial limit).current_block
unfolding initial
initial-IsSized limit = record { gensig_sized = length-replicate 32 0; scoop_lt = omega arith }

same_block-cache_rows :
    (height : ℕ) (rows new : List (ℕ × ℕ)) (w : Wallet)
    → (cache_rows height new rows w).current_block ≡ w.current_block
unfolding cache_rows
same_block-cache_rows height [] new w = refl
same_block-cache_rows height ((x, r) ∷ rows) new w = same_block-cache_rows height rows _ _

same_block-cache_miners :
    (height : ℕ) (rows : List (ℕ × ℕ)) (w : Wallet)
    → (cache_miners height rows w).current_block ≡ w.current_block
unfolding cache_miners
same_block-cache_miners height rows w = same_block-cache_rows height rows [] w

cache_miners-IsSound :
    (height : ℕ) (rows : List (ℕ × ℕ)) (w : Wallet)
    → IsSound w.miners w.rounds
    → IsSound (cache_miners height rows w).miners (cache_miners height rows w).rounds
unfolding cache_miners cache_rows
cache_miners-IsSound height [] w v = v
cache_miners-IsSound height ((x, r) ∷ rows) w v = (cache_miners-Cached height x r rows w v).sound

-- A wallet as its constructor leaves it.
record IsWallet (w : Wallet) : Type 0 where
  sized : IsSized w.current_block
  sound : IsSound w.miners w.rounds

construct-IsWallet :
    (s : Shabal) (j : Json) (t : Transfer) (limit : ℕ) (rows : List (ℕ × ℕ)) (w : Wallet)
    → construct s j t limit rows ≡ some w
    → IsWallet w
unfolding construct
construct-IsWallet s j t limit rows w e =
    let ((u, b), f, g) = >>=-eq-some (refresh_block s j t (initial limit)) _ e in
    let (same_miners, same_rounds) = refresh_block-miners s j t (initial limit) u b f in
    subst IsWallet (some-eq-some g) (record {
      sized =
          subst IsSized (sym (same_block-cache_miners u.current_block.height rows u))
            (refresh_block-IsSized s j t (initial limit) u b (initial-IsSized limit) f);
      sound =
          cache_miners-IsSound u.current_block.height rows u
            (subst₂ IsSound (sym same_miners) (sym same_rounds) (initial-IsSound limit));
    })

new_wallet-IsWallet :
    {d : Double} (w : World d) (cfg : Config w.values.Number) (wallet : Wallet)
    → new_wallet w cfg ≡ some wallet
    → IsWallet wallet
unfolding new_wallet
new_wallet-IsWallet w cfg wallet e =
    let (con, f, g) =
      >>=-eq-some (connect_loop (w.connect cfg.db_address cfg.db_user cfg.db_password) 10 0) _ e in
    construct-IsWallet w.shabal w.json w.transfer cfg.deadline_limit _ wallet g

module _ {d : Double} (w : World d) (parallel : ℕ) (full : length w.padding ≡ parallel)
    (computable : All IsComputable w.padding) where
  made-IsBegun :
      (cfg : Config w.values.Number) (wallet : Wallet) (rl : RateLimiter d)
      → IsWallet wallet
      → 0 < wallet.current_block.base_target
      → IsBegun parallel (
          shared_of (record {
            cfg = cfg;
            wallet = wallet;
            deadline_req_handler = new_handler cfg w.padding;
            rate_limiter = rl;
          }))
  unfolding shared_of new_handler new_client
  made-IsBegun cfg wallet rl v p = record {
    block = record {
      gensig_sized = v.sized.gensig_sized;
      scoop_lt = v.sized.scoop_lt;
      target_pos = p;
    };
    sound = v.sound;
    no_calls = refl;
    no_replies = refl;
    padding = w.padding;
    loop = refl;
    padding_full = full;
    padding_computable = computable;
  }

  -- When the global objects come about, whatever the configuration, the database and the wallet's
  -- node say, and the first block has a base target above zero: they are a state for the server to
  -- begin in, provided that the padding of the batches, which the code leaves uninitialised but for
  -- the base target, is of the right number and can be computed.
  pub globals-IsBegun :
      (config_json : List ℕ) (g : Globals d w.values.Number)
      → globals w config_json ≡ some g
      → 0 < g.wallet.current_block.base_target
      → IsBegun parallel (shared_of g)
  unfolding globals
  globals-IsBegun config_json g e p =
      let (cfg, f, e2) = >>=-eq-some (load_config w.values w.cores config_json) _ e in
      let (wallet, f2, e3) = >>=-eq-some (new_wallet w cfg) _ e2 in
      let same = some-eq-some e3 in
      subst (λ (h : Globals d w.values.Number). IsBegun parallel (shared_of h)) same
        (made-IsBegun cfg wallet _ (new_wallet-IsWallet w cfg wallet f2) (
          subst (λ (h : Globals d w.values.Number). 0 < h.wallet.current_block.base_target)
            (sym same) p))
