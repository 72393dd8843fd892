-- ===== src/Wallet/Refresh.antt =====
-- src/Wallet.cpp: `get_mining_info` and `refresh_block`.
use cpp_burst_pool_node.Base.{
  ℕ, Bool, true, false, Option, none, some, List, [], ◌∷◌, ◌++◌, ltb, ◌==◌, if◌then◌else◌, ◌>>=◌,
}
use cpp_burst_pool_node.Burstmath.Shabal.{Shabal}
use cpp_burst_pool_node.Burstmath.Scoop.{calculate_scoop}
use cpp_burst_pool_node.Wallet.State.{Text, Block, Wallet, get_current_block}
use cpp_burst_pool_node.Wallet.Info.{
  Json, MiningInfo, parse_mining_info, scan_gensig, adapted_mining_info,
}

-- What one `curl_easy_perform` does: the chunks handed to `write_cb`, and whether it ends with
-- CURLE_OK.
pub record Transfer : Type 0 where
  pub chunks : List Text
  pub succeeds : Bool

unfoldable pub write_cb : Text → Text → Text
write_cb userp contents = userp ++ contents

unfoldable pub receive : Text → List Text → Text
unfolding write_cb
receive res [] = res
receive res (c ∷ cs) = receive (write_cb res c) cs

unfoldable pub get_mining_info : Transfer → Wallet → Wallet × Text
get_mining_info t w =
    if t.succeeds
    then (record w { mining_info_res = [] }, receive w.mining_info_res t.chunks)
    else (record w { mining_info_res = receive w.mining_info_res t.chunks }, [])

-- The buffer that is not being served gets the new text, and then the index is turned.
unfoldable pub publish : Text → Wallet → Wallet
publish text w =
    if w.cache_idx == 0
    then record w { mining_info_1 = text; cache_idx = 1 }
    else record w { mining_info_0 = text; cache_idx = 0 }

unfoldable pub block_of : MiningInfo → List ℕ → ℕ → Block
block_of info gensig scoop = record {
  height = info.height;
  base_target = info.base_target;
  scoop = scoop;
  gensig = gensig;
}

module _ (s : Shabal) where
  -- The part under the unique lock. `none` where a byte of the signature would be unset.
  unfoldable pub set_block : MiningInfo → Wallet → Option Wallet
  set_block info w = do
    gensig ← scan_gensig 32 info.gensig_str
    scoop ← calculate_scoop s info.height gensig
    some (
        publish (adapted_mining_info info w.deadline_limit)
          (record w { current_block = block_of info gensig scoop }))

  -- An info counts only if it is of a higher block than the current one.
  unfoldable pub accept : Wallet → Option MiningInfo → Option (Wallet × Bool)
  accept w none = some (w, false)
  accept w (some info) =
      if ltb (get_current_block w).height info.height
      then (do w' ← set_block info w; some (w', true))
      else some (w, false)

  unfoldable pub refresh_block : Json → Transfer → Wallet → Option (Wallet × Bool)
  unfolding get_current_block accept
  refresh_block j t w =
      let (w', mining_info) = get_mining_info t w in accept w' (parse_mining_info j mining_info)
