-- ===== src/Session/ComputableLaws.antt =====
-- src/Session.cpp: the requests that are queued are such that their deadlines can be computed.
use cpp_burst_pool_node.Base.{ℕ, ◌<◌, ◌≡◌, ap, ◌∙◌, List, [], ◌∷◌, length, All, All-append, arith}
use cpp_burst_pool_node.Base.Dict.{text_eq}
use cpp_burst_pool_node.Burstmath.Bytes.{num_scoops, hash_size}
use cpp_burst_pool_node.Wallet.State.{Block}
use cpp_burst_pool_node.RateLimiter.Bucket.{Double}
use cpp_burst_pool_node.Handler.DistributeLaws.{history}
use cpp_burst_pool_node.Handler.DistributeRuns.{enque_req-history}
use cpp_burst_pool_node.Handler.BatchLaws.{IsComputable}
use cpp_burst_pool_node.Session.Url.{Param}
use cpp_burst_pool_node.Session.Request.{Shared, handle_request}
use cpp_burst_pool_node.Session.RequestLaws.{
  Queued, Handled, answered, queued, handle_request-Handled,
}

-- A block that a refresh has set, with a base target that can divide.
pub record IsBlock (b : Block) : Type 0 where
  pub gensig_sized : length b.gensig ≡ hash_size
  pub scoop_lt : b.scoop < num_scoops
  pub target_pos : 0 < b.base_target

-- A request queued while the current block is well formed can be computed.
pub Queued-IsComputable :
    {d : Double} {session : ℕ} {params : List Param} {st st' : Shared d}
    (q : Queued d session params st st')
    → IsBlock st.node.wallet.current_block
    → IsComputable q.creq
Queued-IsComputable q b = record {
  gensig_sized = ap length q.gensig ∙ b.gensig_sized;
  scoop_lt = omega (arith, q.scoop, b.scoop_lt);
  target_pos = omega (arith, q.target, b.target_pos);
}

Handled-IsComputable :
    {d : Double} {session : ℕ} {params : List Param} {st st' : Shared d}
    → Handled d session params st st'
    → IsBlock st.node.wallet.current_block
    → All IsComputable (history st.loop)
    → All IsComputable (history st'.loop)
Handled-IsComputable (answered a) b h = rw a.same_loop h
Handled-IsComputable {st} (queued q) b h =
    rw (q.loop, enque_req-history q.creq st.loop)
      (All-append IsComputable (history st.loop) (q.creq ∷ []) h (Queued-IsComputable q b, tt))

-- If the current block has a signature of 32 bytes, a scoop below 4096 and a base target above zero,
-- and each request that the loop was ever given has the same of its own: then so has each after any
-- further request to the server.
pub handle_request-IsComputable :
    (d : Double) (now : d.F) (addr : List ℕ) (session : ℕ) (target : List ℕ) (st : Shared d)
    → IsBlock st.node.wallet.current_block
    → All IsComputable (history st.loop)
    → All IsComputable (history (handle_request d now addr session target st).loop)
handle_request-IsComputable d now addr session target st =
    Handled-IsComputable (handle_request-Handled d now addr session target st)
