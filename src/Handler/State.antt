-- ===== src/Handler/State.antt =====
-- src/DeadlineRequestHandler.hpp: a request, and the state that its validation touches.
use cpp_burst_pool_node.Base.{ℕ, List}
use cpp_burst_pool_node.Wallet.State.{Wallet}
use cpp_burst_pool_node.NodeCom.{NodeComClient}
use cpp_burst_pool_node.Session.Response.{Response}
use cpp_burst_pool_node.Burstmath.Plot.{Lane}

-- `session` names the connection that waits for the answer.
pub record CalcDeadlineReq : Type 0 where
  pub account_id : ℕ
  pub nonce : ℕ
  pub height : ℕ
  pub scoop_nr : ℕ
  pub base_target : ℕ
  pub recip_id : ℕ
  pub gensig : List ℕ
  pub session : ℕ

-- The wallet, the client, and the answers given so far.
pub record Node : Type 0 where
  pub wallet : Wallet
  pub client : NodeComClient
  pub replies : List (ℕ × Response)

-- The arguments that a request gives to `calculate_deadlines`, with a stack of any content.
unfoldable pub lane_of : List ℕ → CalcDeadlineReq → Lane
lane_of stack r = record {
  base_target = r.base_target;
  scoop_nr = r.scoop_nr;
  gensig = r.gensig;
  addr = r.account_id;
  nonce = r.nonce;
  stack = stack;
}
