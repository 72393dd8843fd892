-- ===== src/NodeCom.antt =====
-- src/NodeComClient.hpp: the client that forwards nonces to the pools' servers. A server is known
-- by its address; the calls that were started are kept in order.
pub mod Connect
pub mod ConnectLaws
pub mod Calls
pub mod CallsLaws
mod Tests
use cpp_burst_pool_node.Base.{ℕ, Option, none, some, List, [], ◌∷◌, ◌++◌}
use cpp_burst_pool_node.Base.Dict.{nat_eq, lookup}

pub record SubmitNonceRequest : Type 0 where
  pub account_id : ℕ
  pub nonce : ℕ
  pub deadline : ℕ
  pub block_height : ℕ

pub record NodeComClient : Type 0 where
  pub pool_id_to_server : List (ℕ × List ℕ)
  pub calls : List (List ℕ × SubmitNonceRequest)

-- The call that is started, if a server is found.
unfoldable pub started : Option (List ℕ) → SubmitNonceRequest → List (List ℕ × SubmitNonceRequest)
started none req = []
started (some addr) req = (addr, req) ∷ []

unfoldable pub do_submit_nonce : ℕ → SubmitNonceRequest → NodeComClient → NodeComClient
do_submit_nonce recip_id req c = record c {
  calls = c.calls ++ started (lookup recip_id c.pool_id_to_server) req;
}
