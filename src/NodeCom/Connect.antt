-- ===== src/NodeCom/Connect.antt =====
-- src/NodeComClient.hpp: the constructor, which connects to the server of each pool.
use cpp_burst_pool_node.Base.{ℕ, List, []}
use cpp_burst_pool_node.Base.Dict.{nat_eq, insert_all}
use cpp_burst_pool_node.NodeCom.{NodeComClient}

-- The channel and the stub of a pool are known by the address they were made with.
unfoldable pub new_client : List (ℕ × List ℕ) → NodeComClient
new_client pool_id_to_addr = record {
  pool_id_to_server = insert_all pool_id_to_addr [];
  calls = [];
}
