-- ===== src/Server/Main.antt =====
-- src/Server.cpp: the global objects and `main`. An exception or a failed assertion ends the
-- program (`none`). The logging of glog is left out.
use cpp_burst_pool_node.Base.{
  ℕ, zero, suc, ◌+◌, ◌-◌, ◌%◌, ◌^◌, Option, none, some, List, [], ltb, leb, if◌then◌else◌, map,
  ◌>>=◌,
}
use cpp_burst_pool_node.Net.{Endpoint}
use cpp_burst_pool_node.Burstmath.Shabal.{Shabal}
use cpp_burst_pool_node.Config.Load.{Values, Config, load_config}
use cpp_burst_pool_node.Wallet.State.{Wallet}
use cpp_burst_pool_node.Wallet.Info.{Json}
use cpp_burst_pool_node.Wallet.Refresh.{Transfer}
use cpp_burst_pool_node.Wallet.Construct.{recip_query, connect_loop, construct}
use cpp_burst_pool_node.RateLimiter.Bucket.{Double}
use cpp_burst_pool_node.RateLimiter.Limiter.{RateLimiter, new_limiter}
use cpp_burst_pool_node.Handler.State.{CalcDeadlineReq}
use cpp_burst_pool_node.Handler.Construct.{DeadlineRequestHandler, new_handler}
use cpp_burst_pool_node.Session.Request.{Shared}
use cpp_burst_pool_node.Server.Listener.{Listener, listener, run_listener}

-- What lies outside the program: the JSON libraries, the first transfer from the wallet's node, the
-- database with its connections, the addresses of boost, the network, and how many elements a
-- vector of threads may hold.
pub record World (d : Double) : Type 1 where
  pub values : Values
  pub number : values.Number → d.F
  pub shabal : Shabal
  pub json : Json
  pub transfer : Transfer
  pub Con : Type 0
  pub connect : List ℕ → List ℕ → List ℕ → ℕ → Option Con
  pub execute_query : Con → List ℕ → List ℕ → List (ℕ × ℕ)
  pub cores : ℕ
  pub padding : List CalcDeadlineReq
  pub Address : Type 0
  pub make_address : List ℕ → Option Address
  pub endpoint : Address → ℕ → Endpoint
  pub max_size : ℕ

-- The objects before `main`.
pub record Globals (d : Double) (Number : Type 0) : Type 1 where
  pub cfg : Config Number
  pub wallet : Wallet
  pub deadline_req_handler : DeadlineRequestHandler
  pub rate_limiter : RateLimiter d

-- The process while `main` is in its last call of `ioc.run`.
pub record Serving : Type 0 where
  pub acceptor : Listener
  pub runners : ℕ

-- An `int`, given by its 32 bits, less one, and its value as a `size_t`.
unfoldable pub minus_one : ℕ → ℕ
minus_one n = (n + (2 ^ 32 - 1)) % 2 ^ 32

unfoldable pub as_size : ℕ → ℕ
as_size n = if ltb n (2 ^ 31) then n else n + (2 ^ 64 - 2 ^ 32)

-- The turns of the loop that adds to `v`.
unfoldable pub emplace : ℕ → ℕ → ℕ
emplace zero v = v
emplace (suc i) v = emplace i (v + 1)

-- `for (auto i = threads - 1; i > 0; --i)`, for the 32 bits of `threads - 1`.
unfoldable pub worker_threads : ℕ → ℕ
worker_threads i = if ltb i (2 ^ 31) then emplace i 0 else 0

module _ {d : Double} (w : World d) where
  unfoldable pub new_wallet : Config w.values.Number → Option Wallet
  new_wallet cfg = do
    con ← connect_loop (w.connect cfg.db_address cfg.db_user cfg.db_password) 10 0
    construct w.shabal w.json w.transfer cfg.deadline_limit
        (w.execute_query con cfg.db_name (recip_query (map (λ p. p.0) cfg.pool_id_to_addr)))

  unfoldable pub globals : List ℕ → Option (Globals d w.values.Number)
  globals config_json = do
    cfg ← load_config w.values w.cores config_json
    wallet ← new_wallet cfg
    some (record {
      cfg = cfg;
      wallet = wallet;
      deadline_req_handler = new_handler cfg w.padding;
      rate_limiter =
          new_limiter d (w.number cfg.allow_requests_per_second) (w.number cfg.burst_size);
    })

  -- `v.reserve(n)`, and the threads that then run the service besides the main one. That memory or
  -- the system's threads run out is not modelled.
  unfoldable pub start_threads : ℕ → Listener → Option Serving
  start_threads threads l =
      if leb (as_size (minus_one threads)) w.max_size
      then some (record { acceptor = l; runners = worker_threads (minus_one threads) + 1 })
      else none

  unfoldable pub main : Globals d w.values.Number → Option Serving
  main g = do
    address ← w.make_address g.cfg.listen_address
    l ← listener (w.endpoint address g.cfg.listen_port)
    start_threads g.cfg.connection_thread_count (run_listener l)

-- What the sessions share once the process runs.
unfoldable pub shared_of : {d : Double} {N : Type 0} → Globals d N → Shared d
shared_of g = record {
  node = record {
    wallet = g.wallet;
    client = g.deadline_req_handler.node_com_client;
    replies = [];
  };
  loop = g.deadline_req_handler.loop;
  rl = g.rate_limiter;
}
