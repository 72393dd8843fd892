-- ===== src/NodeCom/Tests.antt =====
-- src/NodeComClient.hpp: the theorems at concrete inputs.
use cpp_burst_pool_node.Base.{
  ℕ, ◌+◌, ◌≡◌, refl, true, false, none, some, List, [], ◌∷◌, codes, length, map, arith,
}
use cpp_burst_pool_node.Base.Dict.{nat_eq, lookup}
use cpp_burst_pool_node.Base.Takes.{here, later}
use cpp_burst_pool_node.Config.Load.{Values, pool_entries}
use cpp_burst_pool_node.Config.PoolLaws.{last_addr, entry}
use cpp_burst_pool_node.NodeCom.{NodeComClient, SubmitNonceRequest, started, do_submit_nonce}
use cpp_burst_pool_node.NodeCom.Connect.{new_client}
use cpp_burst_pool_node.NodeCom.ConnectLaws.{do_submit_nonce-pool_entries}
use cpp_burst_pool_node.NodeCom.Calls.{
  AsyncCalls, no_calls, start_call, submit_call, async_complete_rpc,
}
use cpp_burst_pool_node.NodeCom.CallsLaws.{
  Reach, begins, submits, DeliversAll, nothing, first, failed, Reach-async_complete_rpc,
}

-- A library of strings only.
abbrev strings : Values
strings = record {
  Value = List ℕ;
  Number = ℕ;
  parse = λ t. t;
  is_object = λ x. true;
  member = λ x key. none;
  members = λ x. [];
  is_string = λ x. true;
  get_string = λ x. x;
  is_uint64 = λ x. true;
  get_uint64 = λ x. 0;
  is_int = λ x. true;
  get_int = λ x. 0;
  is_double = λ x. true;
  get_double = λ x. 0;
}

abbrev pools : List (ℕ × List ℕ)
pools = (9, codes "pool:1") ∷ (10282355196851764065, codes "pool:2") ∷ []

abbrev req : SubmitNonceRequest
req = record { account_id = 5; nonce = 7; deadline = 42; block_height = 500000 }

do_submit_nonce-pool_entries_example :
    (m : List (ℕ × List ℕ)) × (pool_entries strings
        (map (entry strings (λ t. t) (λ t. refl) (λ t. refl)) pools)
        []
      ≡ some m)
    × ((do_submit_nonce 9 req (new_client m)).calls ≡ started (last_addr 9 pools none) req)
do_submit_nonce-pool_entries_example =
    do_submit_nonce-pool_entries strings (λ t. t) (λ t. refl) (λ t. refl) pools 9 req
      (omega arith, (omega arith, tt))

abbrev client : NodeComClient
client = record { pool_id_to_server = (9, codes "pool:1") ∷ []; calls = [] }

-- Two calls are started, and come back in the other order.
abbrev two_calls : AsyncCalls
two_calls = submit_call 9 req (submit_call 9 req (no_calls client))

abbrev two_calls-Reach : Reach client two_calls
two_calls-Reach = submits 9 req (submits 9 req begins)

both_back : DeliversAll ((0, false) ∷ (1, true) ∷ []) two_calls.pending []
unfolding submit_call start_call no_calls lookup do_submit_nonce
both_back = first (later here) (first here nothing)

Reach-async_complete_rpc_example :
    ((t : AsyncCalls) × (async_complete_rpc ((0, false) ∷ (1, true) ∷ []) two_calls ≡ some t)
      × (t.live ≡ [])
      × (t.failures ≡ two_calls.failures + failed ((0, false) ∷ (1, true) ∷ [])))
    × (two_calls.next_call ≡ length two_calls.client.calls)
Reach-async_complete_rpc_example =
    Reach-async_complete_rpc client two_calls ((0, false) ∷ (1, true) ∷ []) [] refl two_calls-Reach
      both_back
