-- ===== src/Handler/Tests.antt =====
-- src/DeadlineRequestHandler.cpp: the theorems at concrete inputs.
use cpp_burst_pool_node.Base.{
  ℕ, ◌-◌, ◌^◌, ◌≡◌, refl, false, some, List, [], ◌∷◌, ◌++◌, codes, length, replicate,
  length-replicate, arith,
}
use cpp_burst_pool_node.Base.Dict.{nat_eq, lookup}
use cpp_burst_pool_node.Burstmath.Bytes.{gendata_size}
use cpp_burst_pool_node.Burstmath.Toy.{toy}
use cpp_burst_pool_node.Wallet.State.{Text}
use cpp_burst_pool_node.Wallet.Info.{Json}
use cpp_burst_pool_node.Wallet.Miners.{fresh_round, cache_miners}
use cpp_burst_pool_node.Handler.State.{CalcDeadlineReq, Node}
use cpp_burst_pool_node.Handler.Validate.{validate_deadline}
use cpp_burst_pool_node.Handler.ValidateLaws.{
  view, IsSoundNode, Validated, validate_deadline-Validated,
}
use cpp_burst_pool_node.Handler.Forwarded.{
  best, forwards, validate_each-best, validate_each-forwards,
}
use cpp_burst_pool_node.Handler.Stale.{validate, start, later, no_call_at_other_height}
use cpp_burst_pool_node.Handler.Distribute.{Loop, init}
use cpp_burst_pool_node.Handler.DistributeLaws.{contents, history, IsLoop}
use cpp_burst_pool_node.Handler.DistributeRuns.{
  Event, arrives, turns, arrivals, run, repeat_turn, run_init_history, turns_post_all,
}
use cpp_burst_pool_node.Handler.Batch.{Limits}
use cpp_burst_pool_node.Handler.BatchLaws.{validate_each}

abbrev some_node : Node
some_node = record {
  wallet = record {
    current_block = record {
      height = 500000;
      base_target = 70000;
      scoop = 12;
      gensig = replicate 32 7;
    };
    cache_idx = 0;
    mining_info_0 = codes "info";
    mining_info_1 = [];
    mining_info_res = [];
    rounds = fresh_round 500000 9 ∷ [];
    miners = (5, 0) ∷ [];
    deadline_limit = 1000;
  };
  client = record { pool_id_to_server = (9, codes "pool:1") ∷ []; calls = [] };
  replies = [];
}

some_node-IsSoundNode : IsSoundNode some_node
unfolding lookup
some_node-IsSoundNode = record {
  in_range = λ a p h. ground arith;
  apart = λ a b p h k. ground arith;
}

abbrev some_req : ℕ → CalcDeadlineReq
some_req nonce = record {
  account_id = 5;
  nonce = nonce;
  height = 500000;
  scoop_nr = 12;
  base_target = 70000;
  recip_id = 9;
  gensig = replicate 32 7;
  session = nonce;
}

validate_deadline-Validated_example :
    Validated 1000 (some_req 1) 42 some_node (validate_deadline 1000 (some_req 1) 42 some_node)
validate_deadline-Validated_example =
    validate_deadline-Validated 1000 (some_req 1) 42 some_node some_node-IsSoundNode

-- The second deadline is no better than the first.
abbrev found : List (CalcDeadlineReq × ℕ)
found = (some_req 1, 42) ∷ (some_req 2, 50) ∷ (some_req 3, 40) ∷ []

five_round : view some_node 5 ≡ some (fresh_round 500000 9)
unfolding lookup
five_round = refl

validate_each-best_example :
    view (validate_each 1000 found some_node) 5
    ≡ some (record (fresh_round 500000 9) { deadline = best 1000 5 500000 found (2 ^ 64 - 1) })
validate_each-best_example =
    validate_each-best 1000 5 found some_node (fresh_round 500000 9) some_node-IsSoundNode refl
      five_round

validate_each-forwards_example :
    (validate_each 1000 found some_node).client.calls
    ≡ [] ++ forwards ((9, codes "pool:1") ∷ []) 1000 5 500000 found (2 ^ 64 - 1)
validate_each-forwards_example =
    validate_each-forwards 1000 5 found some_node (fresh_round 500000 9) (refl, (refl, (refl, tt)))
      some_node-IsSoundNode refl five_round

abbrev three : List CalcDeadlineReq
three = some_req 1 ∷ some_req 2 ∷ some_req 3 ∷ []

abbrev limits : Limits
limits = record { deadline_limit = 1000; poc2_start_height = 502000 }

abbrev stack : List ℕ
stack = replicate gendata_size 0xAA

abbrev seven : List CalcDeadlineReq
seven = some_req 4 ∷ some_req 5 ∷ some_req 6 ∷ some_req 7 ∷ three

-- Two requests arrive, and the first is taken from the queue.
abbrev events : List Event
events = arrives (some_req 1) ∷ arrives (some_req 2) ∷ turns ∷ []

abbrev padding : List CalcDeadlineReq
padding = replicate 4 (some_req 0)

padding-length : length padding ≡ 4
padding-length = length-replicate 4 (some_req 0)

run_init_history_example :
    (s : Loop) × (run 4 events (init padding) ≡ some s) × IsLoop 4 s × (history s ≡ arrivals events)
run_init_history_example = run_init_history 4 (omega arith) events padding padding-length

abbrev waiting : Loop
waiting = record { q = some_req 3 ∷ []; posted = []; reqs = padding; pending = 2; waited = 7 }

waiting-IsLoop : IsLoop 4 waiting
waiting-IsLoop = record { pending_le = omega arith; full = padding-length; batches = tt }

turns_post_all_example :
    (s' : Loop) × (repeat_turn 4 53 waiting ≡ some s')
    × (contents s'.posted ≡ history waiting)
    × (s'.pending ≡ 0)
turns_post_all_example = turns_post_all 4 (omega arith) waiting waiting-IsLoop

abbrev reader : Json
reader = record {
  Document = Text;
  parse = λ text. text;
  is_object = λ d. false;
  has_member = λ d key. false;
  is_string = λ d key. false;
  get_string = λ d key. [];
}

abbrev constructed : Node
constructed = record some_node { wallet = cache_miners 499999 ((5, 9) ∷ []) some_node.wallet }

abbrev validated : Node
validated = validate_deadline 1000 (some_req 1) 42 constructed

no_call_at_other_height_example :
    (validate_deadline 1000 (some_req 2) 40 validated).client.calls ≡ validated.client.calls
no_call_at_other_height_example =
    no_call_at_other_height toy reader 1000 499999 5 9 [] some_node validated (some_req 2) 40
      some_node-IsSoundNode (later start (validate (some_req 1) 42)) (λ e. omega (arith, e))
