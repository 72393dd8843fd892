-- ===== src/System/Tests.antt =====
-- The whole server at concrete inputs: one request that is queued and gathered.
use cpp_burst_pool_node.Base.{
  ℕ, ◌+◌, ◌-◌, ◌*◌, ◌/◌, ◌≡◌, refl, false, some, List, [], ◌∷◌, codes, ltb, ◌==◌, replicate,
  length-replicate, All, arith,
}
use cpp_burst_pool_node.Base.Dict.{nat_eq, lookup}
use cpp_burst_pool_node.Base.Takes.{total}
use cpp_burst_pool_node.Burstmath.Bytes.{gendata_size}
use cpp_burst_pool_node.Burstmath.Toy.{toy, toys}
use cpp_burst_pool_node.Wallet.State.{Text, Block}
use cpp_burst_pool_node.Wallet.Info.{Json}
use cpp_burst_pool_node.Wallet.Miners.{fresh_round}
use cpp_burst_pool_node.RateLimiter.Bucket.{Double}
use cpp_burst_pool_node.Handler.State.{CalcDeadlineReq}
use cpp_burst_pool_node.Handler.Distribute.{Loop, init, turn}
use cpp_burst_pool_node.Handler.DistributeLaws.{history, next, turn-Turned}
use cpp_burst_pool_node.Handler.Batch.{Limits}
use cpp_burst_pool_node.Handler.BatchLaws.{IsComputable}
use cpp_burst_pool_node.Handler.ValidateLaws.{IsSoundNode}
use cpp_burst_pool_node.Handler.Validator.{Validator, sse4_validator}
use cpp_burst_pool_node.Session.Request.{Shared, handle_request}
use cpp_burst_pool_node.System.Steps.{
  Asked, asked_of, Works, Reach, starts, handles, works, turns, with_loop,
}
use cpp_burst_pool_node.System.Counts.{asks, answers, same}
use cpp_burst_pool_node.System.Safety.{IsBegun, Reach-IsSystem, Reach-conserves, IsRun, Reach-runs}
use cpp_burst_pool_node.System.Drains.{Reach-drains}

abbrev pub whole : Double
whole = record { F = ℕ; zero = 0; one = 1; sub = ◌-◌; mul = ◌*◌; div = ◌/◌; lt = ltb; same = ◌==◌ }

abbrev pub block : Block
block = record { height = 500000; base_target = 70000; scoop = 12; gensig = replicate 32 7 }

abbrev pub blank : CalcDeadlineReq
blank = record {
  account_id = 0;
  nonce = 0;
  height = 0;
  scoop_nr = 0;
  base_target = 1;
  recip_id = 0;
  gensig = replicate 32 0;
  session = 0;
}

abbrev pub begun : Shared whole
begun = record {
  node = record {
    wallet = record {
      current_block = block;
      cache_idx = 0;
      mining_info_0 = codes "info";
      mining_info_1 = [];
      mining_info_res = [];
      rounds = fresh_round 500000 9 ∷ [];
      miners = (5, 0) ∷ [];
      deadline_limit = 1000;
    };
    client = record { pool_id_to_server = (9, codes "pool:1") ∷ []; calls = [] };
    replies = [];
  };
  loop = init (blank ∷ blank ∷ blank ∷ blank ∷ []);
  rl = record { rate = 1; burst_size = 5; key_to_bucket = [] };
}

pub blank-IsComputable : IsComputable blank
blank-IsComputable = record {
  gensig_sized = length-replicate 32 0;
  scoop_lt = omega arith;
  target_pos = omega arith;
}

pub begun-IsSoundNode : IsSoundNode begun.node
unfolding lookup
begun-IsSoundNode = record { in_range = λ a p h. ground arith; apart = λ a b p h k. ground arith }

abbrev pub begun-IsBegun : IsBegun 4 begun
begun-IsBegun = record {
  block = record {
    gensig_sized = length-replicate 32 7;
    scoop_lt = omega arith;
    target_pos = omega arith;
  };
  sound = begun-IsSoundNode;
  no_calls = refl;
  no_replies = refl;
  padding = blank ∷ blank ∷ blank ∷ blank ∷ [];
  loop = refl;
  padding_full = refl;
  padding_computable =
      (blank-IsComputable, (blank-IsComputable, (blank-IsComputable, (blank-IsComputable, tt))));
}

abbrev pub reader : Json
reader = record {
  Document = Text;
  parse = λ text. text;
  is_object = λ d. false;
  has_member = λ d key. false;
  is_string = λ d key. false;
  get_string = λ d key. [];
}

abbrev pub limits : Limits
limits = record { deadline_limit = 1000; poc2_start_height = 502000 }

abbrev pub validator : Validator toy limits 4
validator = sse4_validator limits (toys 4)

abbrev asked : Shared whole
asked =
    handle_request whole 10 (codes "10.0.0.1") 1
      (codes "/burst?requestType=submitNonce&accountId=5&nonce=7") begun

abbrev gathered : Shared whole
gathered = with_loop (next 4 asked.loop) asked

abbrev ask : Asked
ask = asked_of 1 (codes "/burst?requestType=submitNonce&accountId=5&nonce=7") begun.node.wallet

asked-Reach : Reach reader validator begun (ask ∷ []) [] asked
asked-Reach =
    handles 10 (codes "10.0.0.1") 1 (codes "/burst?requestType=submitNonce&accountId=5&nonce=7")
      starts

gathered-Reach : Reach reader validator begun (ask ∷ []) [] gathered
gathered-Reach = works asked-Reach (
    turns
      (turn-Turned 4 asked.loop (omega arith)
        (Reach-IsSystem reader validator (omega arith) begun begun-IsBegun asked-Reach).valid).0)

Reach-conserves_example :
    total (same 1) (ask ∷ [])
    ≡ total (answers 1) gathered.node.replies + total (asks 1) (history gathered.loop) + 0
Reach-conserves_example =
    Reach-conserves reader validator (omega arith) begun begun-IsBegun gathered-Reach 1

abbrev stack : List ℕ
stack = replicate gendata_size 0xAA

Reach-runs_example :
    ((l : Loop) × (turn 4 gathered.loop ≡ some l))
    × All (IsRun reader validator (omega arith) begun begun-IsBegun stack) gathered.loop.posted
Reach-runs_example =
    Reach-runs reader validator (omega arith) begun begun-IsBegun stack
      (length-replicate gendata_size 0xAA) gathered-Reach

Reach-drains_example :
    (st' : Shared whole) × Works reader validator [] gathered [] st'
    × (history st'.loop ≡ [])
    × ((a : ℕ) → total (same a) (ask ∷ []) ≡ total (answers a) st'.node.replies)
Reach-drains_example =
    Reach-drains reader validator (omega arith) begun begun-IsBegun gathered-Reach
