-- ===== src/System/StartTests.antt =====
-- src/Server.cpp: the global objects from a concrete configuration.
use cpp_burst_pool_node.Base.{
  ℕ, ◌-◌, ◌*◌, ◌/◌, ◌≡◌, refl, true, false, some, List, [], ◌∷◌, ◌++◌, codes, ltb, ◌==◌, replicate,
  read, take, drop, if◌then◌else◌, length-replicate, arith,
}
use cpp_burst_pool_node.Base.Dict.{text_eq, text_beq, nat_eq}
use cpp_burst_pool_node.Base.Decimal.{stoull}
use cpp_burst_pool_node.Net.{ok}
use cpp_burst_pool_node.Config.Load.{
  Values, Config, checked, field, count_of, pool_entries, load_config,
}
use cpp_burst_pool_node.Burstmath.Toy.{toy}
use cpp_burst_pool_node.Burstmath.Scoop.{calculate_scoop}
use cpp_burst_pool_node.RateLimiter.Bucket.{Double}
use cpp_burst_pool_node.RateLimiter.Limiter.{new_limiter}
use cpp_burst_pool_node.Wallet.State.{Text, Wallet}
use cpp_burst_pool_node.Wallet.Info.{
  Json, height_key, base_target_key, parse_mining_info, hex_digit, scan_gensig, adapted_mining_info,
}
use cpp_burst_pool_node.Wallet.InfoLaws.{hex_text}
use cpp_burst_pool_node.Wallet.Refresh.{
  get_mining_info, publish, block_of, set_block, refresh_block,
}
use cpp_burst_pool_node.Wallet.Miners.{cache_rows, cache_miners}
use cpp_burst_pool_node.Wallet.Construct.{initial, connect_loop, after_try, construct}
use cpp_burst_pool_node.Handler.State.{CalcDeadlineReq}
use cpp_burst_pool_node.Handler.Construct.{new_handler}
use cpp_burst_pool_node.Handler.BatchLaws.{IsComputable}
use cpp_burst_pool_node.Server.Main.{World, Globals, new_wallet, globals, shared_of}
use cpp_burst_pool_node.System.Safety.{IsBegun}
use cpp_burst_pool_node.System.Begins.{globals-IsBegun}

abbrev whole : Double
whole = record { F = ℕ; zero = 0; one = 1; sub = ◌-◌; mul = ◌*◌; div = ◌/◌; lt = ltb; same = ◌==◌ }

-- A configuration whose texts are its keys.
abbrev strings : Values
strings = record {
  Value = List ℕ;
  Number = ℕ;
  parse = λ t. t;
  is_object = λ x. true;
  member = λ x key. some key;
  members = λ x. [];
  is_string = λ x. true;
  get_string = λ x. x;
  is_uint64 = λ x. true;
  get_uint64 = λ x. 1000;
  is_int = λ x. true;
  get_int = λ x. 4;
  is_double = λ x. true;
  get_double = λ x. 5;
}

abbrev fields : Text → Text
fields key =
    if text_eq.beq key height_key
    then codes "500001"
    else (if text_eq.beq key base_target_key
        then codes "70312"
        else hex_text (replicate 32 171) ++ [])

abbrev reader : Json
reader = record {
  Document = Text;
  parse = λ text. text;
  is_object = λ d. true;
  has_member = λ d key. true;
  is_string = λ d key. true;
  get_string = λ d key. fields key;
}

abbrev blank : CalcDeadlineReq
blank = record {
  account_id = 0;
  nonce = 0;
  height = 0;
  scoop_nr = 0;
  base_target = 1;
  recip_id = 0;
  gensig = replicate 32 0;
  session = 0;
}

abbrev world : World whole
world = record {
  values = strings;
  number = λ x. x;
  shabal = toy;
  json = reader;
  transfer = record { chunks = codes "{}" ∷ []; succeeds = true };
  Con = ℕ;
  connect = λ address user password tries. some 1;
  execute_query = λ con db_name query. [];
  cores = 8;
  padding = blank ∷ blank ∷ blank ∷ blank ∷ [];
  Address = List ℕ;
  make_address = λ text. some text;
  endpoint = λ address port. record {
    open_ec = ok;
    set_option_throws = false;
    bind_ec = ok;
    listen_ec = ok;
  };
  max_size = 1152921504606846975;
}

abbrev wallet : Wallet
wallet = record {
  current_block = record {
    height = 500001;
    base_target = 70312;
    scoop = 2987;
    gensig = replicate 32 171;
  };
  cache_idx = 1;
  mining_info_0 = [];
  mining_info_1 =
      adapted_mining_info
        (record {
          height = 500001;
          base_target = 70312;
          gensig_str = hex_text (replicate 32 171) ++ [];
        })
        1000;
  mining_info_res = [];
  rounds = [];
  miners = [];
  deadline_limit = 1000;
}

wallet-construct : construct toy reader world.transfer 1000 [] ≡ some wallet
unfolding construct refresh_block parse_mining_info stoull text_beq get_mining_info initial
    set_block scan_gensig replicate hex_digit calculate_scoop read take drop cache_miners cache_rows
    publish block_of
wallet-construct = refl

abbrev cfg : Config ℕ
cfg = record {
  pool_id_to_addr = [];
  deadline_limit = 1000;
  listen_address = codes "listenAddress";
  listen_port = 4;
  wallet_url = codes "walletUrl";
  db_address = codes "dbAddress";
  db_name = codes "dbName";
  db_user = codes "dbUser";
  db_password = codes "dbPassword";
  validator_thread_count = 4;
  connection_thread_count = 4;
  allow_requests_per_second = 5;
  burst_size = 5;
  poc2_start_height = 1000;
}

cfg-load_config : load_config strings 8 (codes "{}") ≡ some cfg
unfolding load_config checked field count_of pool_entries
cfg-load_config = refl

abbrev objects : Globals whole ℕ
objects = record {
  cfg = cfg;
  wallet = wallet;
  deadline_req_handler = new_handler cfg world.padding;
  rate_limiter = new_limiter whole 5 5;
}

objects-globals : globals world (codes "{}") ≡ some objects
unfolding globals new_wallet connect_loop after_try
objects-globals = rw (cfg-load_config, wallet-construct)

blank-IsComputable : IsComputable blank
blank-IsComputable = record {
  gensig_sized = length-replicate 32 0;
  scoop_lt = omega arith;
  target_pos = omega arith;
}

globals-IsBegun_example : IsBegun 4 (shared_of objects)
globals-IsBegun_example =
    globals-IsBegun world 4 refl
      (blank-IsComputable, (blank-IsComputable, (blank-IsComputable, (blank-IsComputable, tt))))
      (codes "{}") objects objects-globals (omega arith)
