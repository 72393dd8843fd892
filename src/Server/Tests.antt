-- ===== src/Server/Tests.antt =====
-- src/Server.cpp: the theorems at concrete inputs.
use cpp_burst_pool_node.Base.{
  ℕ, ◌-◌, ◌*◌, ◌/◌, ◌≡◌, refl, true, false, some, List, [], ◌∷◌, codes, ltb, ◌==◌, if◌then◌else◌,
  arith,
}
use cpp_burst_pool_node.Net.{ok, failed, is_failure, Endpoint}
use cpp_burst_pool_node.Config.Load.{Values, Config}
use cpp_burst_pool_node.Burstmath.Toy.{toy}
use cpp_burst_pool_node.RateLimiter.Bucket.{Double}
use cpp_burst_pool_node.Wallet.State.{Text}
use cpp_burst_pool_node.Wallet.Info.{Json}
use cpp_burst_pool_node.Wallet.Construct.{initial}
use cpp_burst_pool_node.Handler.Construct.{new_handler}
use cpp_burst_pool_node.Server.Listener.{
  Listener, listener, bind_step, listen_step, option_step, run_listener,
}
use cpp_burst_pool_node.Server.ListenerLaws.{accept_each, launched, accept_each-run_listener}
use cpp_burst_pool_node.Server.Main.{World, Globals, main}
use cpp_burst_pool_node.Server.MainLaws.{main-runs}

abbrev whole : Double
whole = record { F = ℕ; zero = 0; one = 1; sub = ◌-◌; mul = ◌*◌; div = ◌/◌; lt = ltb; same = ◌==◌ }

-- An endpoint in use: `bind` fails.
abbrev in_use : Endpoint
in_use = record { open_ec = ok; set_option_throws = false; bind_ec = failed; listen_ec = ok }

abbrev busy : Listener
busy = record {
  is_open = true;
  bound = false;
  listening = false;
  accepts = 0;
  sessions = [];
  errors = codes "bind" ∷ [];
}

busy-listener : listener in_use ≡ some busy
unfolding listener option_step bind_step listen_step
busy-listener = refl

accept_each-run_listener_example :
    ((accept_each (failed ∷ ok ∷ []) (run_listener busy)).accepts
      ≡ (if is_failure in_use.open_ec then 0 else 1))
    × ((accept_each (failed ∷ ok ∷ []) (run_listener busy)).sessions
        ≡ (if is_failure in_use.open_ec then [] else launched (failed ∷ ok ∷ [])))
accept_each-run_listener_example =
    accept_each-run_listener in_use busy (failed ∷ ok ∷ []) busy-listener

-- A library of strings only.
abbrev strings : Values
strings = record {
  Value = List ℕ;
  Number = ℕ;
  parse = λ t. t;
  is_object = λ x. true;
  member = λ x key. some key;
  members = λ x. [];
  is_string = λ x. true;
  get_string = λ x. x;
  is_uint64 = λ x. true;
  get_uint64 = λ x. 1000;
  is_int = λ x. true;
  get_int = λ x. 4;
  is_double = λ x. true;
  get_double = λ x. 5;
}

abbrev reader : Json
reader = record {
  Document = Text;
  parse = λ text. text;
  is_object = λ d. false;
  has_member = λ d key. false;
  is_string = λ d key. false;
  get_string = λ d key. [];
}

abbrev world : World whole
world = record {
  values = strings;
  number = λ x. x;
  shabal = toy;
  json = reader;
  transfer = record { chunks = []; succeeds = true };
  Con = ℕ;
  connect = λ address user password tries. some 1;
  execute_query = λ con db_name query. [];
  cores = 8;
  padding = [];
  Address = List ℕ;
  make_address = λ text. some text;
  endpoint = λ address port. in_use;
  max_size = 1152921504606846975;
}

abbrev cfg : Config ℕ
cfg = record {
  pool_id_to_addr = (9, codes "pool:1") ∷ [];
  deadline_limit = 1000;
  listen_address = codes "0.0.0.0";
  listen_port = 8124;
  wallet_url = codes "wallet";
  db_address = codes "db";
  db_name = codes "burst";
  db_user = codes "user";
  db_password = [];
  validator_thread_count = 4;
  connection_thread_count = 3;
  allow_requests_per_second = 3;
  burst_size = 10;
  poc2_start_height = 502000;
}

abbrev objects : Globals whole ℕ
objects = record {
  cfg = cfg;
  wallet = initial 1000;
  deadline_req_handler = new_handler cfg [];
  rate_limiter = record { rate = 3; burst_size = 10; key_to_bucket = [] };
}

main-runs_example : main world objects ≡ some (record { acceptor = run_listener busy; runners = 3 })
main-runs_example =
    main-runs world (omega arith) (omega arith) objects (codes "0.0.0.0") busy refl busy-listener
      (omega arith) (λ e. omega (arith, e))
