-- ===== src/Session/Tests.antt =====
-- src/Session.cpp: the theorems at concrete inputs.
use cpp_burst_pool_node.Base.{
  ℕ, ◌-◌, ◌*◌, ◌/◌, ◌≡◌, true, none, List, [], ◌∷◌, ◌++◌, codes, ltb, ◌==◌, replicate, All, arith,
}
use cpp_burst_pool_node.Base.Dict.{text_eq, nat_eq, lookup}
use cpp_burst_pool_node.RateLimiter.Bucket.{Double}
use cpp_burst_pool_node.Wallet.Miners.{fresh_round}
use cpp_burst_pool_node.Session.Url.{Param, is_key_char, parse_url}
use cpp_burst_pool_node.Session.UrlLaws.{IsParam, print, last_value, lookup-parse_url}
use cpp_burst_pool_node.Session.Request.{empty_response, Shared, handle_request}
use cpp_burst_pool_node.Session.RequestLaws.{Handled, handle_request-Handled}
use cpp_burst_pool_node.Net.{ok}
use cpp_burst_pool_node.Session.Response.{success}
use cpp_burst_pool_node.Session.Connection.{
  new_session, run, do_read, read_done, on_read, start_write, write_done,
}
use cpp_burst_pool_node.Session.ConnectionLaws.{Life, Reach, start, later, receive, answer, send}

abbrev path : List ℕ
path = codes "/burst"

abbrev params : List Param
params =
    (codes "requestType", codes "submitNonce")
    ∷ (codes "nonce", codes "7")
    ∷ (codes "nonce", codes "8")
    ∷ []

params-IsParam : All IsParam params
unfolding is_key_char
params-IsParam = (
  record { key_some = λ e. cc e; key_chars = ground arith; value_chars = ground arith },
  (
    record { key_some = λ e. cc e; key_chars = ground arith; value_chars = ground arith },
    (record { key_some = λ e. cc e; key_chars = ground arith; value_chars = ground arith }, tt),
  ),
)

lookup-parse_url_example :
    lookup (codes "nonce") (parse_url (path ++ print 63 params))
    ≡ last_value (codes "nonce") params none
lookup-parse_url_example =
    lookup-parse_url path params (codes "nonce") (ground arith) params-IsParam

abbrev whole : Double
whole = record { F = ℕ; zero = 0; one = 1; sub = ◌-◌; mul = ◌*◌; div = ◌/◌; lt = ltb; same = ◌==◌ }

abbrev some_shared : Shared whole
some_shared = record {
  node = record {
    wallet = record {
      current_block = record {
        height = 500000;
        base_target = 70000;
        scoop = 12;
        gensig = replicate 32 7;
      };
      cache_idx = 0;
      mining_info_0 = codes "info";
      mining_info_1 = [];
      mining_info_res = [];
      rounds = fresh_round 500000 9 ∷ [];
      miners = (5, 0) ∷ [];
      deadline_limit = 1000;
    };
    client = record { pool_id_to_server = (9, codes "pool:1") ∷ []; calls = [] };
    replies = [];
  };
  loop = record { q = []; posted = []; reqs = []; pending = 0; waited = 0 };
  rl = record { rate = 1; burst_size = 5; key_to_bucket = [] };
}

abbrev target : List ℕ
target = codes "/burst?requestType=submitNonce&accountId=5&nonce=7"

handle_request-Handled_example :
    Handled whole 1
      (parse_url target)
      some_shared
      (handle_request whole 10 (codes "10.0.0.1") 1 target some_shared)
handle_request-Handled_example =
    handle_request-Handled whole 10 (codes "10.0.0.1") 1 target some_shared

-- A request is read, answered, and its response written.
abbrev answered_life : Life
answered_life = record {
  c =
      write_done ok (((empty_response success, true)) ∷ [])
        (start_write (empty_response success) (read_done ok target (run new_session)).0);
  owed = 0;
}

life-Reach : Reach answered_life
unfolding new_session run do_read read_done on_read start_write
life-Reach =
    later
      (later (later start (receive ok target (omega arith)))
        (answer (empty_response success) (omega arith)))
      (send ok)
