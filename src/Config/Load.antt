-- ===== src/Config/Load.antt =====
-- src/Config.hpp: the constructor of `Config`. The JSON library is a parameter; a failed assertion
-- and an exception end the program (`none`).
use cpp_burst_pool_node.Base.{
  ℕ, ◌%◌, ◌^◌, Bool, Option, none, some, List, [], ◌∷◌, if◌then◌else◌, codes, ◌>>=◌,
}
use cpp_burst_pool_node.Base.Dict.{nat_eq, insert}
use cpp_burst_pool_node.Base.Decimal.{stoull}

-- What the code calls of rapidjson. `member` is HasMember and the access; `get_int` gives the 32
-- bits of an `int`.
pub record Values : Type 1 where
  pub Value : Type 0
  pub Number : Type 0
  pub parse : List ℕ → Value
  pub is_object : Value → Bool
  pub member : Value → List ℕ → Option Value
  pub members : Value → List (Value × Value)
  pub is_string : Value → Bool
  pub get_string : Value → List ℕ
  pub is_uint64 : Value → Bool
  pub get_uint64 : Value → ℕ
  pub is_int : Value → Bool
  pub get_int : Value → ℕ
  pub is_double : Value → Bool
  pub get_double : Value → Number

-- `Number` is the type of the doubles.
pub record Config (Number : Type 0) : Type 0 where
  pub pool_id_to_addr : List (ℕ × List ℕ)
  pub deadline_limit : ℕ
  pub listen_address : List ℕ
  pub listen_port : ℕ
  pub wallet_url : List ℕ
  pub db_address : List ℕ
  pub db_name : List ℕ
  pub db_user : List ℕ
  pub db_password : List ℕ
  pub validator_thread_count : ℕ
  pub connection_thread_count : ℕ
  pub allow_requests_per_second : Number
  pub burst_size : Number
  pub poc2_start_height : ℕ

-- assert(document[key].IsT()), and the value.
unfoldable pub checked {ℓ} : {V : Type 0} {A : Type ℓ} → (V → Bool) → (V → A) → V → Option A
checked is get x = if is x then some (get x) else none

module _ (v : Values) where
  -- A member that has to be there.
  unfoldable pub field {ℓ} :
      {A : Type ℓ} → (v.Value → Bool) → (v.Value → A) → v.Value → List ℕ → Option A
  field is get document key = v.member document key >>= checked is get

  -- A thread count: the number of cores if the member is missing.
  unfoldable pub count_of : ℕ → Option v.Value → Option ℕ
  count_of cores none = some cores
  count_of cores (some x) = checked v.is_int v.get_int x

  -- The loop over the pools. A later address for the same number replaces the earlier one.
  unfoldable pub pool_entries :
      List (v.Value × v.Value) → List (ℕ × List ℕ) → Option (List (ℕ × List ℕ))
  pool_entries [] m = some m
  pool_entries ((name, value) ∷ rest) m = do
    pool_id_str ← checked v.is_string v.get_string name
    addr ← checked v.is_string v.get_string value
    pool_id ← stoull pool_id_str
    pool_entries rest (insert pool_id addr m)

  -- `listen_port_` is of 16 bits.
  unfoldable pub load_config : ℕ → List ℕ → Option (Config v.Number)
  load_config cores config_str = do
    document ← checked v.is_object (λ x. x) (v.parse config_str)
    deadline_limit ← field v.is_uint64 v.get_uint64 document (codes "deadlineLimit")
    listen_address ← field v.is_string v.get_string document (codes "listenAddress")
    listen_port ← field v.is_int v.get_int document (codes "listenPort")
    pools ← field v.is_object v.members document (codes "poolIdToAddress")
    pool_id_to_addr ← pool_entries pools []
    db_address ← field v.is_string v.get_string document (codes "dbAddress")
    db_name ← field v.is_string v.get_string document (codes "dbName")
    db_user ← field v.is_string v.get_string document (codes "dbUser")
    db_password ← field v.is_string v.get_string document (codes "dbPassword")
    connection_thread_count ← count_of cores (v.member document (codes "connectionThreadCount"))
    validator_thread_count ← count_of cores (v.member document (codes "validatorThreadCount"))
    allow_requests_per_second ←
        field v.is_double v.get_double document (codes "allowRequestsPerSecond")
    burst_size ← field v.is_double v.get_double document (codes "burstSize")
    wallet_url ← field v.is_string v.get_string document (codes "walletUrl")
    poc2_start_height ← field v.is_uint64 v.get_uint64 document (codes "PoC2StartHeight")
    some (record {
      pool_id_to_addr = pool_id_to_addr;
      deadline_limit = deadline_limit;
      listen_address = listen_address;
      listen_port = listen_port % 2 ^ 16;
      wallet_url = wallet_url;
      db_address = db_address;
      db_name = db_name;
      db_user = db_user;
      db_password = db_password;
      validator_thread_count = validator_thread_count;
      connection_thread_count = connection_thread_count;
      allow_requests_per_second = allow_requests_per_second;
      burst_size = burst_size;
      poc2_start_height = poc2_start_height;
    })
