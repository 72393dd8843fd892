-- ===== src/Session/Request.antt =====
-- src/Session.cpp: `handle_request` and `process_submit_nonce_req`.
use cpp_burst_pool_node.Base.{
  ℕ, Bool, true, false, Option, none, some, List, [], ◌∷◌, ◌++◌, ◌==◌, if◌then◌else◌, codes,
}
use cpp_burst_pool_node.Base.Dict.{text_eq, lookup}
use cpp_burst_pool_node.Base.Decimal.{stoull}
use cpp_burst_pool_node.Wallet.State.{
  Block, get_current_block, get_cached_mining_info, get_reward_recipient,
}
use cpp_burst_pool_node.RateLimiter.Bucket.{Double}
use cpp_burst_pool_node.RateLimiter.Limiter.{RateLimiter, aquire}
use cpp_burst_pool_node.Handler.State.{CalcDeadlineReq, Node}
use cpp_burst_pool_node.Handler.Distribute.{Loop, enque_req}
use cpp_burst_pool_node.Session.Response.{
  Status, Response, success, bad_request, service_unavailable, write_json_error,
}
use cpp_burst_pool_node.Session.Url.{Param, parse_url}

-- What the sessions share: the wallet with the answers given, the queue, and the rate limiter.
pub record Shared (d : Double) : Type 1 where
  pub node : Node
  pub loop : Loop
  pub rl : RateLimiter d

-- `params[key]`, which makes an empty entry of a missing key.
unfoldable pub param : List ℕ → List Param → List ℕ
param key params = elim (lookup key params) [ none ↦ [] | some value ↦ value ]

abbrev pub empty_response : Status → Response
empty_response status = record { status = status; body = [] }

abbrev pub bad_account : Response
bad_account = write_json_error 1013 (codes "sumitNonce request has bad 'accountId' parameter")

abbrev pub bad_nonce : Response
bad_nonce = write_json_error 1012 (codes "sumitNonce request has bad 'nonce' parameter")

abbrev pub bad_recipient : Response
bad_recipient = write_json_error 1004 (codes "Account's reward recipient doesn't match the pool's")

-- The request for the current block.
unfoldable pub calc_deadline_req : ℕ → ℕ → ℕ → ℕ → Block → CalcDeadlineReq
calc_deadline_req session account_id nonce recip_id current_block = record {
  account_id = account_id;
  nonce = nonce;
  height = current_block.height;
  scoop_nr = current_block.scoop;
  base_target = current_block.base_target;
  recip_id = recip_id;
  gensig = current_block.gensig;
  session = session;
}

module _ (d : Double) where
  unfoldable pub do_write : ℕ → Response → Shared d → Shared d
  do_write session res st = record st {
    node = record st.node { replies = st.node.replies ++ (session, res) ∷ [] };
  }

  -- The end of the handler, for an account and a nonce that could be read.
  unfoldable pub submit : ℕ → ℕ → ℕ → Shared d → Shared d
  submit session account_id nonce st =
      let recip_id = get_reward_recipient st.node.wallet account_id in
      if recip_id == 0 then do_write session bad_recipient st else record st {
        loop =
            enque_req
              (calc_deadline_req session account_id nonce recip_id
                (get_current_block st.node.wallet))
              st.loop;
      }

  unfoldable pub with_nonce : ℕ → ℕ → Option ℕ → Shared d → Shared d
  with_nonce session account_id none st = do_write session bad_nonce st
  with_nonce session account_id (some nonce) st = submit session account_id nonce st

  unfoldable pub with_account : ℕ → Option ℕ → List Param → Shared d → Shared d
  with_account session none params st = do_write session bad_account st
  with_account session (some account_id) params st =
      with_nonce session account_id (stoull (param (codes "nonce") params)) st

  unfoldable pub process_submit_nonce_req : ℕ → List Param → Shared d → Shared d
  process_submit_nonce_req session params st =
      with_account session (stoull (param (codes "accountId") params)) params st

  -- The branches on the type of the request.
  unfoldable pub dispatch : ℕ → List ℕ → List Param → Shared d → Shared d
  dispatch session req_type params st =
      if text_eq.beq req_type (codes "getMiningInfo")
      then do_write session
          (record { status = success; body = get_cached_mining_info st.node.wallet }) st
      else (if text_eq.beq req_type (codes "submitNonce")
          then process_submit_nonce_req session params st
          else do_write session (empty_response bad_request) st)

  -- After the limiter has been asked.
  unfoldable pub limited : ℕ → List ℕ → List Param → Shared d → RateLimiter d × Bool → Shared d
  limited session req_type params st (rl, true) =
      dispatch session req_type params (record st { rl = rl })
  limited session req_type params st (rl, false) =
      do_write session (empty_response service_unavailable) (record st { rl = rl })

  unfoldable pub with_type : d.F → List ℕ → ℕ → Option (List ℕ) → List Param → Shared d → Shared d
  with_type now addr session none params st = do_write session (empty_response bad_request) st
  with_type now addr session (some req_type) params st =
      limited session req_type params st (aquire d now (addr ++ req_type) st.rl)

  -- `addr` is the text of the socket's local address.
  unfoldable pub handle_request : d.F → List ℕ → ℕ → List ℕ → Shared d → Shared d
  handle_request now addr session target st =
      let params = parse_url target in
      with_type now addr session (lookup (codes "requestType") params) params st
