-- ===== src/Handler/Validate.antt =====
-- src/DeadlineRequestHandler.cpp: `validate_deadline`.
use cpp_burst_pool_node.Base.{
  ℕ, Option, none, some, [], ◌∷◌, ◌++◌, ◌&&◌, ltb, ◌==◌, if◌then◌else◌, get_elem?, set, codes,
}
use cpp_burst_pool_node.Base.Decimal.{to_string}
use cpp_burst_pool_node.Wallet.State.{MinerRound, Wallet, get_miner_round}
use cpp_burst_pool_node.NodeCom.{SubmitNonceRequest, do_submit_nonce}
use cpp_burst_pool_node.Session.Response.{Response, write_json_error, write_ok}
use cpp_burst_pool_node.Handler.State.{CalcDeadlineReq, Node}

unfoldable pub reply : CalcDeadlineReq → Response → Node → Node
reply creq res n = record n { replies = n.replies ++ (creq.session, res) ∷ [] }

unfoldable pub submit_request : CalcDeadlineReq → ℕ → SubmitNonceRequest
submit_request creq deadline = record {
  account_id = creq.account_id;
  nonce = creq.nonce;
  deadline = deadline;
  block_height = creq.height;
}

unfoldable pub set_deadline : ℕ → MinerRound → ℕ → Wallet → Wallet
set_deadline p r deadline w = record w {
  rounds = set w.rounds p (record r { deadline = deadline });
}

-- The part under `mu`, taken with `try_lock` and left free: where another thread holds it, the
-- part is passed over. A `try_lock` that fails for no reason is as one on a mutex that is held.
unfoldable pub visit_round : CalcDeadlineReq → ℕ → ℕ → Option MinerRound → Node → Node
visit_round creq deadline p none n = n
visit_round creq deadline p (some r) n =
    if r.locked
    then n
    else (if r.height == creq.height && ltb deadline r.deadline
        then record n {
          client = do_submit_nonce creq.recip_id (submit_request creq deadline) n.client;
          wallet = set_deadline p r deadline n.wallet;
        }
        else n)

unfoldable pub visit : CalcDeadlineReq → ℕ → Option ℕ → Node → Node
visit creq deadline none n = n
visit creq deadline (some p) n = visit_round creq deadline p (get_elem? n.wallet.rounds p) n

unfoldable pub limit_error : Response
limit_error = write_json_error 1008 (codes "Deadline exceeds deadline limit of the pool")

unfoldable pub deadline_message : ℕ → Response
deadline_message deadline =
    write_ok (codes "{\"result\":\"success\",\"deadline\":" ++ to_string deadline ++ codes "}")

-- `deadline_limit` is the pool's limit, which the handler keeps.
unfoldable pub validate_deadline : ℕ → CalcDeadlineReq → ℕ → Node → Node
validate_deadline deadline_limit creq deadline n =
    if ltb deadline_limit deadline
    then reply creq limit_error n
    else reply creq (deadline_message deadline)
        (visit creq deadline (get_miner_round n.wallet creq.account_id) n)
