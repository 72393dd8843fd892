-- ===== src/System/AnswerTests.antt =====
-- The whole server at concrete inputs: a nonce that is computed, answered and sent on, and a request
-- for the mining info.
use cpp_burst_pool_node.Base.{
  ℕ, ◌≡◌, refl, false, some, List, [], ◌∷◌, codes, replicate, length-replicate, take, All, arith,
}
use cpp_burst_pool_node.Base.Takes.{here}
use cpp_burst_pool_node.Base.Decimal.{
  stoull, decimal, digits_value, is_digit, is_space, magnitude, negated, signed_value, skip_spaces,
  starts_digit, to_string,
}
use cpp_burst_pool_node.Session.Url.{
  parse_url, collect, matches, emitted, step_mode, is_key_char, at_equals, at_end,
}
use cpp_burst_pool_node.Wallet.State.{
  get_current_block, get_reward_recipient, get_miner_round, get_cached_mining_info, read_buffer,
}
use cpp_burst_pool_node.RateLimiter.Limiter.{aquire}
use cpp_burst_pool_node.Burstmath.Reference.{deadline_of, target_result}
use cpp_burst_pool_node.Burstmath.Bytes.{le_value}
use cpp_burst_pool_node.Base.Dict.{text_beq, lookup, insert}
use cpp_burst_pool_node.Burstmath.Bytes.{gendata_size}
use cpp_burst_pool_node.Burstmath.Toy.{toy, toys}
use cpp_burst_pool_node.Handler.State.{CalcDeadlineReq, lane_of}
use cpp_burst_pool_node.Handler.Distribute.{Loop, init, enque_req, is_due, post, dequeue, turn}
use cpp_burst_pool_node.Handler.DistributeRuns.{repeat_turn}
use cpp_burst_pool_node.Handler.Batch.{Limits}
use cpp_burst_pool_node.Handler.BatchLaws.{IsComputable, deadline_for}
use cpp_burst_pool_node.Handler.Validate.{
  validate_deadline, reply, visit, visit_round, submit_request, set_deadline, deadline_message,
}
use cpp_burst_pool_node.NodeCom.{SubmitNonceRequest, started, do_submit_nonce}
use cpp_burst_pool_node.Session.Response.{success, write_ok}
use cpp_burst_pool_node.Handler.Validator.{Validator, sse4_validator}
use cpp_burst_pool_node.Session.Request.{
  Shared, handle_request, with_type, limited, dispatch, process_submit_nonce_req, with_account,
  with_nonce, submit, calc_deadline_req, do_write, param,
}
use cpp_burst_pool_node.System.Steps.{
  tasks_of, Asked, asked_of, Reach, starts, handles, works, Works-Reach, rests, computes, validates,
  with_loop, with_posted, with_node,
}
use cpp_burst_pool_node.System.Rounds.{IsRight, IsAnswer}
use cpp_burst_pool_node.System.Safety.{Reach-IsRight, Reach-IsAnswer}
use cpp_burst_pool_node.System.Drains.{repeat_turn-Works}
use cpp_burst_pool_node.System.Tests.{
  whole, blank, begun, begun-IsBegun, blank-IsComputable, reader,
}

abbrev limits : Limits
limits = record { deadline_limit = 10000000000000; poc2_start_height = 502000 }

abbrev validator : Validator toy limits 4
validator = sse4_validator limits (toys 4)

abbrev nonce_target : List ℕ
nonce_target = codes "/burst?requestType=submitNonce&accountId=5&nonce=7"

abbrev info_target : List ℕ
info_target = codes "/burst?requestType=getMiningInfo"

abbrev asked : Shared whole
asked = handle_request whole 10 (codes "10.0.0.1") 1 nonce_target begun

abbrev creq : CalcDeadlineReq
creq = record {
  account_id = 5;
  nonce = 7;
  height = 500000;
  scoop_nr = 12;
  base_target = 70000;
  recip_id = 9;
  gensig = replicate 32 7;
  session = 1;
}

asked_lem : (asked.node ≡ begun.node) × (asked.loop ≡ enque_req creq begun.loop)
unfolding handle_request with_type limited dispatch process_submit_nonce_req with_account with_nonce
    submit calc_deadline_req parse_url collect matches emitted step_mode is_key_char at_equals
    at_end lookup insert text_beq aquire param stoull decimal digits_value is_digit is_space
    magnitude negated signed_value skip_spaces starts_digit get_current_block get_reward_recipient
    get_miner_round
asked_lem = (refl, refl)

deadline_of_creq : deadline_for toy false creq ≡ 7234017283807
unfolding deadline_for deadline_of target_result le_value take lane_of replicate
deadline_of_creq = refl

abbrev informed : Shared whole
informed = handle_request whole 11 (codes "10.0.0.2") 2 info_target asked

abbrev posted_loop : Loop
posted_loop = record {
  q = [];
  posted = record { reqs = creq ∷ blank ∷ blank ∷ blank ∷ []; pending = 1 } ∷ [];
  reqs = creq ∷ blank ∷ blank ∷ blank ∷ [];
  pending = 0;
  waited = 1;
}

informed_loop : informed.loop ≡ asked.loop
unfolding handle_request with_type limited dispatch do_write parse_url collect matches emitted
    step_mode is_key_char at_equals at_end lookup insert text_beq aquire process_submit_nonce_req
    with_account stoull param with_nonce submit get_reward_recipient
informed_loop = refl

posts : repeat_turn 4 53 informed.loop ≡ some posted_loop
unfolding repeat_turn turn is_due post dequeue enque_req init
posts = rw (informed_loop, asked_lem.1) refl

abbrev posted : Shared whole
posted = with_loop posted_loop informed

abbrev requests : List Asked
requests = asked_of 2 info_target asked.node.wallet ∷ asked_of 1 nonce_target begun.node.wallet ∷ []

informed-Reach : Reach reader validator begun requests [] informed
informed-Reach =
    handles 11 (codes "10.0.0.2") 2 info_target
      (handles 10 (codes "10.0.0.1") 1 nonce_target starts)

posted-Reach : Reach reader validator begun requests [] posted
posted-Reach = Works-Reach reader validator begun informed-Reach (
    repeat_turn-Works reader validator (omega arith) begun begun-IsBegun informed-Reach 53
      posted_loop rests posts)

creq-IsComputable : IsComputable creq
creq-IsComputable = record {
  gensig_sized = length-replicate 32 7;
  scoop_lt = omega arith;
  target_pos = omega arith;
}

abbrev answered : Shared whole
answered =
    with_node
      (validate_deadline limits.deadline_limit creq (deadline_for toy false creq) posted.node)
      (with_posted [] posted)

answered-Reach : Reach reader validator begun requests [] answered
unfolding tasks_of
answered-Reach =
    let stack = replicate gendata_size 0xAA in
    let sized = length-replicate gendata_size 0xAA in
    works
      (works posted-Reach (
        computes stack sized here (
          validator.computes stack sized creq (blank ∷ blank ∷ blank ∷ []) 1
            (
              creq-IsComputable,
              (blank-IsComputable, (blank-IsComputable, (blank-IsComputable, tt))),
            )
            refl)))
      (validates here)

informed_node :
    informed.node
    ≡ record begun.node { replies = (2, record { status = success; body = codes "info" }) ∷ [] }
unfolding handle_request with_type limited dispatch do_write parse_url collect matches emitted
    step_mode is_key_char at_equals at_end lookup insert text_beq aquire process_submit_nonce_req
    with_account stoull param with_nonce submit get_reward_recipient get_cached_mining_info
    read_buffer decimal digits_value is_digit is_space magnitude negated signed_value skip_spaces
    starts_digit get_current_block get_miner_round
informed_node = refl

abbrev sent : SubmitNonceRequest
sent = record { account_id = 5; nonce = 7; deadline = 7234017283807; block_height = 500000 }

-- The call that is started, and the two answers.
answered_lem :
    (answered.node.client.calls ≡ (codes "pool:1", sent) ∷ [])
    × (answered.node.replies
        ≡ (2, record { status = success; body = codes "info" })
          ∷ (
            1,
            record {
              status = success;
              body = codes "{\"result\":\"success\",\"deadline\":7234017283807}";
            },
          )
          ∷ [])
unfolding validate_deadline reply visit visit_round do_submit_nonce started submit_request
    set_deadline deadline_message write_ok to_string decimal lookup get_miner_round
answered_lem = rw (informed_node, deadline_of_creq) (refl, refl)

Reach-IsRight_example :
    All (IsRight toy 10000000000000 ((9, codes "pool:1") ∷ []) requests) answered.node.client.calls
Reach-IsRight_example =
    Reach-IsRight reader validator (omega arith) begun begun-IsBegun answered-Reach

Reach-IsAnswer_example :
    All (IsAnswer toy 10000000000000 ((9, codes "pool:1") ∷ []) requests) answered.node.replies
Reach-IsAnswer_example =
    Reach-IsAnswer reader validator (omega arith) begun begun-IsBegun answered-Reach
