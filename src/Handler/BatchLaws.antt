-- ===== src/Handler/BatchLaws.antt =====
-- src/DeadlineRequestHandler.cpp: a batch answers each of its pending requests with the deadline of
-- the reference.
use mathlib.Core.List.{append_assoc, append-nil, map-map}
use mathlib.Core.Path.{fun_ext}
use cpp_burst_pool_node.Base.{
  ℕ, ◌<◌, ◌≡◌, refl, sym, ap, ◌∙◌, Bool, List, [], ◌∷◌, ◌++◌, map, ltb, leb, if◌then◌else◌, length,
  All, All-imp, All-map,
}
use cpp_burst_pool_node.Burstmath.Bytes.{gendata_size, num_scoops, hash_size}
use cpp_burst_pool_node.Burstmath.Shabal.{Shabal}
use cpp_burst_pool_node.Burstmath.Reference.{
  seed, plot_of, masked_plot, scoop_of, target_result, deadline_of,
}
use cpp_burst_pool_node.Burstmath.DeadlineCorrect.{IsLane}
use cpp_burst_pool_node.Session.Response.{Response}
use cpp_burst_pool_node.Handler.State.{CalcDeadlineReq, Node, lane_of}
use cpp_burst_pool_node.Handler.Validate.{limit_error, deadline_message, validate_deadline}
use cpp_burst_pool_node.Handler.ValidateLaws.{IsSoundNode, validate_deadline-Validated}
use cpp_burst_pool_node.Handler.Distribute.{Batch}
use cpp_burst_pool_node.Handler.DistributeLaws.{content}
use cpp_burst_pool_node.Handler.Batch.{Limits}

-- A request that can be computed.
pub record IsComputable (r : CalcDeadlineReq) : Type 0 where
  pub gensig_sized : length r.gensig ≡ hash_size
  pub scoop_lt : r.scoop_nr < num_scoops
  pub target_pos : 0 < r.base_target

lane_of-IsLane :
    (stack : List ℕ)
    → length stack ≡ gendata_size
    → (r : CalcDeadlineReq) → IsComputable r
    → IsLane (lane_of stack r)
unfolding lane_of
lane_of-IsLane stack h r v = record {
  stack_sized = h;
  gensig_sized = v.gensig_sized;
  scoop_lt = v.scoop_lt;
  target_pos = v.target_pos;
}

-- The deadline of a request: what the stack held does not matter.
unfoldable pub deadline_for : Shabal → Bool → CalcDeadlineReq → ℕ
deadline_for s poc2 r = deadline_of s poc2 (lane_of [] r)

deadline_for_lem :
    (s : Shabal) (poc2 : Bool) (stack : List ℕ) (r : CalcDeadlineReq)
    → deadline_of s poc2 (lane_of stack r) ≡ deadline_for s poc2 r
unfolding deadline_for deadline_of target_result scoop_of masked_plot plot_of seed lane_of
deadline_for_lem s poc2 stack r = refl

-- One validation after the other.
unfoldable pub validate_each : ℕ → List (CalcDeadlineReq × ℕ) → Node → Node
validate_each limit [] n = n
validate_each limit ((r, d) ∷ rest) n = validate_each limit rest (validate_deadline limit r d n)

abbrev pub with_deadlines :
    (CalcDeadlineReq → ℕ) → List CalcDeadlineReq → List (CalcDeadlineReq × ℕ)
with_deadlines f = map (λ r. (r, f r))

-- The answer to a request with its deadline.
abbrev pub answer_to : ℕ → (CalcDeadlineReq → ℕ) → CalcDeadlineReq → ℕ × Response
answer_to limit f r = (r.session, (if ltb limit (f r) then limit_error else deadline_message (f r)))

-- On a sound node, validations one after the other give each request exactly one answer, in
-- order: the error for a deadline above the limit, and the deadline as a success otherwise.
validate_each-replies :
    (limit : ℕ) (f : CalcDeadlineReq → ℕ) (rs : List CalcDeadlineReq) (n : Node)
    → IsSoundNode n
    → (validate_each limit (with_deadlines f rs) n).replies
      ≡ n.replies ++ map (answer_to limit f) rs
unfolding validate_each
validate_each-replies limit f [] n v = sym (append-nil n.replies)
validate_each-replies limit f (r ∷ rs) n v =
    let w = validate_deadline-Validated limit r (f r) n v in
    validate_each-replies limit f rs (validate_deadline limit r (f r) n) w.sound
    ∙ ap (λ xs. xs ++ map (answer_to limit f) rs) w.replies
    ∙ append_assoc n.replies (answer_to limit f r ∷ []) (map (answer_to limit f) rs)

-- Whether the lanes of a batch are computed as PoC2: by the height of its first request.
abbrev pub batch_poc2 : Limits → CalcDeadlineReq → Bool
batch_poc2 limits first = leb limits.poc2_start_height first.height

pub all_deadlines :
    (s : Shabal) (poc2 : Bool) (stack : List ℕ) (rs : List CalcDeadlineReq)
    → map (deadline_of s poc2) (map (lane_of stack) rs) ≡ map (deadline_for s poc2) rs
all_deadlines s poc2 stack rs =
    map-map (deadline_of s poc2) (lane_of stack) rs
    ∙ ap (λ (g : CalcDeadlineReq → ℕ). map g rs) (fun_ext (deadline_for_lem s poc2 stack))

pub lanes-IsLane :
    (stack : List ℕ)
    → length stack ≡ gendata_size
    → (rs : List CalcDeadlineReq) → All IsComputable rs
    → All IsLane (map (lane_of stack) rs)
lanes-IsLane stack h rs v =
    All-map IsLane (lane_of stack) rs (All-imp (lane_of-IsLane stack h) rs v)

abbrev pub batch_of : CalcDeadlineReq → List CalcDeadlineReq → ℕ → Batch
batch_of first others pending = record { reqs = first ∷ others; pending = pending }

-- The pending requests of a batch, validated with their deadlines.
abbrev pub batch_result : Shabal → Limits → Batch → CalcDeadlineReq → Node → Node
batch_result s limits b first n =
    validate_each limits.deadline_limit
      (with_deadlines (deadline_for s (batch_poc2 limits first)) (content b)) n
