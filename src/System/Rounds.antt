-- ===== src/System/Rounds.antt =====
-- src/DeadlineRequestHandler.cpp: what a batch does to the calls, the answers and the block, by the
-- handled requests that it comes from.
use cpp_burst_pool_node.Base.{
  codes, ◌++◌, ◌<◌, ◌≢◌, ℕ, ◌≤◌, ◌≡◌, refl, sym, ◌∙◌, inl, inr, Bool, true, Option, none, some,
  List, [], ◌∷◌, ltb, if◌then◌else◌, All, All-append, Bool-cases, get_elem?, arith,
}
use mathlib.Core.Path.{subst}
use cpp_burst_pool_node.Base.Takes.{Any}
use cpp_burst_pool_node.Base.Dict.{nat_eq, lookup}
use cpp_burst_pool_node.Burstmath.Shabal.{Shabal}
use cpp_burst_pool_node.Wallet.State.{MinerRound, get_miner_round, get_reward_recipient}
use cpp_burst_pool_node.NodeCom.{SubmitNonceRequest, started}
use cpp_burst_pool_node.Base.Decimal.{stoull, to_string, decimal}
use cpp_burst_pool_node.Session.Response.{
  Response, success, bad_request, write_ok, write_json_error,
}
use cpp_burst_pool_node.Session.Url.{parse_url}
use cpp_burst_pool_node.Session.Request.{param}
use cpp_burst_pool_node.Handler.State.{CalcDeadlineReq, Node}
use cpp_burst_pool_node.Handler.Validate.{
  validate_deadline, visit, visit_round, reply, set_deadline, limit_error, deadline_message,
}
use cpp_burst_pool_node.Handler.ValidateLaws.{
  call_for, view, IsSoundNode, improves, validate_deadline-Validated,
}
use cpp_burst_pool_node.Session.RequestLaws.{Immediate}
use cpp_burst_pool_node.System.Steps.{Task, Asked}
use cpp_burst_pool_node.Handler.BatchLaws.{deadline_for, answer_to, with_deadlines}

-- A request for a deadline as a handled request makes it: with the account and the nonce of the
-- parameters, and the recipient and the block of the wallet as it was when it was handled.
pub record IsFor (c : CalcDeadlineReq) (a : Asked) : Type 0 where
  pub session_of : c.session ≡ a.session
  pub account : stoull (param (codes "accountId") (parse_url a.target)) ≡ some c.account_id
  pub nonce : stoull (param (codes "nonce") (parse_url a.target)) ≡ some c.nonce
  pub recip : c.recip_id ≡ get_reward_recipient a.wallet c.account_id
  pub recip_ne : c.recip_id ≢ 0
  pub height : c.height ≡ a.wallet.current_block.height
  pub scoop : c.scoop_nr ≡ a.wallet.current_block.scoop
  pub base_target : c.base_target ≡ a.wallet.current_block.base_target
  pub gensig : c.gensig ≡ a.wallet.current_block.gensig

abbrev pub IsMade : List Asked → CalcDeadlineReq → Type 0
IsMade requests c = Any (IsFor c) requests

-- An answer that a handled request was given at once.
pub record IsPrompt (p : ℕ × Response) (a : Asked) : Type 0 where
  pub session_of : p.0 ≡ a.session
  pub immediate : Immediate a.wallet p.1

-- The text of the error for a deadline above the limit.
abbrev pub limit_text : List ℕ
limit_text =
    codes
      "{\"errorCode\":1008,\"errorDescription\":\"Deadline exceeds deadline limit of the pool\"}"

module _ (s : Shabal) (limit : ℕ) (servers : List (ℕ × List ℕ)) (requests : List Asked) where
  -- A call for a request made by one of those handled, with the deadline that the reference gives
  -- it, as PoC2 or not, within the limit, to the server of its recipient.
  pub record IsRight (call : List ℕ × SubmitNonceRequest) : Type 0 where
    pub creq : CalcDeadlineReq
    pub poc2 : Bool
    pub made : IsMade requests creq
    pub account : call.1.account_id ≡ creq.account_id
    pub nonce : call.1.nonce ≡ creq.nonce
    pub block_height : call.1.block_height ≡ creq.height
    pub deadline : call.1.deadline ≡ deadline_for s poc2 creq
    pub within : deadline_for s poc2 creq ≤ limit
    pub server : lookup creq.recip_id servers ≡ some call.0

  started-IsRight :
      (poc2 : Bool) (c : CalcDeadlineReq) (o : Option (List ℕ))
      → IsMade requests c
      → deadline_for s poc2 c ≤ limit
      → lookup c.recip_id servers ≡ o
      → All IsRight (started o (call_for c (deadline_for s poc2 c)))
  unfolding started
  started-IsRight poc2 c none m h e = tt
  started-IsRight poc2 c (some addr) m h e = (
    record {
      creq = c;
      poc2 = poc2;
      made = m;
      account = refl;
      nonce = refl;
      block_height = refl;
      deadline = refl;
      within = h;
      server = e;
    },
    tt,
  )

  improves_within :
      (c : CalcDeadlineReq) (d : ℕ) (o : Option MinerRound)
      → improves limit c d o ≡ true
      → d ≤ limit
  improves_within c d none h = absurd (cc h)
  improves_within c d (some r) h = ground arith

  more-IsRight :
      (poc2 : Bool) (c : CalcDeadlineReq) (o : Option MinerRound)
      → IsMade requests c
      → All IsRight (
          if improves limit c (deadline_for s poc2 c) o
          then started (lookup c.recip_id servers) (call_for c (deadline_for s poc2 c))
          else [])
  more-IsRight poc2 c o m = elim (Bool-cases (improves limit c (deadline_for s poc2 c) o)) [
    | inl better ↦ rw better (started-IsRight poc2 c _ m (improves_within c _ o better) refl)
    | inr worse ↦ rw worse tt
  ]

  -- An answer given at once to a handled request of its session, or one for a request made by a
  -- handled one of its session: the text with the deadline that the reference gives, where that is
  -- within the limit, and the error 1008 where it is above.
  pub data IsAnswer (p : ℕ × Response) : Type 0 where
    at_once : Any (IsPrompt p) requests → IsAnswer p
    accepted :
        (creq : CalcDeadlineReq) (poc2 : Bool)
        → IsMade requests creq
        → p.0 ≡ creq.session
        → deadline_for s poc2 creq ≤ limit
        → p.1.status ≡ success
        → p.1.body
          ≡ codes "{\"result\":\"success\",\"deadline\":"
            ++ to_string (deadline_for s poc2 creq)
            ++ codes "}"
        → IsAnswer p
    above :
        (creq : CalcDeadlineReq) (poc2 : Bool)
        → IsMade requests creq
        → p.0 ≡ creq.session
        → limit < deadline_for s poc2 creq
        → p.1.status ≡ bad_request
        → p.1.body ≡ limit_text
        → IsAnswer p

  worked_out :
      (c : CalcDeadlineReq) (poc2 : Bool)
      → IsMade requests c
      → IsAnswer (answer_to limit (deadline_for s poc2) c)
  unfolding limit_error deadline_message write_ok write_json_error to_string decimal
  worked_out c poc2 m = elim (Bool-cases (ltb limit (deadline_for s poc2 c))) [
    | inl over ↦ above c poc2 m refl (ground (arith, over)) (rw over refl) (rw over refl)
    | inr fits ↦ accepted c poc2 m refl (ground (arith, fits)) (rw fits refl) (rw fits refl)
  ]

  -- Validations with the deadlines of the reference keep all calls and answers right.
  pub record IsKept (n : Node) : Type 0 where
    pub sound : IsSoundNode n
    pub same_servers : n.client.pool_id_to_server ≡ servers
    pub calls : All IsRight n.client.calls
    pub replies : All IsAnswer n.replies

  validate-IsKept :
      (poc2 : Bool) (c : CalcDeadlineReq) (n : Node)
      → IsMade requests c
      → IsKept n
      → IsKept (validate_deadline limit c (deadline_for s poc2 c) n)
  validate-IsKept poc2 c n m k =
      let w = validate_deadline-Validated limit c (deadline_for s poc2 c) n k.sound in
      record {
        sound = w.sound;
        same_servers = w.same_servers ∙ k.same_servers;
        calls = subst (All IsRight) (sym w.calls) (
            All-append IsRight n.client.calls _ k.calls
              (rw k.same_servers (more-IsRight poc2 c (view n c.account_id) m)));
        replies =
            subst (All IsAnswer) (sym w.replies)
              (All-append IsAnswer n.replies _ k.replies (worked_out c poc2 m, tt));
      }

  -- What a thread has computed.
  pub record IsTask (t : Task) : Type 0 where
    pub made : IsMade requests t.0
    pub poc2 : Bool
    pub deadline : t.1 ≡ deadline_for s poc2 t.0

  pub task-IsKept :
      (t : Task) (n : Node) → IsTask t → IsKept n → IsKept (validate_deadline limit t.0 t.1 n)
  task-IsKept t n h k =
      subst (λ (d : ℕ). IsKept (validate_deadline limit t.0 d n)) (sym h.deadline)
        (validate-IsKept h.poc2 t.0 n h.made k)

  -- The tasks of a batch.
  pub tasks-IsTask :
      (poc2 : Bool) (cs : List CalcDeadlineReq)
      → All (IsMade requests) cs
      → All IsTask (with_deadlines (deadline_for s poc2) cs)
  tasks-IsTask poc2 [] h = tt
  tasks-IsTask poc2 (c ∷ cs) h =
      (record { made = h.0; poc2 = poc2; deadline = refl }, tasks-IsTask poc2 cs h.1)

-- Validations leave the block.
same_block-visit_round :
    (c : CalcDeadlineReq) (d p : ℕ) (o : Option MinerRound) (n : Node)
    → (visit_round c d p o n).wallet.current_block ≡ n.wallet.current_block
unfolding visit_round set_deadline
same_block-visit_round c d p none n = refl
same_block-visit_round c d p (some r) n = ground arith

same_block-visit :
    (c : CalcDeadlineReq) (d : ℕ) (o : Option ℕ) (n : Node)
    → (visit c d o n).wallet.current_block ≡ n.wallet.current_block
unfolding visit
same_block-visit c d none n = refl
same_block-visit c d (some p) n = same_block-visit_round c d p (get_elem? n.wallet.rounds p) n

pub same_block-validate_deadline :
    (limit d : ℕ) (c : CalcDeadlineReq) (n : Node)
    → (validate_deadline limit c d n).wallet.current_block ≡ n.wallet.current_block
unfolding validate_deadline reply
same_block-validate_deadline limit d c n = elim (Bool-cases (ltb limit d)) [
  | inl over ↦ rw over
  | inr fits ↦ rw fits (same_block-visit c d (get_miner_round n.wallet c.account_id) n)
]
