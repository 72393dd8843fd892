-- ===== src/Handler/ValidateLaws.antt =====
-- src/DeadlineRequestHandler.cpp: what `validate_deadline` does, seen through the rounds of the
-- miners.
use mathlib.Core.List.{append-nil}
use cpp_burst_pool_node.Base.{
  ℕ, zero, suc, ◌<◌, ◌≡◌, refl, sym, ◌∙◌, inl, inr, Bool, true, false, not, ◌&&◌, Option, none,
  some, List, [], ◌∷◌, ◌++◌, ltb, leb, ◌==◌, if◌then◌else◌, get_elem?, length, Bool-cases, ==_iff,
  arith,
}
use cpp_burst_pool_node.Base.Dict.{nat_eq, lookup}
use cpp_burst_pool_node.Wallet.State.{MinerRound, get_miner_round}
use cpp_burst_pool_node.Wallet.MinersLaws.{IsSound, round_of, set-IsSound, round_of-set}
use cpp_burst_pool_node.NodeCom.{SubmitNonceRequest, started, do_submit_nonce}
use cpp_burst_pool_node.Session.Response.{Response}
use cpp_burst_pool_node.Handler.State.{CalcDeadlineReq, Node}
use cpp_burst_pool_node.Handler.Validate.{
  reply, submit_request, set_deadline, visit_round, visit, limit_error, deadline_message,
  validate_deadline,
}

-- The round of an account, as the node stands.
abbrev pub view : Node → ℕ → Option MinerRound
view n = round_of n.wallet.miners n.wallet.rounds

abbrev pub IsSoundNode : Node → Type 0
IsSoundNode n = IsSound n.wallet.miners n.wallet.rounds

-- Whether a deadline betters what is known of its round: within the limit, the round free, of the
-- request's height, and with a larger deadline so far.
abbrev pub improves : ℕ → CalcDeadlineReq → ℕ → Option MinerRound → Bool
improves limit creq d none = false
improves limit creq d (some r) =
    leb d limit && (not r.locked && (r.height == creq.height && ltb d r.deadline))

abbrev pub lowered : ℕ → Option MinerRound → Option MinerRound
lowered d none = none
lowered d (some r) = some (record r { deadline = d })

-- What the server of a pool is sent.
abbrev pub call_for : CalcDeadlineReq → ℕ → SubmitNonceRequest
call_for creq d = record {
  account_id = creq.account_id;
  nonce = creq.nonce;
  deadline = d;
  block_height = creq.height;
}

-- What the node does with a deadline, as a change of the miners' rounds, the calls and the answers.
pub record Validated (limit : ℕ) (creq : CalcDeadlineReq) (d : ℕ) (n n' : Node) : Type 0 where
  pub sound : IsSoundNode n'
  pub rounds :
      (a : ℕ)
      → view n' a ≡ (
          if creq.account_id == a && improves limit creq d (view n a)
          then lowered d (view n a)
          else view n a)
  pub calls :
      n'.client.calls
      ≡ n.client.calls
        ++ (if improves limit creq d (view n creq.account_id)
            then started (lookup creq.recip_id n.client.pool_id_to_server) (call_for creq d)
            else [])
  pub replies :
      n'.replies
      ≡ n.replies ++ (creq.session, (if ltb limit d then limit_error else deadline_message d)) ∷ []
  pub same_servers : n'.client.pool_id_to_server ≡ n.client.pool_id_to_server
  pub same_miners : n'.wallet.miners ≡ n.wallet.miners

found_round :
    (rounds : List MinerRound) (p : ℕ)
    → p < length rounds
    → (r : MinerRound) × (get_elem? rounds p ≡ some r)
found_round [] p h = elim h [ ]
found_round (r ∷ rs) zero h = (r, refl)
found_round (r ∷ rs) (suc p) h = found_round rs p (omega arith)

placed :
    (n : Node) (a : ℕ) {o : Option ℕ}
    → get_miner_round n.wallet a ≡ o
    → lookup a n.wallet.miners ≡ o
unfolding get_miner_round
placed n a e = e

module _ (limit : ℕ) (creq : CalcDeadlineReq) (d : ℕ) (n : Node) (v : IsSoundNode n) where
  abbrev answer : Response
  answer = if ltb limit d then limit_error else deadline_message d

  -- The node with the answer given and the round left alone.
  abbrev answered : Node
  answered = reply creq answer n

  -- The node with the nonce forwarded and the deadline lowered.
  abbrev forwarded : ℕ → MinerRound → Node
  forwarded p r = reply creq answer (record n {
    client = do_submit_nonce creq.recip_id (submit_request creq d) n.client;
    wallet = set_deadline p r d n.wallet;
  })

  answered-Validated :
      improves limit creq d (view n creq.account_id) ≡ false → Validated limit creq d n answered
  unfolding reply
  answered-Validated h = record {
    sound = v;
    rounds = λ a. elim (Bool-cases (creq.account_id == a)) [
      | inl e ↦ let same : creq.account_id ≡ a = (==_iff creq.account_id a).0 e in rw (e, ← same, h)
      | inr e ↦ rw e
    ];
    calls = rw h (sym (append-nil n.client.calls));
    replies = refl;
    same_servers = refl;
    same_miners = refl;
  }

  forwarded-Validated :
      (p : ℕ) (r : MinerRound)
      → get_miner_round n.wallet creq.account_id ≡ some p
      → view n creq.account_id ≡ some r
      → improves limit creq d (some r) ≡ true
      → Validated limit creq d n (forwarded p r)
  unfolding reply submit_request set_deadline do_submit_nonce get_miner_round
  forwarded-Validated p r e g h = record {
    sound = set-IsSound v p (record r { deadline = d });
    rounds = λ a.
        round_of-set v creq.account_id p (record r { deadline = d }) e a
        ∙ elim (Bool-cases (creq.account_id == a)) [
          | inl eq ↦
              let same : creq.account_id ≡ a = (==_iff creq.account_id a).0 eq in
              rw (eq, ← same, g, h)
          | inr ne ↦ rw ne
        ];
    calls = rw (g, h);
    replies = refl;
    same_servers = refl;
    same_miners = refl;
  }

  -- The node as `validate_deadline` leaves it, when the round is `r`.
  with_round :
      (p : ℕ) (r : MinerRound)
      → ltb limit d ≡ false
      → get_miner_round n.wallet creq.account_id ≡ some p
      → get_elem? n.wallet.rounds p ≡ some r
      → validate_deadline limit creq d n
        ≡ (if improves limit creq d (some r) then forwarded p r else answered)
  unfolding validate_deadline visit visit_round
  with_round p r h e g = ground arith

  without_round :
      ltb limit d ≡ false
      → get_miner_round n.wallet creq.account_id ≡ none
      → validate_deadline limit creq d n ≡ answered
  unfolding validate_deadline visit
  without_round h e = rw (h, e)

  over_limit : ltb limit d ≡ true → validate_deadline limit creq d n ≡ answered
  unfolding validate_deadline
  over_limit h = rw h

  over_limit-improves :
      (o : Option MinerRound) → ltb limit d ≡ true → improves limit creq d o ≡ false
  over_limit-improves none h = refl
  over_limit-improves (some r) h = ground arith

-- On a sound node, whatever the branch: the one answer is given; the round of the request's
-- account alone is lowered, and the nonce goes to the server of the recipient, if there is one,
-- exactly when the deadline is within the limit and below that of a free round of the same
-- height, with the account, the nonce, the deadline and the height; the node stays sound.
pub validate_deadline-Validated :
    (limit : ℕ) (creq : CalcDeadlineReq) (d : ℕ) (n : Node)
    → IsSoundNode n
    → Validated limit creq d n (validate_deadline limit creq d n)
validate_deadline-Validated limit creq d n v = elim (Bool-cases (ltb limit d)) [
  | inl over ↦ rw (over_limit limit creq d n v over) (
      answered-Validated limit creq d n v
        (over_limit-improves limit creq d n v (view n creq.account_id) over))
  | inr fits ↦ by_round fits (get_miner_round n.wallet creq.account_id) refl
]
  where
    by_improves :
        (p : ℕ) (r : MinerRound)
        → ltb limit d ≡ false
        → get_miner_round n.wallet creq.account_id ≡ some p
        → get_elem? n.wallet.rounds p ≡ some r
        → view n creq.account_id ≡ some r
        → Validated limit creq d n (validate_deadline limit creq d n)
    by_improves p r fits e g w =
        rw (with_round limit creq d n v p r fits e g)
          (elim (Bool-cases (improves limit creq d (some r))) [
            | inl yes' ↦ rw yes' (forwarded-Validated limit creq d n v p r e w yes')
            | inr no' ↦ rw no' (answered-Validated limit creq d n v (rw w no'))
          ])

    by_round :
        ltb limit d ≡ false
        → (o : Option ℕ) → get_miner_round n.wallet creq.account_id ≡ o
        → Validated limit creq d n (validate_deadline limit creq d n)
    by_round fits none e =
        rw (without_round limit creq d n v fits e)
          (answered-Validated limit creq d n v (rw (placed n creq.account_id e)))
    by_round fits (some p) e =
        let placed_at = placed n creq.account_id e in
        let (r, g) = found_round n.wallet.rounds p (v.in_range creq.account_id p placed_at) in
        by_improves p r fits e g (rw (placed_at, g))
