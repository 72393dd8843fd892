-- ===== src/Handler/Forwarded.antt =====
-- src/DeadlineRequestHandler.cpp: what a row of validations leaves as a miner's best deadline, and
-- which nonces it forwards.
use Prim.Native.Nat.{min}
use mathlib.Core.List.{append_assoc, append-nil}
use mathlib.Core.Path.{ap₂}
use cpp_burst_pool_node.Base.{
  ℕ, ◌≡◌, sym, ap, ◌∙◌, Bool, false, ◌&&◌, Option, some, List, [], ◌∷◌, ◌++◌, ltb, leb, ◌==◌,
  if◌then◌else◌, All, arith,
}
use cpp_burst_pool_node.Base.Dict.{nat_eq, lookup}
use cpp_burst_pool_node.Wallet.State.{MinerRound}
use cpp_burst_pool_node.NodeCom.{SubmitNonceRequest, started}
use cpp_burst_pool_node.Handler.State.{CalcDeadlineReq, Node}
use cpp_burst_pool_node.Handler.Validate.{validate_deadline}
use cpp_burst_pool_node.Handler.ValidateLaws.{
  call_for, view, IsSoundNode, improves, lowered, Validated, validate_deadline-Validated,
}
use cpp_burst_pool_node.Handler.BatchLaws.{validate_each}

-- A deadline that counts for the account's round of the given height.
abbrev pub counts : ℕ → ℕ → ℕ → CalcDeadlineReq × ℕ → Bool
counts limit a height (c, d) = (c.account_id == a) && (leb d limit && (height == c.height))

-- The smallest of `m` and the deadlines that count.
unfoldable pub best : ℕ → ℕ → ℕ → List (CalcDeadlineReq × ℕ) → ℕ → ℕ
best limit a height [] m = m
best limit a height (x ∷ xs) m =
    best limit a height xs (if counts limit a height x then min x.1 m else m)

step_best :
    (limit a : ℕ) (x : CalcDeadlineReq × ℕ) (r : MinerRound) (o : Option MinerRound)
    → r.locked ≡ false
    → o ≡ some r
    → (if x.0.account_id == a && improves limit x.0 x.1 o then lowered x.1 o else o)
      ≡ some (record r {
        deadline = if counts limit a r.height x then min x.1 r.deadline else r.deadline;
      })
step_best limit a (c, d) r o free e = ground arith

-- From a sound node, after any validations, the deadline of a miner's round that no other thread
-- holds is the least of what it was and of the deadlines within the limit of the requests for
-- that miner and height; the rest of the round is as it was.
pub validate_each-best :
    (limit a : ℕ) (xs : List (CalcDeadlineReq × ℕ)) (n : Node) (r : MinerRound)
    → IsSoundNode n
    → r.locked ≡ false
    → view n a ≡ some r
    → view (validate_each limit xs n) a
      ≡ some (record r { deadline = best limit a r.height xs r.deadline })
unfolding validate_each best
validate_each-best limit a [] n r v free e = e
validate_each-best limit a ((c, d) ∷ xs) n r v free e =
    let w = validate_deadline-Validated limit c d n v in
    validate_each-best limit a xs (validate_deadline limit c d n) _ w.sound free
      (w.rounds a ∙ step_best limit a (c, d) r (view n a) free e)

-- The calls for one account from the deadline `m` on: a nonce whose deadline counts and is below all
-- before it goes to the server of its recipient, if there is one.
unfoldable pub forwards :
    List (ℕ × List ℕ)
    → ℕ
    → ℕ
    → ℕ
    → List (CalcDeadlineReq × ℕ)
    → ℕ
    → List (List ℕ × SubmitNonceRequest)
forwards servers limit a height [] m = []
forwards servers limit a height ((c, d) ∷ xs) m =
    let better = counts limit a height (c, d) && ltb d m in
    (if better then started (lookup c.recip_id servers) (call_for c d) else [])
    ++ forwards servers limit a height xs (if better then d else m)

abbrev Calls : Type 0
Calls = List (List ℕ × SubmitNonceRequest)

abbrev pub IsFrom : ℕ → CalcDeadlineReq × ℕ → Type 0
IsFrom a x = x.0.account_id ≡ a

step_forwards :
    (limit a d : ℕ) (c : CalcDeadlineReq) (r : MinerRound) (o : Option MinerRound)
    → r.locked ≡ false
    → o ≡ some r
    → c.account_id ≡ a
    → improves limit c d o ≡ (counts limit a r.height (c, d) && ltb d r.deadline)
step_forwards limit a d c r o free e same = ground arith

step_lowered :
    (limit a d : ℕ) (c : CalcDeadlineReq) (r : MinerRound) (o : Option MinerRound)
    → r.locked ≡ false
    → o ≡ some r
    → (if c.account_id == a && improves limit c d o then lowered d o else o)
      ≡ some (record r {
        deadline = if counts limit a r.height (c, d) && ltb d r.deadline then d else r.deadline;
      })
step_lowered limit a d c r o free e = ground arith

-- From a sound node, validations of one miner's requests, the round of the miner held by no other
-- thread, start the calls for each new least deadline within the limit and of the round's height,
-- in order, to the server of the request's recipient if there is one, and no others. A call has the
-- account, the nonce and the height of its request, and the deadline.
pub validate_each-forwards :
    (limit a : ℕ) (xs : List (CalcDeadlineReq × ℕ)) (n : Node) (r : MinerRound)
    → All (IsFrom a) xs
    → IsSoundNode n
    → r.locked ≡ false
    → view n a ≡ some r
    → (validate_each limit xs n).client.calls
      ≡ n.client.calls ++ forwards n.client.pool_id_to_server limit a r.height xs r.deadline
unfolding validate_each forwards
validate_each-forwards limit a [] n r from v free e = sym (append-nil n.client.calls)
validate_each-forwards limit a ((c, d) ∷ xs) n r from v free e =
    validate_each-forwards limit a xs n' r' from.1 w.sound free
      (w.rounds a ∙ step_lowered limit a d c r (view n a) free e)
    ∙ ap₂ (λ (calls : Calls) servers. calls ++ forwards servers limit a r.height xs r'.deadline)
        (w.calls
          ∙ ap (λ (better : Bool). n.client.calls ++ (if better then call else []))
              (step_forwards limit a d c r (view n c.account_id) free (ap (view n) from.0 ∙ e)
                from.0))
        w.same_servers
    ∙ append_assoc n.client.calls _
        (forwards n.client.pool_id_to_server limit a r.height xs r'.deadline)
  where
    call : Calls
    call = started (lookup c.recip_id n.client.pool_id_to_server) (call_for c d)

    n' : Node
    n' = validate_deadline limit c d n

    w : Validated limit c d n n'
    w = validate_deadline-Validated limit c d n v

    r' : MinerRound
    r' = record r {
      deadline = if counts limit a r.height (c, d) && ltb d r.deadline then d else r.deadline;
    }
