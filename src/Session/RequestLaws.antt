-- ===== src/Session/RequestLaws.antt =====
-- src/Session.cpp: what a request to the server comes to.
use cpp_burst_pool_node.Base.{
  ℕ, ◌≡◌, ◌≢◌, refl, inl, inr, Bool, true, false, Option, none, some, List, [], ◌∷◌, ◌++◌, ◌==◌,
  codes, Bool-cases, arith,
}
use cpp_burst_pool_node.Base.Dict.{text_eq}
use cpp_burst_pool_node.Base.Decimal.{stoull}
use cpp_burst_pool_node.Wallet.State.{
  Wallet, get_current_block, get_cached_mining_info, get_reward_recipient,
}
use cpp_burst_pool_node.RateLimiter.Bucket.{Double}
use cpp_burst_pool_node.RateLimiter.Limiter.{RateLimiter}
use cpp_burst_pool_node.Handler.State.{CalcDeadlineReq}
use cpp_burst_pool_node.Handler.Distribute.{enque_req}
use cpp_burst_pool_node.Session.Response.{Response, success, bad_request, service_unavailable}
use cpp_burst_pool_node.Session.Url.{Param, parse_url}
use cpp_burst_pool_node.Session.Request.{
  Shared, param, empty_response, bad_account, bad_nonce, bad_recipient, calc_deadline_req, do_write,
  submit, with_nonce, with_account, process_submit_nonce_req, dispatch, limited, with_type,
  handle_request,
}

-- The answers that are given without a deadline, from a wallet.
pub data Immediate (w : Wallet) : Response → Type 0 where
  cached_info : Immediate w (record { status = success; body = get_cached_mining_info w })
  no_request : Immediate w (empty_response bad_request)
  no_tokens : Immediate w (empty_response service_unavailable)
  no_account : Immediate w bad_account
  no_nonce : Immediate w bad_nonce
  no_recipient : Immediate w bad_recipient

module _ (d : Double) where
  -- One answer, and nothing else but for the limiter.
  pub record Answered (session : ℕ) (st st' : Shared d) : Type 1 where
    pub res : Response
    pub immediate : Immediate st.node.wallet res
    pub node : st'.node ≡ record st.node { replies = st.node.replies ++ (session, res) ∷ [] }
    pub same_loop : st'.loop ≡ st.loop

  -- A nonce queued for the current block and the recipient of its account, and nothing else.
  pub record Queued (session : ℕ) (params : List Param) (st st' : Shared d) : Type 1 where
    pub creq : CalcDeadlineReq
    pub loop : st'.loop ≡ enque_req creq st.loop
    pub same_node : st'.node ≡ st.node
    pub session_of : creq.session ≡ session
    pub account : stoull (param (codes "accountId") params) ≡ some creq.account_id
    pub nonce : stoull (param (codes "nonce") params) ≡ some creq.nonce
    pub recip : creq.recip_id ≡ get_reward_recipient st.node.wallet creq.account_id
    pub recip_ne : creq.recip_id ≢ 0
    pub height : creq.height ≡ st.node.wallet.current_block.height
    pub scoop : creq.scoop_nr ≡ st.node.wallet.current_block.scoop
    pub target : creq.base_target ≡ st.node.wallet.current_block.base_target
    pub gensig : creq.gensig ≡ st.node.wallet.current_block.gensig

  -- The two ways in which a handler can end.
  pub data Handled (session : ℕ) (params : List Param) (st st' : Shared d) : Type 1 where
    answered : Answered session st st' → Handled session params st st'
    queued : Queued session params st st' → Handled session params st st'

  do_write-Handled :
      (session : ℕ) (params : List Param) (res : Response) (st : Shared d)
      → Immediate st.node.wallet res
      → Handled session params st (do_write d session res st)
  unfolding do_write
  do_write-Handled session params res st i =
      answered (record { res = res; immediate = i; node = refl; same_loop = refl })

  abbrev pub creq_of : ℕ → ℕ → ℕ → Shared d → CalcDeadlineReq
  creq_of session account_id nonce st =
      calc_deadline_req session account_id nonce (get_reward_recipient st.node.wallet account_id)
        (get_current_block st.node.wallet)

  pub submit-Queued :
      (session account_id nonce : ℕ) (params : List Param) (st : Shared d)
      → stoull (param (codes "accountId") params) ≡ some account_id
      → stoull (param (codes "nonce") params) ≡ some nonce
      → get_reward_recipient st.node.wallet account_id ≢ 0
      → Queued session params st (submit d session account_id nonce st)
  unfolding submit calc_deadline_req get_current_block
  submit-Queued session account_id nonce params st a b ne =
      let known : (get_reward_recipient st.node.wallet account_id == 0) ≡ false =
        ground (arith, ne) in
      rw known (record {
        creq = creq_of session account_id nonce st;
        loop = refl;
        same_node = refl;
        session_of = refl;
        account = a;
        nonce = b;
        recip = refl;
        recip_ne = ne;
        height = refl;
        scoop = refl;
        target = refl;
        gensig = refl;
      })

  refused :
      (session account_id nonce : ℕ) (params : List Param) (st : Shared d)
      → (get_reward_recipient st.node.wallet account_id == 0) ≡ true
      → Handled session params st (submit d session account_id nonce st)
  unfolding submit
  refused session account_id nonce params st e =
      rw e (do_write-Handled session params _ st no_recipient)

  submit-Handled :
      (session account_id nonce : ℕ) (params : List Param) (st : Shared d)
      → stoull (param (codes "accountId") params) ≡ some account_id
      → stoull (param (codes "nonce") params) ≡ some nonce
      → Handled session params st (submit d session account_id nonce st)
  submit-Handled session account_id nonce params st a b =
      elim (Bool-cases (get_reward_recipient st.node.wallet account_id == 0)) [
        | inl no' ↦ refused session account_id nonce params st no'
        | inr ok ↦
            queued
              (submit-Queued session account_id nonce params st a b (λ e. ground (arith, ok, e)))
      ]

  with_nonce-Handled :
      (session account_id : ℕ) (params : List Param) (st : Shared d)
      → stoull (param (codes "accountId") params) ≡ some account_id
      → (o : Option ℕ) → stoull (param (codes "nonce") params) ≡ o
      → Handled session params st (with_nonce d session account_id o st)
  unfolding with_nonce
  with_nonce-Handled session account_id params st a none e =
      do_write-Handled session params _ st no_nonce
  with_nonce-Handled session account_id params st a (some n) e =
      submit-Handled session account_id n params st a e

  with_account-Handled :
      (session : ℕ) (params : List Param) (st : Shared d) (o : Option ℕ)
      → stoull (param (codes "accountId") params) ≡ o
      → Handled session params st (with_account d session o params st)
  unfolding with_account
  with_account-Handled session params st none e = do_write-Handled session params _ st no_account
  with_account-Handled session params st (some a) e =
      with_nonce-Handled session a params st e _ refl

  dispatch-Handled :
      (session : ℕ) (req_type : List ℕ) (params : List Param) (st : Shared d)
      → Handled session params st (dispatch d session req_type params st)
  unfolding dispatch process_submit_nonce_req
  dispatch-Handled session req_type params st =
      elim (Bool-cases (text_eq.beq req_type (codes "getMiningInfo"))) [
        | inl e ↦ rw e (do_write-Handled session params _ st cached_info)
        | inr e ↦ elim (Bool-cases (text_eq.beq req_type (codes "submitNonce"))) [
          | inl f ↦ rw (e, f) (with_account-Handled session params st _ refl)
          | inr f ↦ rw (e, f) (do_write-Handled session params _ st no_request)
        ]
      ]

  -- The limiter does not matter to how a handler ends.
  pub limiter-Queued :
      (session : ℕ) (params : List Param) (st st' : Shared d) (rl : RateLimiter d)
      → Queued session params (record st { rl = rl }) st'
      → Queued session params st st'
  limiter-Queued session params st st' rl q = record {
    creq = q.creq;
    loop = q.loop;
    same_node = q.same_node;
    session_of = q.session_of;
    account = q.account;
    nonce = q.nonce;
    recip = q.recip;
    recip_ne = q.recip_ne;
    height = q.height;
    scoop = q.scoop;
    target = q.target;
    gensig = q.gensig;
  }

  limiter-Handled :
      (session : ℕ) (params : List Param) (st st' : Shared d) (rl : RateLimiter d)
      → Handled session params (record st { rl = rl }) st'
      → Handled session params st st'
  limiter-Handled session params st st' rl (answered a) =
      answered
        (record { res = a.res; immediate = a.immediate; node = a.node; same_loop = a.same_loop })
  limiter-Handled session params st st' rl (queued q) =
      queued (limiter-Queued session params st st' rl q)

  limited-Handled :
      (session : ℕ) (req_type : List ℕ) (params : List Param) (st : Shared d)
      (p : RateLimiter d × Bool)
      → Handled session params st (limited d session req_type params st p)
  unfolding limited
  limited-Handled session req_type params st (rl, true) =
      limiter-Handled session params st _ rl
        (dispatch-Handled session req_type params (record st { rl = rl }))
  limited-Handled session req_type params st (rl, false) =
      limiter-Handled session params st _ rl
        (do_write-Handled session params _ (record st { rl = rl }) no_tokens)

  with_type-Handled :
      (now : d.F) (addr : List ℕ) (session : ℕ) (params : List Param) (st : Shared d)
      (o : Option (List ℕ))
      → Handled session params st (with_type d now addr session o params st)
  unfolding with_type
  with_type-Handled now addr session params st none =
      do_write-Handled session params _ st no_request
  with_type-Handled now addr session params st (some t) = limited-Handled session t params st _

  -- Every request is given exactly one answer at once, or is queued for the block that is current
  -- then, with the account and nonce of its parameters and the account's recipient, which is not
  -- zero; the wallet, the client and the other answers stay as they are.
  pub handle_request-Handled :
      (now : d.F) (addr : List ℕ) (session : ℕ) (target : List ℕ) (st : Shared d)
      → Handled session (parse_url target) st (handle_request d now addr session target st)
  unfolding handle_request
  handle_request-Handled now addr session target st =
      with_type-Handled now addr session (parse_url target) st _
