-- ===== src/System/Invariant.antt =====
-- What holds of all that the threads share, in every state that they reach.
use mathlib.Core.Path.{subst, subst₂}
use cpp_burst_pool_node.Base.{
  ℕ, ◌+◌, ◌<◌, ◌≡◌, sym, ap, ◌∙◌, inl, inr, Bool, some, List, [], ◌∷◌, ◌++◌, ◌==◌, if◌then◌else◌,
  length, All, All-append, All-imp, refl, some-eq-some, arith,
}
use cpp_burst_pool_node.Base.Takes.{Swaps, All-Swaps, total, total-append}
use cpp_burst_pool_node.Burstmath.Bytes.{num_scoops, hash_size}
use cpp_burst_pool_node.Burstmath.Shabal.{Shabal}
use cpp_burst_pool_node.Wallet.State.{Block, Wallet}
use cpp_burst_pool_node.Wallet.Info.{Json}
use cpp_burst_pool_node.Wallet.InfoLaws.{length-scan_gensig}
use cpp_burst_pool_node.Wallet.Refresh.{Transfer, get_mining_info, refresh_block}
use cpp_burst_pool_node.Wallet.RefreshLaws.{refresh_block-Outcome}
use cpp_burst_pool_node.RateLimiter.Bucket.{Double}
use cpp_burst_pool_node.Handler.State.{CalcDeadlineReq, Node}
use cpp_burst_pool_node.Handler.Distribute.{Loop, enque_req, turn}
use cpp_burst_pool_node.Handler.DistributeLaws.{history, IsLoop, turn-Turned}
use cpp_burst_pool_node.Handler.DistributeRuns.{enque_req-history, enque_req-IsLoop}
use cpp_burst_pool_node.Handler.Batch.{Limits}
use cpp_burst_pool_node.Handler.BatchLaws.{IsComputable}
use cpp_burst_pool_node.Session.Request.{Shared}
use cpp_burst_pool_node.Session.RequestLaws.{Immediate, Queued, Handled, answered, queued}
use cpp_burst_pool_node.Session.ComputableLaws.{IsBlock, Queued-IsComputable}
use cpp_burst_pool_node.Session.Response.{Response}
use cpp_burst_pool_node.Session.Url.{parse_url}
use cpp_burst_pool_node.System.Steps.{Asked, asked_of, Task}
use cpp_burst_pool_node.System.Loops.{
  Holding, enque_req-Holding, next-Holding, history-Swaps, total-history-Swaps,
}
use cpp_burst_pool_node.System.Rounds.{at_once, IsFor, IsMade, IsKept, IsTask}
use cpp_burst_pool_node.System.Counts.{asks, answers, same}
use cpp_burst_pool_node.System.Grows.{grow-IsKept, grow-IsTask}

Queued-IsFor :
    {d : Double} {session : ℕ} {st st' : Shared d} (target : List ℕ)
    (q : Queued d session (parse_url target) st st')
    → IsFor q.creq (asked_of session target st.node.wallet)
Queued-IsFor target q = record {
  session_of = q.session_of;
  account = q.account;
  nonce = q.nonce;
  recip = q.recip;
  recip_ne = q.recip_ne;
  height = q.height;
  scoop = q.scoop;
  base_target = q.target;
  gensig = q.gensig;
}

-- What a refresh may bring: the same block, or one whose signature and scoop have been computed.
same_block-get_mining_info :
    (t : Transfer) (w : Wallet) → (get_mining_info t w).0.current_block ≡ w.current_block
unfolding get_mining_info
same_block-get_mining_info t w = ground arith

pub record IsSized (b : Block) : Type 0 where
  pub gensig_sized : length b.gensig ≡ hash_size
  pub scoop_lt : b.scoop < num_scoops

pub refresh_block-IsSized :
    (s : Shabal) (j : Json) (t : Transfer) (w w' : Wallet) (b : Bool)
    → IsSized w.current_block
    → refresh_block s j t w ≡ some (w', b)
    → IsSized w'.current_block
refresh_block-IsSized s j t w w' b v e = elim (refresh_block-Outcome s j t w w' b e) [
  | inl (_, same_wallet, _) ↦
      subst IsSized
        (sym (ap (λ (u : Wallet). u.current_block) same_wallet ∙ same_block-get_mining_info t w)) v
  | inr (_, info, _, done) ↦ record {
    gensig_sized = length-scan_gensig 32 info.gensig_str _ done.block_gensig;
    scoop_lt = done.scoop_lt;
  }
]

pub refresh_block-IsBlock :
    (s : Shabal) (j : Json) (t : Transfer) (w w' : Wallet) (b : Bool)
    → IsBlock w.current_block
    → refresh_block s j t w ≡ some (w', b)
    → 0 < w'.current_block.base_target
    → IsBlock w'.current_block
refresh_block-IsBlock s j t w w' b v e pos =
    let z =
      refresh_block-IsSized s j t w w' b
        (record { gensig_sized = v.gensig_sized; scoop_lt = v.scoop_lt }) e in
    record { gensig_sized = z.gensig_sized; scoop_lt = z.scoop_lt; target_pos = pos }

module _ (s : Shabal) (limits : Limits) (parallel : ℕ) (servers : List (ℕ × List ℕ)) where
  -- `conserved` says of each session that its requests so far are answered or waiting.
  pub record IsSystem (requests : List Asked) (tasks : List Task) (n : Node) (l : Loop)
      : Type 0 where
    pub block : IsBlock n.wallet.current_block
    pub valid : IsLoop parallel l
    pub computable : Holding IsComputable l
    pub made : All (IsMade requests) (history l)
    pub kept : IsKept s limits.deadline_limit servers requests n
    pub computed : All (IsTask s limits.deadline_limit servers requests) tasks
    pub conserved :
        (a : ℕ)
        → total (same a) requests
          ≡ total (answers a) n.replies
            + total (asks a) (history l)
            + total (λ (t : Task). asks a t.0) tasks

  pub turn-IsSystem :
      0 < parallel
      → (requests : List Asked) (tasks : List Task) (n : Node) (l k : Loop)
      → IsSystem requests tasks n l
      → turn parallel l ≡ some k
      → IsSystem requests tasks n k
  turn-IsSystem pos requests tasks n l k v e =
      let (f, t) = turn-Turned parallel l pos v.valid in
      subst (IsSystem requests tasks n) (some-eq-some (sym f ∙ e)) (record {
        block = v.block;
        valid = t.valid;
        computable = next-Holding IsComputable parallel l v.computable;
        made = subst (All (IsMade requests)) (sym t.kept) v.made;
        kept = v.kept;
        computed = v.computed;
        conserved = λ a. omega (arith, v.conserved a, ap (total (asks a)) t.kept);
      })

  pub swap-IsSystem :
      (requests : List Asked) (tasks : List Task) (n : Node) (l : Loop) (q : List CalcDeadlineReq)
      → IsSystem requests tasks n l
      → Swaps l.q q
      → IsSystem requests tasks n (record l { q = q })
  swap-IsSystem requests tasks n l q v t = record {
    block = v.block;
    valid = record {
      pending_le = v.valid.pending_le;
      full = v.valid.full;
      batches = v.valid.batches;
    };
    computable = record {
      gathered = v.computable.gathered;
      queued = All-Swaps IsComputable t v.computable.queued;
      batches = v.computable.batches;
    };
    made = history-Swaps (IsMade requests) l t v.made;
    kept = v.kept;
    computed = v.computed;
    conserved = λ a. omega (arith, v.conserved a, total-history-Swaps (asks a) l t);
  }

  answer-IsSystem :
      (requests : List Asked) (tasks : List Task) (r : Asked) (res : Response) (n : Node) (l : Loop)
      → Immediate r.wallet res
      → IsSystem requests tasks n l
      → IsSystem (r ∷ requests) tasks (record n { replies = n.replies ++ (r.session, res) ∷ [] }) l
  answer-IsSystem requests tasks r res n l im v =
      let k = grow-IsKept s limits.deadline_limit servers r requests n v.kept in
      record {
        block = v.block;
        valid = v.valid;
        computable = v.computable;
        made = All-imp (λ c m. inr m) (history l) v.made;
        kept = record {
          sound = k.sound;
          same_servers = k.same_servers;
          calls = k.calls;
          replies =
              All-append _ n.replies _ k.replies
                (at_once (inl (record { session_of = refl; immediate = im })), tt);
        };
        computed =
            All-imp (grow-IsTask s limits.deadline_limit servers r requests) tasks v.computed;
        conserved = λ a.
            omega
              (arith, v.conserved a, total-append (answers a) n.replies ((r.session, res) ∷ []));
      }

  queue-IsSystem :
      {d : Double}
      → 0 < parallel
      → (requests : List Asked) (tasks : List Task) (session : ℕ) (target : List ℕ)
        (st st' : Shared d)
      → IsSystem requests tasks st.node st.loop
      → (q : Queued d session (parse_url target) st st')
      → IsSystem
          (asked_of session target st.node.wallet ∷ requests)
          tasks
          st.node
          (enque_req q.creq st.loop)
  queue-IsSystem pos requests tasks session target st st' v q =
      let r = asked_of session target st.node.wallet in
      record {
        block = v.block;
        valid = enque_req-IsLoop parallel pos q.creq st.loop v.valid;
        computable =
            enque_req-Holding IsComputable q.creq st.loop (Queued-IsComputable q v.block)
              v.computable;
        made = rw (enque_req-history q.creq st.loop) (
            All-append (IsMade (r ∷ requests)) (history st.loop) _
              (All-imp (λ c m. inr m) (history st.loop) v.made) (inl (Queued-IsFor target q), tt));
        kept = grow-IsKept s limits.deadline_limit servers r requests st.node v.kept;
        computed =
            All-imp (grow-IsTask s limits.deadline_limit servers r requests) tasks v.computed;
        conserved = λ a. omega (
          arith,
          v.conserved a,
          ap (total (asks a)) (enque_req-history q.creq st.loop),
          total-append (asks a) (history st.loop) (q.creq ∷ []),
          ap {B = ℕ} (λ (k : ℕ). if k == a then 1 else 0) q.session_of,
        );
      }

  pub handle-IsSystem :
      {d : Double}
      → 0 < parallel
      → (requests : List Asked) (tasks : List Task) (session : ℕ) (target : List ℕ)
        (st st' : Shared d)
      → IsSystem requests tasks st.node st.loop
      → Handled d session (parse_url target) st st'
      → IsSystem (asked_of session target st.node.wallet ∷ requests) tasks st'.node st'.loop
  handle-IsSystem pos requests tasks session target st st' v (answered w) =
      let r = asked_of session target st.node.wallet in
      subst₂ (IsSystem (r ∷ requests) tasks) (sym w.node) (sym w.same_loop)
        (answer-IsSystem requests tasks r w.res st.node st.loop w.immediate v)
  handle-IsSystem pos requests tasks session target st st' v (queued q) =
      subst₂ (IsSystem (asked_of session target st.node.wallet ∷ requests) tasks) (sym q.same_node)
        (sym q.loop) (queue-IsSystem pos requests tasks session target st st' v q)
