-- ===== src/Handler/DistributeLaws.antt =====
-- src/DeadlineRequestHandler.cpp: the loop that gathers requests neither loses, repeats nor reorders
-- any, and lets none wait for ever.
use mathlib.Core.List.{append_assoc, append-nil}
use cpp_burst_pool_node.Base.{
  ℕ, suc, ◌+◌, ◌<◌, ◌≤◌, ◌≡◌, refl, sym, ap, ◌∙◌, ◌⊎◌, inl, inr, true, false, some, List, [], ◌∷◌,
  ◌++◌, if◌then◌else◌, length, set, take, take_zero, take-set-length, length-set, All, Bool-cases,
  arith,
}
use cpp_burst_pool_node.Handler.State.{CalcDeadlineReq}
use cpp_burst_pool_node.Handler.Distribute.{Batch, Loop, is_due, post, dequeue, turn}

-- The requests of a batch that are to be answered.
abbrev pub content : Batch → List CalcDeadlineReq
content b = take b.pending b.reqs

unfoldable pub contents : List Batch → List CalcDeadlineReq
contents [] = []
contents (b ∷ bs) = content b ++ contents bs

contents-append : (bs : List Batch) (b : Batch) → contents (bs ++ b ∷ []) ≡ contents bs ++ content b
unfolding contents
contents-append [] b = append-nil (content b)
contents-append (c ∷ bs) b =
    ap (◌++◌ (content c)) (contents-append bs b)
    ∙ sym (append_assoc (content c) (contents bs) (content b))

-- All requests so far: those posted, those gathered, those in the queue.
abbrev pub history : Loop → List CalcDeadlineReq
history s = contents s.posted ++ (take s.pending s.reqs ++ s.q)

module _ (parallel : ℕ) where
  pub record IsBatch (b : Batch) : Type 0 where
    pub some_pending : 0 < b.pending
    pub pending_le : b.pending ≤ parallel
    pub full : length b.reqs ≡ parallel

  pub record IsLoop (s : Loop) : Type 0 where
    pub pending_le : s.pending ≤ parallel
    pub full : length s.reqs ≡ parallel
    pub batches : All IsBatch s.posted

  -- What a turn of the loop leads to.
  pub record Turned (s s' : Loop) : Type 0 where
    pub valid : IsLoop s'
    pub kept : history s' ≡ history s

  All-snoc : (bs : List Batch) (b : Batch) → All IsBatch bs → IsBatch b → All IsBatch (bs ++ b ∷ [])
  All-snoc [] b h i = (i, tt)
  All-snoc (c ∷ bs) b h i = (h.0, All-snoc bs b h.1 i)

  post-Turned : (s : Loop) → 0 < s.pending → IsLoop s → Turned s (post s)
  unfolding post
  post-Turned s h v = record {
    valid = record {
      pending_le = omega arith;
      full = v.full;
      batches =
          All-snoc s.posted _ v.batches
            (record { some_pending = h; pending_le = v.pending_le; full = v.full });
    };
    kept =
        rw
          (
            take_zero s.reqs,
            contents-append s.posted (record { reqs = s.reqs; pending = s.pending }),
          )
          (append_assoc (contents s.posted) (take s.pending s.reqs) s.q);
  }

  -- The turn without its check of the bounds.
  abbrev pub filled : List CalcDeadlineReq → Loop → Loop
  filled [] s = record s { waited = s.waited + 1 }
  filled (req ∷ rest) s = record s {
    q = rest;
    reqs = set s.reqs s.pending req;
    pending = s.pending + 1;
  }

  abbrev pub emptied : Loop → Loop
  emptied s = if is_due parallel s then post s else s

  filled-Turned :
      (q : List CalcDeadlineReq) (s : Loop)
      → s.q ≡ q
      → s.pending < parallel
      → IsLoop s
      → (dequeue q s ≡ some (filled q s)) × Turned s (filled q s)
  unfolding dequeue
  filled-Turned [] s e h v = (
    refl,
    record {
      valid = record { pending_le = v.pending_le; full = v.full; batches = v.batches };
      kept = refl;
    },
  )
  filled-Turned (req ∷ rest) s e h v = (
    ground (arith, v.full),
    record {
      valid = record {
        pending_le = omega arith;
        full = length-set s.reqs s.pending req ∙ v.full;
        batches = v.batches;
      };
      kept =
          rw (e, take-set-length s.pending s.reqs req (omega (arith, v.full)))
            (ap (◌++◌ (contents s.posted)) (append_assoc (take s.pending s.reqs) (req ∷ []) rest));
    },
  )

  due_pending : (s : Loop) → 0 < parallel → is_due parallel s ≡ true → 0 < s.pending
  unfolding is_due
  due_pending s pos h = ground arith

  not_due_pending : (s : Loop) → IsLoop s → is_due parallel s ≡ false → s.pending < parallel
  unfolding is_due
  not_due_pending s v h = ground (arith, v.pending_le)

  post_pending : (s : Loop) → 0 < parallel → (post s).pending < parallel
  unfolding post
  post_pending s pos = pos

  emptied-Turned :
      (s : Loop) → 0 < parallel → IsLoop s → Turned s (emptied s) × ((emptied s).pending < parallel)
  emptied-Turned s pos v = elim (Bool-cases (is_due parallel s)) [
    | inl due ↦ rw due (post-Turned s (due_pending s pos due) v, post_pending s pos)
    | inr early ↦ rw early (record { valid = v; kept = refl }, not_due_pending s v early)
  ]

  abbrev pub next : Loop → Loop
  next s = filled (emptied s).q (emptied s)

  -- A turn does not fault; it keeps the loop valid and its history as it is.
  pub turn-Turned :
      (s : Loop) → 0 < parallel → IsLoop s → (turn parallel s ≡ some (next s)) × Turned s (next s)
  unfolding turn
  turn-Turned s pos v =
      let (e, small) = emptied-Turned s pos v in
      let (f, t) = filled-Turned (emptied s).q (emptied s) refl small e.valid in
      (f, record { valid = t.valid; kept = t.kept ∙ e.kept })

  same_queue : (s : Loop) → (emptied s).q ≡ s.q
  unfolding post
  same_queue s = ground arith

  -- A turn takes the first request of the queue.
  pub next_queue :
      (s : Loop) (req : CalcDeadlineReq) (rest : List CalcDeadlineReq)
      → s.q ≡ req ∷ rest
      → (next s).q ≡ rest
  next_queue s req rest e = rw (same_queue s ∙ e)

  -- A request is posted at the latest in the `k`-th turn from here, if the queue stays empty.
  abbrev pub Waits : ℕ → Loop → Type 0
  Waits k s = (s.q ≡ []) × ((s.pending ≡ 0) ⊎ ((0 < k) × (52 ≤ k + s.waited)))

  next_due :
      (s : Loop) → s.q ≡ [] → is_due parallel s ≡ true → ((next s).q ≡ []) × ((next s).pending ≡ 0)
  unfolding post
  next_due s e due = rw (due, e) (refl, refl)

  next_early :
      (s : Loop)
      → s.q ≡ []
      → is_due parallel s ≡ false
      → ((next s).q ≡ []) × ((next s).pending ≡ s.pending) × ((next s).waited ≡ s.waited + 1)
  next_early s e early = rw (early, e) (refl, refl, refl)

  early_waits : (s : Loop) → is_due parallel s ≡ false → (s.pending ≡ 0) ⊎ (s.waited ≤ 50)
  unfolding is_due
  early_waits s h = ground arith

  -- A turn counts down.
  pub next-Waits : (k : ℕ) (s : Loop) → Waits (suc k) s → Waits k (next s)
  next-Waits k s h = elim (Bool-cases (is_due parallel s)) [
    | inl due ↦ let (e, p) = next_due s h.0 due in (e, inl p)
    | inr early ↦
        let (e, p, w) = next_early s h.0 early in (e, ground (arith, h.1, early_waits s early))
  ]
