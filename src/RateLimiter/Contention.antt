-- ===== src/RateLimiter/Contention.antt =====
-- src/RateLimiter.hpp: threads on one bucket, interleaved at each load and exchange.
use cpp_burst_pool_node.Base.{
  ℕ, ◌≡◌, refl, ap, ◌∙◌, true, Option, none, some, List, [], ◌∷◌, ◌++◌, ◌==◌, if◌then◌else◌, ◌>>=◌,
  some-eq-some, >>=-eq-some, Option-cases, inl, inr,
}
use cpp_burst_pool_node.RateLimiter.Bucket.{Double, attempt}

module _ (d : Double) (rate burst_size consume : d.F) where
  -- A thread in the loop has its time and the value that it has loaded.
  pub data Local : Type 0 where
    outside : Local
    trying : (now : d.F) → (old : d.F) → Local

  -- `log` keeps the times of the calls that were let through, in the order of their exchanges.
  pub record System : Type 0 where
    pub zero_time : d.F
    pub locals : ℕ → Local
    pub log : List d.F

  abbrev pub update : (ℕ → Local) → ℕ → Local → ℕ → Local
  update f i l k = if i == k then l else f k

  pub data Step (s : System) : System → Type 0 where
    load :
        (i : ℕ) (now : d.F)
        → Step s (record s { locals = update s.locals i (trying now s.zero_time) })
    refuse :
        (i : ℕ) {now old : d.F}
        → s.locals i ≡ trying now old
        → attempt d now rate burst_size consume old ≡ none
        → Step s (record s { locals = update s.locals i outside })
    exchange :
        (i : ℕ) {now old new : d.F}
        → s.locals i ≡ trying now old
        → attempt d now rate burst_size consume old ≡ some new
        → d.same s.zero_time old ≡ true
        → Step s (record {
          zero_time = new;
          locals = update s.locals i outside;
          log = s.log ++ now ∷ [];
        })
    -- The value has changed, or the exchange fails for no reason.
    retry :
        (i : ℕ) {now old new : d.F}
        → s.locals i ≡ trying now old
        → attempt d now rate burst_size consume old ≡ some new
        → Step s (record s { locals = update s.locals i (trying now s.zero_time) })

  pub data Reach (z : d.F) : System → Type 0 where
    start : Reach z (record { zero_time = z; locals = λ _. outside; log = [] })
    later : {s t : System} → Reach z s → Step s t → Reach z t

  -- The calls one after the other, each let through.
  unfoldable pub replay : List d.F → d.F → Option d.F
  replay [] z = some z
  replay (now ∷ log) z = attempt d now rate burst_size consume z >>= replay log

  replay_one : (now z : d.F) → replay (now ∷ []) z ≡ attempt d now rate burst_size consume z
  unfolding replay
  replay_one now z = elim (Option-cases (attempt d now rate burst_size consume z)) [
    | inl e ↦ rw e
    | inr (y, e) ↦ rw e
  ]

  replay-append :
      (log : List d.F) (now z z' : d.F)
      → replay log z ≡ some z'
      → replay (log ++ now ∷ []) z ≡ attempt d now rate burst_size consume z'
  unfolding replay
  replay-append [] now z z' h = rw (some-eq-some h) (replay_one now z')
  replay-append (x ∷ log) now z z' h =
      let (y, at, after) = >>=-eq-some (attempt d x rate burst_size consume z) _ h in
      rw at (replay-append log now y z' after)

  -- If `compare_exchange_weak` holds only equal values for the same: whatever the interleaving of
  -- threads on a bucket that began at `z`, it is as the calls that were let through leave it one
  -- after the other, in the order of their exchanges, each of them let through there.
  pub Reach-replay :
      ((a b : d.F) → d.same a b ≡ true → a ≡ b)
      → (z : d.F) (s : System) → Reach z s
      → replay s.log z ≡ some s.zero_time
  unfolding replay
  Reach-replay exact z s start = refl
  Reach-replay exact z s (later r (load i now)) = Reach-replay exact z _ r
  Reach-replay exact z s (later r (refuse i e a)) = Reach-replay exact z _ r
  Reach-replay exact z s (later r (retry i e a)) = Reach-replay exact z _ r
  Reach-replay exact z s (later {s = s0} r (exchange i {now} {old} {new} e a same)) =
      replay-append s0.log now z s0.zero_time (Reach-replay exact z s0 r)
      ∙ ap (attempt d now rate burst_size consume) (exact s0.zero_time old same)
      ∙ a
