-- ===== src/RateLimiter/Alone.antt =====
-- src/RateLimiter.hpp: the loop of `Bucket::aquire` ends when others leave the bucket alone.
use cpp_burst_pool_node.Base.{
  ℕ, ◌+◌, suc, ◌≤◌, ◌≡◌, refl, ap, true, false, Option, some, Option-cases, Bool-cases, ==_iff, inl,
  inr, arith,
}
use cpp_burst_pool_node.RateLimiter.Bucket.{Double, attempt}
use cpp_burst_pool_node.RateLimiter.Contention.{
  Local, outside, trying, System, update, Step, load, refuse, exchange, retry,
}

module _ (d : Double) (rate burst_size consume : d.F) where
  abbrev pub Bucket : Type 0
  Bucket = System d rate burst_size consume

  abbrev attempted : d.F → d.F → Option d.F
  attempted now old = attempt d now rate burst_size consume old

  -- A turn of the thread's loop, in which no exchange fails for no reason.
  abbrev pub IsTurn : ℕ → (st st' : Bucket) → Step d rate burst_size consume st st' → Type 0
  IsTurn i st st' (load k now) = ⊥
  IsTurn i st st' (refuse k e a) = k ≡ i
  IsTurn i st st' (exchange k e a same) = k ≡ i
  IsTurn i st st' (retry k {now} {old} e a) = (k ≡ i) × (d.same st.zero_time old ≡ false)

  -- A number of turns of one thread, with no step of another between them.
  pub data Alone (i : ℕ) : ℕ → Bucket → Bucket → Type 0 where
    stops : {st : Bucket} → Alone i 0 st st
    turns_once :
        {n : ℕ} {st st' st'' : Bucket} (step : Step d rate burst_size consume st st')
        → IsTurn i st st' step
        → Alone i n st' st''
        → Alone i (suc n) st st''

  updated :
      (f : ℕ → Local d rate burst_size consume) (k i : ℕ) (l : Local d rate burst_size consume)
      → k ≡ i
      → update d rate burst_size consume f k l i ≡ l
  updated f k i l e = rw ((==_iff k i).1 e) refl

  -- After `n` turns the thread can leave the loop, with `bound` turns in all at most.
  abbrev pub Leaves : ℕ → ℕ → ℕ → Bucket → Type 0
  Leaves bound i n st =
      (more : ℕ) × (st' : Bucket) × Alone i more st st'
      × (st'.locals i ≡ outside)
      × (n + more ≤ bound)

  more-Leaves :
      (i n : ℕ) {bound : ℕ} {st : Bucket} → Leaves bound i n st → Leaves (suc bound) i (suc n) st
  more-Leaves i n (more, st', run, left, le) = (more, st', run, left, omega (arith, le))

  slack-Leaves :
      (i n : ℕ) {bound : ℕ} {st : Bucket} → Leaves bound i n st → Leaves (suc bound) i n st
  slack-Leaves i n (more, st', run, left, le) = (more, st', run, left, omega (arith, le))

  at_rest :
      (i : ℕ) {n : ℕ} {st st' : Bucket}
      → st.locals i ≡ outside
      → Alone i n st st'
      → Leaves 0 i n st'
  at_rest i {st = st} e stops = (0, st, stops, e, omega arith)
  at_rest i {st = st} e (turns_once (load k now) p more) = absurd p
  at_rest i {st = st} e (turns_once (refuse k h a) p more) = absurd (cc (ap st.locals p, h, e))
  at_rest i {st = st} e (turns_once (exchange k h a same) p more) =
      absurd (cc (ap st.locals p, h, e))
  at_rest i {st = st} e (turns_once (retry k h a) p more) = absurd (cc (ap st.locals p.0, h, e))

  module _ (reflexive : (z : d.F) → d.same z z ≡ true) where
    now-Leaves :
        (i : ℕ) {now : d.F} {st : Bucket} → st.locals i ≡ trying now st.zero_time → Leaves 1 i 0 st
    now-Leaves i {now} {st} e = elim (Option-cases (attempted now st.zero_time)) [
      | inl a ↦ (
        1,
        _,
        turns_once (refuse i e a) refl stops,
        updated st.locals i i outside refl,
        omega arith,
      )
      | inr (new, a) ↦ (
        1,
        _,
        turns_once (exchange i e a (reflexive st.zero_time)) refl stops,
        updated st.locals i i outside refl,
        omega arith,
      )
    ]

    retry-Leaves :
        (i : ℕ) {now old new : d.F} {st : Bucket}
        → st.locals i ≡ trying now old
        → attempted now old ≡ some new
        → d.same st.zero_time old ≡ false
        → Leaves 2 i 0 st
    retry-Leaves i {now} {st = st} e a differs =
        let (n, st', more, left, le) =
          now-Leaves i (updated st.locals i i (trying now st.zero_time) refl) in
        (suc n, st', turns_once (retry i e a) (refl, differs) more, left, omega (arith, le))

    trying-Leaves :
        (i : ℕ) {now old : d.F} {st : Bucket} → st.locals i ≡ trying now old → Leaves 2 i 0 st
    trying-Leaves i {now} {old} {st} e = elim (Option-cases (attempted now old)) [
      | inl a ↦ (
        1,
        _,
        turns_once (refuse i e a) refl stops,
        updated st.locals i i outside refl,
        omega arith,
      )
      | inr (new, a) ↦ elim (Bool-cases (d.same st.zero_time old)) [
        | inl same ↦ (
          1,
          _,
          turns_once (exchange i e a same) refl stops,
          updated st.locals i i outside refl,
          omega arith,
        )
        | inr differs ↦ retry-Leaves i e a differs
      ]
    ]

    -- With the value of now, the exchange does not fail.
    up_to_date :
        (i : ℕ) {n : ℕ} {now : d.F} {st st' : Bucket}
        → st.locals i ≡ trying now st.zero_time
        → Alone i n st st'
        → Leaves 1 i n st'
    up_to_date i e stops = now-Leaves i e
    up_to_date i {st = st} e (turns_once (load k now) p more) = absurd p
    up_to_date i {st = st} e (turns_once (refuse k h a) p more) =
        more-Leaves i _ (at_rest i (updated st.locals k i outside p) more)
    up_to_date i {st = st} e (turns_once (exchange k h a same) p more) =
        more-Leaves i _ (at_rest i (updated st.locals k i outside p) more)
    up_to_date i {st = st} e (turns_once (retry k h a) p more) =
        absurd (cc (ap st.locals p.0, h, e, p.1, reflexive st.zero_time))

    -- If `compare_exchange_weak` holds each value for the same as itself, and fails for no other
    -- reason than a value that differs: a thread that is in the loop, and has taken turns with no
    -- step of another thread between them, can go on to leave it, in two turns at most in all.
    pub Alone-Leaves :
        (i : ℕ) {n : ℕ} {now old : d.F} {st st' : Bucket}
        → st.locals i ≡ trying now old
        → Alone i n st st'
        → Leaves 2 i n st'
    Alone-Leaves i e stops = trying-Leaves i e
    Alone-Leaves i {st = st} e (turns_once (load k now) p more) = absurd p
    Alone-Leaves i {st = st} e (turns_once (refuse k h a) p more) =
        more-Leaves i _ (slack-Leaves i _ (at_rest i (updated st.locals k i outside p) more))
    Alone-Leaves i {st = st} e (turns_once (exchange k h a same) p more) =
        more-Leaves i _ (slack-Leaves i _ (at_rest i (updated st.locals k i outside p) more))
    Alone-Leaves i {st = st} e (turns_once (retry k {now} h a) p more) =
        more-Leaves i _ (up_to_date i (updated st.locals k i (trying now st.zero_time) p.0) more)
