-- ===== src/Server/MainLaws.antt =====
-- src/Server.cpp: how many threads `main` runs the service on.
use cpp_burst_pool_node.Base.{
  ℕ, zero, suc, ◌==◌, ◌+◌, ◌-◌, ◌^◌, ◌<◌, ◌≤◌, ◌≡◌, ◌≢◌, ◌∙◌, ap, refl, Bool, true, false, none,
  some, ltb, leb, ◌&&◌, if◌then◌else◌, Bool-cases, inl, inr, arith,
}
use cpp_burst_pool_node.RateLimiter.Bucket.{Double}
use cpp_burst_pool_node.Server.Listener.{Listener, listener, run_listener}
use cpp_burst_pool_node.Server.Main.{
  World, Globals, minus_one, as_size, emplace, worker_threads, start_threads, main,
}

emplace_lem : (i v : ℕ) → emplace i v ≡ i + v
unfolding emplace
emplace_lem zero v = omega arith
emplace_lem (suc i) v = omega (arith, emplace_lem i (v + 1))

minus_one_pos : (n : ℕ) → 0 < n → n < 2 ^ 32 → minus_one n ≡ n - 1
unfolding minus_one
minus_one_pos n p h = omega arith

minus_one_zero : minus_one 0 ≡ 2 ^ 32 - 1
unfolding minus_one
minus_one_zero = refl

module _ {d : Double} (w : World d) (low : 2 ^ 31 ≤ w.max_size)
    (high : w.max_size < 2 ^ 64 - 2 ^ 31) where
  -- An `int` above zero.
  abbrev pub is_positive : ℕ → Bool
  is_positive threads = ltb 0 threads && ltb threads (2 ^ 31)

  too_large : (n : ℕ) → 2 ^ 31 ≤ n → n < 2 ^ 32 → leb (as_size n) w.max_size ≡ false
  unfolding as_size
  too_large n h k = ground arith

  small_enough : (n : ℕ) → n < 2 ^ 31 → leb (as_size n) w.max_size ≡ true
  unfolding as_size
  small_enough n h = ground arith

  workers : (n : ℕ) → n < 2 ^ 31 → worker_threads n ≡ n
  unfolding worker_threads
  workers n h = ground (arith, emplace_lem n 0)

  threads_started :
      (threads : ℕ) (l : Listener)
      → 0 < threads
      → threads < 2 ^ 31
      → start_threads w threads l ≡ some (record { acceptor = l; runners = threads })
  unfolding start_threads
  threads_started threads l p h =
      let e = minus_one_pos threads p (omega arith) in
      rw
        (
          start_threads,
          e,
          small_enough (threads - 1) (omega arith),
          workers (threads - 1) (omega arith),
        )
        (ap (λ (n : ℕ). some (record { acceptor = l; runners = n })) (omega (arith, p)))

  threads_refused :
      (threads n : ℕ) (l : Listener)
      → minus_one threads ≡ n
      → 2 ^ 31 ≤ n
      → n < 2 ^ 32
      → start_threads w threads l ≡ none
  unfolding start_threads
  threads_refused threads n l e h k = rw (start_threads, e, too_large n h k) refl

  counted :
      (threads : ℕ) (l : Listener)
      → threads < 2 ^ 32
      → threads ≢ 2 ^ 31
      → start_threads w threads l
        ≡ (if is_positive threads then some (record { acceptor = l; runners = threads }) else none)
  counted threads l h ne = elim (Bool-cases (is_positive threads)) [
    | inl counts ↦ rw counts (threads_started threads l (ground arith) (ground arith))
    | inr fails ↦ rw fails (elim (Bool-cases (threads == 0)) [
      | inl absent ↦
          threads_refused threads (2 ^ 32 - 1) l (ap minus_one (ground arith) ∙ minus_one_zero)
            (omega arith) (omega arith)
      | inr pos ↦
          threads_refused threads (threads - 1) l (minus_one_pos threads (ground arith) h)
            (ground arith) (omega arith)
    ])
  ]

  -- Where a vector can hold 2 ^ 31 threads and not more than 2 ^ 64 - 2 ^ 31 - 1: with an address
  -- that can be read and a listener whose constructor ends, `main` comes to run the service on as
  -- many threads as the configuration's count of connection threads says, of which it is one, with
  -- the listener at work; and with a count of zero or below, other than the least `int`, it ends
  -- with an exception.
  pub main-runs :
      (g : Globals d w.values.Number) (address : w.Address) (l : Listener)
      → w.make_address g.cfg.listen_address ≡ some address
      → listener (w.endpoint address g.cfg.listen_port) ≡ some l
      → g.cfg.connection_thread_count < 2 ^ 32
      → g.cfg.connection_thread_count ≢ 2 ^ 31
      → main w g ≡ (
          if is_positive g.cfg.connection_thread_count
          then some (record { acceptor = run_listener l; runners = g.cfg.connection_thread_count })
          else none)
  unfolding main
  main-runs g address l a e h ne =
      rw (main, a, e) (counted g.cfg.connection_thread_count (run_listener l) h ne)
