-- ===== src/HttpServer/ListenerLaws.antt =====
-- src/server.cpp against src/Server.cpp: the two listeners go on alike, and the threads of `main`.
use mathlib.Core.Path.{subst, subst₂}
use cpp_burst_pool_node.Base.{
  codes, ℕ, zero, suc, ◌+◌, ◌-◌, ◌%◌, ◌^◌, ◌≤◌, ◌≡◌, refl, sym, ◌∙◌, inl, inr, Bool, true, false,
  Option, none, some, List, [], ◌∷◌, if◌then◌else◌, length, length-append, Bool-cases, ◌>>=◌, arith,
}
use cpp_burst_pool_node.Net.{ErrorCode, ok, is_failure, Endpoint}
use cpp_burst_pool_node.Server.Listener.{
  Listener, listen_step, bind_step, option_step, listener, do_accept, run_listener, launch,
  on_accept, accept_done,
}
use cpp_burst_pool_node.Server.ListenerLaws.{launched, accept_each}
use cpp_burst_pool_node.HttpServer.Session.{Beast, fail, new_session, run}
use cpp_burst_pool_node.HttpServer.Listener.{
  HttpListener, unopened, listen_on, bind_to, reuse_address, new_listener, accept_next, run_http,
  on_http_accept, http_accept_done, serves, at_least_one, emplace_threads, main,
}

-- The same states, calls, numbers of sessions and of errors.
pub record Alike (l : Listener) (m : HttpListener) : Type 0 where
  pub is_open : l.is_open ≡ m.is_open
  pub bound : l.bound ≡ m.bound
  pub listening : l.listening ≡ m.listening
  pub accepts : l.accepts ≡ m.accepts
  pub sessions : length l.sessions ≡ length m.sessions
  pub errors : length l.errors ≡ length m.errors

-- Both constructors end, or neither.
abbrev pub AlikeIfAny : Option Listener → Option HttpListener → Type 0
AlikeIfAny none none = Unit
AlikeIfAny none (some m) = ⊥
AlikeIfAny (some l) none = ⊥
AlikeIfAny (some l) (some m) = Alike l m

-- A listener that is run, after some completions.
unfoldable pub served : List ErrorCode → Listener → Option Listener
served ecs l = some (accept_each ecs (run_listener l))

abbrev opened_listener : Listener
opened_listener = record {
  is_open = true;
  bound = false;
  listening = false;
  accepts = 0;
  sessions = [];
  errors = [];
}

module _ (b : Beast) where
  unfoldable pub http_accept_each : List ErrorCode → HttpListener → HttpListener
  http_accept_each [] l = l
  http_accept_each (ec ∷ ecs) l = http_accept_each ecs (http_accept_done b ec l.accepts l)

  -- A listener that is run, after some completions.
  unfoldable pub http_served : List ErrorCode → HttpListener → Option HttpListener
  http_served ecs m = some (http_accept_each ecs (run_http b m))

  bind-Alike :
      (e : Endpoint)
      → Alike (bind_step e opened_listener) (bind_to b e (record unopened { is_open = true }))
  unfolding bind_step listen_step bind_to listen_on
  bind-Alike e = elim (Bool-cases (is_failure e.bind_ec)) [
    | inl bad ↦ rw bad (record {
      is_open = refl;
      bound = refl;
      listening = refl;
      accepts = refl;
      sessions = refl;
      errors = refl;
    })
    | inr good ↦ elim (Bool-cases (is_failure e.listen_ec)) [
      | inl bad ↦
          rw (good, bad)
            (record {
              is_open = refl;
              bound = refl;
              listening = refl;
              accepts = refl;
              sessions = refl;
              errors = refl;
            })
      | inr fine ↦
          rw (good, fine)
            (record {
              is_open = refl;
              bound = refl;
              listening = refl;
              accepts = refl;
              sessions = refl;
              errors = refl;
            })
    ]
  ]

  listener-Alike : (e : Endpoint) → AlikeIfAny (listener e) (new_listener b e)
  unfolding listener option_step new_listener reuse_address bind_step bind_to listen_step listen_on
  listener-Alike e = elim (Bool-cases (is_failure e.open_ec)) [
    | inl shut ↦ rw shut (record {
      is_open = refl;
      bound = refl;
      listening = refl;
      accepts = refl;
      sessions = refl;
      errors = refl;
    })
    | inr open' ↦ elim (Bool-cases e.set_option_throws) [
      | inl throws ↦ rw (open', throws) tt
      | inr fine ↦ rw (open', fine) (bind-Alike e)
    ]
  ]

  on_accept-Alike :
      (ec : ErrorCode) (l : Listener) (m : HttpListener)
      → Alike l m
      → Alike (on_accept ec l) (on_http_accept b ec m)
  unfolding on_accept do_accept launch on_http_accept accept_next
  on_accept-Alike ec l m v = elim (Bool-cases (is_failure ec)) [
    | inl bad ↦ rw bad (record {
      is_open = v.is_open;
      bound = v.bound;
      listening = v.listening;
      accepts = omega (arith, v.accepts);
      sessions = v.sessions;
      errors = omega (
        arith,
        v.errors,
        length-append {0} l.errors (codes "accept" ∷ []),
        length-append {0} m.errors (fail b ec (codes "accept") ∷ []),
      );
    })
    | inr good ↦ rw good (record {
      is_open = v.is_open;
      bound = v.bound;
      listening = v.listening;
      accepts = omega (arith, v.accepts);
      sessions = omega (
        arith,
        v.sessions,
        length-append {0} l.sessions (launched (ok ∷ [])),
        length-append {0} m.sessions (run b new_session ∷ []),
      );
      errors = v.errors;
    })
  ]

  accept_done-Alike :
      (ec : ErrorCode) (l : Listener) (m : HttpListener) (n : ℕ)
      → l.accepts ≡ n
      → Alike l m
      → Alike (accept_done ec n l) (http_accept_done b ec n m)
  unfolding accept_done http_accept_done
  accept_done-Alike ec l m zero e v = v
  accept_done-Alike ec l m (suc n) e v = on_accept-Alike ec _ _ (record {
    is_open = v.is_open;
    bound = v.bound;
    listening = v.listening;
    accepts = refl;
    sessions = v.sessions;
    errors = v.errors;
  })

  accept_each-Alike :
      (ecs : List ErrorCode) (l : Listener) (m : HttpListener)
      → Alike l m
      → Alike (accept_each ecs l) (http_accept_each ecs m)
  unfolding accept_each http_accept_each
  accept_each-Alike [] l m v = v
  accept_each-Alike (ec ∷ ecs) l m v = accept_each-Alike ecs _ _ (
      subst (λ (n : ℕ). Alike (accept_done ec l.accepts l) (http_accept_done b ec n m)) v.accepts
        (accept_done-Alike ec l m l.accepts refl v))

  run-Alike : (l : Listener) (m : HttpListener) → Alike l m → Alike (run_listener l) (run_http b m)
  unfolding run_listener do_accept run_http accept_next
  run-Alike l m v = elim (Bool-cases m.is_open) [
    | inl e ↦
        let e' : l.is_open ≡ true = v.is_open ∙ e in
        subst₂
          (λ (p q : Bool).
            Alike (if p then record l { accepts = l.accepts + 1 } else l)
              (if q then record m { accepts = m.accepts + 1 } else m))
          (sym e') (sym e)
          (record {
            is_open = v.is_open;
            bound = v.bound;
            listening = v.listening;
            accepts = omega (arith, v.accepts);
            sessions = v.sessions;
            errors = v.errors;
          })
    | inr e ↦
        let e' : l.is_open ≡ false = v.is_open ∙ e in
        subst₂
          (λ (p q : Bool).
            Alike (if p then record l { accepts = l.accepts + 1 } else l)
              (if q then record m { accepts = m.accepts + 1 } else m))
          (sym e') (sym e) v
  ]

  both-Alike :
      (ecs : List ErrorCode) (o : Option Listener) (o' : Option HttpListener)
      → AlikeIfAny o o'
      → AlikeIfAny (o >>= served ecs) (o' >>= http_served ecs)
  unfolding served http_served
  both-Alike ecs none none v = tt
  both-Alike ecs (some l) (some m) v = accept_each-Alike ecs _ _ (run-Alike l m v)
  both-Alike ecs none (some m) v = v
  both-Alike ecs (some l) none v = v

  -- On the same acceptor and with the same completions, the two listeners are constructed and run
  -- alike: the same states, outstanding calls, numbers of sessions and of errors, at any time; or
  -- neither is constructed.
  pub listener-new_listener :
      (e : Endpoint) (ecs : List ErrorCode)
      → AlikeIfAny (listener e >>= served ecs) (new_listener b e >>= http_served ecs)
  listener-new_listener e ecs = both-Alike ecs (listener e) (new_listener b e) (listener-Alike e)

  emplace_threads_lem : (i v : ℕ) → emplace_threads i v ≡ i + v
  unfolding emplace_threads
  emplace_threads_lem zero v = omega arith
  emplace_threads_lem (suc i) v = emplace_threads_lem i (v + 1) ∙ omega arith

  at_least_one-pos : (n : ℕ) → 1 ≤ at_least_one n
  unfolding at_least_one
  at_least_one-pos n = ground arith

  -- `main` with three arguments, for an address that makes an endpoint and a listener that is
  -- constructed: it serves on the port cut down to 16 bits, on as many threads as the third argument
  -- says, or one for a number that is not positive.
  pub main-serves :
      (atoi : List ℕ → ℕ) (endpoint : List ℕ → ℕ → Option Endpoint)
      (name address port threads : List ℕ) (e : Endpoint) (l : HttpListener)
      → endpoint address (atoi port % 2 ^ 16) ≡ some e
      → new_listener b e ≡ some l
      → main b atoi endpoint (name ∷ address ∷ port ∷ threads ∷ [])
        ≡ some (serves (atoi port % 2 ^ 16) (at_least_one (atoi threads)) (run_http b l))
  unfolding main
  main-serves atoi endpoint name address port threads e l h k =
      let count : emplace_threads (at_least_one (atoi threads) - 1) 0 + 1
          ≡ at_least_one (atoi threads) =
        omega (
          arith,
          emplace_threads_lem (at_least_one (atoi threads) - 1) 0,
          at_least_one-pos (atoi threads),
        ) in
      rw (h, k, count)
