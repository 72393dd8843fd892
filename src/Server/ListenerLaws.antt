-- ===== src/Server/ListenerLaws.antt =====
-- src/Server.cpp: what a listener does with any completions of its calls.
use mathlib.Core.List.{append_assoc, append-nil}
use mathlib.Core.Path.{subst₂}
use cpp_burst_pool_node.Base.{
  ℕ, zero, suc, ◌+◌, ◌≡◌, refl, sym, ap, ◌∙◌, inl, inr, true, false, some, List, [], ◌∷◌, ◌++◌,
  if◌then◌else◌, Bool-cases, arith,
}
use cpp_burst_pool_node.Net.{ErrorCode, ok, end_of_stream, failed, is_failure, Endpoint}
use cpp_burst_pool_node.Session.Connection.{new_session, run}
use cpp_burst_pool_node.Server.Listener.{
  Launched, Listener, listen_step, bind_step, option_step, listener, do_accept, run_listener,
  launch, on_accept, accept_done,
}

unfoldable pub accept_each : List ErrorCode → Listener → Listener
accept_each [] l = l
accept_each (ec ∷ ecs) l = accept_each ecs (accept_done ec l.accepts l)

-- A new session with a timeout of 40 seconds each way for each connection that was accepted.
abbrev pub launched : List ErrorCode → List Launched
launched [] = []
launched (ok ∷ ecs) =
    record { connection = run new_session; receive_timeout = 40; send_timeout = 40 } ∷ launched ecs
launched (end_of_stream ∷ ecs) = launched ecs
launched (failed ∷ ecs) = launched ecs

-- A listener at work.
record IsServing (sessions : List Launched) (l : Listener) : Type 0 where
  one : l.accepts ≡ 1
  launches : l.sessions ≡ sessions

accept_done_one :
    (ec : ErrorCode) (n : ℕ) (l : Listener)
    → n ≡ 1
    → accept_done ec n l ≡ on_accept ec (record l { accepts = 0 })
unfolding accept_done
accept_done_one ec zero l e = absurd (omega arith)
accept_done_one ec (suc zero) l e = refl
accept_done_one ec (suc (suc n)) l e = absurd (omega arith)

on_accept-IsServing :
    (ec : ErrorCode) (sessions : List Launched) (l : Listener)
    → IsServing sessions l
    → IsServing (sessions ++ launched (ec ∷ [])) (on_accept ec (record l { accepts = 0 }))
unfolding on_accept launch do_accept
on_accept-IsServing ok sessions l v = record {
  one = refl;
  launches = ap (λ (xs : List Launched). xs ++ launched (ok ∷ [])) v.launches;
}
on_accept-IsServing end_of_stream sessions l v = record {
  one = refl;
  launches = v.launches ∙ sym (append-nil sessions);
}
on_accept-IsServing failed sessions l v = record {
  one = refl;
  launches = v.launches ∙ sym (append-nil sessions);
}

launched-cons :
    (ec : ErrorCode) (ecs : List ErrorCode)
    → launched (ec ∷ []) ++ launched ecs ≡ launched (ec ∷ ecs)
launched-cons ok ecs = refl
launched-cons end_of_stream ecs = refl
launched-cons failed ecs = refl

accept_each-IsServing :
    (ecs : List ErrorCode) (sessions : List Launched) (l : Listener)
    → IsServing sessions l
    → IsServing (sessions ++ launched ecs) (accept_each ecs l)
unfolding accept_each
accept_each-IsServing [] sessions l v = record {
  one = v.one;
  launches = v.launches ∙ sym (append-nil sessions);
}
accept_each-IsServing (ec ∷ ecs) sessions l v =
    subst₂ (λ (xs : List Launched) (m : Listener). IsServing xs (accept_each ecs m))
      (append_assoc sessions (launched (ec ∷ [])) (launched ecs)
        ∙ ap (◌++◌ sessions) (launched-cons ec ecs))
      (sym (accept_done_one ec l.accepts l v.one))
      (accept_each-IsServing ecs (sessions ++ launched (ec ∷ [])) _
        (on_accept-IsServing ec sessions l v))

accept_each_idle : (ecs : List ErrorCode) (l : Listener) → l.accepts ≡ 0 → accept_each ecs l ≡ l
unfolding accept_each accept_done
accept_each_idle [] l e = refl
accept_each_idle (ec ∷ ecs) l e = ap (accept_each ecs) (idle l.accepts e) ∙ accept_each_idle ecs l e
  where
    idle : (n : ℕ) → n ≡ 0 → accept_done ec n l ≡ l
    idle zero e = refl
    idle (suc n) e = absurd (omega arith)

opened :
    (e : Endpoint) (l : Listener)
    → listener e ≡ some l
    → is_failure e.open_ec ≡ false
    → (l.is_open ≡ true) × (l.accepts ≡ 0) × (l.sessions ≡ [])
unfolding listener option_step bind_step listen_step
opened e l h o = ground arith

unopened :
    (e : Endpoint) (l : Listener)
    → listener e ≡ some l
    → is_failure e.open_ec ≡ true
    → (l.is_open ≡ false) × (l.accepts ≡ 0) × (l.sessions ≡ [])
unfolding listener
unopened e l h o = ground arith

run_listener_open :
    (l : Listener) → l.is_open ≡ true → run_listener l ≡ record l { accepts = l.accepts + 1 }
unfolding run_listener do_accept
run_listener_open l e = ground arith

run_listener_shut : (l : Listener) → l.is_open ≡ false → run_listener l ≡ l
unfolding run_listener
run_listener_shut l e = ground arith

-- A listener whose constructor ends, run, after any completions of its calls: if the acceptor was
-- opened there is one call of `async_accept`, even where `bind` or `listen` failed, and a new session
-- with both timeouts for each connection accepted, in order; otherwise there is no call and no session.
pub accept_each-run_listener :
    (e : Endpoint) (l : Listener) (ecs : List ErrorCode)
    → listener e ≡ some l
    → ((accept_each ecs (run_listener l)).accepts ≡ (if is_failure e.open_ec then 0 else 1))
      × ((accept_each ecs (run_listener l)).sessions
          ≡ (if is_failure e.open_ec then [] else launched ecs))
accept_each-run_listener e l ecs h = elim (Bool-cases (is_failure e.open_ec)) [
  | inl shut ↦
      let (o, a, s) = unopened e l h shut in
      rw (shut, run_listener_shut l o, accept_each_idle ecs l a) (a, s)
  | inr open' ↦
      let (o, a, s) = opened e l h open' in
      let v =
        accept_each-IsServing ecs [] (record l { accepts = l.accepts + 1 })
          (record { one = omega (arith, a); launches = s }) in
      rw (open', run_listener_open l o) (v.one, v.launches)
]
