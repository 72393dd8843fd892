-- ===== src/Server/Listener.antt =====
-- src/Server.cpp: `Listener`.
use cpp_burst_pool_node.Base.{
  ℕ, zero, suc, ◌+◌, true, false, Option, none, some, List, [], ◌∷◌, ◌++◌, if◌then◌else◌, codes,
}
use cpp_burst_pool_node.Net.{ErrorCode, is_failure, Endpoint, Acceptor}
use cpp_burst_pool_node.Session.Connection.{SessionConnection, new_session, run}

-- A session that was launched, and the timeouts set on its socket, in seconds.
pub record Launched : Type 0 where
  pub connection : SessionConnection
  pub receive_timeout : ℕ
  pub send_timeout : ℕ

abbrev pub Listener : Type 0
Listener = Acceptor Launched

-- Before the first call on the acceptor.
abbrev closed : Listener
closed = record {
  is_open = false;
  bound = false;
  listening = false;
  accepts = 0;
  sessions = [];
  errors = [];
}

abbrev log : List ℕ → Listener → Listener
log what l = record l { errors = l.errors ++ what ∷ [] }

unfoldable pub listen_step : Endpoint → Listener → Listener
listen_step e l =
    if is_failure e.listen_ec then log (codes "listen") l else record l { listening = true }

unfoldable pub bind_step : Endpoint → Listener → Listener
bind_step e l =
    if is_failure e.bind_ec then log (codes "bind") l else listen_step e (record l { bound = true })

-- `set_option` is called in the form that throws (`none`); `ec` is still that of `open`.
unfoldable pub option_step : Endpoint → Listener → Option Listener
option_step e l =
    if e.set_option_throws
    then none
    else some (if is_failure e.open_ec then log (codes "set_option") l else bind_step e l)

-- The constructor.
unfoldable pub listener : Endpoint → Option Listener
listener e =
    if is_failure e.open_ec
    then some (log (codes "open") closed)
    else option_step e (record closed { is_open = true })

unfoldable pub do_accept : Listener → Listener
do_accept l = record l { accepts = l.accepts + 1 }

unfoldable pub run_listener : Listener → Listener
run_listener l = if l.is_open then do_accept l else l

unfoldable pub launch : Listener → Listener
launch l = record l {
  sessions =
      l.sessions
      ++ record { connection = run new_session; receive_timeout = 40; send_timeout = 40 } ∷ [];
}

unfoldable pub on_accept : ErrorCode → Listener → Listener
on_accept ec l = do_accept (if is_failure ec then log (codes "accept") l else launch l)

-- An `async_accept` completes, if there is one.
unfoldable pub accept_done : ErrorCode → ℕ → Listener → Listener
accept_done ec zero l = l
accept_done ec (suc n) l = on_accept ec (record l { accepts = n })
