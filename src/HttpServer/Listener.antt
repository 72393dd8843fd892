-- ===== src/HttpServer/Listener.antt =====
-- src/server.cpp: `listener` and `main`.
use cpp_burst_pool_node.Base.{
  ℕ, zero, suc, ◌+◌, ◌-◌, ◌%◌, ◌^◌, true, false, Option, none, some, List, [], ◌∷◌, ◌++◌, ◌&&◌,
  if◌then◌else◌, ltb, codes, ◌>>=◌,
}
use cpp_burst_pool_node.Net.{ErrorCode, is_failure, Endpoint, Acceptor}
use cpp_burst_pool_node.HttpServer.Session.{Beast, fail, Session, new_session, run}

abbrev pub HttpListener : Type 0
HttpListener = Acceptor Session

-- Before the first call on the acceptor.
abbrev pub unopened : HttpListener
unopened = record {
  is_open = false;
  bound = false;
  listening = false;
  accepts = 0;
  sessions = [];
  errors = [];
}

-- What the process does: it ends at once, or runs the service on some threads.
pub data Process : Type 0 where
  exits : (status : ℕ) → (standard_error : List ℕ) → Process
  serves : (port : ℕ) → (threads : ℕ) → HttpListener → Process

abbrev pub usage : List ℕ
usage =
    codes
      "Usage: http-server-async <address> <port> <threads>\nExample:\n    http-server-async 0.0.0.0 8080 . 1\n"

-- `std::max<int>(1, n)` of the 32 bits of an `int`.
unfoldable pub at_least_one : ℕ → ℕ
at_least_one n = if ltb 0 n && ltb n (2 ^ 31) then n else 1

-- The loop over `v` makes one thread less than `threads`, and `main` is the last.
unfoldable pub emplace_threads : ℕ → ℕ → ℕ
emplace_threads zero v = v
emplace_threads (suc i) v = emplace_threads i (v + 1)

module _ (b : Beast) where
  abbrev pub report : ErrorCode → List ℕ → HttpListener → HttpListener
  report ec what l = record l { errors = l.errors ++ fail b ec what ∷ [] }

  unfoldable pub listen_on : Endpoint → HttpListener → HttpListener
  listen_on e l =
      if is_failure e.listen_ec
      then report e.listen_ec (codes "listen") l
      else record l { listening = true }

  unfoldable pub bind_to : Endpoint → HttpListener → HttpListener
  bind_to e l =
      if is_failure e.bind_ec
      then report e.bind_ec (codes "bind") l
      else listen_on e (record l { bound = true })

  -- `set_option` is called in the form that throws (`none`); `ec` is still that of `open`.
  unfoldable pub reuse_address : Endpoint → HttpListener → Option HttpListener
  reuse_address e l =
      if e.set_option_throws
      then none
      else some
          (if is_failure e.open_ec then report e.open_ec (codes "set_option") l else bind_to e l)

  -- The constructor.
  unfoldable pub new_listener : Endpoint → Option HttpListener
  new_listener e =
      if is_failure e.open_ec
      then some (report e.open_ec (codes "open") unopened)
      else reuse_address e (record unopened { is_open = true })

  unfoldable pub accept_next : HttpListener → HttpListener
  accept_next l = record l { accepts = l.accepts + 1 }

  unfoldable pub run_http : HttpListener → HttpListener
  run_http l = if l.is_open then accept_next l else l

  unfoldable pub on_http_accept : ErrorCode → HttpListener → HttpListener
  on_http_accept ec l = accept_next (
      if is_failure ec
      then report ec (codes "accept") l
      else record l { sessions = l.sessions ++ run b new_session ∷ [] })

  -- An `async_accept` completes, if there is one.
  unfoldable pub http_accept_done : ErrorCode → ℕ → HttpListener → HttpListener
  http_accept_done ec zero l = l
  http_accept_done ec (suc n) l = on_http_accept ec (record l { accepts = n })

  -- `atoi` gives the 32 bits of its result; `endpoint` is what the acceptor will meet at an address
  -- and a port, if the address is well formed. `none` for an exception.
  unfoldable pub main :
      (List ℕ → ℕ) → (List ℕ → ℕ → Option Endpoint) → List (List ℕ) → Option Process
  main atoi endpoint (name ∷ address ∷ port ∷ threads ∷ []) = do
    let port_number = atoi port % 2 ^ 16
    let count = at_least_one (atoi threads)
    e ← endpoint address port_number
    l ← new_listener e
    some (serves port_number (emplace_threads (count - 1) 0 + 1) (run_http l))
  main atoi endpoint args = some (exits 1 usage)
