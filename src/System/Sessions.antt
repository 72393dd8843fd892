-- ===== src/System/Sessions.antt =====
-- src/Server.cpp, src/Session.cpp: the connections of the server. Each is a session, whose request is
-- handled when it has been read, and whose answers go out as they are given.
use cpp_burst_pool_node.Base.{
  ℕ, ◌+◌, ◌<◌, ◌≡◌, true, false, List, [], ◌∷◌, ◌++◌, ◌==◌, if◌then◌else◌,
}
use cpp_burst_pool_node.Wallet.Info.{Json}
use cpp_burst_pool_node.Burstmath.Shabal.{Shabal}
use cpp_burst_pool_node.RateLimiter.Bucket.{Double}
use cpp_burst_pool_node.Net.{ErrorCode}
use cpp_burst_pool_node.Handler.Batch.{Limits}
use cpp_burst_pool_node.Handler.Validator.{Validator}
use cpp_burst_pool_node.Session.Response.{Response}
use cpp_burst_pool_node.Session.Request.{Shared, handle_request}
use cpp_burst_pool_node.Session.Connection.{
  SessionConnection, new_session, run, start_write, read_done, write_done,
}
use cpp_burst_pool_node.System.Steps.{Asked, asked_of, Task, Work}

-- The sessions by their number, in the order in which they were accepted, and the answers that have
-- been handed to `async_write`.
pub record Sessions : Type 0 where
  pub connection : ℕ → SessionConnection
  pub accepted : ℕ
  pub given : List (ℕ × Response)

abbrev pub with_connection : ℕ → SessionConnection → Sessions → Sessions
with_connection a c k = record k { connection = λ b. if a == b then c else k.connection b }

-- The session is made and run, as `on_accept` does.
abbrev pub accept_session : Sessions → Sessions
accept_session k = record (with_connection k.accepted (run new_session) k) {
  accepted = k.accepted + 1;
}

abbrev pub give_answer : ℕ → Response → Sessions → Sessions
give_answer a res k = record (with_connection a (start_write res (k.connection a)) k) {
  given = k.given ++ (a, res) ∷ [];
}

abbrev pub no_sessions : Sessions
no_sessions = record { connection = λ _. new_session; accepted = 0; given = [] }

-- All that goes on: the requests that have been handled, the last first, the validations that
-- threads have still to do, what the parts share, and the connections.
pub record Scene (d : Double) : Type 1 where
  pub requests : List Asked
  pub tasks : List Task
  pub shared : Shared d
  pub net : Sessions

module _ {d : Double} {s : Shabal} {limits : Limits} {parallel : ℕ} (j : Json)
    (v : Validator s limits parallel) where
  pub data Event (sc : Scene d) : Scene d → Type 1 where
    accepts : Event sc (record sc { net = accept_session sc.net })
    -- A read that completes without a request: the client has closed, or it has failed.
    loses :
        (ec : ErrorCode) (a : ℕ) (target : List ℕ)
        → a < sc.net.accepted
        → 0 < (sc.net.connection a).reads
        → (read_done ec target (sc.net.connection a)).1 ≡ false
        → Event sc (record sc {
          net = with_connection a (read_done ec target (sc.net.connection a)).0 sc.net;
        })
    -- One that completes with a request, which is handled.
    receives :
        (now : d.F) (addr : List ℕ) (ec : ErrorCode) (a : ℕ) (target : List ℕ)
        → a < sc.net.accepted
        → 0 < (sc.net.connection a).reads
        → (read_done ec target (sc.net.connection a)).1 ≡ true
        → Event sc (record sc {
          requests = asked_of a target sc.shared.node.wallet ∷ sc.requests;
          shared = handle_request d now addr a target sc.shared;
          net = with_connection a (read_done ec target (sc.net.connection a)).0 sc.net;
        })
    works_on :
        {tasks : List Task} {st : Shared d}
        → Work j v sc.tasks sc.shared tasks st
        → Event sc (record sc { tasks = tasks; shared = st })
    -- The next answer is handed to `async_write` by its session.
    writes :
        (a : ℕ) (res : Response) (rest : List (ℕ × Response))
        → sc.shared.node.replies ≡ sc.net.given ++ (a, res) ∷ rest
        → Event sc (record sc { net = give_answer a res sc.net })
    -- The first write of a session completes.
    sends :
        (ec : ErrorCode) (a : ℕ)
        → Event sc (record sc {
          net =
              with_connection a
                (write_done ec (sc.net.connection a).writes (sc.net.connection a))
                sc.net;
        })

  pub data Events (sc : Scene d) : Scene d → Type 1 where
    none_yet : Events sc sc
    and_then : {sc' sc'' : Scene d} → Events sc sc' → Event sc' sc'' → Events sc sc''

  -- The server as `main` leaves it, with no connections.
  abbrev pub opening : Shared d → Scene d
  opening begun = record { requests = []; tasks = []; shared = begun; net = no_sessions }
