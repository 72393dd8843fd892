-- ===== src/System/SessionsLaws.antt =====
-- src/Server.cpp, src/Session.cpp: the connections of the server get what the parts together promise.
use mathlib.Core.Path.{subst}
use mathlib.Core.List.{append-nil}
use cpp_burst_pool_node.Base.{
  ℕ, ◌+◌, ◌<◌, ◌≤◌, ◌≡◌, refl, sym, ap, ◌∙◌, Bool, true, false, inl, inr, List, [], ◌∷◌, ◌++◌, ◌==◌,
  ==_iff, Bool-cases, All, All-imp, All-append, arith,
}
use cpp_burst_pool_node.Base.Takes.{total}
use cpp_burst_pool_node.Wallet.Info.{Json}
use cpp_burst_pool_node.Burstmath.Shabal.{Shabal}
use cpp_burst_pool_node.RateLimiter.Bucket.{Double}
use cpp_burst_pool_node.Net.{ErrorCode, ok, end_of_stream, failed}
use cpp_burst_pool_node.Handler.Batch.{Limits}
use cpp_burst_pool_node.Handler.State.{Node}
use cpp_burst_pool_node.Handler.Validator.{Validator}
use cpp_burst_pool_node.Handler.ValidateLaws.{validate_deadline-Validated}
use cpp_burst_pool_node.Session.Response.{Response}
use cpp_burst_pool_node.Session.Request.{Shared}
use cpp_burst_pool_node.Session.RequestLaws.{Handled, answered, queued}
use cpp_burst_pool_node.Session.Url.{Param}
use cpp_burst_pool_node.Session.Connection.{
  SessionConnection, do_read, do_close, start_write, on_read, on_write, read_done, write_done,
}
use cpp_burst_pool_node.Session.ConnectionLaws
use cpp_burst_pool_node.System.Steps.{
  Asked, Task, Work, turns, swaps, computes, validates, contends, refreshes,
}
use cpp_burst_pool_node.System.Rounds.{IsAnswer}
use cpp_burst_pool_node.System.Counts.{answers, same}
use cpp_burst_pool_node.System.Invariant.{IsSystem}
use cpp_burst_pool_node.System.Grows.{grow-IsAnswer}
use cpp_burst_pool_node.System.Sessions.{Sessions, with_connection}

-- What holds of every session after one of them is changed.
pub at_connection {κ} :
    (P : ℕ → SessionConnection → Type κ) (a : ℕ) (c : SessionConnection) (k : Sessions)
    → P a c
    → ((b : ℕ) → (a == b) ≡ false → P b (k.connection b))
    → (b : ℕ) → P b ((with_connection a c k).connection b)
at_connection P a c k here others b = elim (Bool-cases (a == b)) [
  | inl e ↦ rw e (subst (λ (b : ℕ). P b c) ((==_iff a b).0 e) here)
  | inr e ↦ rw e (others b e)
]

-- The life of a session, with the requests of it that were handled and have no answer given.
abbrev pub HasLife : List Asked → List (ℕ × Response) → ℕ → SessionConnection → Type 0
HasLife requests given a c =
    (owed : ℕ) × ConnectionLaws.Reach (record { c = c; owed = owed })
    × (owed + total (answers a) given ≡ total (same a) requests)

-- A step adds answers, and takes none away.
abbrev pub Grows : Node → Node → Type 0
Grows n n' = (more : List (ℕ × Response)) × (n'.replies ≡ n.replies ++ more)

module _ (s : Shabal) (limit : ℕ) (servers : List (ℕ × List ℕ)) (requests : List Asked) where
  -- What goes out on a connection are answers for its session.
  pub record IsServed (a : ℕ) (c : SessionConnection) : Type 0 where
    pub to_write :
        All (λ (w : Response × Bool). IsAnswer s limit servers requests (a, w.0)) c.writes
    pub written : All (λ (res : Response). IsAnswer s limit servers requests (a, res)) c.written

  sent-IsServed :
      (a : ℕ) (res : Response) (close : Bool) (c : SessionConnection)
      → IsAnswer s limit servers requests (a, res)
      → IsServed a c
      → IsServed a (on_write ok close (record c { written = c.written ++ res ∷ [] }))
  unfolding on_write do_close do_read
  sent-IsServed a res true c r h = record {
    to_write = h.to_write;
    written = All-append _ c.written _ h.written (r, tt);
  }
  sent-IsServed a res false c r h = record {
    to_write = h.to_write;
    written = All-append _ c.written _ h.written (r, tt);
  }

  pub write_done-IsServed :
      (ec : ErrorCode) (a : ℕ) (ws : List (Response × Bool)) (c : SessionConnection)
      → All (λ (w : Response × Bool). IsAnswer s limit servers requests (a, w.0)) ws
      → IsServed a c
      → IsServed a (write_done ec ws c)
  unfolding write_done on_write
  write_done-IsServed ec a [] c h v = v
  write_done-IsServed ok a ((res, close) ∷ rest) c h v =
      sent-IsServed a res close (record c { writes = rest }) h.0
        (record { to_write = h.1; written = v.written })
  write_done-IsServed end_of_stream a ((res, close) ∷ rest) c h v = record {
    to_write = h.1;
    written = v.written;
  }
  write_done-IsServed failed a ((res, close) ∷ rest) c h v = record {
    to_write = h.1;
    written = v.written;
  }

  pub read_done-IsServed :
      (ec : ErrorCode) (a : ℕ) (target : List ℕ) (c : SessionConnection)
      → IsServed a c
      → IsServed a (read_done ec target c).0
  unfolding read_done on_read do_close
  read_done-IsServed ok a target c h = record { to_write = h.to_write; written = h.written }
  read_done-IsServed end_of_stream a target c h = record {
    to_write = h.to_write;
    written = h.written;
  }
  read_done-IsServed failed a target c h = record { to_write = h.to_write; written = h.written }

  pub start_write-IsServed :
      (a : ℕ) (res : Response) (c : SessionConnection)
      → IsAnswer s limit servers requests (a, res)
      → IsServed a c
      → IsServed a (start_write res c)
  unfolding start_write
  start_write-IsServed a res c r h = record {
    to_write = All-append _ c.writes _ h.to_write (r, tt);
    written = h.written;
  }

pub grow-IsServed :
    (s : Shabal) (limit : ℕ) (servers : List (ℕ × List ℕ)) (r : Asked) (requests : List Asked)
    (a : ℕ) (c : SessionConnection)
    → IsServed s limit servers requests a c
    → IsServed s limit servers (r ∷ requests) a c
grow-IsServed s limit servers r requests a c h = record {
  to_write = All-imp (λ w. grow-IsAnswer s limit servers r requests (a, w.0)) c.writes h.to_write;
  written = All-imp (λ res. grow-IsAnswer s limit servers r requests (a, res)) c.written h.written;
}

module _ {d : Double} {s : Shabal} {limits : Limits} {parallel : ℕ} (j : Json)
    (v : Validator s limits parallel) where
  pub handle_request-Grows :
      (session : ℕ) {params : List Param} (st st' : Shared d)
      → Handled d session params st st'
      → Grows st.node st'.node
  handle_request-Grows session st st' (answered h) =
      ((session, h.res) ∷ [], ap (λ (n : Node). n.replies) h.node)
  handle_request-Grows session st st' (queued h) =
      ([], ap (λ (n : Node). n.replies) h.same_node ∙ sym (append-nil st.node.replies))

  pub Work-Grows :
      (servers : List (ℕ × List ℕ)) (requests : List Asked) {tasks tasks' : List Task}
      {st st' : Shared d}
      → IsSystem s limits parallel servers requests tasks st.node st.loop
      → Work j v tasks st tasks' st'
      → Grows st.node st'.node
  Work-Grows servers requests {st = st} i (turns e) = ([], sym (append-nil st.node.replies))
  Work-Grows servers requests {st = st} i (swaps t) = ([], sym (append-nil st.node.replies))
  Work-Grows servers requests {st = st} i (computes stack z t e) =
      ([], sym (append-nil st.node.replies))
  Work-Grows servers requests {st = st} i (validates {t = t} k) =
      (_, (validate_deadline-Validated limits.deadline_limit t.0 t.1 st.node i.kept.sound).replies)
  Work-Grows servers requests {st = st} i (contends p held e) =
      ([], sym (append-nil st.node.replies))
  Work-Grows servers requests {st = st} i (refreshes t e p) = ([], sym (append-nil st.node.replies))

-- A request is handed on by the read that it ends.
pub handed_lem :
    (ec : ErrorCode) (target : List ℕ) (c : SessionConnection)
    → 0 < c.reads
    → (read_done ec target c).0.reads + ConnectionLaws.handed (read_done ec target c).1 ≤ c.reads
unfolding read_done on_read do_close
handed_lem ok target c h = omega arith
handed_lem end_of_stream target c h = omega arith
handed_lem failed target c h = omega arith

-- With `close` set, no further read begins.
pub write_done-reads :
    (ec : ErrorCode) (ws : List (Response × Bool)) (c : SessionConnection)
    → All (λ (w : Response × Bool). w.1 ≡ true) ws
    → (write_done ec ws c).reads ≡ c.reads
unfolding write_done on_write do_close
write_done-reads ec [] c h = refl
write_done-reads ok ((res, close) ∷ rest) c h = rw h.0 refl
write_done-reads end_of_stream ((res, close) ∷ rest) c h = refl
write_done-reads failed ((res, close) ∷ rest) c h = refl
