-- ===== src/Session/ConnectionLaws.antt =====
-- src/Session.cpp: what a connection can come to.
use cpp_burst_pool_node.Base.{
  ℕ, ◌+◌, ◌-◌, ◌<◌, ◌≤◌, ◌≡◌, refl, ap, Bool, true, false, List, [], ◌∷◌, length, length-append,
  All, All-append, arith,
}
use mathlib.Core.Path.{subst}
use cpp_burst_pool_node.Net.{ErrorCode, ok, end_of_stream, failed}
use cpp_burst_pool_node.Session.Response.{Response}
use cpp_burst_pool_node.Session.Connection.{
  SessionConnection, new_session, do_read, run, do_close, on_read, start_write, on_write, read_done,
  write_done,
}

-- A connection, and how many of its requests were handed to `handle_request` and have no answer.
pub record Life : Type 0 where
  pub c : SessionConnection
  pub owed : ℕ

abbrev pub handed : Bool → ℕ
handed true = 1
handed false = 0

-- What can happen to a connection. Each request that is handled is answered at most once.
pub data Step (l : Life) : Life → Type 0 where
  receive :
      (ec : ErrorCode) (target : List ℕ)
      → 0 < l.c.reads
      → Step l (record {
        c = (read_done ec target l.c).0;
        owed = l.owed + handed (read_done ec target l.c).1;
      })
  answer :
      (res : Response) → 0 < l.owed → Step l (record { c = start_write res l.c; owed = l.owed - 1 })
  send : (ec : ErrorCode) → Step l (record { c = write_done ec l.c.writes l.c; owed = l.owed })

pub data Reach : Life → Type 0 where
  start : Reach (record { c = run new_session; owed = 0 })
  later : {l l' : Life} → Reach l → Step l l' → Reach l'

-- One thing at a time, and one request in all. Writes have `close` set.
pub record IsLife (l : Life) : Type 0 where
  pub one : l.c.reads + l.owed + length l.c.writes + length l.c.written ≤ 1
  pub closing : All (λ w. w.1 ≡ true) l.c.writes
  pub shut_idle : l.c.shut ≡ true → l.c.reads + l.owed + length l.c.writes ≡ 0

start-IsLife : IsLife (record { c = run new_session; owed = 0 })
unfolding run do_read new_session
start-IsLife = record { one = omega arith; closing = tt; shut_idle = λ e. cc }

receive-IsLife :
    (ec : ErrorCode) (target : List ℕ) (l : Life)
    → IsLife l
    → 0 < l.c.reads
    → IsLife (record {
      c = (read_done ec target l.c).0;
      owed = l.owed + handed (read_done ec target l.c).1;
    })
unfolding read_done on_read do_close
receive-IsLife ok target l v h = record {
  one = omega (arith, v.one);
  closing = v.closing;
  shut_idle = λ e. absurd (omega (arith, v.shut_idle e));
}
receive-IsLife end_of_stream target l v h = record {
  one = omega (arith, v.one);
  closing = v.closing;
  shut_idle = λ e. omega (arith, v.one);
}
receive-IsLife failed target l v h = record {
  one = omega (arith, v.one);
  closing = v.closing;
  shut_idle = λ e. omega (arith, v.one);
}

answer-IsLife :
    (res : Response) (l : Life)
    → IsLife l
    → 0 < l.owed
    → IsLife (record { c = start_write res l.c; owed = l.owed - 1 })
unfolding start_write
answer-IsLife res l v h = record {
  one = omega (arith, v.one, length-append {0} l.c.writes ((res, true) ∷ []));
  closing = All-append (λ w. w.1 ≡ true) l.c.writes ((res, true) ∷ []) v.closing (refl, tt);
  shut_idle = λ e. absurd (omega (arith, v.shut_idle e));
}

-- A write that fails is given up.
dropped-IsLife :
    (res : Response) (close : Bool) (rest : List (Response × Bool)) (l : Life)
    → IsLife l
    → l.c.writes ≡ (res, close) ∷ rest
    → IsLife (record { c = record l.c { writes = rest }; owed = l.owed })
dropped-IsLife res close rest l v e =
    let all : All (λ (w : Response × Bool). w.1 ≡ true) ((res, close) ∷ rest) =
      subst (All (λ (w : Response × Bool). w.1 ≡ true)) e v.closing in
    record {
      one = omega (arith, v.one, ap length e);
      closing = all.1;
      shut_idle = λ s. absurd (omega (arith, v.shut_idle s, ap length e));
    }

send-IsLife :
    (ec : ErrorCode) (ws : List (Response × Bool)) (l : Life)
    → l.c.writes ≡ ws
    → IsLife l
    → IsLife (record { c = write_done ec ws l.c; owed = l.owed })
unfolding write_done on_write do_close
send-IsLife ec [] l e v = v
send-IsLife ok ((res, close) ∷ rest) l e v =
    let all : All (λ (w : Response × Bool). w.1 ≡ true) ((res, close) ∷ rest) =
      subst (All (λ (w : Response × Bool). w.1 ≡ true)) e v.closing in
    rw all.0 (record {
      one = omega (arith, v.one, ap length e, length-append {0} l.c.written (res ∷ []));
      closing = all.1;
      shut_idle = λ _. omega (arith, v.one, ap length e);
    })
send-IsLife end_of_stream ((res, close) ∷ rest) l e v = dropped-IsLife res close rest l v e
send-IsLife failed ((res, close) ∷ rest) l e v = dropped-IsLife res close rest l v e

Step-IsLife : {l l' : Life} → Step l l' → IsLife l → IsLife l'
Step-IsLife {l} (receive ec target h) v = receive-IsLife ec target l v h
Step-IsLife {l} (answer res h) v = answer-IsLife res l v h
Step-IsLife {l} (send ec) v = send-IsLife ec l.c.writes l refl v

-- However a connection goes on: it has never more than one asynchronous call, request without an
-- answer, or response under way or written, all in all, so that it serves one request at most; and
-- once it is shut, nothing of it is pending.
pub Reach-IsLife : (l : Life) → Reach l → IsLife l
Reach-IsLife l start = start-IsLife
Reach-IsLife l (later r s) = Step-IsLife s (Reach-IsLife _ r)
