-- ===== src/HttpServer/SessionLaws.antt =====
-- src/server.cpp: what a session answers.
use mathlib.Core.List.{append_assoc, append-nil, map-append}
use cpp_burst_pool_node.Base.{
  ℕ, ◌+◌, ◌<◌, ◌≤◌, ◌≡◌, refl, sym, ap, ◌∙◌, inl, inr, Bool, List, [], ◌∷◌, ◌++◌, map, length,
  length-append, length-map, Bool-cases, arith,
}
use cpp_burst_pool_node.Net.{ErrorCode, ok, end_of_stream, failed}
use cpp_burst_pool_node.HttpServer.Session.{
  Request, Message, Beast, handle_request, Session, new_session, send_lambda, do_read, run,
  do_close, failing, handle, on_read, on_write, read_done, write_done,
}

-- A session, with the requests that it has read, and the answers whose write has failed.
pub record Life : Type 0 where
  pub s : Session
  pub received : List Request
  pub lost : List Message

abbrev pub received_by : ErrorCode → Request → List Request → List Request
received_by ok req rs = rs ++ req ∷ []
received_by end_of_stream req rs = rs
received_by failed req rs = rs

abbrev pub lost_by : ErrorCode → List (Message × Bool) → List Message → List Message
lost_by ec [] lost = lost
lost_by ok (w ∷ rest) lost = lost
lost_by end_of_stream (w ∷ rest) lost = lost ++ w.0 ∷ []
lost_by failed (w ∷ rest) lost = lost ++ w.0 ∷ []

abbrev pub under_way : List (Message × Bool) → List Message
under_way = map (λ w. w.0)

module _ (b : Beast) where
  pub data Step (l : Life) : Life → Type 0 where
    receive :
        (ec : ErrorCode) (req : Request)
        → 0 < l.s.c.reads
        → Step l (record l { s = read_done b ec req l.s; received = received_by ec req l.received })
    send :
        (ec : ErrorCode)
        → Step l (record l {
          s = write_done b ec l.s.c.writes l.s;
          lost = lost_by ec l.s.c.writes l.lost;
        })

  pub data Reach : Life → Type 0 where
    start : Reach (record { s = run b new_session; received = []; lost = [] })
    later : {l l' : Life} → Reach l → Step l l' → Reach l'

  -- At most one asynchronous call at a time, and an answer to each request, in order: written, or
  -- under way, or lost, and then the session has ended.
  pub record IsAnswering (l : Life) : Type 0 where
    pub one : l.s.c.reads + length l.s.c.writes + length l.lost ≤ 1
    pub answers :
        l.s.c.written ++ (under_way l.s.c.writes ++ l.lost) ≡ map (handle_request b) l.received

  start-IsAnswering : IsAnswering (record { s = run b new_session; received = []; lost = [] })
  unfolding run do_read new_session
  start-IsAnswering = record { one = omega arith; answers = refl }

  receive-answers :
      (written ws lost handled : List Message) (m : Message)
      → length ws + length lost ≤ 0
      → written ++ (ws ++ lost) ≡ handled
      → written ++ ((ws ++ m ∷ []) ++ lost) ≡ handled ++ m ∷ []
  receive-answers written [] [] handled m h e =
      ap (λ (xs : List Message). xs ++ m ∷ []) (sym (append-nil written) ∙ e)
  receive-answers written [] (x ∷ lost) handled m h e = absurd (omega arith)
  receive-answers written (w ∷ ws) lost handled m h e = absurd (omega arith)

  lost-answers :
      (written ws lost handled : List Message) (m : Message)
      → length ws + length lost ≤ 0
      → written ++ ((m ∷ ws) ++ lost) ≡ handled
      → written ++ (ws ++ (lost ++ m ∷ [])) ≡ handled
  lost-answers written [] [] handled m h e = e
  lost-answers written [] (x ∷ lost) handled m h e = absurd (omega arith)
  lost-answers written (w ∷ ws) lost handled m h e = absurd (omega arith)

  receive-IsAnswering :
      (ec : ErrorCode) (req : Request) (l : Life)
      → IsAnswering l
      → 0 < l.s.c.reads
      → IsAnswering
          (record l { s = read_done b ec req l.s; received = received_by ec req l.received })
  unfolding read_done on_read handle send_lambda do_close failing
  receive-IsAnswering ok req l v h = record {
    one = omega (
      arith,
      v.one,
      length-append {0} l.s.c.writes
          ((handle_request b req, b.need_eof (handle_request b req)) ∷ []),
    );
    answers =
        ap (λ (xs : List Message). l.s.c.written ++ (xs ++ l.lost))
          (map-append (λ (w : Message × Bool). w.0) l.s.c.writes _)
        ∙ receive-answers l.s.c.written (under_way l.s.c.writes) l.lost _ (handle_request b req)
            (omega (arith, v.one, length-map l.s.c.writes (λ (w : Message × Bool). w.0))) v.answers
        ∙ sym (map-append (handle_request b) l.received (req ∷ []));
  }
  receive-IsAnswering end_of_stream req l v h = record {
    one = omega (arith, v.one);
    answers = v.answers;
  }
  receive-IsAnswering failed req l v h = record { one = omega (arith, v.one); answers = v.answers }

  written_so :
      (l : Life) (m : Message) (close : Bool) (rest : List (Message × Bool))
      → l.s.c.writes ≡ (m, close) ∷ rest
      → IsAnswering l
      → l.s.c.written ++ ((m ∷ under_way rest) ++ l.lost) ≡ map (handle_request b) l.received
  written_so l m close rest e v =
      ap (λ (ws : List (Message × Bool)). l.s.c.written ++ (under_way ws ++ l.lost)) (sym e)
      ∙ v.answers

  -- A write that fails is given up.
  failed_write :
      (l : Life) (m : Message) (close : Bool) (rest : List (Message × Bool))
      (errors : List (List ℕ))
      → l.s.c.writes ≡ (m, close) ∷ rest
      → IsAnswering l
      → IsAnswering (record l {
        s = record { c = record l.s.c { writes = rest }; errors = errors };
        lost = l.lost ++ m ∷ [];
      })
  failed_write l m close rest errors e v = record {
    one = omega (arith, v.one, ap length e, length-append {0} l.lost (m ∷ []));
    answers =
        lost-answers l.s.c.written (under_way rest) l.lost _ m
          (omega (arith, v.one, ap length e, length-map rest (λ (w : Message × Bool). w.0)))
          (written_so l m close rest e v);
  }

  send-IsAnswering :
      (ec : ErrorCode) (ws : List (Message × Bool)) (l : Life)
      → l.s.c.writes ≡ ws
      → IsAnswering l
      → IsAnswering (record l { s = write_done b ec ws l.s; lost = lost_by ec ws l.lost })
  unfolding write_done on_write failing do_close do_read
  send-IsAnswering ec [] l e v = v
  send-IsAnswering ok ((m, close) ∷ rest) l e v =
      let kept =
        append_assoc l.s.c.written (m ∷ []) (under_way rest ++ l.lost)
        ∙ written_so l m close rest e v in
      elim (Bool-cases close) [
        | inl c ↦ rw c (record { one = omega (arith, v.one, ap length e); answers = kept })
        | inr c ↦ rw c (record { one = omega (arith, v.one, ap length e); answers = kept })
      ]
  send-IsAnswering end_of_stream ((m, close) ∷ rest) l e v = failed_write l m close rest _ e v
  send-IsAnswering failed ((m, close) ∷ rest) l e v = failed_write l m close rest _ e v

  Step-IsAnswering : {l l' : Life} → Step l l' → IsAnswering l → IsAnswering l'
  Step-IsAnswering {l} (receive ec req h) v = receive-IsAnswering ec req l v h
  Step-IsAnswering {l} (send ec) v = send-IsAnswering ec l.s.c.writes l refl v

  -- However a session goes on: it has at most one asynchronous call at a time, and what it has
  -- written, is writing, or has failed to write are, in order, the answers of `handle_request` to
  -- the requests that it has read, one for each; after a failed write there is nothing more.
  pub Reach-IsAnswering : (l : Life) → Reach l → IsAnswering l
  Reach-IsAnswering l start = start-IsAnswering
  Reach-IsAnswering l (later r s) = Step-IsAnswering s (Reach-IsAnswering _ r)
