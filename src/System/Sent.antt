-- ===== src/System/Sent.antt =====
-- src/Server.cpp, src/Session.cpp: the answers on their way to the connections.
use mathlib.Core.Path.{subst}
use mathlib.Core.List.{append_assoc}
use cpp_burst_pool_node.Base.{ℕ, ◌-◌, ◌<◌, ◌≡◌, sym, ap, ◌∙◌, List, [], ◌∷◌, ◌++◌, All, arith}
use cpp_burst_pool_node.Base.Takes.{total-append, All-append_split}
use cpp_burst_pool_node.Wallet.Info.{Json}
use cpp_burst_pool_node.Burstmath.Shabal.{Shabal}
use cpp_burst_pool_node.RateLimiter.Bucket.{Double}
use cpp_burst_pool_node.Net.{ErrorCode}
use cpp_burst_pool_node.Handler.Batch.{Limits}
use cpp_burst_pool_node.Handler.Validator.{Validator}
use cpp_burst_pool_node.Session.Response.{Response}
use cpp_burst_pool_node.Session.Request.{Shared}
use cpp_burst_pool_node.Session.Connection.{start_write, write_done}
use cpp_burst_pool_node.Session.ConnectionLaws
use cpp_burst_pool_node.System.Steps.{Task, Work, works}
use cpp_burst_pool_node.System.Counts.{answers}
use cpp_burst_pool_node.System.Safety.{IsBegun, Reach-IsSystem, Reach-IsAnswer}
use cpp_burst_pool_node.System.Sessions.{with_connection, give_answer, Scene}
use cpp_burst_pool_node.System.SessionsLaws.{
  at_connection, write_done-IsServed, start_write-IsServed, Work-Grows, write_done-reads,
}
use cpp_burst_pool_node.System.Served.{
  answers_self, answers_other, IsSession, IsServedIn, IsLive, given_le,
}

module _ {d : Double} {s : Shabal} {limits : Limits} {parallel : ℕ} (j : Json)
    (v : Validator s limits parallel) (pos : 0 < parallel) (begun : Shared d)
    (b : IsBegun parallel begun) where
  pub writes-IsLive :
      (sc : Scene d) (a : ℕ) (res : Response) (rest : List (ℕ × Response))
      → IsLive j v pos begun b sc
      → sc.shared.node.replies ≡ sc.net.given ++ (a, res) ∷ rest
      → IsLive j v pos begun b (record sc { net = give_answer a res sc.net })
  unfolding start_write
  writes-IsLive sc a res rest h e =
      let c = sc.net.connection a in
      let sent = e ∙ sym (append_assoc sc.net.given ((a, res) ∷ []) rest) in
      let more = sc.net.given ++ (a, res) ∷ [] in
      let le = given_le j v pos begun b sc more rest h.reached sent in
      let counted = λ (b : ℕ). total-append (answers b) sc.net.given ((a, res) ∷ []) in
      record {
        reached = h.reached;
        unsent = rest;
        sent = sent;
        sessions =
            at_connection (IsSession sc.net.accepted sc.requests more) a _ sc.net
              (record {
                life = λ lt.
                    let (o, r, q) = (h.sessions a).life lt in
                    let owed : 0 < o = omega (arith, q, le a, counted a, answers_self a res) in
                    (
                      o - 1,
                      ConnectionLaws.later r (ConnectionLaws.answer res owed),
                      omega (arith, q, counted a, answers_self a res),
                    );
                unknown = (h.sessions a).unknown;
                once = (h.sessions a).once;
              })
              (λ b ne. record {
                life = λ lt.
                    let (o, r, q) = (h.sessions b).life lt in
                    (o, r, omega (arith, q, counted b, answers_other a b res ne));
                unknown = (h.sessions b).unknown;
                once = (h.sessions b).once;
              });
        served =
            at_connection (IsServedIn j v pos begun b sc.requests) a _ sc.net
              (start_write-IsServed _ _ _ sc.requests a res c
                (All-append_split _ sc.net.given _
                  (subst (All _) e (Reach-IsAnswer j v pos begun b h.reached))).1.0
                (h.served a))
              (λ b _. h.served b);
      }

  pub sends-IsLive :
      (sc : Scene d) (ec : ErrorCode) (a : ℕ)
      → IsLive j v pos begun b sc
      → IsLive j v pos begun b (record sc {
        net =
            with_connection a
              (write_done ec (sc.net.connection a).writes (sc.net.connection a))
              sc.net;
      })
  sends-IsLive sc ec a h =
      let c = sc.net.connection a in
      record {
        reached = h.reached;
        unsent = h.unsent;
        sent = h.sent;
        sessions =
            at_connection (IsSession sc.net.accepted sc.requests sc.net.given) a _ sc.net
              (record {
                life = λ lt.
                    let (o, r, e) = (h.sessions a).life lt in
                    (o, ConnectionLaws.later r (ConnectionLaws.send ec), e);
                unknown = (h.sessions a).unknown;
                once = λ lt.
                    let (o, r, e) = (h.sessions a).life lt in
                    omega (
                      arith,
                      (h.sessions a).once lt,
                      write_done-reads ec c.writes c (ConnectionLaws.Reach-IsLife _ r).closing,
                    );
              })
              (λ b _. h.sessions b);
        served =
            at_connection (IsServedIn j v pos begun b sc.requests) a _ sc.net
              (write_done-IsServed _ _ _ sc.requests ec a c.writes c (h.served a).to_write
                (h.served a))
              (λ b _. h.served b);
      }

  pub works-IsLive :
      (sc : Scene d) {tasks : List Task} {st : Shared d}
      → IsLive j v pos begun b sc
      → Work j v sc.tasks sc.shared tasks st
      → IsLive j v pos begun b (record sc { tasks = tasks; shared = st })
  works-IsLive sc h w =
      let (more, grown) =
        Work-Grows j v _ sc.requests (Reach-IsSystem j v pos begun b h.reached) w in
      record {
        reached = works h.reached w;
        unsent = h.unsent ++ more;
        sent =
            grown
            ∙ ap (λ (rs : List (ℕ × Response)). rs ++ more) h.sent
            ∙ append_assoc sc.net.given h.unsent more;
        sessions = h.sessions;
        served = h.served;
      }
