-- ===== src/System/Served.antt =====
-- src/Server.cpp, src/Session.cpp: what holds of the connections, and where they can always come to.
use mathlib.Core.List.{append_assoc}
use cpp_burst_pool_node.Base.{
  ℕ, ◌+◌, ◌<◌, ◌≤◌, ◌≡◌, ap, ◌∙◌, true, false, List, ◌∷◌, ◌++◌, ◌==◌, arith,
}
use cpp_burst_pool_node.Base.Takes.{total, total-append}
use cpp_burst_pool_node.Wallet.State.{Wallet}
use cpp_burst_pool_node.Wallet.Info.{Json}
use cpp_burst_pool_node.Burstmath.Shabal.{Shabal}
use cpp_burst_pool_node.RateLimiter.Bucket.{Double}
use cpp_burst_pool_node.Net.{ErrorCode}
use cpp_burst_pool_node.Handler.Batch.{Limits}
use cpp_burst_pool_node.Handler.Validator.{Validator}
use cpp_burst_pool_node.Session.Response.{Response}
use cpp_burst_pool_node.Session.Request.{Shared, handle_request}
use cpp_burst_pool_node.Session.RequestLaws.{handle_request-Handled}
use cpp_burst_pool_node.Session.Connection.{SessionConnection, new_session, run, do_read, read_done}
use cpp_burst_pool_node.Session.ConnectionLaws
use cpp_burst_pool_node.System.Steps.{Asked, asked_of, Reach, handles}
use cpp_burst_pool_node.System.Counts.{answers, same}
use cpp_burst_pool_node.System.Safety.{IsBegun, Reach-conserves}
use cpp_burst_pool_node.System.Sessions.{with_connection, accept_session, Scene}
use cpp_burst_pool_node.System.SessionsLaws.{
  at_connection, HasLife, IsServed, read_done-IsServed, grow-IsServed, handle_request-Grows,
  handed_lem,
}

-- A session, by its number: one that was accepted has a life.
pub record IsSession (accepted : ℕ) (requests : List Asked) (given : List (ℕ × Response)) (a : ℕ)
    (c : SessionConnection) : Type 0 where
  pub life : a < accepted → HasLife requests given a c
  pub unknown : accepted ≤ a → total (same a) requests ≡ 0
  pub once : a < accepted → c.reads + total (same a) requests ≤ 1

pub same_self : (a : ℕ) (target : List ℕ) (w : Wallet) → same a (asked_of a target w) ≡ 1
same_self a target w = ground arith

pub same_other :
    (a b : ℕ) (target : List ℕ) (w : Wallet) → (a == b) ≡ false → same b (asked_of a target w) ≡ 0
same_other a b target w e = ground arith

pub answers_self : (a : ℕ) (res : Response) → answers a (a, res) ≡ 1
answers_self a res = ground arith

pub answers_other : (a b : ℕ) (res : Response) → (a == b) ≡ false → answers b (a, res) ≡ 0
answers_other a b res e = ground arith

module _ {d : Double} {s : Shabal} {limits : Limits} {parallel : ℕ} (j : Json)
    (v : Validator s limits parallel) (pos : 0 < parallel) (begun : Shared d)
    (b : IsBegun parallel begun) where
  abbrev pub IsServedIn : List Asked → ℕ → SessionConnection → Type 0
  IsServedIn requests a c =
      IsServed s limits.deadline_limit begun.node.client.pool_id_to_server requests a c

  pub record IsLive (sc : Scene d) : Type 1 where
    pub reached : Reach j v begun sc.requests sc.tasks sc.shared
    pub unsent : List (ℕ × Response)
    pub sent : sc.shared.node.replies ≡ sc.net.given ++ unsent
    pub sessions :
        (a : ℕ) → IsSession sc.net.accepted sc.requests sc.net.given a (sc.net.connection a)
    pub served : (a : ℕ) → IsServedIn sc.requests a (sc.net.connection a)

  -- No session has been given more answers than it has had requests handled.
  pub given_le :
      (sc : Scene d) (given unsent : List (ℕ × Response))
      → Reach j v begun sc.requests sc.tasks sc.shared
      → sc.shared.node.replies ≡ given ++ unsent
      → (a : ℕ) → total (answers a) given + total (answers a) unsent ≤ total (same a) sc.requests
  given_le sc given unsent r e a = omega (
    arith,
    Reach-conserves j v pos begun b r a,
    ap (total (answers a)) e,
    total-append (answers a) given unsent,
  )

  pub accepts-IsLive :
      (sc : Scene d) → IsLive sc → IsLive (record sc { net = accept_session sc.net })
  unfolding run do_read new_session
  accepts-IsLive sc h = record {
    reached = h.reached;
    unsent = h.unsent;
    sent = h.sent;
    sessions =
        at_connection (IsSession (sc.net.accepted + 1) sc.requests sc.net.given) sc.net.accepted _
          sc.net
          (record {
            life = λ _. (
              0,
              ConnectionLaws.start,
              omega (
                arith,
                (h.sessions sc.net.accepted).unknown (omega arith),
                given_le sc sc.net.given h.unsent h.reached h.sent sc.net.accepted,
              ),
            );
            unknown = λ le. absurd (omega (arith, le));
            once = λ _. omega (arith, (h.sessions sc.net.accepted).unknown (omega arith));
          })
          (λ a e. record {
            life = λ lt. (h.sessions a).life (ground arith);
            unknown = λ le. (h.sessions a).unknown (omega (arith, le));
            once = λ lt. (h.sessions a).once (ground arith);
          });
    served =
        at_connection (IsServedIn sc.requests) sc.net.accepted _ sc.net
          (record { to_write = tt; written = tt }) (λ a _. h.served a);
  }

  pub loses-IsLive :
      (sc : Scene d) (ec : ErrorCode) (a : ℕ) (target : List ℕ)
      → IsLive sc
      → 0 < (sc.net.connection a).reads
      → (read_done ec target (sc.net.connection a)).1 ≡ false
      → IsLive (record sc {
        net = with_connection a (read_done ec target (sc.net.connection a)).0 sc.net;
      })
  loses-IsLive sc ec a target h reading none_read =
      let c = sc.net.connection a in
      record {
        reached = h.reached;
        unsent = h.unsent;
        sent = h.sent;
        sessions =
            at_connection (IsSession sc.net.accepted sc.requests sc.net.given) a _ sc.net
              (record {
                life = λ lt.
                    let (o, r, e) = (h.sessions a).life lt in
                    (
                      o + ConnectionLaws.handed (read_done ec target c).1,
                      ConnectionLaws.later r (ConnectionLaws.receive ec target reading),
                      omega (arith, e, ap ConnectionLaws.handed none_read),
                    );
                unknown = (h.sessions a).unknown;
                once = λ lt. omega (arith, (h.sessions a).once lt, handed_lem ec target c reading);
              })
              (λ b _. h.sessions b);
        served =
            at_connection (IsServedIn sc.requests) a _ sc.net
              (read_done-IsServed _ _ _ sc.requests ec a target c (h.served a)) (λ b _. h.served b);
      }

  pub receives-IsLive :
      (sc : Scene d) (now : d.F) (addr : List ℕ) (ec : ErrorCode) (a : ℕ) (target : List ℕ)
      → IsLive sc
      → a < sc.net.accepted
      → 0 < (sc.net.connection a).reads
      → (read_done ec target (sc.net.connection a)).1 ≡ true
      → IsLive (record sc {
        requests = asked_of a target sc.shared.node.wallet ∷ sc.requests;
        shared = handle_request d now addr a target sc.shared;
        net = with_connection a (read_done ec target (sc.net.connection a)).0 sc.net;
      })
  receives-IsLive sc now addr ec a target h lt reading read =
      let c = sc.net.connection a in
      let w = sc.shared.node.wallet in
      let r = asked_of a target w in
      let (more, grown) =
        handle_request-Grows j v a sc.shared _
          (handle_request-Handled d now addr a target sc.shared) in
      record {
        reached = handles now addr a target h.reached;
        unsent = h.unsent ++ more;
        sent =
            grown
            ∙ ap (λ (rs : List (ℕ × Response)). rs ++ more) h.sent
            ∙ append_assoc sc.net.given h.unsent more;
        sessions =
            at_connection (IsSession sc.net.accepted (r ∷ sc.requests) sc.net.given) a _ sc.net
              (record {
                life = λ lt.
                    let (o, l, e) = (h.sessions a).life lt in
                    (
                      o + ConnectionLaws.handed (read_done ec target c).1,
                      ConnectionLaws.later l (ConnectionLaws.receive ec target reading),
                      omega (arith, e, ap ConnectionLaws.handed read, same_self a target w),
                    );
                unknown = λ le. absurd (omega (arith, le));
                once = λ lt. omega (
                  arith,
                  (h.sessions a).once lt,
                  handed_lem ec target c reading,
                  ap ConnectionLaws.handed read,
                  same_self a target w,
                );
              })
              (λ b e. record {
                life = λ lt.
                    let (o, l, q) = (h.sessions b).life lt in
                    (o, l, omega (arith, q, same_other a b target w e));
                unknown = λ le. omega (arith, (h.sessions b).unknown le, same_other a b target w e);
                once = λ lt. omega (arith, (h.sessions b).once lt, same_other a b target w e);
              });
        served =
            at_connection (IsServedIn (r ∷ sc.requests)) a _ sc.net
              (grow-IsServed _ _ _ r sc.requests a _
                (read_done-IsServed _ _ _ sc.requests ec a target c (h.served a)))
              (λ b _. grow-IsServed _ _ _ r sc.requests b _ (h.served b));
      }
