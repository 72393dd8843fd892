-- ===== src/System/Connected.antt =====
-- src/Server.cpp, src/Session.cpp: what a connection can count on.
use mathlib.Core.List.{append_assoc, append-nil}
use cpp_burst_pool_node.Base.{
  ℕ, ◌+◌, ◌<◌, ◌≤◌, ◌≡◌, refl, sym, ap, ◌∙◌, true, List, [], ◌∷◌, ◌++◌, length, arith,
}
use cpp_burst_pool_node.Base.Takes.{total}
use cpp_burst_pool_node.Wallet.Info.{Json}
use cpp_burst_pool_node.Burstmath.Shabal.{Shabal}
use cpp_burst_pool_node.RateLimiter.Bucket.{Double}
use cpp_burst_pool_node.Handler.Batch.{Limits}
use cpp_burst_pool_node.Handler.DistributeLaws.{history}
use cpp_burst_pool_node.Handler.Validator.{Validator}
use cpp_burst_pool_node.Session.Response.{Response}
use cpp_burst_pool_node.Session.Request.{Shared}
use cpp_burst_pool_node.Session.Connection.{SessionConnection, new_session}
use cpp_burst_pool_node.Session.ConnectionLaws
use cpp_burst_pool_node.System.Steps.{Asked, Task, Works, rests, goes_on, starts}
use cpp_burst_pool_node.System.Counts.{answers, same}
use cpp_burst_pool_node.System.Safety.{IsBegun}
use cpp_burst_pool_node.System.Sessions.{
  Sessions, give_answer, Scene, Event, accepts, loses, receives, works_on, writes, sends, Events,
  none_yet, and_then, opening,
}
use cpp_burst_pool_node.System.SessionsLaws.{IsServed}
use cpp_burst_pool_node.System.Served.{IsLive, accepts-IsLive, loses-IsLive, receives-IsLive}
use cpp_burst_pool_node.System.Sent.{writes-IsLive, sends-IsLive, works-IsLive}
use cpp_burst_pool_node.System.Drains.{Reach-drains}

module _ {d : Double} {s : Shabal} {limits : Limits} {parallel : ℕ} (j : Json)
    (v : Validator s limits parallel) (pos : 0 < parallel) (begun : Shared d)
    (b : IsBegun parallel begun) where
  begun-IsLive : IsLive j v pos begun b (opening j v begun)
  unfolding new_session
  begun-IsLive = record {
    reached = starts;
    unsent = [];
    sent = b.no_replies;
    sessions = λ a. record {
      life = λ lt. absurd (omega (arith, lt));
      unknown = λ _. refl;
      once = λ lt. absurd (omega (arith, lt));
    };
    served = λ a. record { to_write = tt; written = tt };
  }

  Event-IsLive :
      (sc sc' : Scene d) → IsLive j v pos begun b sc → Event j v sc sc' → IsLive j v pos begun b sc'
  Event-IsLive sc sc' h accepts = accepts-IsLive j v pos begun b sc h
  Event-IsLive sc sc' h (loses ec a target lt reading e) =
      loses-IsLive j v pos begun b sc ec a target h reading e
  Event-IsLive sc sc' h (receives now addr ec a target lt reading e) =
      receives-IsLive j v pos begun b sc now addr ec a target h lt reading e
  Event-IsLive sc sc' h (works_on w) = works-IsLive j v pos begun b sc h w
  Event-IsLive sc sc' h (writes a res rest e) = writes-IsLive j v pos begun b sc a res rest h e
  Event-IsLive sc sc' h (sends ec a) = sends-IsLive j v pos begun b sc ec a h

  Events-IsLive : (sc : Scene d) → Events j v (opening j v begun) sc → IsLive j v pos begun b sc
  Events-IsLive sc none_yet = begun-IsLive
  Events-IsLive sc (and_then {sc' = before} es e) =
      Event-IsLive before sc (Events-IsLive before es) e

  -- A connection is used for one thing at a time and for one answer in all, which is its own.
  pub record IsConnected (requests : List Asked) (a : ℕ) (c : SessionConnection) : Type 0 where
    pub one_request : total (same a) requests ≤ 1
    pub one_answer : c.reads + length c.writes + length c.written ≤ 1
    pub shut_idle : c.shut ≡ true → c.reads + length c.writes ≡ 0
    pub own_answers :
        IsServed s limits.deadline_limit begun.node.client.pool_id_to_server requests a c

  -- From a begun state (`IsBegun`), with `parallel` above zero, through any events of the connections
  -- and any steps of the parts, in any order: of each connection that was accepted at most one
  -- request is handled; it has at most one read pending or response under way or written, all in
  -- all; once it is shut nothing of it is pending; and each response under way or written is one
  -- that `Reach-IsAnswer` allows for that session.
  pub Events-IsConnected :
      (sc : Scene d) (a : ℕ)
      → Events j v (opening j v begun) sc
      → a < sc.net.accepted
      → IsConnected sc.requests a (sc.net.connection a)
  Events-IsConnected sc a es lt =
      let h = Events-IsLive sc es in
      let (o, r, e) = (h.sessions a).life lt in
      let l = ConnectionLaws.Reach-IsLife _ r in
      record {
        one_request = omega (arith, (h.sessions a).once lt);
        one_answer = omega (arith, l.one);
        shut_idle = λ shut. omega (arith, l.shut_idle shut);
        own_answers = h.served a;
      }

  Works-Events :
      (sc : Scene d) {tasks : List Task} {st : Shared d}
      → Works j v sc.tasks sc.shared tasks st
      → Events j v sc (record sc { tasks = tasks; shared = st })
  Works-Events sc rests = none_yet
  Works-Events sc (goes_on before w) = and_then (Works-Events sc before) (works_on w)

  Works-IsLive :
      (sc : Scene d) {tasks : List Task} {st : Shared d}
      → IsLive j v pos begun b sc
      → Works j v sc.tasks sc.shared tasks st
      → IsLive j v pos begun b (record sc { tasks = tasks; shared = st })
  Works-IsLive sc h rests = h
  Works-IsLive sc h (goes_on before w) = works-IsLive j v pos begun b _ (Works-IsLive sc h before) w

  -- All the answers are handed on, one after the other.
  gives_all :
      (unsent : List (ℕ × Response)) (first sc : Scene d)
      → Events j v first sc
      → sc.shared.node.replies ≡ sc.net.given ++ unsent
      → (net : Sessions) × Events j v first (record sc { net = net })
        × (net.given ≡ sc.shared.node.replies)
        × (net.accepted ≡ sc.net.accepted)
  gives_all [] first sc es e = (sc.net, es, sym (e ∙ append-nil sc.net.given), refl)
  gives_all ((a, res) ∷ rest) first sc es e =
      gives_all rest first (record sc { net = give_answer a res sc.net })
        (and_then es (writes a res rest e))
        (e ∙ sym (append_assoc sc.net.given ((a, res) ∷ []) rest))

  -- From every scene reached from a begun state (`IsBegun`), with `parallel` above zero, events with
  -- no further connection and no further request lead on to one where no request waits and no
  -- validation is left to do, and each session has had an answer handed to `async_write` for each
  -- of its requests that was handled.
  pub Events-drain :
      (sc : Scene d)
      → Events j v (opening j v begun) sc
      → (end : Scene d) × Events j v sc end
        × (end.requests ≡ sc.requests)
        × (end.net.accepted ≡ sc.net.accepted)
        × (end.tasks ≡ [])
        × (history end.shared.loop ≡ [])
        × ((a : ℕ) → total (answers a) end.net.given ≡ total (same a) sc.requests)
  Events-drain sc es =
      let h = Events-IsLive sc es in
      let (st, w, none_left, all) = Reach-drains j v pos begun b h.reached in
      let quiet = record sc { tasks = []; shared = st } in
      let last = Works-IsLive sc h w in
      let (net, given, e, same_accepted) =
        gives_all last.unsent sc quiet (Works-Events sc w) last.sent in
      (
        record quiet { net = net },
        given,
        refl,
        same_accepted,
        refl,
        none_left,
        λ a. ap (total (answers a)) e ∙ sym (all a),
      )
