-- ===== src/System/ConnectedTests.antt =====
-- The whole server with a connection that sends a nonce.
use cpp_burst_pool_node.Base.{ℕ, ◌≡◌, refl, List, [], ◌∷◌, codes, arith}
use cpp_burst_pool_node.Base.Takes.{total}
use cpp_burst_pool_node.Net.{ok}
use cpp_burst_pool_node.Handler.DistributeLaws.{history}
use cpp_burst_pool_node.Session.Request.{handle_request}
use cpp_burst_pool_node.Session.Connection.{new_session, run, do_read, on_read, read_done}
use cpp_burst_pool_node.System.Steps.{Asked, asked_of}
use cpp_burst_pool_node.System.Counts.{answers, same}
use cpp_burst_pool_node.System.Tests.{whole, begun, begun-IsBegun, reader, validator}
use cpp_burst_pool_node.System.Sessions.{
  with_connection, accept_session, Scene, accepts, receives, Events, none_yet, and_then, opening,
}
use cpp_burst_pool_node.System.Connected.{IsConnected, Events-IsConnected, Events-drain}

abbrev nonce_target : List ℕ
nonce_target = codes "/burst?requestType=submitNonce&accountId=5&nonce=7"

abbrev open_scene : Scene whole
open_scene = opening reader validator begun

abbrev one_session : Scene whole
one_session = record open_scene { net = accept_session open_scene.net }

abbrev ask : Asked
ask = asked_of 0 nonce_target begun.node.wallet

abbrev asked_scene : Scene whole
asked_scene = record one_session {
  requests = ask ∷ [];
  shared = handle_request whole 10 (codes "10.0.0.1") 0 nonce_target begun;
  net =
      with_connection 0 (read_done ok nonce_target (one_session.net.connection 0)).0
        one_session.net;
}

asked-Events : Events reader validator open_scene asked_scene
unfolding read_done on_read run do_read new_session
asked-Events =
    and_then (and_then none_yet accepts)
      (receives 10 (codes "10.0.0.1") ok 0 nonce_target (omega arith) (omega arith) refl)

Events-IsConnected_example :
    IsConnected reader validator
      (omega arith)
      begun
      begun-IsBegun
      (ask ∷ [])
      0
      (asked_scene.net.connection 0)
Events-IsConnected_example =
    Events-IsConnected reader validator (omega arith) begun begun-IsBegun asked_scene 0 asked-Events
      (omega arith)

Events-drain_example :
    (end : Scene whole) × Events reader validator asked_scene end
    × (end.requests ≡ ask ∷ [])
    × (end.net.accepted ≡ 1)
    × (end.tasks ≡ [])
    × (history end.shared.loop ≡ [])
    × ((a : ℕ) → total (answers a) end.net.given ≡ total (same a) (ask ∷ []))
Events-drain_example =
    Events-drain reader validator (omega arith) begun begun-IsBegun asked_scene asked-Events
