-- ===== src/HttpServer/Tests.antt =====
-- src/server.cpp: the theorems at concrete inputs.
use cpp_burst_pool_node.Base.{false, true, [], ◌∷◌, codes, ◌>>=◌, arith}
use cpp_burst_pool_node.Net.{ok, failed, Endpoint}
use cpp_burst_pool_node.Server.Listener.{listener}
use cpp_burst_pool_node.HttpServer.Session.{Request, Beast, new_session, do_read, run, read_done}
use cpp_burst_pool_node.HttpServer.SessionLaws.{
  Life, Reach, start, later, receive, received_by, IsAnswering, Reach-IsAnswering,
}
use cpp_burst_pool_node.HttpServer.Listener.{new_listener}
use cpp_burst_pool_node.HttpServer.ListenerLaws.{
  AlikeIfAny, served, http_served, listener-new_listener,
}

abbrev beast : Beast
beast = record {
  version_string = codes "Boost.Beast/144";
  message = λ ec. codes "error";
  need_eof = λ msg. false;
}

abbrev get : Request
get = record { version = 11; keep_alive = true }

abbrev read_once : Life
read_once = record {
  s = read_done beast ok get (run beast new_session);
  received = received_by ok get [];
  lost = [];
}

read_once-Reach : Reach beast read_once
unfolding run do_read new_session
read_once-Reach = later start (receive ok get (omega arith))

Reach-IsAnswering_example : IsAnswering beast read_once
Reach-IsAnswering_example = Reach-IsAnswering beast read_once read_once-Reach

abbrev in_use : Endpoint
in_use = record { open_ec = ok; set_option_throws = false; bind_ec = failed; listen_ec = ok }

listener-new_listener_example :
    AlikeIfAny
      (listener in_use >>= served (failed ∷ ok ∷ []))
      (new_listener beast in_use >>= http_served beast (failed ∷ ok ∷ []))
listener-new_listener_example = listener-new_listener beast in_use (failed ∷ ok ∷ [])
