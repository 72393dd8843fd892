-- ===== src/System/Grows.antt =====
-- What is right stays so when more requests are handled.
use cpp_burst_pool_node.Base.{ℕ, List, ◌∷◌, All-imp, inr}
use cpp_burst_pool_node.Burstmath.Shabal.{Shabal}
use cpp_burst_pool_node.NodeCom.{SubmitNonceRequest}
use cpp_burst_pool_node.Handler.State.{Node}
use cpp_burst_pool_node.Session.Response.{Response}
use cpp_burst_pool_node.System.Steps.{Asked, Task}
use cpp_burst_pool_node.System.Rounds.{IsRight, IsAnswer, at_once, accepted, above, IsTask, IsKept}

module _ (s : Shabal) (limit : ℕ) (servers : List (ℕ × List ℕ)) (r : Asked)
    (requests : List Asked) where
  grow-IsRight :
      (call : List ℕ × SubmitNonceRequest)
      → IsRight s limit servers requests call
      → IsRight s limit servers (r ∷ requests) call
  grow-IsRight call h = record {
    creq = h.creq;
    poc2 = h.poc2;
    made = inr h.made;
    account = h.account;
    nonce = h.nonce;
    block_height = h.block_height;
    deadline = h.deadline;
    within = h.within;
    server = h.server;
  }

  pub grow-IsAnswer :
      (p : ℕ × Response)
      → IsAnswer s limit servers requests p
      → IsAnswer s limit servers (r ∷ requests) p
  grow-IsAnswer p (at_once im) = at_once (inr im)
  grow-IsAnswer p (accepted c poc2 m e f g h) = accepted c poc2 (inr m) e f g h
  grow-IsAnswer p (above c poc2 m e f g h) = above c poc2 (inr m) e f g h

  pub grow-IsTask :
      (t : Task) → IsTask s limit servers requests t → IsTask s limit servers (r ∷ requests) t
  grow-IsTask t h = record { made = inr h.made; poc2 = h.poc2; deadline = h.deadline }

  pub grow-IsKept :
      (n : Node) → IsKept s limit servers requests n → IsKept s limit servers (r ∷ requests) n
  grow-IsKept n k = record {
    sound = k.sound;
    same_servers = k.same_servers;
    calls = All-imp grow-IsRight n.client.calls k.calls;
    replies = All-imp grow-IsAnswer n.replies k.replies;
  }
