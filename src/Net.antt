-- ===== src/Net.antt =====
-- What the asynchronous calls of boost report, and the state of one connection with them: the same
-- for the sessions of src/Session.hpp and of src/server.cpp.
use cpp_burst_pool_node.Base.{ℕ, Bool, true, false, Option, List}

-- `boost::system::error_code`, as far as the code looks at it.
pub data ErrorCode : Type 0 where
  ok end_of_stream failed : ErrorCode

-- `reads` counts the calls of `async_read` that have not completed, `writes` holds the responses
-- whose `async_write` has not, each with the `close` that `on_write` will be given, and `written`
-- those that have gone out.
pub record Connection (Req Res : Type 0) : Type 0 where
  pub req : Option Req
  pub res : Option Res
  pub reads : ℕ
  pub writes : List (Res × Bool)
  pub written : List Res
  pub shut : Bool

abbrev pub is_failure : ErrorCode → Bool
is_failure ok = false
is_failure end_of_stream = true
is_failure failed = true

-- What the calls on an acceptor give: `set_option` throws, the others return their error.
pub record Endpoint : Type 0 where
  pub open_ec : ErrorCode
  pub set_option_throws : Bool
  pub bind_ec : ErrorCode
  pub listen_ec : ErrorCode

-- A listener: the states of its acceptor, the calls of `async_accept` that have not completed, the
-- sessions that it has launched, and the calls that it has logged an error of.
pub record Acceptor (S : Type 0) : Type 0 where
  pub is_open : Bool
  pub bound : Bool
  pub listening : Bool
  pub accepts : ℕ
  pub sessions : List S
  pub errors : List (List ℕ)
