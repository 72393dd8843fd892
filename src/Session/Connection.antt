-- ===== src/Session/Connection.antt =====
-- src/Session.hpp and src/Session.cpp: the life of a connection, from `run` to `do_close`.
use cpp_burst_pool_node.Base.{
  ℕ, ◌+◌, ◌-◌, Bool, true, false, none, some, List, [], ◌∷◌, ◌++◌, if◌then◌else◌,
}
use cpp_burst_pool_node.Net.{ErrorCode, ok, end_of_stream, failed, Connection}
use cpp_burst_pool_node.Session.Response.{Response}

abbrev pub SessionConnection : Type 0
SessionConnection = Connection (List ℕ) Response

-- The constructor, with the socket that was accepted.
unfoldable pub new_session : SessionConnection
new_session = record { req = none; res = none; reads = 0; writes = []; written = []; shut = false }

unfoldable pub do_read : SessionConnection → SessionConnection
do_read c = record c { req = none; reads = c.reads + 1 }

unfoldable pub run : SessionConnection → SessionConnection
run c = do_read c

-- The error of the shutdown is not looked at.
unfoldable pub do_close : SessionConnection → SessionConnection
do_close c = record c { shut = true }

-- Whether `handle_request` is called.
unfoldable pub on_read : ErrorCode → SessionConnection → SessionConnection × Bool
on_read ok c = (c, true)
on_read end_of_stream c = (do_close c, false)
on_read failed c = (c, false)

-- The response goes out, with `close` set.
unfoldable pub start_write : Response → SessionConnection → SessionConnection
start_write res c = record c { writes = c.writes ++ (res, true) ∷ [] }

unfoldable pub on_write : ErrorCode → Bool → SessionConnection → SessionConnection
on_write ok close c = if close then do_close c else do_read (record c { res = none })
on_write end_of_stream close c = c
on_write failed close c = c

-- `async_read` completes: `req_` holds the target of the request, if there is one.
unfoldable pub read_done : ErrorCode → List ℕ → SessionConnection → SessionConnection × Bool
read_done ok target c = on_read ok (record c { req = some target; reads = c.reads - 1 })
read_done end_of_stream target c = on_read end_of_stream (record c { reads = c.reads - 1 })
read_done failed target c = on_read failed (record c { reads = c.reads - 1 })

-- The first `async_write` completes.
unfoldable pub write_done :
    ErrorCode → List (Response × Bool) → SessionConnection → SessionConnection
write_done ec [] c = c
write_done ok ((res, close) ∷ rest) c =
    on_write ok close (record c { writes = rest; written = c.written ++ res ∷ [] })
write_done end_of_stream ((res, close) ∷ rest) c =
    on_write end_of_stream close (record c { writes = rest })
write_done failed ((res, close) ∷ rest) c = on_write failed close (record c { writes = rest })
