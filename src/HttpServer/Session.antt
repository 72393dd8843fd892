-- ===== src/HttpServer/Session.antt =====
-- src/server.cpp: `handle_request` and `session`. What boost gives is a parameter: the text of an
-- error, the name of its version, and whether the end of a message has to be shown by closing.
use cpp_burst_pool_node.Base.{
  ℕ, ◌+◌, ◌-◌, Bool, true, false, Option, none, some, List, [], ◌∷◌, ◌++◌, length, codes,
  if◌then◌else◌,
}
use cpp_burst_pool_node.Net.{ErrorCode, ok, end_of_stream, failed, Connection}

-- `http::request<http::string_body>`, as far as it is looked at.
pub record Request : Type 0 where
  pub version : ℕ
  pub keep_alive : Bool

-- `http::response<http::string_body>`; `prepare_payload` sets the length.
pub record Message : Type 0 where
  pub status : ℕ
  pub version : ℕ
  pub server : List ℕ
  pub content_type : List ℕ
  pub keep_alive : Bool
  pub body : List ℕ
  pub content_length : Option ℕ

pub record Beast : Type 0 where
  pub version_string : List ℕ
  pub message : ErrorCode → List ℕ
  pub need_eof : Message → Bool

unfoldable pub bad_request : Beast → Request → List ℕ → Message
bad_request b req why = record {
  status = 400;
  version = req.version;
  server = b.version_string;
  content_type = codes "text/html";
  keep_alive = req.keep_alive;
  body = why;
  content_length = some (length why);
}

unfoldable pub handle_request : Beast → Request → Message
handle_request b req = bad_request b req (codes "lol")

-- The line that is written to the standard error.
unfoldable pub fail : Beast → ErrorCode → List ℕ → List ℕ
fail b ec what = what ++ (codes ": " ++ (b.message ec ++ codes "\n"))

-- A session, and what it has written to the standard error.
pub record Session : Type 0 where
  pub c : Connection Request Message
  pub errors : List (List ℕ)

unfoldable pub new_session : Session
new_session = record {
  c = record { req = none; res = none; reads = 0; writes = []; written = []; shut = false };
  errors = [];
}

module _ (b : Beast) where
  -- The message is kept in `res_` while it is written.
  unfoldable pub send_lambda : Message → Session → Session
  send_lambda msg s = record s {
    c = record s.c { res = some msg; writes = s.c.writes ++ (msg, b.need_eof msg) ∷ [] };
  }

  unfoldable pub do_read : Session → Session
  do_read s = record s { c = record s.c { req = none; reads = s.c.reads + 1 } }

  unfoldable pub run : Session → Session
  run s = do_read s

  unfoldable pub do_close : Session → Session
  do_close s = record s { c = record s.c { shut = true } }

  unfoldable pub failing : ErrorCode → List ℕ → Session → Session
  failing ec what s = record s { errors = s.errors ++ fail b ec what ∷ [] }

  -- The request is moved out of `req_`.
  unfoldable pub handle : Option Request → Session → Session
  handle none s = s
  handle (some req) s =
      send_lambda (handle_request b req) (record s { c = record s.c { req = none } })

  unfoldable pub on_read : ErrorCode → Session → Session
  on_read ok s = handle s.c.req s
  on_read end_of_stream s = do_close s
  on_read failed s = failing failed (codes "read") s

  unfoldable pub on_write : ErrorCode → Bool → Session → Session
  on_write ok close s =
      if close then do_close s else do_read (record s { c = record s.c { res = none } })
  on_write end_of_stream close s = failing end_of_stream (codes "write") s
  on_write failed close s = failing failed (codes "write") s

  -- `async_read` completes.
  unfoldable pub read_done : ErrorCode → Request → Session → Session
  read_done ok req s =
      on_read ok (record s { c = record s.c { req = some req; reads = s.c.reads - 1 } })
  read_done end_of_stream req s =
      on_read end_of_stream (record s { c = record s.c { reads = s.c.reads - 1 } })
  read_done failed req s = on_read failed (record s { c = record s.c { reads = s.c.reads - 1 } })

  -- The first `async_write` completes.
  unfoldable pub write_done : ErrorCode → List (Message × Bool) → Session → Session
  write_done ec [] s = s
  write_done ok ((msg, close) ∷ rest) s =
      on_write ok close
        (record s { c = record s.c { writes = rest; written = s.c.written ++ msg ∷ [] } })
  write_done end_of_stream ((msg, close) ∷ rest) s =
      on_write end_of_stream close (record s { c = record s.c { writes = rest } })
  write_done failed ((msg, close) ∷ rest) s =
      on_write failed close (record s { c = record s.c { writes = rest } })
