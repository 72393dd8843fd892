-- ===== src/Session/Response.antt =====
-- src/Session.cpp: `writeJSONError` and `write_ok`, the answers that reach a client.
use cpp_burst_pool_node.Base.{ℕ, List, ◌++◌, codes}
use cpp_burst_pool_node.Base.Decimal.{to_string}

pub data Status : Type 0 where
  success bad_request service_unavailable : Status

pub record Response : Type 0 where
  pub status : Status
  pub body : List ℕ

unfoldable pub write_json_error : ℕ → List ℕ → Response
write_json_error error_code error_msg = record {
  status = bad_request;
  body =
      codes "{\"errorCode\":"
      ++ to_string error_code
      ++ codes ",\"errorDescription\":\""
      ++ error_msg
      ++ codes "\"}";
}

unfoldable pub write_ok : List ℕ → Response
write_ok msg = record { status = success; body = msg }
