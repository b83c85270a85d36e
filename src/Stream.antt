-- ===== src/Stream.antt =====
-- The state of one stream: `h3_stream` of mod_http3/include/h3_session.h, and the tests on a stream
-- id of mod_http3/include/h3.h.
use mod_http.Common.{
  ℕ, ◌/◌, ◌%◌, Bool, false, Option, none, some, List, [], Bytes, ◌==◌, length, if◌then◌else◌,
}
use mod_http.Response.{Response, new_response}
use mod_http.Config.{ServerConf, stream_buffer_size_default}

-- `h3_stream` without its pools and the locks. A QUIC stream is a handle, `none` for NULL. The body
-- buffer is its first `request_body_len` bytes beside its capacity; a header table is a list.
pub record Stream : Type 0 where
  pub stream_id : ℕ
  pub qstream : Option ℕ
  pub done : Bool
  pub write_blocked : Bool
  pub is_bidi : Bool
  pub headers_complete : Bool
  pub dispatched : Bool
  pub worker_done : Bool
  pub body_complete : Bool
  pub body_truncated : Bool
  pub request_body : Bytes
  pub request_body_offset : ℕ
  pub request_body_capacity : ℕ
  pub request_body_overflow : Bool
  pub malformed : Bool
  pub header_count : ℕ
  pub headers_too_large : Bool
  pub method : Option Bytes
  pub scheme : Option Bytes
  pub authority : Option Bytes
  pub path : Option Bytes
  pub headers : Option (List (Bytes × Bytes))
  pub response : Response

abbrev pub request_body_len : Stream → ℕ
request_body_len h = length h.request_body

-- `H3_SID_IS_BIDI` and `H3_SID_IS_SERVER`: bits 1 and 0 of the id.
abbrev pub sid_is_bidi : ℕ → Bool
sid_is_bidi sid = (sid / 2) % 2 == 0

abbrev pub sid_is_server : ℕ → Bool
sid_is_server sid = sid % 2 == 1

-- The fields of a stream that `track_stream` has allocated.
abbrev pub new_stream : ServerConf → ℕ → ℕ → ℕ → Stream
new_stream conf now sid qstream = record {
  stream_id = sid;
  qstream = some qstream;
  done = false;
  write_blocked = false;
  is_bidi = sid_is_bidi sid;
  headers_complete = false;
  dispatched = false;
  worker_done = false;
  body_complete = false;
  body_truncated = false;
  request_body = [];
  request_body_offset = 0;
  request_body_capacity = 0;
  request_body_overflow = false;
  malformed = false;
  header_count = 0;
  headers_too_large = false;
  method = none;
  scheme = none;
  authority = none;
  path = none;
  headers = none;
  response =
      new_response
        (if conf.stream_buffer_size == 0
          then stream_buffer_size_default
          else conf.stream_buffer_size)
        now;
}
