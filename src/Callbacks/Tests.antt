-- ===== src/Callbacks/Tests.antt =====
-- A small request, and the theorems about the callbacks applied to it.
use mod_http.Common.{◌≡◌, List, [], ◌∷◌, Bytes, arith}
use mod_http.Config.{create_server_config}
use mod_http.Stream.{Stream, new_stream}
use mod_http.Callbacks.{FieldLimits, Token, on_recv_data, on_recv_header}
use mod_http.Callbacks.Body.{BodyIsValid, on_recv_data-BodyIsValid}
use mod_http.Callbacks.Headers.{
  HeadersAreValid, on_recv_header-HeadersAreValid, Ending, end_all, to_free, to_free-end_all,
}

abbrev request : Stream
request = new_stream create_server_config 0 4 1

abbrev body : List Bytes
body = (b'a' ∷ b'=' ∷ []) ∷ (b'1' ∷ []) ∷ []

request-BodyIsValid : BodyIsValid 10 request
request-BodyIsValid = record { inside = omega arith; limited = omega arith; unread = omega arith }

on_recv_data-BodyIsValid_example : BodyIsValid 10 (on_recv_data 10 (b'a' ∷ []) request)
on_recv_data-BodyIsValid_example =
    on_recv_data-BodyIsValid 10 (b'a' ∷ []) request (omega arith) request-BodyIsValid

abbrev limits : FieldLimits
limits = record { limit_req_fields = 100; limit_req_fieldsize = 8190 }

request-HeadersAreValid : HeadersAreValid limits request
request-HeadersAreValid = record {
  counted = λ on. omega arith;
  few = λ on. omega arith;
  small = λ on. tt;
  method = omega arith;
  scheme = omega arith;
  authority = omega arith;
  path = omega arith;
}

on_recv_header-HeadersAreValid_example :
    HeadersAreValid limits (on_recv_header limits Token.method [] (b'G' ∷ []) request)
on_recv_header-HeadersAreValid_example =
    on_recv_header-HeadersAreValid limits Token.method [] (b'G' ∷ []) request
      request-HeadersAreValid

abbrev endings : List Ending
endings = Ending.reset_stream 256 ∷ Ending.stop_sending ∷ Ending.stream_close ∷ []

to_free-end_all_example : to_free (end_all endings ([], request)) ≡ to_free ([], request)
to_free-end_all_example = to_free-end_all endings ([], request)
