-- ===== src/Lifetime/Tests.antt =====
-- A session with its control streams, and the theorems applied.
use mod_http.Common.{Bytes, List, ◌≡◌, true, false, none, some, [], ◌∷◌, arith}
use mod_http.Config.{create_server_config}
use mod_http.Stream.{Stream, new_stream}
use mod_http.Response.{push_chunk, new_response}
use mod_http.Response.Layout.{fresh_node}
use mod_http.Response.Invariant.{push_chunk-Represents}
use mod_http.Response.Delivery.History.{new_response-Represents}
use mod_http.Callbacks.{FieldLimits, Token}
use mod_http.Session.{H3Session}
use mod_http.Lifetime.{ControlCalls, Leftover, new_session, create_control_streams, session_destroy}
use mod_http.Lifetime.Destroyed.{AllCleared, held_streams, session_destroy_lem}
use mod_http.Lifetime.Opened.{IsRefused, IsTracked, create_control_streams_lem}

abbrev calls : ControlCalls
calls = record {
  control = some (3, 10);
  qpack_enc = some (7, 11);
  qpack_dec = none;
  bind_control = true;
  bind_qpack = true;
  cond_ok = λ sid. true;
  at = 0;
}

create_control_streams_lem_example :
    let o = create_control_streams create_server_config calls (new_session 0) in
    (o.is_ok ≡ false → IsRefused create_server_config calls (new_session 0) o)
    × (o.is_ok ≡ true → IsTracked create_server_config calls (new_session 0) o)
create_control_streams_lem_example =
    create_control_streams_lem create_server_config calls (new_session 0)

-- A request stream with a chunk that waits, which holds its QUIC stream, and one that was queued.
abbrev busy : Stream
busy = record (new_stream create_server_config 0 4 21) {
  response = push_chunk (b'h' ∷ b'i' ∷ []) (new_response 65536 0);
}

abbrev ending : H3Session
ending = record (new_session 0) { streams = busy ∷ []; pending_free = 22 ∷ [] }

session_destroy_lem_example :
    (left : Leftover) × (session_destroy ending ≡ some left)
    × AllCleared left.streams
    × (left.freed ≡ 22 ∷ [])
    × (held_streams left.streams ≡ some 21 ∷ [])
session_destroy_lem_example = session_destroy_lem ending (
  (
    [],
    fresh_node 0 (b'h' ∷ b'i' ∷ []) ∷ [],
    push_chunk-Represents (new_response 65536 0) (b'h' ∷ b'i' ∷ []) [] [] (omega arith)
        (omega arith) (new_response-Represents 65536 0),
  ),
  tt,
)

abbrev limits : FieldLimits
limits = record { limit_req_fields = 100; limit_req_fieldsize = 8190 }

abbrev asked : List (Token × Bytes × Bytes)
asked =
    (Token.path, [], b'/' ∷ [])
    ∷ (Token.other, b'a' ∷ [], b'b' ∷ [])
    ∷ (Token.other, b'c' ∷ [], [])
    ∷ []
