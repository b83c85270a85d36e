-- ===== src/Lifetime.antt =====
-- The beginning and the end of a session: `h3_session_create`, `h3_session_create_control_streams`
-- and `h3_session_destroy` of mod_http3/src/h3_session.c. What nghttp3, OpenSSL and APR answer is a
-- parameter.
pub mod Opened
pub mod Destroyed
pub mod Limits
mod Tests
use mod_http.Common.{
  ℕ, ◌+◌, ◌*◌, ◌%◌, ◌^◌, Bool, true, false, not, ◌&&◌, ◌||◌, Option, none, some, List, [], ◌∷◌,
  ◌++◌, ltb, is_some, if◌then◌else◌,
}
use mod_http.Config.{ServerConf}
use mod_http.Stream.{Stream}
use mod_http.Response.{Response, cancel, cleanup}
use mod_http.Callbacks.{FieldLimits}
use mod_http.Session.{H3Session, track_stream}

-- What `h3_session_create` sets of `nghttp3_settings` and of the connection: the largest field
-- section is `none` where the default stays.
pub record Settings : Type 0 where
  pub qpack_max_dtable_capacity : ℕ
  pub qpack_blocked_streams : ℕ
  pub max_field_section_size : Option ℕ
  pub max_concurrent_streams : ℕ

abbrev pub settings_of : ServerConf → FieldLimits → Settings
settings_of conf limits = record {
  qpack_max_dtable_capacity = conf.qpack_table_capacity;
  qpack_blocked_streams = conf.qpack_blocked_streams;
  max_field_section_size =
      if ltb 0 limits.limit_req_fields && ltb 0 limits.limit_req_fieldsize
      then some (limits.limit_req_fields * (limits.limit_req_fieldsize + 32) % 2 ^ 64)
      else none;
  max_concurrent_streams = conf.max_concurrent_streams;
}

abbrev pub new_session : ℕ → H3Session
new_session now = record {
  streams = [];
  aborted = false;
  blocked_streams = 0;
  ngh3_dead = false;
  abort_quic_error_code = 0;
  pending_free = [];
  stream_drain_cursor = 0;
  goaway_sent = false;
  goaway_deadline = none;
  last_activity = now;
  stream_errors = 0;
  active_tasks = 0;
}

-- `h3_session_create`: whether the mutex and the server of nghttp3 can be made, and the time.
pub session_create : ServerConf → FieldLimits → Bool → Bool → ℕ → Option (H3Session × Settings)
session_create conf limits mutex_ok server_ok now =
    if mutex_ok && server_ok then some (new_session now, settings_of conf limits) else none

-- A stream that `h3q_conn_open_uni_stream` opens: its id and the QUIC stream.
abbrev pub Uni : Type 0
Uni = ℕ × ℕ

-- What `h3_session_create_control_streams` meets. `cond_ok` says of an id whether its condition
-- variable can be made.
pub record ControlCalls : Type 0 where
  pub control : Option Uni
  pub qpack_enc : Option Uni
  pub qpack_dec : Option Uni
  pub bind_control : Bool
  pub bind_qpack : Bool
  pub cond_ok : ℕ → Bool
  pub at : ℕ

-- Whether it succeeds, the session, the QUIC streams freed, and whether nghttp3 was deleted.
pub record ControlStreams : Type 0 where
  pub is_ok : Bool
  pub session : H3Session
  pub freed : List ℕ
  pub ngh3_deleted : Bool

abbrev pub opened_uni : Option Uni → List ℕ
opened_uni none = []
opened_uni (some (sid, st)) = st ∷ []

abbrev pub track : ServerConf → ControlCalls → Uni → H3Session → H3Session
track conf c (sid, st) s = (track_stream conf (c.cond_ok sid) c.at sid st s).1

-- The failure: the streams that were opened are freed, and nghttp3 is deleted.
abbrev pub refuse : ControlCalls → H3Session → ControlStreams
refuse c s = record {
  is_ok = false;
  session = s;
  freed = opened_uni c.control ++ opened_uni c.qpack_enc ++ opened_uni c.qpack_dec;
  ngh3_deleted = true;
}

abbrev pub bind_streams : ServerConf → ControlCalls → Uni → Uni → Uni → H3Session → ControlStreams
bind_streams conf c control enc dec s =
    if not c.bind_control || not c.bind_qpack then refuse c s else record {
      is_ok = true;
      session = track conf c dec (track conf c enc (track conf c control s));
      freed = [];
      ngh3_deleted = false;
    }

-- `h3_session_create_control_streams`, called once for a session.
unfoldable pub create_control_streams : ServerConf → ControlCalls → H3Session → ControlStreams
unfolding track_stream
create_control_streams conf c s = elim c.control [
  | none ↦ refuse c s
  | some control ↦ elim c.qpack_enc [
    | none ↦ refuse c s
    | some enc ↦ elim c.qpack_dec [
      | none ↦ refuse c s
      | some dec ↦ bind_streams conf c control enc dec s
    ]
  ]
]

-- What is left of a session, and the QUIC streams freed, the first first. The connection is freed
-- after them; `Listener` counts that.
pub record Leftover : Type 0 where
  pub streams : List Stream
  pub freed : List ℕ

-- The loop over the streams: every response is cancelled and cleaned up; `none` is a fault.
pub clear_responses : List Stream → Option (List Stream)
unfolding cancel
clear_responses [] = some []
clear_responses (h ∷ streams) =
    let rest = clear_responses streams in
    elim (cleanup (cancel h.response)) [
      | none ↦ none
      | some q ↦ elim rest [
        | none ↦ none
        | some cleared ↦ some (record h { response = q } ∷ cleared)
      ]
    ]

-- `h3_session_destroy`. The last stream queued is freed first.
pub session_destroy : H3Session → Option Leftover
unfolding clear_responses
session_destroy s = elim (clear_responses s.streams) [
  | none ↦ none
  | some streams ↦ some (record { streams = streams; freed = s.pending_free })
]
