-- ===== src/Service/Tests.antt =====
-- A request that arrives and is served in one pass, and the theorems about a pass applied.
use mod_http.Common.{
  ℕ, ◌≡◌, refl, Bool, true, false, not, ◌==◌, Option, none, some, List, [], ◌∷◌, arith, length,
}
use mod_http.Config.{create_server_config}
use mod_http.QuicStream.{got, state_ok}
use mod_http.Callbacks.{FieldLimits, Token}
use mod_http.Callbacks.Kept.{Callback, call_all, call_all-Kept}
use mod_http.Session.Drain.{Feed, accepted, Incoming}
use mod_http.Session.Drain.Tame.{IsTame}
use mod_http.Dispatch.{pushed}
use mod_http.Lifetime.{ControlCalls, create_control_streams, new_session}
use mod_http.Service.{Serving, FlushInputs, Inputs, session_of}
use mod_http.Service.Stop.{stop_session}
use mod_http.Service.Sound.{Sound, Runs}
use mod_http.Service.Passes.{session_passes, serving, session_is_served}
use mod_http.Service.Ending.{deadline, stop_session_lem}

abbrev limits : FieldLimits
limits = record { limit_req_fields = 100; limit_req_fieldsize = 8190 }

abbrev request : List Callback
request =
    Callback.begin_headers
    ∷ Callback.recv_header Token.method [] (b'G' ∷ b'E' ∷ b'T' ∷ [])
    ∷ Callback.end_headers true
    ∷ []

abbrev feed : Feed
feed = record {
  consumed = accepted;
  after = call_all limits 1000 request;
  closed = call_all limits 1000 (Callback.stream_close ∷ []);
  header_error = 0x10e;
}

feed-IsTame : IsTame feed
feed-IsTame h =
    (call_all-Kept limits 1000 request h, call_all-Kept limits 1000 (Callback.stream_close ∷ []) h)

abbrev incoming : ℕ → Incoming
incoming sid = record {
  rstate = state_ok;
  wstate = state_ok;
  at_fin = feed;
  readings = record { read = λ n. got (b'G' ∷ []); feed = feed } ∷ [];
}

abbrev nothing : FlushInputs
nothing = record { now = 0; full = λ q. false; answers = [] }

abbrev inputs : Inputs
inputs = record {
  conf = create_server_config;
  timeout = 60000000;
  draining = false;
  thread_running = true;
  stop_flush = nothing;
  is_drained = false;
  after_notice = [];
  deadline_from = 5;
  deadline_check = 6;
  shutdown_flush = nothing;
  conn_closed = false;
  pool_ok = true;
  accepted = record { qstream = 7; id = some 4; cond_ok = true; at = 1; meanwhile = [] } ∷ [];
  incoming = incoming;
  drain_flush = nothing;
  after_drain = [];
  push = λ sid. pushed;
  after_push = λ sid. (true, 0) ∷ [];
  last_flush = nothing;
  stall_check = 2;
  after_last = (true, 0) ∷ (true, 0) ∷ [];
  activity_at = 3;
  idle_check = 3;
}

abbrev start : Serving
start = record {
  dispatching = record {
    session = record {
      streams = [];
      aborted = false;
      blocked_streams = 0;
      ngh3_dead = false;
      abort_quic_error_code = 0;
      pending_free = [];
      stream_drain_cursor = 0;
      goaway_sent = false;
      goaway_deadline = none;
      last_activity = 0;
      stream_errors = 0;
      active_tasks = 0;
    };
    tasks = [];
    destroyed = false;
  };
  ng_calls = [];
  freed = [];
  pass_calls = [];
  total_bytes_written = 0;
  total_bytes_read = 0;
  total_streams = 0;
}

start-Sound : Sound create_server_config start
start-Sound = (
  refl,
  (((λ k. refl), (λ k. omega arith), refl, refl), refl, (omega arith, (λ live. omega arith))),
)

-- One control stream cannot have a condition variable, and the request is accepted twice.
abbrev controls : ControlCalls
controls = record {
  control = some (3, 10);
  qpack_enc = some (7, 11);
  qpack_dec = some (11, 12);
  bind_control = true;
  bind_qpack = true;
  cond_ok = λ sid. not (sid == 7);
  at = 0;
}

session_is_served_example : Runs (Sound create_server_config) (
    session_passes
      (inputs ∷ inputs ∷ [])
      (serving (create_control_streams create_server_config controls (new_session 0)).session))
session_is_served_example =
    session_is_served create_server_config controls 0 (inputs ∷ inputs ∷ []) (
      refl,
      (λ sid. (feed-IsTame, (feed-IsTame, tt))),
      (refl, (λ sid. (feed-IsTame, (feed-IsTame, tt))), tt),
    )

abbrev stopping : Inputs
stopping = record inputs { thread_running = false }

stop_session_lem_example :
    (out : Bool × Serving) × (stop_session stopping start ≡ some out)
    × ((out.0 ≡ false)
        × (deadline out.1 ≡ some 3000005)
        × ((session_of out.1).goaway_sent ≡ true)
        × ((session_of out.1).aborted ≡ out.0))
stop_session_lem_example = stop_session_lem stopping start start-Sound refl

abbrev outcome : Option (Bool × Serving) → List ℕ
outcome none = []
outcome (some (data_read, v)) =
    v.total_streams
    ∷ v.total_bytes_read
    ∷ length (session_of v).streams
    ∷ length v.dispatching.tasks
    ∷ (session_of v).last_activity
    ∷ []
