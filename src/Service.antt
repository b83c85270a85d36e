-- ===== src/Service.antt =====
-- A pass over one session, `service_session_pass` with `abandon_stalled_responses`, of
-- mod_http3/src/h3_io.c. The workers go on between the sections that hold the session's lock. What
-- OpenSSL, nghttp3, the clock and the thread pool answer in a pass is a parameter.
pub mod Stop
pub mod Serve
pub mod Steps
pub mod Reads
pub mod Sound
pub mod Whole
pub mod Passes
pub mod Ending
pub mod Stalled
mod Tests
use mod_http.Common.{
  ℕ, ◌+◌, ◌-◌, ◌*◌, Bool, true, false, not, ◌&&◌, ◌||◌, Option, none, some, List, [], ◌∷◌, map, ltb,
  leb, ◌==◌, if◌then◌else◌, is_some, length,
}
use mod_http.Config.{ServerConf}
use mod_http.Stream.{Stream}
use mod_http.Response.{Response, cancel}
use mod_http.Session.{H3Session, stream_find, track_stream}
use mod_http.Session.Flush.{NgCall, Writev, Flushing, flush_nghttp3}
use mod_http.Session.Drain.{Incoming}
use mod_http.Session.Drain.Pass.{Pass, drain_ready_streams}
use mod_http.Dispatch.{Dispatching, Push, process_stream, set_streams, works, Turn, run}

-- The calls of a pass that are not those of a flush or a drain: GOAWAY, the shutdown of nghttp3, and
-- the free of an accepted QUIC stream.
pub data PassCall : Type 0 where
  submit_shutdown_notice shutdown : PassCall
  free_stream : ℕ → PassCall

-- The session with its tasks, what was sent to nghttp3 and to QUIC, latest first, and the counters
-- of `h3_io_t`.
pub record Serving : Type 0 where
  pub dispatching : Dispatching
  pub ng_calls : List NgCall
  pub freed : List ℕ
  pub pass_calls : List PassCall
  pub total_bytes_written : ℕ
  pub total_bytes_read : ℕ
  pub total_streams : ℕ

-- What workers do until the event thread takes the lock again.
abbrev pub Meanwhile : Type 0
Meanwhile = List (Bool × ℕ)

-- A QUIC stream that `h3q_conn_accept_stream` gives: its id, `none` where that is negative, whether
-- the condition variable can be made, and the time.
pub record Accepted : Type 0 where
  pub qstream : ℕ
  pub id : Option ℕ
  pub cond_ok : Bool
  pub at : ℕ
  pub meanwhile : Meanwhile

-- What a flush meets.
pub record FlushInputs : Type 0 where
  pub now : ℕ
  pub full : ℕ → Bool
  pub answers : List Writev

-- What a pass meets. The times are those of the calls of `apr_time_now`, in microseconds.
pub record Inputs : Type 0 where
  pub conf : ServerConf
  pub timeout : ℕ
  pub draining : Bool
  pub thread_running : Bool
  pub stop_flush : FlushInputs
  pub is_drained : Bool
  pub after_notice : Meanwhile
  pub deadline_from : ℕ
  pub deadline_check : ℕ
  pub shutdown_flush : FlushInputs
  pub conn_closed : Bool
  pub pool_ok : Bool
  pub accepted : List Accepted
  pub incoming : ℕ → Incoming
  pub drain_flush : FlushInputs
  pub after_drain : Meanwhile
  pub push : ℕ → Push
  pub after_push : ℕ → Meanwhile
  pub last_flush : FlushInputs
  pub stall_check : ℕ
  pub after_last : Meanwhile
  pub activity_at : ℕ
  pub idle_check : ℕ

abbrev pub goaway_grace_secs : ℕ
goaway_grace_secs = 3

abbrev pub time_from_sec : ℕ → ℕ
time_from_sec secs = secs * 1000000

abbrev pub session_of : Serving → H3Session
session_of v = v.dispatching.session

abbrev pub set_session : H3Session → Serving → Serving
set_session s v = record v { dispatching = record v.dispatching { session = s } }

abbrev pub abort : Serving → Serving
abort v = set_session (record (session_of v) { aborted = true }) v

-- The workers go on; `none` is a use of what is gone.
unfoldable pub go_on : Meanwhile → Serving → Option Serving
go_on steps v = elim (run (map (λ (s : Bool × ℕ). works s.0 s.1) steps) v.dispatching) [
  | none ↦ none
  | some d ↦ some (record v { dispatching = d })
]

unfoldable pub flush : FlushInputs → Serving → Serving
unfolding flush_nghttp3
flush i v =
    let f = flush_nghttp3 i.now i.full i.answers (record {
      session = session_of v;
      calls = v.ng_calls;
      freed = v.freed;
      total_bytes_written = v.total_bytes_written;
    }) in
    record (set_session f.session v) {
      ng_calls = f.calls;
      freed = f.freed;
      total_bytes_written = f.total_bytes_written;
    }

abbrev pub note_call : PassCall → Serving → Serving
note_call c v = record v { pass_calls = c ∷ v.pass_calls }
