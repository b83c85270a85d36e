-- ===== src/Service/Serve.antt =====
-- The rest of `service_session_pass`, and `abandon_stalled_responses` (mod_http3/src/h3_io.c).
use mod_http.Common.{
  ℕ, ◌+◌, ◌%◌, ◌^◌, ◌-◌, Bool, true, false, not, ◌&&◌, ◌||◌, Option, none, some, List, [], ◌∷◌, ltb,
  leb, ◌==◌, if◌then◌else◌, length,
}
use mod_http.Config.{ServerConf}
use mod_http.Stream.{Stream}
use mod_http.Response.{Response, cancel}
use mod_http.Session.{H3Session, stream_find, track_stream}
use mod_http.Session.Drain.Pass.{drain_ready_streams}
use mod_http.Dispatch.{Push, process_stream, set_streams}
use mod_http.Service.{
  free_stream, Serving, Accepted, Inputs, time_from_sec, session_of, set_session, abort, go_on,
  flush, note_call,
}
use mod_http.Service.Stop.{stop_session}

-- The body of the loop that accepts streams.
unfoldable pub accept_stream : ServerConf → Accepted → Serving → Serving
unfolding track_stream
accept_stream conf a v =
    let counted = record v { total_streams = (v.total_streams + 1) % 2 ^ 32 } in
    elim a.id [
      | none ↦ note_call (free_stream a.qstream) counted
      | some sid ↦
          let (tracked, s) = track_stream conf a.cond_ok a.at sid a.qstream (session_of v) in
          let w = set_session s counted in
          if tracked then w else note_call (free_stream a.qstream) w
    ]

unfoldable pub accept_streams : ServerConf → List Accepted → Serving → Option Serving
unfolding accept_stream go_on
accept_streams conf [] v = some v
accept_streams conf (a ∷ accepted) v = elim (go_on a.meanwhile (accept_stream conf a v)) [
  | none ↦ none
  | some w ↦ accept_streams conf accepted w
]

-- The section that reads the streams and sends: the streams completed, `data_read`, and the rest.
unfoldable pub drain : Inputs → Serving → List ℕ × Bool × Serving
unfolding drain_ready_streams flush
drain i v =
    let p = drain_ready_streams i.conf i.incoming v.total_bytes_read (session_of v) in
    (
      p.completed,
      p.data_read,
      flush i.drain_flush
          (record (set_session p.session v) { total_bytes_read = p.total_bytes_read }),
    )

-- `h3_process_request` for a stream that was completed; `none` is a touch of a stream that the table
-- has no more.
unfoldable pub process_request : (ℕ → Push) → ℕ → Serving → Option Serving
unfolding process_stream stream_find
process_request push sid v = elim (stream_find sid (session_of v).streams) [
  | none ↦ none
  | some h ↦ some (record v { dispatching = process_stream (push sid) h v.dispatching })
]

unfoldable pub process_requests : Inputs → List ℕ → Serving → Option Serving
unfolding process_request go_on
process_requests i [] v = some v
process_requests i (sid ∷ completed) v = elim (process_request i.push sid v) [
  | none ↦ none
  | some w ↦ elim (go_on (i.after_push sid) w) [
    | none ↦ none
    | some x ↦ process_requests i completed x
  ]
]

-- Whether a response is full and has made no progress for the time.
abbrev pub is_stalled : ℕ → ℕ → Response → Bool
is_stalled now stall_timeout q =
    not q.cancelled
    && not q.complete
    && leb q.buffer_limit q.buffered
    && leb stall_timeout (now - q.progress_at)

-- `abandon_stalled_responses`
unfoldable pub abandon_stalled : ℕ → ℕ → List Stream → List Stream
unfolding cancel
abandon_stalled now stall_timeout [] = []
abandon_stalled now stall_timeout (h ∷ streams) =
    (if is_stalled now stall_timeout h.response
      then record h { response = cancel h.response }
      else h)
    ∷ abandon_stalled now stall_timeout streams

unfoldable pub abandon_stalled_responses : ℕ → ℕ → H3Session → H3Session
unfolding abandon_stalled
abandon_stalled_responses now stall_timeout s =
    if stall_timeout == 0 then s else set_streams (abandon_stalled now stall_timeout s.streams) s

-- The last section that holds the lock.
unfoldable pub send_rest : Inputs → Serving → Serving
unfolding flush abandon_stalled_responses
send_rest i v =
    let w = flush i.last_flush v in
    let stall_timeout =
      if i.conf.stream_timeout == 0 then i.timeout else time_from_sec i.conf.stream_timeout in
    set_session (abandon_stalled_responses i.stall_check stall_timeout (session_of w)) w

-- The end of the pass: the time of activity, or the end of an idle session.
unfoldable pub note_activity : Inputs → Bool → Serving → Serving
note_activity i had_activity v =
    let s = session_of v in
    let idle = leb (time_from_sec i.conf.idle_timeout) (i.idle_check - s.last_activity) in
    if had_activity
    then set_session (record s { last_activity = i.activity_at }) v
    else if i.thread_running && s.active_tasks == 0 && idle
    then abort v
    else v

-- From the drain on, for a pass that accepted streams or did not.
unfoldable pub serve_streams : Inputs → Bool → Serving → Option (Bool × Serving)
unfolding drain go_on process_requests send_rest note_activity
serve_streams i had_streams v =
    let (completed, data_read, drained) = drain i v in
    let had_activity = had_streams || data_read || ltb 0 (length completed) in
    elim (go_on i.after_drain drained) [
      | none ↦ none
      | some w ↦ elim (session_of w).ngh3_dead [
        | true ↦ some (false, abort w)
        | false ↦ elim (process_requests i completed w) [
          | none ↦ none
          | some x ↦ elim (go_on i.after_last (send_rest i x)) [
            | none ↦ none
            | some y ↦ some (data_read, note_activity i had_activity y)
          ]
        ]
      ]
    ]

-- The pass of a session that is not stopped.
unfoldable pub serve_session : Inputs → Serving → Option (Bool × Serving)
unfolding accept_streams serve_streams
serve_session i v =
    if i.conn_closed
    then some (false, abort v)
    else if not i.pool_ok
    then some (false, v)
    else elim (accept_streams i.conf i.accepted v) [
      | none ↦ none
      | some w ↦ serve_streams i (ltb 0 (length i.accepted)) w
    ]

-- `service_session_pass`: its result, and what it leaves.
unfoldable pub service_session_pass : Inputs → Serving → Option (Bool × Serving)
unfolding stop_session serve_session
service_session_pass i v = elim (session_of v).aborted [
  | true ↦ some (false, v)
  | false ↦ elim (stop_session i v) [
    | none ↦ none
    | some (given_up, w) ↦ elim given_up [ true ↦ some (false, w) | false ↦ serve_session i w ]
  ]
]
