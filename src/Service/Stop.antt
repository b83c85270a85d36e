-- ===== src/Service/Stop.antt =====
-- The part of `service_session_pass` (mod_http3/src/h3_io.c) for a child that drains or stops.
use mod_http.Common.{
  ℕ, ◌+◌, Bool, true, false, not, ◌&&◌, ◌||◌, Option, none, some, leb, if◌then◌else◌, is_some,
}
use mod_http.Service.{
  submit_shutdown_notice, shutdown, Serving, Inputs, goaway_grace_secs, time_from_sec, session_of,
  set_session, abort, go_on, flush, note_call,
}

-- The first section of a stopping child, to `goaway_sent`.
unfoldable pub send_goaway : Inputs → Serving → Serving
unfolding flush
send_goaway i v =
    flush i.stop_flush
      (if (session_of v).goaway_sent then v else note_call submit_shutdown_notice v)

-- `goaway_sent` and `goaway_deadline`.
unfoldable pub set_deadline : Inputs → Serving → Serving
set_deadline i v =
    let s = record (session_of v) { goaway_sent = true } in
    set_session
      (if not i.thread_running && not (is_some s.goaway_deadline)
        then record s { goaway_deadline = some (i.deadline_from + time_from_sec goaway_grace_secs) }
        else s)
      v

abbrev pub is_due : ℕ → Option ℕ → Bool
is_due now none = false
is_due now (some deadline) = leb deadline now

-- The end of the stopping of a session: whether it is given up.
unfoldable pub give_up : Inputs → Serving → Bool × Serving
unfolding flush
give_up i v =
    if i.is_drained || is_due i.deadline_check (session_of v).goaway_deadline
    then (true, abort (flush i.shutdown_flush (note_call shutdown v)))
    else (false, v)

-- The part of the pass for a child that drains or stops.
unfoldable pub stop_session : Inputs → Serving → Option (Bool × Serving)
unfolding send_goaway set_deadline give_up go_on
stop_session i v =
    let sent = go_on i.after_notice (send_goaway i v) in
    elim (i.draining || not i.thread_running) [
      | false ↦ some (false, v)
      | true ↦ elim sent [ none ↦ none | some w ↦ some (give_up i (set_deadline i w)) ]
    ]
