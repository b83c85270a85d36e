-- ===== src/Service/Whole.antt =====
-- A whole pass over a session.
use mod_http.Common.{
  ℕ, ◌≡◌, refl, ◌∙◌, sym, Bool, true, false, ◌||◌, some, List, [], ◌∷◌, ◌==◌, arith, if◌then◌else◌,
  if_both, Option-cases, Bool-cases, inl, inr, ltb, length,
}
use mod_http.Config.{ServerConf}
use mod_http.Stream.{Stream, new_stream}
use mod_http.Response.{Response, cancel}
use mod_http.Session.{H3Session, stream_find, track_stream}
use mod_http.Session.Streams.{named, measure}
use mod_http.Session.Flush.Blocked.{blocked_one, IsCounted}
use mod_http.Session.Drain.Errors.{IsTolerated}
use mod_http.Session.Drain.Pass.{drain_ready_streams}
use mod_http.Dispatch.Holders.{held, stray, measure-append}
use mod_http.Dispatch.Starts.{tracks-IsHeld}
use mod_http.Service.{
  Serving, Accepted, Inputs, session_of, set_session, flush, abort, time_from_sec,
}
use mod_http.Service.Serve.{
  accept_stream, accept_streams, drain, is_stalled, abandon_stalled, abandon_stalled_responses,
  send_rest, note_activity, serve_streams, serve_session, service_session_pass,
}
use mod_http.Service.Steps.{AllThere, AllThere-kept}
use mod_http.Service.Reads.{AllTameIncoming, put-blocked, drain_ready_streams-IsBooked}
use mod_http.Service.Sound.{
  Sound, Runs, go_on-Runs, flush-Quiet, flush-Sound, stop_session-Runs, process_requests-Runs,
}

pub track_stream-IsCounted :
    (conf : ServerConf) (ok : Bool) (now sid q : ℕ) (s : H3Session)
    → IsCounted s
    → IsCounted (track_stream conf ok now sid q s).1
unfolding track_stream
track_stream-IsCounted conf ok now sid q s c = elim (Option-cases (stream_find sid s.streams)) [
  | inr (h, e) ↦
      rw (e, track_stream)
        (c
          ∙ sym (
              put-blocked sid h (record h { qstream = some q }) s.streams e
                (refl, refl, refl, refl)))
  | inl e ↦ elim ok as (λ b. IsCounted (track_stream conf b now sid q s).1) [
    | true ↦
        rw (e, track_stream)
          (omega (arith, c, measure-append blocked_one s.streams (new_stream conf now sid q)))
    | false ↦ rw (e, track_stream) c
  ]
]

pub track_stream-IsTolerated :
    (conf : ServerConf) (ok : Bool) (now sid q : ℕ) (s : H3Session)
    → IsTolerated conf s
    → IsTolerated conf (track_stream conf ok now sid q s).1
unfolding track_stream
track_stream-IsTolerated conf ok now sid q s few = elim (Option-cases (stream_find sid s.streams)) [
  | inr (h, e) ↦ rw (e, track_stream) few
  | inl e ↦ elim ok as (λ b. IsTolerated conf (track_stream conf b now sid q s).1) [
    | true ↦ rw (e, track_stream) few
    | false ↦ rw (e, track_stream) few
  ]
]

accept_stream-Sound :
    (conf : ServerConf) (a : Accepted) (v : Serving)
    → Sound conf v
    → Sound conf (accept_stream conf a v)
unfolding accept_stream
accept_stream-Sound conf a v k = elim (Option-cases a.id) [
  | inl closed ↦ rw (closed, accept_stream) k
  | inr (sid, e) ↦
      let s = (track_stream conf a.cond_ok a.at sid a.qstream (session_of v)).1 in
      let k' : Sound conf (set_session s v) = (
        k.0,
        (
          tracks-IsHeld conf a.cond_ok a.at sid a.qstream v.dispatching k.1.0,
          track_stream-IsCounted conf a.cond_ok a.at sid a.qstream (session_of v) k.1.1,
          track_stream-IsTolerated conf a.cond_ok a.at sid a.qstream (session_of v) k.1.2,
        ),
      ) in
      rw (e, accept_stream)
        (if_both (Sound conf) (track_stream conf a.cond_ok a.at sid a.qstream (session_of v)).0 k'
          k')
]

accept_streams-Runs :
    (conf : ServerConf) (accepted : List Accepted) (v : Serving)
    → Sound conf v
    → Runs (Sound conf) (accept_streams conf accepted v)
unfolding accept_streams
accept_streams-Runs conf [] v k = (v, refl, k)
accept_streams-Runs conf (a ∷ accepted) v k =
    let (w, e, (k', steady)) =
      go_on-Runs conf a.meanwhile (accept_stream conf a v) (accept_stream-Sound conf a v k) in
    rw (e, accept_streams) (accept_streams-Runs conf accepted w k')

abandon_stalled-measure :
    (f : Stream → ℕ)
    → ((h : Stream) (q : Response) → f (record h { response = q }) ≡ f h)
    → (now stall_timeout : ℕ) (streams : List Stream)
    → measure f (abandon_stalled now stall_timeout streams) ≡ measure f streams
unfolding abandon_stalled
abandon_stalled-measure f blind now stall_timeout [] = refl
abandon_stalled-measure f blind now stall_timeout (h ∷ streams) =
    elim (Bool-cases (is_stalled now stall_timeout h.response)) [
      | inl stalled ↦ ground (
        arith,
        blind h (cancel h.response),
        abandon_stalled-measure f blind now stall_timeout streams,
      )
      | inr fine ↦ ground (arith, abandon_stalled-measure f blind now stall_timeout streams)
    ]

module _ (i : Inputs) where
  drain-Sound :
      (v : Serving)
      → AllTameIncoming i.incoming
      → Sound i.conf v
      → Sound i.conf (drain i v).2 × AllThere named (drain i v).0 (session_of (drain i v).2).streams
  unfolding drain
  drain-Sound v tame (live, booked) =
      let p = drain_ready_streams i.conf i.incoming v.total_bytes_read (session_of v) in
      let w = record (set_session p.session v) { total_bytes_read = p.total_bytes_read } in
      let (books, there) =
        drain_ready_streams-IsBooked i.conf v.dispatching.tasks i.incoming v.total_bytes_read
          (session_of v) tame booked in
      let m = (flush-Quiet i.drain_flush w).0 in
      (
        flush-Sound i.conf i.drain_flush w (live, books),
        AllThere-kept named named p.completed p.session.streams
            (session_of (flush i.drain_flush w)).streams
            (λ k. omega (arith, m (named k) (λ h b. refl))) there,
      )

  send_rest-Sound : (v : Serving) → Sound i.conf v → Sound i.conf (send_rest i v)
  unfolding send_rest abandon_stalled_responses
  send_rest-Sound v k =
      let w = flush i.last_flush v in
      let (live, ((counts, unique, strays, n), counted, few)) =
        flush-Sound i.conf i.last_flush v k in
      let time =
        if i.conf.stream_timeout == 0 then i.timeout else time_from_sec i.conf.stream_timeout in
      let same : (f : Stream → ℕ)
          → ((h : Stream) (q : Response) → f (record h { response = q }) ≡ f h)
          → measure f (abandon_stalled i.stall_check time (session_of w).streams)
            ≡ measure f (session_of w).streams =
        λ f b. abandon_stalled-measure f b i.stall_check time (session_of w).streams in
      if_both (λ s. Sound i.conf (set_session s w)) (time == 0)
        (live, ((counts, unique, strays, n), counted, few))
        (
          live,
          (
            (
              (λ k. counts k ∙ sym (same (held k) (λ h q. refl))),
              (λ k. omega (arith, unique k, same (named k) (λ h q. refl))),
              same stray (λ h q. refl) ∙ strays,
              n,
            ),
            counted ∙ sym (same blocked_one (λ h q. refl)),
            few,
          ),
        )

  note_activity-Sound :
      (b : Bool) (v : Serving) → Sound i.conf v → Sound i.conf (note_activity i b v)
  unfolding note_activity
  note_activity-Sound b v k = if_both (Sound i.conf) b k (if_both (Sound i.conf) _ k k)

  serve_streams-Runs :
      (b : Bool) (v : Serving)
      → AllTameIncoming i.incoming
      → Sound i.conf v
      → Runs (λ (out : Bool × Serving). Sound i.conf out.1) (serve_streams i b v)
  unfolding serve_streams
  serve_streams-Runs b v tame k =
      let completed = (drain i v).0 in
      let data_read = (drain i v).1 in
      let drained = (drain i v).2 in
      let had_activity = b || data_read || ltb 0 (length completed) in
      let (k', there) = drain-Sound v tame k in
      let (w, e, (kw, steady)) = go_on-Runs i.conf i.after_drain drained k' in
      let there' =
        AllThere-kept named named completed (session_of drained).streams (session_of w).streams
          (λ n. omega (arith, steady.1 (named n) (λ h b w. refl))) there in
      elim (Bool-cases (session_of w).ngh3_dead) [
        | inl dead ↦ rw (e, dead, serve_streams) ((false, abort w), refl, kw)
        | inr alive ↦
            let (x, f, kx) = process_requests-Runs i completed w kw there' in
            let (y, g, (ky, _)) =
              go_on-Runs i.conf i.after_last (send_rest i x) (send_rest-Sound x kx) in
            rw (e, alive, f, g, serve_streams)
              (
                (data_read, note_activity i had_activity y),
                refl,
                note_activity-Sound had_activity y ky,
              )
      ]

  serve_session-Runs :
      (v : Serving)
      → AllTameIncoming i.incoming
      → Sound i.conf v
      → Runs (λ (out : Bool × Serving). Sound i.conf out.1) (serve_session i v)
  unfolding serve_session
  serve_session-Runs v tame k = elim (Bool-cases i.conn_closed) [
    | inl closed ↦ rw (closed, serve_session) ((false, abort v), refl, k)
    | inr up ↦ elim (Bool-cases i.pool_ok) [
      | inr failed ↦ rw (up, failed, serve_session) ((false, v), refl, k)
      | inl made ↦
          let (w, e, k') = accept_streams-Runs i.conf i.accepted v k in
          rw (up, made, e, serve_session) (serve_streams-Runs (ltb 0 (length i.accepted)) w tame k')
    ]
  ]

-- Where the callbacks of nghttp3 leave alone who works on a stream and whether it is blocked, a pass
-- over a session whose books are in order touches no stream that is gone, however the workers go on
-- between its sections and whatever the QUIC streams, nghttp3 and the thread pool answer; and the
-- books are in order after it: each stream at work is in the table with the one worker it has,
-- `active_tasks` is the number of tasks, `blocked_streams` is that of the blocked streams, and the
-- errors of the client are within the limit unless nghttp3 is dead.
pub service_session_pass-Runs :
    (i : Inputs) (v : Serving)
    → AllTameIncoming i.incoming
    → Sound i.conf v
    → Runs (λ (out : Bool × Serving). Sound i.conf out.1) (service_session_pass i v)
unfolding service_session_pass
service_session_pass-Runs i v tame k = elim (Bool-cases (session_of v).aborted) [
  | inl gone ↦ rw (gone, service_session_pass) ((false, v), refl, k)
  | inr there ↦
      let ((given_up, w), e, k') = stop_session-Runs i v k in
      elim (Bool-cases given_up) [
        | inl over ↦ rw (there, e, over, service_session_pass) ((false, w), refl, k')
        | inr goes ↦ rw (there, e, goes, service_session_pass) (serve_session-Runs i w tame k')
      ]
]
