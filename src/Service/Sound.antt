-- ===== src/Service/Sound.antt =====
-- No part of a pass over a session lets a worker or the event thread touch a stream that is gone, and
-- each keeps the books of the session.
use mod_http.Common.{
  ℕ, ◌≤◌, ◌≡◌, refl, ◌∙◌, Bool, false, not, ◌||◌, Option, some, List, [], ◌∷◌, arith, if◌then◌else◌,
  if_both, Option-cases, Bool-cases, inl, inr,
}
use mod_http.Config.{ServerConf}
use mod_http.Session.{stream_find}
use mod_http.Session.Streams.{named, named-missing, measure}
use mod_http.Session.Flush.{Flushing, flush_nghttp3}
use mod_http.Session.Flush.Blocked.{flush_nghttp3-IsCounted}
use mod_http.Session.Flush.Quiet.{Quiet, flush_nghttp3-Quiet}
use mod_http.Dispatch.{process_stream}
use mod_http.Dispatch.Starts.{process-IsHeld, process-Steady, process-destroyed}
use mod_http.Dispatch.Steady.{Steady}
use mod_http.Service.{
  Serving, submit_shutdown_notice, shutdown, Meanwhile, FlushInputs, Inputs, session_of,
  set_session, go_on, flush, note_call,
}
use mod_http.Service.Stop.{send_goaway, set_deadline, give_up, stop_session}
use mod_http.Service.Serve.{process_request, process_requests}
use mod_http.Service.Steps.{
  IsSound, AllThere, AllThere-kept, Steady-IsBooked, run-IsGone, Quiet-IsBooked,
}

abbrev pub Sound : ServerConf → Serving → Type 0
Sound conf v = IsSound conf v.dispatching

-- The part is run without a fault, to a state for which `P` holds.
abbrev pub Runs : {A : Type 0} → (A → Type 0) → Option A → Type 0
Runs {A} P o = (w : A) × (o ≡ some w) × P w

pub go_on-Runs :
    (conf : ServerConf) (steps : Meanwhile) (v : Serving)
    → Sound conf v
    → Runs (λ w. Sound conf w × Steady v.dispatching w.dispatching) (go_on steps v)
unfolding go_on
go_on-Runs conf steps v k =
    let (d, e, k', steady) = run-IsGone conf steps v.dispatching k in
    rw (e, go_on) (record v { dispatching = d }, refl, (k', steady))

pub flush-Quiet : (f : FlushInputs) (v : Serving) → Quiet (session_of v) (session_of (flush f v))
unfolding flush
flush-Quiet f v = flush_nghttp3-Quiet f.now f.full f.answers (record {
  session = session_of v;
  calls = v.ng_calls;
  freed = v.freed;
  total_bytes_written = v.total_bytes_written;
})

pub flush-Sound :
    (conf : ServerConf) (f : FlushInputs) (v : Serving) → Sound conf v → Sound conf (flush f v)
unfolding flush
flush-Sound conf f v (live, booked) =
    let start : Flushing = record {
      session = session_of v;
      calls = v.ng_calls;
      freed = v.freed;
      total_bytes_written = v.total_bytes_written;
    } in
    (
      live,
      Quiet-IsBooked conf v.dispatching.tasks (session_of v)
          (flush_nghttp3 f.now f.full f.answers start).session
          (flush_nghttp3-Quiet f.now f.full f.answers start)
          (flush_nghttp3-IsCounted f.now f.full f.answers start booked.1) booked,
    )

module _ (i : Inputs) where
  pub send_goaway-Sound : (v : Serving) → Sound i.conf v → Sound i.conf (send_goaway i v)
  unfolding send_goaway
  send_goaway-Sound v k =
      flush-Sound i.conf i.stop_flush
        (if (session_of v).goaway_sent then v else note_call submit_shutdown_notice v)
        (if_both (Sound i.conf) (session_of v).goaway_sent k k)

  set_deadline-Sound : (v : Serving) → Sound i.conf v → Sound i.conf (set_deadline i v)
  unfolding set_deadline
  set_deadline-Sound v k = if_both (λ s. Sound i.conf (set_session s v)) _ k k

  give_up-Sound : (v : Serving) → Sound i.conf v → Sound i.conf (give_up i v).1
  unfolding give_up
  give_up-Sound v k =
      if_both (λ (out : Bool × Serving). Sound i.conf out.1) _
        (flush-Sound i.conf i.shutdown_flush (note_call shutdown v) k) k

  pub stop_session-Runs :
      (v : Serving)
      → Sound i.conf v
      → Runs (λ (out : Bool × Serving). Sound i.conf out.1) (stop_session i v)
  unfolding stop_session
  stop_session-Runs v k = elim (Bool-cases (i.draining || not i.thread_running)) [
    | inr on ↦ rw (on, stop_session) ((false, v), refl, k)
    | inl stopping ↦
        let (w, e, (k', steady)) =
          go_on-Runs i.conf i.after_notice (send_goaway i v) (send_goaway-Sound v k) in
        rw (stopping, e, stop_session)
          (
            give_up i (set_deadline i w),
            refl,
            give_up-Sound (set_deadline i w) (set_deadline-Sound w k'),
          )
  ]

  process_request-Runs :
      (sid : ℕ) (v : Serving)
      → Sound i.conf v
      → 1 ≤ measure (named sid) (session_of v).streams
      → Runs
          (λ w. Sound i.conf w × Steady v.dispatching w.dispatching)
          (process_request i.push sid v)
  unfolding process_request
  process_request-Runs sid v (live, booked) there =
      elim (Option-cases (stream_find sid (session_of v).streams)) [
        | inl gone ↦ absurd (omega (arith, there, named-missing sid (session_of v).streams gone))
        | inr (h, e) ↦
            let d = v.dispatching in
            let d' = process_stream (i.push sid) h d in
            let steady = process-Steady sid (i.push sid) h d e in
            let held_so = process-IsHeld sid (i.push sid) h d e booked.0 in
            rw (e, process_request)
              (
                record v { dispatching = d' },
                refl,
                (
                  (
                    process-destroyed (i.push sid) h d ∙ live,
                    Steady-IsBooked i.conf d d' steady held_so booked,
                  ),
                  steady,
                ),
              )
      ]

  Steady-AllThere :
      (sids : List ℕ) (v w : Serving)
      → Steady v.dispatching w.dispatching
      → AllThere named sids (session_of v).streams
      → AllThere named sids (session_of w).streams
  Steady-AllThere sids v w (_, m) =
      AllThere-kept named named sids (session_of v).streams (session_of w).streams
        (λ k. omega (arith, m (named k) (λ h b d. refl)))

  pub process_requests-Runs :
      (sids : List ℕ) (v : Serving)
      → Sound i.conf v
      → AllThere named sids (session_of v).streams
      → Runs (Sound i.conf) (process_requests i sids v)
  unfolding process_requests
  process_requests-Runs [] v k there = (v, refl, k)
  process_requests-Runs (sid ∷ sids) v k (here, there) =
      let (w, e, (k', steady)) = process_request-Runs sid v k here in
      let (x, f, (k'', further)) = go_on-Runs i.conf (i.after_push sid) w k' in
      rw (e, f, process_requests)
        (process_requests-Runs sids x k''
          (Steady-AllThere sids w x further (Steady-AllThere sids v w steady there)))
