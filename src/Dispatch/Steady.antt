-- ===== src/Dispatch/Steady.antt =====
-- What the workers and the dispatching leave alone: all of the session but the marks of a stream that
-- say who works on it, and the number of tasks.
use mod_http.Common.{ℕ, ◌≡◌, refl, ap, ◌∙◌, Bool, some, List, arith}
use mod_http.Stream.{Stream}
use mod_http.Session.{H3Session, stream_find, put_stream}
use mod_http.Session.Streams.{measure, measure-put_stream, stream_find-stream_id}
use mod_http.Dispatch.{Task, Dispatching}

-- A measure that does not look at who works on a stream.
abbrev pub IsAside : (Stream → ℕ) → Type 0
IsAside f = (h : Stream) (b w : Bool) → f (record h { dispatched = b; worker_done = w }) ≡ f h

abbrev Frame : H3Session → H3Session → Type 0
Frame s s' = s' ≡ record s { streams = s'.streams; active_tasks = s'.active_tasks }

abbrev pub Steady : Dispatching → Dispatching → Type 0
Steady d d' =
    Frame d.session d'.session
    × ((f : Stream → ℕ) → IsAside f → measure f d'.session.streams ≡ measure f d.session.streams)

pub Steady-refl : (d : Dispatching) → Steady d d
Steady-refl d = (refl, (λ f a. refl))

pub Steady-trans : (d e g : Dispatching) → Steady d e → Steady e g → Steady d g
Steady-trans d e g (same, m) (same', m') = (
  same'
      ∙ ap
          (λ (s : H3Session). record s {
            streams = g.session.streams;
            active_tasks = g.session.active_tasks;
          })
          same,
  (λ f a. m' f a ∙ m f a),
)

-- A write of those marks.
pub mark-Steady :
    (sid : ℕ) (h : Stream) (b w : Bool) (d : Dispatching) (active : ℕ) (tasks : List Task)
    → stream_find sid d.session.streams ≡ some h
    → Steady d (record d {
      session = record d.session {
        streams = put_stream (record h { dispatched = b; worker_done = w }) d.session.streams;
        active_tasks = active;
      };
      tasks = tasks;
    })
mark-Steady sid h b w d active tasks e = (
  refl,
  (λ f a.
      let marked = record h { dispatched = b; worker_done = w } in
      omega (
        arith,
        a h b w,
        measure-put_stream f sid d.session.streams h marked e
            (stream_find-stream_id sid d.session.streams e),
      )),
)
