-- ===== src/Dispatch/Starts.antt =====
-- Streams that are tracked and dispatched keep the books of who holds them.
use mod_http.Common.{
  ℕ, ◌+◌, ◌≡◌, refl, sym, subst, Bool, true, false, none, some, List, [], ◌∷◌, ◌++◌, arith,
  length-append, Bool-cases, Option-cases, ◌⊎◌, inl, inr,
}
use mod_http.Common.Count.{total, total-append}
use mod_http.Config.{ServerConf}
use mod_http.Stream.{Stream, new_stream}
use mod_http.Session.{H3Session, stream_find, put_stream, track_stream}
use mod_http.Session.Streams.{stream_find-stream_id, put_stream-put_stream}
use mod_http.Dispatch.{queued, Task, Dispatching, Push, no_pool, not_pushed, pushed, process_stream}
use mod_http.Dispatch.Steady.{Steady, Steady-refl, mark-Steady}
use mod_http.Dispatch.Holders.{held, holder, stray, Held, Held-put, Held-append, measure-found}

abbrev pub IsHeld : Dispatching → Type 0
IsHeld d = Held d.session.streams d.tasks d.session.active_tasks

abbrev set_qstream : ℕ → Stream → Stream
set_qstream q h = record h { qstream = some q }

track-found :
    (conf : ServerConf) (ok : Bool) (now sid q : ℕ) (s : H3Session) (h : Stream)
    → stream_find sid s.streams ≡ some h
    → (track_stream conf ok now sid q s).1
      ≡ record s { streams = put_stream (set_qstream q h) s.streams }
unfolding track_stream
track-found conf ok now sid q s h e = ground arith

pub track-new :
    (conf : ServerConf) (now sid q : ℕ) (s : H3Session)
    → stream_find sid s.streams ≡ none
    → (track_stream conf true now sid q s).1
      ≡ record s { streams = s.streams ++ new_stream conf now sid q ∷ [] }
unfolding track_stream
track-new conf now sid q s e = ground arith

track-failed :
    (conf : ServerConf) (now sid q : ℕ) (s : H3Session)
    → stream_find sid s.streams ≡ none
    → (track_stream conf false now sid q s).1 ≡ s
unfolding track_stream
track-failed conf now sid q s e = ground arith

pub stray-found :
    (sid : ℕ) (d : Dispatching) (h : Stream)
    → stream_find sid d.session.streams ≡ some h
    → IsHeld d
    → stray h ≡ 0
stray-found sid d h e i = omega (arith, i.2, measure-found stray sid d.session.streams h e)

abbrev pub HeldSession : List Task → H3Session → Type 0
HeldSession tasks s = Held s.streams tasks s.active_tasks

pub tracks-IsHeld :
    (conf : ServerConf) (ok : Bool) (now sid q : ℕ) (d : Dispatching)
    → IsHeld d
    → HeldSession d.tasks (track_stream conf ok now sid q d.session).1
tracks-IsHeld conf ok now sid q d i = elim (Option-cases (stream_find sid d.session.streams)) [
  | inr (h, e) ↦ subst (HeldSession d.tasks) (sym (track-found conf ok now sid q d.session h e)) (
      let s = stream_find-stream_id sid d.session.streams e in
      Held-put sid h (set_qstream q h) d.session.streams d.tasks d.tasks d.session.active_tasks
        d.session.active_tasks e s s (stray-found sid d h e i) (λ k. refl) i.3 i)
  | inl e ↦ elim ok as (λ b. HeldSession d.tasks (track_stream conf b now sid q d.session).1) [
    | true ↦ subst (HeldSession d.tasks) (sym (track-new conf now sid q d.session e)) (
        Held-append (new_stream conf now sid q) d.session.streams d.tasks d.session.active_tasks e
          (ground arith) refl i)
    | false ↦ subst (HeldSession d.tasks) (sym (track-failed conf now sid q d.session e)) i
  ]
]

process-taken :
    (p : Push) (h : Stream) (d : Dispatching) → h.dispatched ≡ true → process_stream p h d ≡ d
unfolding process_stream
process-taken p h d e = ground arith

abbrev pub dispatch_as : Bool → Stream → Stream
dispatch_as b h = record h { dispatched = b }

-- The reservation is taken back: the stream is written twice.
abbrev undone : Stream → Dispatching → Dispatching
undone h d = record d {
  session = record d.session {
    streams = put_stream (dispatch_as false h) (put_stream (dispatch_as true h) d.session.streams);
  };
}

process-undone :
    (p : Push) (h : Stream) (d : Dispatching)
    → h.dispatched ≡ false
    → (p ≡ no_pool) ⊎ (p ≡ not_pushed)
    → process_stream p h d ≡ undone h d
unfolding process_stream
process-undone p h d e o = ground arith

process-pushed :
    (h : Stream) (d : Dispatching)
    → h.dispatched ≡ false
    → process_stream pushed h d ≡ record {
      session = record d.session {
        streams = put_stream (dispatch_as true h) d.session.streams;
        active_tasks = d.session.active_tasks + 1;
      };
      tasks = d.tasks ++ record { sid = h.stream_id; phase = queued } ∷ [];
      destroyed = d.destroyed;
    }
unfolding process_stream
process-pushed h d e = ground arith

moved_onto :
    (d : Dispatching) (h : Stream) (k : ℕ)
    → h.dispatched ≡ false
    → stray h ≡ 0
    → total (holder k) (d.tasks ++ record { sid = h.stream_id; phase = queued } ∷ []) + held k h
      ≡ total (holder k) d.tasks + held k (dispatch_as true h)
moved_onto d h k f z =
    ground
      (arith, total-append (holder k) d.tasks (record { sid = h.stream_id; phase = queued } ∷ []))

undone-IsHeld :
    (sid : ℕ) (h : Stream) (d : Dispatching)
    → stream_find sid d.session.streams ≡ some h
    → h.dispatched ≡ false
    → IsHeld d
    → IsHeld (undone h d)
undone-IsHeld sid h d e free i =
    let s = stream_find-stream_id sid d.session.streams e in
    let z = stray-found sid d h e i in
    let streams = d.session.streams in
    subst (λ ss. Held ss d.tasks d.session.active_tasks)
      (sym (put_stream-put_stream (dispatch_as true h) (dispatch_as false h) streams refl))
      (Held-put sid h (dispatch_as false h) streams d.tasks d.tasks d.session.active_tasks
        d.session.active_tasks e s s (ground (arith, z)) (λ k. ground arith) i.3 i)

pub process-IsHeld :
    (sid : ℕ) (p : Push) (h : Stream) (d : Dispatching)
    → stream_find sid d.session.streams ≡ some h
    → IsHeld d
    → IsHeld (process_stream p h d)
process-IsHeld sid p h d e i = elim (Bool-cases h.dispatched) [
  | inl taken ↦ subst IsHeld (sym (process-taken p h d taken)) i
  | inr free ↦
      let s = stream_find-stream_id sid d.session.streams e in
      let z = stray-found sid d h e i in
      let task : Task = record { sid = h.stream_id; phase = queued } in
      elim p as (λ q. IsHeld (process_stream q h d)) [
        | no_pool ↦
            subst IsHeld (sym (process-undone no_pool h d free (inl refl)))
              (undone-IsHeld sid h d e free i)
        | not_pushed ↦
            subst IsHeld (sym (process-undone not_pushed h d free (inr refl)))
              (undone-IsHeld sid h d e free i)
        | pushed ↦ subst IsHeld (sym (process-pushed h d free)) (
            Held-put sid h (dispatch_as true h) d.session.streams d.tasks (d.tasks ++ task ∷ [])
              d.session.active_tasks (d.session.active_tasks + 1) e s s (ground arith)
              (λ k. moved_onto d h k free z) (omega (arith, i.3, length-append d.tasks (task ∷ [])))
              i)
      ]
]

pub process-destroyed :
    (p : Push) (h : Stream) (d : Dispatching) → (process_stream p h d).destroyed ≡ d.destroyed
unfolding process_stream
process-destroyed p h d = ground arith

undone-Steady :
    (sid : ℕ) (h : Stream) (d : Dispatching)
    → stream_find sid d.session.streams ≡ some h
    → Steady d (undone h d)
undone-Steady sid h d e =
    subst (λ ss. Steady d (record d { session = record d.session { streams = ss } }))
      (sym
        (put_stream-put_stream (dispatch_as true h) (dispatch_as false h) d.session.streams refl))
      (mark-Steady sid h false h.worker_done d d.session.active_tasks d.tasks e)

pub process-Steady :
    (sid : ℕ) (p : Push) (h : Stream) (d : Dispatching)
    → stream_find sid d.session.streams ≡ some h
    → Steady d (process_stream p h d)
process-Steady sid p h d e = elim (Bool-cases h.dispatched) [
  | inl taken ↦ subst (Steady d) (sym (process-taken p h d taken)) (Steady-refl d)
  | inr free ↦ elim p as (λ q. Steady d (process_stream q h d)) [
    | no_pool ↦
        subst (Steady d) (sym (process-undone no_pool h d free (inl refl)))
          (undone-Steady sid h d e)
    | not_pushed ↦
        subst (Steady d) (sym (process-undone not_pushed h d free (inr refl)))
          (undone-Steady sid h d e)
    | pushed ↦ subst (Steady d) (sym (process-pushed h d free)) (
        mark-Steady sid h true h.worker_done d (d.session.active_tasks + 1)
          (d.tasks ++ record { sid = h.stream_id; phase = queued } ∷ []) e)
  ]
]
