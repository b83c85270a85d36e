-- ===== src/Dispatch/Work.antt =====
-- A worker finds its stream, and keeps the books of who holds it.
use mod_http.Common.{
  ℕ, ◌≡◌, refl, ap, ◌∙◌, Bool, true, not, ◌&&◌, Option, some, arith, get_elem?, set, Option-cases,
  false, if_known, ◌⊎◌, inl, inr,
}
use mod_http.Common.Count.{total-set, length-set, total-remove, length-remove, total-le-get}
use mod_http.Stream.{Stream}
use mod_http.Session.{stream_find, put_stream}
use mod_http.Session.Streams.{stream_find-stream_id}
use mod_http.Dispatch.{
  Phase, queued, serving, giving_up, leaving, Task, Dispatching, start_task, finish_task,
  leave_task, work, works, turn,
}
use mod_http.Dispatch.Holders.{held, holder, stray, Held, held-found, Held-put, touches}
use mod_http.Dispatch.Starts.{IsHeld, dispatch_as}
use mod_http.Dispatch.Steady.{Steady, Steady-refl, mark-Steady}

-- A task that will touch its stream finds it.
task-found :
    (i : ℕ) (t : Task) (d : Dispatching)
    → get_elem? d.tasks i ≡ some t
    → touches t.phase ≡ true
    → IsHeld d
    → (h : Stream) × (stream_find t.sid d.session.streams ≡ some h) × (held t.sid h ≡ 1)
task-found i t d e w (counts, unique, strays, n) =
    held-found t.sid d.session.streams (unique t.sid)
      (ground (arith, counts t.sid, total-le-get (holder t.sid) d.tasks i t e))

-- The task of a stream goes on to a phase in which it does not touch the stream again.
let-go :
    (i : ℕ) (t : Task) (phase : Phase) (d : Dispatching) (h h' : Stream)
    → get_elem? d.tasks i ≡ some t
    → touches t.phase ≡ true
    → touches phase ≡ false
    → stream_find t.sid d.session.streams ≡ some h
    → held t.sid h ≡ 1
    → h'.stream_id ≡ h.stream_id
    → (h'.dispatched && not h'.worker_done) ≡ false
    → stray h' ≡ 0
    → IsHeld d
    → Held
        (put_stream h' d.session.streams)
        (set d.tasks i (record t { phase = phase }))
        d.session.active_tasks
let-go i t phase d h h' e w w' f l same off z held_so =
    let s = stream_find-stream_id t.sid d.session.streams f in
    Held-put t.sid h h' d.session.streams d.tasks (set d.tasks i (record t { phase = phase }))
      d.session.active_tasks d.session.active_tasks f s (same ∙ s) z
      (λ k. ground (arith, s, total-set (holder k) d.tasks i t (record t { phase = phase }) e))
      (omega (arith, held_so.3, length-set d.tasks i (record t { phase = phase }))) held_so

module _ (created : Bool) (i : ℕ) (t : Task) (d : Dispatching) where
  work-queued :
      (h : Stream)
      → t.phase ≡ queued
      → stream_find t.sid d.session.streams ≡ some h
      → work created i t d ≡ some (start_task created i t h d)
  unfolding work
  work-queued h p e = ground arith

  work-serving :
      (h : Stream)
      → t.phase ≡ serving
      → stream_find t.sid d.session.streams ≡ some h
      → work created i t d ≡ some (finish_task i t h d)
  unfolding work
  work-serving h p e = ground arith

  work-left : (touches t.phase) ≡ false → work created i t d ≡ some (leave_task i d)
  unfolding work
  work-left p = ground arith

Phase-cases : (p : Phase) → (p ≡ queued) ⊎ ((p ≡ serving) ⊎ (touches p ≡ false))
Phase-cases queued = inl refl
Phase-cases serving = inr (inl refl)
Phase-cases giving_up = inr (inr refl)
Phase-cases leaving = inr (inr refl)

-- The step is made, without a fault, keeps the invariant, does not destroy the session, and leaves
-- alone what is not the worker's.
abbrev pub Goes : Dispatching → Option Dispatching → Type 0
Goes d o =
    (d' : Dispatching) × (o ≡ some d') × IsHeld d' × (d'.destroyed ≡ d.destroyed) × Steady d d'

start-Steady :
    (created : Bool) (i : ℕ) (t : Task) (h : Stream) (d : Dispatching)
    → stream_find t.sid d.session.streams ≡ some h
    → Steady d (start_task created i t h d)
start-Steady true i t h d e = (refl, (λ f a. refl))
start-Steady false i t h d e =
    mark-Steady t.sid h false h.worker_done d d.session.active_tasks
      (set d.tasks i (record t { phase = giving_up })) e

start-destroyed :
    (created : Bool) (i : ℕ) (t : Task) (h : Stream) (d : Dispatching)
    → (start_task created i t h d).destroyed ≡ d.destroyed
start-destroyed true i t h d = refl
start-destroyed false i t h d = refl

leave-IsHeld :
    (i : ℕ) (t : Task) (d : Dispatching)
    → get_elem? d.tasks i ≡ some t
    → touches t.phase ≡ false
    → IsHeld d
    → IsHeld (leave_task i d)
leave-IsHeld i t d e w (counts, unique, strays, n) = (
  (λ k. ground (arith, counts k, total-remove (holder k) d.tasks i t e)),
  unique,
  strays,
  omega (arith, n, length-remove d.tasks i t e),
)

start-IsHeld :
    (created : Bool) (i : ℕ) (t : Task) (h : Stream) (d : Dispatching)
    → get_elem? d.tasks i ≡ some t
    → t.phase ≡ queued
    → stream_find t.sid d.session.streams ≡ some h
    → held t.sid h ≡ 1
    → IsHeld d
    → IsHeld (start_task created i t h d)
start-IsHeld true i t h d e p f l (counts, unique, strays, n) = (
  (λ k.
      ground (arith, counts k, total-set (holder k) d.tasks i t (record t { phase = serving }) e)),
  unique,
  strays,
  omega (arith, n, length-set d.tasks i (record t { phase = serving })),
)
start-IsHeld false i t h d e p f l held_so =
    let-go i t giving_up d h (dispatch_as false h) e (ap touches p) refl f l refl refl
      (ground arith) held_so

pub work-Goes :
    (created : Bool) (i : ℕ) (t : Task) (d : Dispatching)
    → get_elem? d.tasks i ≡ some t
    → IsHeld d
    → Goes d (work created i t d)
work-Goes created i t d e held_so = elim (Phase-cases t.phase) [
  | inl p ↦
      let (h, f, l) = task-found i t d e (ap touches p) held_so in
      (
        start_task created i t h d,
        work-queued created i t d h p f,
        start-IsHeld created i t h d e p f l held_so,
        start-destroyed created i t h d,
        start-Steady created i t h d f,
      )
  | inr (inl p) ↦
      let (h, f, l) = task-found i t d e (ap touches p) held_so in
      (
        finish_task i t h d,
        work-serving created i t d h p f,
        let-go i t leaving d h (record h { worker_done = true }) e (ap touches p) refl f l refl
            (ground arith) (ground arith) held_so,
        refl,
        mark-Steady t.sid h h.dispatched true d d.session.active_tasks
            (set d.tasks i (record t { phase = leaving })) f,
      )
  | inr (inr p) ↦ (
    leave_task i d,
    work-left created i t d p,
    leave-IsHeld i t d e p held_so,
    refl,
    (refl, (λ f a. refl)),
  )
]

-- A turn of a worker of a session that is there.
pub works-Goes :
    (created : Bool) (n : ℕ) (d : Dispatching)
    → d.destroyed ≡ false
    → IsHeld d
    → Goes d (turn (works created n) d)
unfolding turn
works-Goes created n d live held_so = elim (Option-cases (get_elem? d.tasks n)) [
  | inl over ↦ rw (over, turn) (d, refl, held_so, refl, Steady-refl d)
  | inr (task, f) ↦
      rw (f, turn)
        (if_known (Goes d) d.destroyed (λ gone. absurd cc)
          (λ l. work-Goes created n task d f held_so))
]
