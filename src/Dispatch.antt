-- ===== src/Dispatch.antt =====
-- The life of a request's task: `h3_process_request` and `stream_worker` of
-- mod_http3/src/h3_request.c, beside the tracking and the reclaiming of streams. The event thread and
-- the workers take turns; a turn is what one of them does between two points where another may see
-- it. Serving the request itself is httpd's.
pub mod Holders
pub mod Steady
pub mod Starts
pub mod Work
pub mod Safety
mod Tests
use mod_http.Common.{
  ◌==◌, ℕ, ◌+◌, ◌-◌, Bool, true, false, Option, none, some, List, [], ◌∷◌, ◌++◌, get_elem?, set,
  drop, take, suc, if◌then◌else◌,
}
use mod_http.Config.{ServerConf}
use mod_http.Stream.{Stream}
use mod_http.Session.{H3Session, stream_find, put_stream, track_stream}
use mod_http.Session.Reclaim.{reclaim}

-- Where a worker stands: not started; at work on the stream; after `dispatched` was taken back; after
-- `worker_done` was set. It touches the stream in the first two.
pub data Phase : Type 0 where
  queued serving giving_up leaving : Phase

-- `h3_stream_task`
pub record Task : Type 0 where
  pub sid : ℕ
  pub phase : Phase

-- The session, its tasks, and whether it was destroyed.
pub record Dispatching : Type 0 where
  pub session : H3Session
  pub tasks : List Task
  pub destroyed : Bool

abbrev pub set_streams : List Stream → H3Session → H3Session
set_streams streams s = record s { streams = streams }

-- `set_stream_dispatched`, through the pointer to the stream.
abbrev pub set_stream_dispatched : Bool → Stream → H3Session → H3Session
set_stream_dispatched dispatched h s =
    set_streams (put_stream (record h { dispatched = dispatched }) s.streams) s

-- How the calls of `h3_process_request` come out: no pool, a full thread pool, or a queued task.
pub data Push : Type 0 where
  no_pool not_pushed pushed : Push

-- `h3_process_request` for a stream of the table.
unfoldable pub process_stream : Push → Stream → Dispatching → Dispatching
unfolding put_stream
process_stream p h d = elim h.dispatched [
  | true ↦ d
  | false ↦
      let reserved = set_stream_dispatched true h d.session in
      let taken_back = set_stream_dispatched false (record h { dispatched = true }) reserved in
      elim p [
        | no_pool ↦ record d { session = taken_back }
        | not_pushed ↦ record d { session = taken_back }
        | pushed ↦ record d {
          session = record reserved { active_tasks = reserved.active_tasks + 1 };
          tasks = d.tasks ++ record { sid = h.stream_id; phase = queued } ∷ [];
        }
      ]
]

-- The start of `stream_worker`; `created` says whether the request and its pool could be made.
abbrev pub start_task : Bool → ℕ → Task → Stream → Dispatching → Dispatching
start_task created i t h d =
    if created
    then record d { tasks = set d.tasks i (record t { phase = serving }) }
    else record d {
      session = set_stream_dispatched false h d.session;
      tasks = set d.tasks i (record t { phase = giving_up });
    }

-- The end of the work on the stream.
abbrev pub finish_task : ℕ → Task → Stream → Dispatching → Dispatching
finish_task i t h d = record d {
  session = set_streams (put_stream (record h { worker_done = true }) d.session.streams) d.session;
  tasks = set d.tasks i (record t { phase = leaving });
}

abbrev pub remove_at {ℓ} : {A : Type ℓ} → ℕ → List A → List A
remove_at i xs = take i xs ++ drop (suc i) xs

-- The last step: `active_tasks` goes down, and the task is over.
abbrev pub leave_task : ℕ → Dispatching → Dispatching
leave_task i d = record d {
  session = record d.session { active_tasks = d.session.active_tasks - 1 };
  tasks = remove_at i d.tasks;
}

-- What task `i` does next; `none` is a touch of a stream that the table has no more.
pub work : Bool → ℕ → Task → Dispatching → Option Dispatching
unfolding stream_find put_stream
work created i t d = elim t.phase [
  | queued ↦ elim (stream_find t.sid d.session.streams) [
    | none ↦ none
    | some h ↦ some (start_task created i t h d)
  ]
  | serving ↦ elim (stream_find t.sid d.session.streams) [
    | none ↦ none
    | some h ↦ some (finish_task i t h d)
  ]
  | giving_up ↦ some (leave_task i d)
  | leaving ↦ some (leave_task i d)
]

-- A turn: the event thread tracks a new stream, dispatches one, runs a callback that changes how a
-- stream ends, reclaims, or destroys the session (mod_http3/src/h3_threads.c); or worker `i` goes on.
pub data Turn : Type 0 where
  tracks : ServerConf → Bool → (now : ℕ) → (sid : ℕ) → (qstream : ℕ) → Turn
  dispatches : (sid : ℕ) → Push → Turn
  ends : (sid : ℕ) → (done : Bool) → (qstream : Option ℕ) → Turn
  reclaims : Turn
  destroys : Turn
  works : Bool → ℕ → Turn

abbrev pub end_stream : Bool → Option ℕ → Stream → Stream
end_stream done qstream h = record h { done = done; qstream = qstream }

-- `h3_session_destroy` under the test of `active_tasks`: every stream is freed with the session.
pub destroy_unused : Dispatching → Dispatching
destroy_unused d =
    if d.session.active_tasks == 0
    then record d { session = set_streams [] d.session; destroyed = true }
    else d

-- What the event thread does to a session that is there.
pub event_turn : Turn → Dispatching → Dispatching
unfolding process_stream stream_find put_stream track_stream reclaim destroy_unused
event_turn (tracks conf ok now sid qstream) d = record d {
  session = (track_stream conf ok now sid qstream d.session).1;
}
event_turn (dispatches sid p) d = elim (stream_find sid d.session.streams) [
  | none ↦ d
  | some h ↦ process_stream p h d
]
event_turn (ends sid done qstream) d = elim (stream_find sid d.session.streams) [
  | none ↦ d
  | some h ↦ record d {
    session = set_streams (put_stream (end_stream done qstream h) d.session.streams) d.session;
  }
]
event_turn reclaims d = record d { session = (reclaim d.session).0 }
event_turn destroys d = destroy_unused d
event_turn (works created i) d = d

abbrev pub worker : Turn → Option (Bool × ℕ)
worker (works created i) = some (created, i)
worker (tracks conf ok now sid qstream) = none
worker (dispatches sid p) = none
worker (ends sid done qstream) = none
worker reclaims = none
worker destroys = none

-- The event thread leaves a destroyed session alone; a worker that goes on uses it, which is a fault.
pub turn : Turn → Dispatching → Option Dispatching
unfolding event_turn work
turn t d = elim (worker t) [
  | none ↦ some (if d.destroyed then d else event_turn t d)
  | some (created, i) ↦ elim (get_elem? d.tasks i) [
    | none ↦ some d
    | some task ↦ if d.destroyed then none else work created i task d
  ]
]

-- The turns in order.
abbrev pub run : List Turn → Dispatching → Option Dispatching
run [] d = some d
run (t ∷ turns) d = elim (turn t d) [ none ↦ none | some d' ↦ run turns d' ]
