-- ===== src/Startup.antt =====
-- The start and the end of a child process: `h3_child_init`, the thread that retries the port, and
-- `h3_c1_child_stopping` of mod_http3/src/h3_server.c; `h3_io_listen_start`, `teardown`,
-- `h3_io_listen_drain`, `h3_io_listen_stop` and `listen_stop_cleanup` of mod_http3/src/h3_io.c; and
-- `h3_socket_open` of mod_http3/src/h3_socket.c. What APR and the engine answer is a parameter.
pub mod Books
pub mod Stops
pub mod Ends
pub mod Fails
mod Tests
use mod_http.Common.{
  ℕ, ◌+◌, Bool, true, false, not, ◌&&◌, ◌||◌, Option, none, some, List, [], ◌∷◌, ◌==◌, is_some,
  if◌then◌else◌,
}

-- What a child makes and ends: the UDP socket, the worker pool, the QUIC engine, the event thread and
-- the thread that retries the port.
pub data Thing : Type 0 where
  udp_socket worker_pool qengine event_thread acquirer : Thing

-- `ends udp_socket` is a close of the descriptor; `signals` is a write to the wakeup socket.
pub data Effect : Type 0 where
  makes ends : Thing → Effect
  signals : Effect

-- What `h3_socket_open` and the calls of APR in it return.
pub data SocketStatus : Type 0 where
  success again address_in_use : SocketStatus
  fails : ℕ → SocketStatus

abbrev pub is_success : SocketStatus → Bool
is_success success = true
is_success again = false
is_success address_in_use = false
is_success (fails code) = false

-- The results of the calls in `h3_socket_open` that it looks at.
pub record SocketCalls : Type 0 where
  pub socket_create : SocketStatus
  pub sockaddr_info_get : SocketStatus
  pub socket_bind : SocketStatus
  pub socket_timeout_set : SocketStatus
  pub os_sock_get : SocketStatus

-- `h3_socket_os_is_eaddrinuse` makes the failure one to retry.
abbrev pub bind_status : SocketStatus → SocketStatus
bind_status success = success
bind_status again = again
bind_status address_in_use = again
bind_status (fails code) = fails code

-- `h3_socket_open`: the status, and what was made and ended, latest first.
pub socket_open : SocketCalls → List Effect → SocketStatus × List Effect
socket_open c log =
    let opened = makes udp_socket ∷ log in
    let closed = ends udp_socket ∷ opened in
    if not (is_success c.socket_create)
    then (c.socket_create, log)
    else if not (is_success c.sockaddr_info_get)
    then (c.sockaddr_info_get, closed)
    else if not (is_success c.socket_bind)
    then (bind_status c.socket_bind, closed)
    else if not (is_success c.socket_timeout_set)
    then (c.socket_timeout_set, closed)
    else if not (is_success c.os_sock_get)
    then (c.os_sock_get, closed)
    else (success, opened)

-- `h3_io_t`: which of its resources it has, and its flags.
pub record ChildIo : Type 0 where
  pub has_event_thread : Bool
  pub has_worker_pool : Bool
  pub has_qengine : Bool
  pub has_udp_fd : Bool
  pub thread_running : Bool
  pub draining : Bool

abbrev pub new_io : ChildIo
new_io = record {
  has_event_thread = false;
  has_worker_pool = false;
  has_qengine = false;
  has_udp_fd = true;
  thread_running = false;
  draining = false;
}

-- The process: `child_h3_io`, `child_stopping`, `port_acquire_thread`, and the log.
pub record Child : Type 0 where
  pub io : Option ChildIo
  pub stopping : Bool
  pub acquiring : Bool
  pub log : List Effect

abbrev pub new_child : Child
new_child = record { io = none; stopping = false; acquiring = false; log = [] }

abbrev pub end_if : Bool → Thing → List Effect → List Effect
end_if set thing log = if set then ends thing ∷ log else log

-- `teardown`. The event thread ends when its sessions have ended, so that the wait for them after the
-- join is over at once; without the thread there is no session.
pub teardown : ChildIo → List Effect → ChildIo × List Effect
teardown io log = (
  record io {
    has_event_thread = false;
    has_worker_pool = false;
    has_qengine = false;
    has_udp_fd = false;
    thread_running = if io.has_event_thread then false else io.thread_running;
  },
  end_if io.has_udp_fd udp_socket (
      end_if io.has_qengine qengine (
        end_if io.has_worker_pool worker_pool
          (if io.has_event_thread then ends event_thread ∷ signals ∷ log else log))),
)

-- Whether the calls of `h3_io_listen_start` succeed.
pub record StartCalls : Type 0 where
  pub wakeup_create : Bool
  pub thread_pool_create : Bool
  pub engine_made : Bool
  pub threadattr_create : Bool
  pub thread_create : Bool

-- `h3_io_listen_start` with an open socket: whether it succeeds.
pub listen_start : StartCalls → Child → Bool × Child
unfolding teardown
listen_start c child =
    let with_pool = record new_io { has_worker_pool = true } in
    let pooled = makes worker_pool ∷ child.log in
    let with_engine = record with_pool { has_qengine = true; thread_running = true } in
    let engined = makes qengine ∷ pooled in
    let running = record with_engine { has_event_thread = true } in
    if not c.wakeup_create || not c.thread_pool_create
    then (false, child)
    else if not c.engine_made
    then (false, record child { log = (teardown with_pool pooled).1 })
    else if not c.threadattr_create || not c.thread_create
    then (
      false,
      record child {
        io = none;
        log = (teardown (record with_engine { thread_running = false }) engined).1;
      },
    )
    else (true, record child { io = some running; log = makes event_thread ∷ engined })

-- `h3_io_listen_start` and what its callers do where it fails.
pub start_or_close : StartCalls → Child → Child
unfolding listen_start
start_or_close c child =
    let (started, next) = listen_start c child in
    if started then next else record next { log = ends udp_socket ∷ next.log }

-- What `h3_child_init` meets. The thread that retries can be made or not.
pub record InitCalls : Type 0 where
  pub configured : Bool
  pub socket : SocketCalls
  pub start : StartCalls
  pub acquirer_made : Bool

-- `h3_child_init`
pub child_init : InitCalls → Child → Child
unfolding socket_open start_or_close
child_init c child =
    let (status, log) = socket_open c.socket child.log in
    if not c.configured then child else elim status [
      | success ↦ start_or_close c.start (record child { log = log })
      | again ↦
          if c.acquirer_made
          then record child { acquiring = true; log = makes acquirer ∷ log }
          else record child { log = log }
      | address_in_use ↦ record child { log = log }
      | fails code ↦ record child { log = log }
    ]

-- A round of the loop of `port_acquire_thread_fn`: `child_stopping` as it is read after the open.
pub record Attempt : Type 0 where
  pub socket : SocketCalls
  pub stopping : Bool
  pub start : StartCalls

-- A round: whether the loop goes on.
pub acquire_round : Attempt → Child → Bool × Child
unfolding socket_open start_or_close
acquire_round a child =
    let (status, log) = socket_open a.socket child.log in
    elim status [
      | again ↦ (true, record child { log = log })
      | address_in_use ↦ (false, record child { log = log })
      | fails code ↦ (false, record child { log = log })
      | success ↦
          if a.stopping
          then (false, record child { log = ends udp_socket ∷ log })
          else (false, start_or_close a.start (record child { log = log }))
    ]

-- `port_acquire_thread_fn`. After the last attempt `child_stopping` ends the loop.
pub acquire : List Attempt → Child → Child
unfolding acquire_round
acquire [] child = child
acquire (a ∷ attempts) child =
    let (more, next) = acquire_round a child in
    let rest = acquire attempts next in if more then rest else next

-- `h3_io_listen_stop`
pub io_listen_stop : Child → Child
unfolding teardown
io_listen_stop child = elim child.io [
  | none ↦ child
  | some io ↦ record child { io = none; log = (teardown io child.log).1 }
]

-- `h3_io_listen_drain`
pub io_listen_drain : Child → Child
io_listen_drain child = elim child.io [
  | none ↦ child
  | some io ↦
      if io.draining
      then child
      else record child { io = some (record io { draining = true }); log = signals ∷ child.log }
]

-- `h3_c1_child_stopping`; the thread that retries the port is joined first.
pub child_stopping : Bool → Child → Child
unfolding io_listen_stop io_listen_drain
child_stopping graceful child =
    let joined = record child {
      stopping = true;
      acquiring = false;
      log = end_if child.acquiring acquirer child.log;
    } in
    if graceful then io_listen_drain joined else io_listen_stop joined

-- `listen_stop_cleanup`, before the pool of the child is destroyed: it was registered where
-- `child_h3_io` was set for good, and an `h3_io_t` that was torn down has nothing left to end.
pub pool_cleanup : Child → Child
unfolding io_listen_stop
pool_cleanup child = elim child.io [
  | none ↦ child
  | some io ↦ if io.draining then io_listen_stop child else child
]

-- From the start of a child to the end of its pool.
pub life : InitCalls → List Attempt → Bool → Child
unfolding child_init acquire child_stopping pool_cleanup
life c attempts graceful =
    let started = child_init c new_child in
    pool_cleanup
      (child_stopping graceful (if started.acquiring then acquire attempts started else started))
