-- ===== src/Startup/Books.antt =====
-- The books of a child: what it made, and what it ended.
use mod_http.Common.{
  ℕ, ◌+◌, ◌≡◌, refl, Bool, true, false, not, ◌&&◌, ◌||◌, Option, none, some, List, [], ◌∷◌, ◌==◌,
  arith, is_some, Bool-cases, if_known, inl, inr, if◌then◌else◌,
}
use mod_http.Startup.{
  Thing, udp_socket, worker_pool, qengine, event_thread, acquirer, Effect, makes, ends, signals,
  SocketStatus, success, again, address_in_use, fails, is_success, bind_status, SocketCalls,
  socket_open, ChildIo, Child, StartCalls, listen_start, start_or_close,
}

abbrev code : Thing → ℕ
code udp_socket = 0
code worker_pool = 1
code qengine = 2
code event_thread = 3
code acquirer = 4

abbrev pub one_if : Bool → ℕ
one_if b = if b then 1 else 0

-- How often a thing was made, and how often it was ended.
abbrev pub made : Thing → List Effect → ℕ
made t [] = 0
made t (makes s ∷ log) = if code s == code t then made t log + 1 else made t log
made t (ends s ∷ log) = made t log
made t (signals ∷ log) = made t log

abbrev pub ended : Thing → List Effect → ℕ
ended t [] = 0
ended t (makes s ∷ log) = ended t log
ended t (ends s ∷ log) = if code s == code t then ended t log + 1 else ended t log
ended t (signals ∷ log) = ended t log

-- The thing is there `n` times.
abbrev pub Left : List Effect → ℕ → Thing → Type 0
Left log n t = made t log ≡ ended t log + n

-- `sockets` sockets, `up` of all that a child which listens has besides, and the thread that retries
-- or not.
abbrev pub Books : List Effect → ℕ → ℕ → Bool → Type 0
Books log sockets up acquiring =
    Left log sockets udp_socket
    × Left log up worker_pool
    × Left log up qengine
    × Left log up event_thread
    × Left log (one_if acquiring) acquirer

-- All resources of a child that listens, and none of one that does not.
abbrev pub IsWhole : Option ChildIo → Type 0
IsWhole none = Unit {0}
IsWhole (some io) =
    (io.has_event_thread ≡ true)
    × (io.has_worker_pool ≡ true)
    × (io.has_qengine ≡ true)
    × (io.has_udp_fd ≡ true)

abbrev pub up : Option ChildIo → ℕ
up io = one_if (is_some io)

abbrev pub IsKept : Child → Type 0
IsKept child = IsWhole child.io × Books child.log (up child.io) (up child.io) child.acquiring

-- The start gets no further than the worker pool, or succeeds.
abbrev pub ends_once : StartCalls → Bool
ends_once c =
    not c.wakeup_create
    || not c.thread_pool_create
    || (c.engine_made && c.threadattr_create && c.thread_create)

-- A call that failed left no socket.
no_socket :
    (status : SocketStatus) (log : List Effect) (acquiring : Bool)
    → not (is_success status) ≡ true
    → Books log 0 0 acquiring
    → Books log (one_if (is_success status)) 0 acquiring
no_socket success log acquiring e b = absurd cc
no_socket again log acquiring e b = b
no_socket address_in_use log acquiring e b = b
no_socket (fails code) log acquiring e b = b

bind_status-failed :
    (status : SocketStatus)
    → not (is_success status) ≡ true
    → not (is_success (bind_status status)) ≡ true
bind_status-failed success e = e
bind_status-failed again e = refl
bind_status-failed address_in_use e = refl
bind_status-failed (fails code) e = refl

-- A socket is open after `h3_socket_open` exactly if it succeeds.
pub socket_open-Books :
    (c : SocketCalls) (log : List Effect) (acquiring : Bool)
    → Books log 0 0 acquiring
    → Books (socket_open c log).1 (one_if (is_success (socket_open c log).0)) 0 acquiring
unfolding socket_open
socket_open-Books c log acquiring (s, p, q, e, a) =
    let closed : Books (ends udp_socket ∷ makes udp_socket ∷ log) 0 0 acquiring =
      (omega (arith, s), p, q, e, a) in
    let P : SocketStatus × List Effect → Type 0 =
      λ o. Books o.1 (one_if (is_success o.0)) 0 acquiring in
    let log' = ends udp_socket ∷ makes udp_socket ∷ log in
    if_known P (not (is_success c.socket_create))
      (λ f. no_socket c.socket_create log acquiring f (s, p, q, e, a))
      (λ _.
        if_known P (not (is_success c.sockaddr_info_get))
          (λ f. no_socket c.sockaddr_info_get log' acquiring f closed)
          (λ _.
            if_known P (not (is_success c.socket_bind))
              (λ f.
                no_socket (bind_status c.socket_bind) log' acquiring
                  (bind_status-failed c.socket_bind f) closed)
              (λ _.
                if_known P (not (is_success c.socket_timeout_set))
                  (λ f. no_socket c.socket_timeout_set log' acquiring f closed)
                  (λ _.
                    if_known P (not (is_success c.os_sock_get))
                      (λ f. no_socket c.os_sock_get log' acquiring f closed)
                      (λ _. (omega (arith, s), p, q, e, a))))))

-- With an open socket and nothing else but the thread that retries, a start that ends once keeps the
-- books.
pub start_or_close-IsKept :
    (c : StartCalls) (child : Child)
    → ends_once c ≡ true
    → child.io ≡ none
    → Books child.log 1 0 child.acquiring
    → IsKept (start_or_close c child)
unfolding start_or_close listen_start
start_or_close-IsKept c child once none_yet (s, p, q, e, a) =
    elim (Bool-cases (not c.wakeup_create || not c.thread_pool_create)) [
      | inl early ↦
          rw (early, none_yet, listen_start, start_or_close) (tt, (omega (arith, s), p, q, e, a))
      | inr pooled ↦
          let engine : not c.engine_made ≡ false = ground arith in
          let thread : (not c.threadattr_create || not c.thread_create) ≡ false = ground arith in
          rw (pooled, engine, thread, listen_start, start_or_close)
            (
              (refl, refl, refl, refl),
              (omega (arith, s), omega (arith, p), omega (arith, q), omega (arith, e), a),
            )
    ]

abbrev pub IsIdle : Child → Type 0
IsIdle child = (child.io ≡ none) × Books child.log 0 0 child.acquiring

pub idle-IsKept : (child : Child) → IsIdle child → IsKept child
idle-IsKept child (e, b) = rw e (tt, b)

pub start_or_close-acquiring :
    (c : StartCalls) (child : Child) → (start_or_close c child).acquiring ≡ child.acquiring
unfolding start_or_close listen_start
start_or_close-acquiring c child = ground arith
