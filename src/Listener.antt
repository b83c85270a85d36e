-- ===== src/Listener.antt =====
-- The connections of a child's listener: `h3_io_t` and `h3_pending_handshake` of
-- mod_http3/include/h3_io.h, the handshake functions of mod_http3/src/h3_io.c, and the accept loop,
-- the loop over the sessions and the final loop of `h3_event_thread`
-- (mod_http3/src/h3_threads.c). A connection of the QUIC library is a number; what the library says
-- of it, and what it answers to a call, is a parameter.
pub mod Books
pub mod Rounds
pub mod Sessions
pub mod Settled
pub mod History
mod Tests
use mod_http.Common.{
  ℕ, zero, suc, ◌+◌, ◌-◌, Bool, true, false, not, Option, none, some, List, [], ◌∷◌, ◌++◌, ◌&&◌,
  leb, ltb, if◌then◌else◌, length, take, get_elem?, set,
}

-- `h3_pending_handshake`
pub record PendingHandshake : Type 0 where
  pub conn : ℕ
  pub accepted_at : ℕ

-- The part of `h3_session` that the listener needs.
pub record Session : Type 0 where
  pub qconn : ℕ

-- The fields of `h3_io_t` that the functions change. `freed` are the connections given to
-- `h3q_conn_free`, latest first, by the listener or by `h3_session_destroy`; `added` and `removed`
-- count the calls of the MPM's `note_conn_added` and `note_conn_removed`.
pub record Io : Type 0 where
  pub active_sessions : List Session
  pub pending_handshakes : List PendingHandshake
  pub active_session_count : ℕ
  pub total_connections : ℕ
  pub thread_running : Bool
  pub draining : Bool
  pub freed : List ℕ
  pub added : ℕ
  pub removed : ℕ

-- `h3_io_at_connection_limit`
pub at_connection_limit : ℕ → Io → Bool
at_connection_limit max_connections io =
    leb max_connections (length io.active_sessions + length io.pending_handshakes)

abbrev pub conn_free : ℕ → Io → Io
conn_free conn io = record io { freed = conn ∷ io.freed }

-- `prepare_accepted_connection`; `prepared` is the answer of `h3q_conn_prepare`.
abbrev pub prepare_accepted_connection : Bool → ℕ → ℕ → Io → Bool × Io
prepare_accepted_connection prepared now conn io =
    if prepared
    then (
      true,
      record io {
        pending_handshakes =
            io.pending_handshakes ++ record { conn = conn; accepted_at = now } ∷ [];
        total_connections = suc io.total_connections;
        added = suc io.added;
      },
    )
    else (false, io)

-- The body of the accept loop of `h3_event_thread`.
pub accept : ℕ → Bool → ℕ → ℕ → Io → Io
unfolding at_connection_limit
accept max_connections prepared now conn io =
    if at_connection_limit max_connections io then conn_free conn io else elim prepared [
      | true ↦ (prepare_accepted_connection true now conn io).1
      | false ↦ conn_free conn (prepare_accepted_connection false now conn io).1
    ]

-- An element taken out of an array: the last one takes its place, and the array gets shorter.
pub swap_remove {ℓ} : {A : Type ℓ} → ℕ → List A → List A
swap_remove index xs = elim (get_elem? xs (length xs - 1)) [
  | none ↦ xs
  | some last ↦ take (length xs - 1) (if ltb index (length xs - 1) then set xs index last else xs)
]

-- `remove_pending_handshake`; an index that is out of range, which no caller gives, is left alone.
pub remove_pending_handshake : ℕ → Bool → Io → Io
unfolding swap_remove
remove_pending_handshake index free_conn io = elim (get_elem? io.pending_handshakes index) [
  | none ↦ io
  | some p ↦ record io {
    freed = if free_conn then p.conn ∷ io.freed else io.freed;
    removed = suc io.removed;
    pending_handshakes = swap_remove index io.pending_handshakes;
  }
]

-- How the calls inside `spawn_serviced_session` come out: the first that fails, or none.
pub data Spawn : Type 0 where
  no_pool no_session no_control_streams already_closed no_conn_rec spawned : Spawn

-- `spawn_serviced_session`: the first two failures free the connection, the others destroy the
-- session, which frees it.
pub spawn_serviced_session : Spawn → ℕ → Io → Io
spawn_serviced_session spawned conn io = record io {
  active_sessions = io.active_sessions ++ record { qconn = conn } ∷ [];
  active_session_count = suc io.active_session_count;
  added = suc io.added;
}
spawn_serviced_session failure conn io = conn_free conn io

-- What `h3q_conn_is_closed` and `h3q_conn_is_handshake_done` say of a connection, in that order.
pub data Handshake : Type 0 where
  closed under_way : Handshake
  finished : Spawn → Handshake

-- The body of the loop of `progress_pending_handshakes` at the handshake `p`, at `index`: the io
-- afterwards, and whether the entry was removed.
pub progress_one : ℕ → ℕ → (ℕ → Handshake) → ℕ → PendingHandshake → Io → Bool × Io
unfolding remove_pending_handshake spawn_serviced_session
progress_one now timeout probe index p io =
    if leb timeout (now - p.accepted_at)
    then (true, remove_pending_handshake index true io)
    else elim (probe p.conn) [
      | closed ↦ (true, remove_pending_handshake index true io)
      | finished s ↦
          (true, remove_pending_handshake index false (spawn_serviced_session s p.conn io))
      | under_way ↦ (false, io)
    ]

-- The loop of `progress_pending_handshakes` from `index` on. Each round removes the entry or passes
-- it, so the fuel is the number of entries from `index` on.
pub progress_from : ℕ → ℕ → ℕ → (ℕ → Handshake) → ℕ → Io → Io
unfolding progress_one
progress_from zero now timeout probe index io = io
progress_from (suc fuel) now timeout probe index io = elim (get_elem? io.pending_handshakes index) [
  | none ↦ io
  | some p ↦
      let (gone, io') = progress_one now timeout probe index p io in
      progress_from fuel now timeout probe (if gone then index else suc index) io'
]

-- `progress_pending_handshakes`
pub progress_pending_handshakes : ℕ → ℕ → (ℕ → Handshake) → Io → Io
unfolding progress_from
progress_pending_handshakes now timeout probe io =
    progress_from (length io.pending_handshakes) now timeout probe 0 io

-- `h3_session_destroy` and what follows it in the loop of `h3_event_thread` over the sessions.
pub reap : ℕ → Io → Io
unfolding swap_remove
reap index io = elim (get_elem? io.active_sessions index) [
  | none ↦ io
  | some s ↦ record io {
    freed = s.qconn ∷ io.freed;
    removed = suc io.removed;
    active_sessions = swap_remove index io.active_sessions;
    active_session_count = io.active_session_count - 1;
  }
]

-- That loop from `index` on; `over` says of a session that it is aborted, that its shutdown is done
-- and that none of its tasks is active. The fuel is as above.
pub reap_from : ℕ → (ℕ → Bool) → ℕ → Io → Io
unfolding reap
reap_from zero over index io = io
reap_from (suc fuel) over index io = elim (get_elem? io.active_sessions index) [
  | none ↦ io
  | some s ↦ elim (over s.qconn) [
    | true ↦ reap_from fuel over index (reap index io)
    | false ↦ reap_from fuel over (suc index) io
  ]
]

-- The last loop of `h3_event_thread`.
pub free_pending : ℕ → Io → Io
unfolding remove_pending_handshake
free_pending zero io = io
free_pending (suc fuel) io = elim (get_elem? io.pending_handshakes 0) [
  | none ↦ io
  | some p ↦ free_pending fuel (remove_pending_handshake 0 true io)
]

-- `h3_io_listen_drain`
abbrev pub listen_drain : Io → Io
listen_drain io = record io { draining = true }

-- What `h3q_engine_accept_conn` hands over, with the answer of `h3q_conn_prepare` and the time.
pub record Arrival : Type 0 where
  pub conn : ℕ
  pub prepared : Bool
  pub at : ℕ

-- The accept loop of `h3_event_thread`, over the connections that wait.
pub accept_all : ℕ → List Arrival → Io → Io
unfolding accept
accept_all max_connections [] io = io
accept_all max_connections (a ∷ arrivals) io =
    accept_all max_connections arrivals (accept max_connections a.prepared a.at a.conn io)

abbrev pub accepts : Io → Bool
accepts io = io.thread_running && not io.draining

-- One pass of the loop of `h3_event_thread`, without the service of the sessions.
pub pass : ℕ → ℕ → ℕ → List Arrival → (ℕ → Handshake) → (ℕ → Bool) → Io → Io
unfolding accept_all progress_pending_handshakes reap_from
pass max_connections now timeout arrivals probe over io =
    let taken =
      if accepts io
      then progress_pending_handshakes now timeout probe (accept_all max_connections arrivals io)
      else io in
    reap_from (length taken.active_sessions) over 0 taken

-- The end of `h3_event_thread`, which it reaches with no active session left.
pub finish : Io → Io
unfolding free_pending
finish io = free_pending (length io.pending_handshakes) io
