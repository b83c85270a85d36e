-- ===== src/Session.antt =====
-- The session of one connection: `h3_session` of mod_http3/include/h3_session.h, and the finding and
-- tracking of its streams (mod_http3/src/h3_stream.c).
pub mod Streams
pub mod Flush
pub mod Drain
pub mod Reclaim
mod Tests
use mod_http.Common.{ℕ, Bool, true, false, Option, none, some, List, [], ◌∷◌, ◌++◌, ◌==◌}
use mod_http.Config.{ServerConf}
use mod_http.Stream.{Stream, new_stream}

-- `h3_session` without its connection, pools, lock and TLS environment. The hash table of streams is
-- a list in the order of its iteration. `pending_free` has the last pushed first.
pub record H3Session : Type 0 where
  pub streams : List Stream
  pub aborted : Bool
  pub blocked_streams : ℕ
  pub ngh3_dead : Bool
  pub abort_quic_error_code : ℕ
  pub pending_free : List ℕ
  pub stream_drain_cursor : ℕ
  pub goaway_sent : Bool
  pub goaway_deadline : Option ℕ
  pub last_activity : ℕ
  pub stream_errors : ℕ
  pub active_tasks : ℕ

-- `h3_stream_find`
unfoldable pub stream_find : ℕ → List Stream → Option Stream
stream_find sid [] = none
stream_find sid (h ∷ streams) = elim (h.stream_id == sid) [
  | true ↦ some h
  | false ↦ stream_find sid streams
]

-- A write through the pointer to a stream of the table.
unfoldable pub put_stream : Stream → List Stream → List Stream
put_stream h [] = []
put_stream h (g ∷ streams) = elim (g.stream_id == h.stream_id) [
  | true ↦ h ∷ streams
  | false ↦ g ∷ put_stream h streams
]

-- `track_stream`: whether the stream is tracked, and the session. `cond_ok` says whether
-- `apr_thread_cond_create` succeeds.
unfoldable pub track_stream : ServerConf → Bool → ℕ → ℕ → ℕ → H3Session → Bool × H3Session
unfolding stream_find put_stream
track_stream conf cond_ok now sid qstream s = elim (stream_find sid s.streams) [
  | some h ↦
      (true, record s { streams = put_stream (record h { qstream = some qstream }) s.streams })
  | none ↦ elim cond_ok [
    | true ↦ (true, record s { streams = s.streams ++ new_stream conf now sid qstream ∷ [] })
    | false ↦ (false, s)
  ]
]
