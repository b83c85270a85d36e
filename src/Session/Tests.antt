-- ===== src/Session/Tests.antt =====
-- A session with a stream that sends and one that is spent, and the theorems about it applied.
use mod_http.Common.{
  ℕ, zero, suc, ◌+◌, ◌≤◌, ◌≡◌, refl, true, false, none, some, List, [], ◌∷◌, arith, ap,
}
use mod_http.Common.Count.{total, one}
use mod_http.Config.{create_server_config}
use mod_http.Stream.{Stream, new_stream}
use mod_http.QuicStream.{SslWrite, wrote, want_write, broken_pipe}
use mod_http.Session.{H3Session, stream_find}
use mod_http.Session.Streams.{measure, named}
use mod_http.Session.Flush.{Writev, ready, Flushing, flush_nghttp3}
use mod_http.Session.Flush.Blocked.{IsCounted, flush_nghttp3-IsCounted}
use mod_http.Session.Flush.Offsets.{AllTake, write_offsets, ack_offsets, flush_nghttp3-settles}
use mod_http.Session.Reclaim.{reclaim}
use mod_http.Session.Reclaim.Fate.{IsFinished, IsNeeded, gone_as, AllClean, reclaim_lem}
use mod_http.Lifetime.Destroyed.{AllRepresented}

abbrev sending : Stream
sending = new_stream create_server_config 0 4 1

abbrev spent : Stream
spent = record (new_stream create_server_config 0 8 2) {
  done = true;
  qstream = none;
  dispatched = true;
  worker_done = true;
}

abbrev two_streams : H3Session
two_streams = record {
  streams = sending ∷ spent ∷ [];
  aborted = false;
  blocked_streams = 0;
  ngh3_dead = false;
  abort_quic_error_code = 0;
  pending_free = 2 ∷ [];
  stream_drain_cursor = 0;
  goaway_sent = false;
  goaway_deadline = none;
  last_activity = 0;
  stream_errors = 0;
  active_tasks = 0;
}

abbrev flushing : Flushing
flushing = record { session = two_streams; calls = []; freed = []; total_bytes_written = 0 }

abbrev answer : ℕ → SslWrite
answer zero = wrote 1
answer (suc k) = want_write

-- Stream 4 takes a byte of two and sleeps, and stream 8 has no QUIC stream any more.
abbrev answers : List Writev
answers =
    ready 4 true ((b'o' ∷ []) ∷ (b'k' ∷ []) ∷ []) answer
    ∷ ready 8 true ((b'x' ∷ []) ∷ []) answer
    ∷ []

flush_nghttp3-IsCounted_example : IsCounted (flush_nghttp3 7 (λ st. false) answers flushing).session
flush_nghttp3-IsCounted_example = flush_nghttp3-IsCounted 7 (λ st. false) answers flushing refl

of_wrote : SslWrite → ℕ
of_wrote (wrote w) = w
of_wrote want_write = 0
of_wrote broken_pipe = 1

answers-AllTake : AllTake answers
unfolding of_wrote
answers-AllTake = (
  (
    (λ w e. let same = ap of_wrote e in omega (arith, same)),
    ((λ w e. let same = ap of_wrote e in omega (arith, same)), tt),
  ),
  (((λ w e. let same = ap of_wrote e in omega (arith, same)), tt), tt),
)

flush_nghttp3-settles_example :
    (write_offsets (flush_nghttp3 7 (λ st. false) answers flushing).calls
      ≡ ack_offsets (flush_nghttp3 7 (λ st. false) answers flushing).calls)
    × ((flush_nghttp3 7 (λ st. false) answers flushing).total_bytes_written
        ≤ 0 + write_offsets (flush_nghttp3 7 (λ st. false) answers flushing).calls)
    × ((flush_nghttp3 7 (λ st. false) answers flushing).session.pending_free ≡ [])
    × ((c : ℕ)
        → total (one c) (flush_nghttp3 7 (λ st. false) answers flushing).freed
          ≡ total (one c) (2 ∷ []))
flush_nghttp3-settles_example =
    flush_nghttp3-settles 7 (λ st. false) answers two_streams 0 answers-AllTake refl

spent-IsFinished : IsFinished spent
spent-IsFinished = record {
  bidi = refl;
  client = refl;
  done = refl;
  freed = refl;
  dispatched = refl;
  worker_done = refl;
}

reclaim_lem_example :
    ((h : Stream)
      → stream_find 8 two_streams.streams ≡ some h
      → IsFinished h
      → stream_find 8 (reclaim two_streams).0.streams ≡ none)
    × ((h : Stream)
        → stream_find 8 two_streams.streams ≡ some h
        → IsNeeded h
        → stream_find 8 (reclaim two_streams).0.streams ≡ some h)
    × (stream_find 8 two_streams.streams ≡ none
        → stream_find 8 (reclaim two_streams).0.streams ≡ none)
    × (total (gone_as 8) (reclaim two_streams).1 + measure (named 8) (reclaim two_streams).0.streams
        ≡ 1)
    × (AllRepresented two_streams.streams → AllClean (reclaim two_streams).1)
reclaim_lem_example = reclaim_lem two_streams 8 (omega arith)
