-- ===== src/Session/Drain.antt =====
-- The reading of the streams of a session: `drain_ready_streams`, `drain_one_stream`,
-- `feed_stream_fin` and `reject_malformed_stream` of mod_http3/src/h3_stream.c. What OpenSSL reads
-- and what nghttp3 makes of it, with the changes that its callbacks make to the stream, are
-- parameters.
pub mod Pass
pub mod Budget
pub mod Errors
pub mod Tame
mod Tests
use mod_http.Common.{
  ℕ, suc, ◌+◌, ◌-◌, ◌*◌, ◌%◌, ◌^◌, min, Bool, true, false, not, ◌&&◌, ◌||◌, Option, none, some,
  List, [], ◌∷◌, ◌++◌, Bytes, ltb, ◌==◌, if◌then◌else◌, length, get_elem?, is_some,
}
use mod_http.Config.{ServerConf}
use mod_http.Stream.{Stream, sid_is_server}
use mod_http.QuicStream.{
  SslRead, read_failed, Read, bytes_read, finished, idle, stream_read, SslState, is_read_finished,
}
use mod_http.Session.{H3Session, stream_find, put_stream}
use mod_http.Session.Flush.{mark_ngh3_dead}

abbrev pub stream_drain_read_budget : ℕ
stream_drain_read_budget = 256

abbrev pub stream_drain_byte_budget : ℕ
stream_drain_byte_budget = 1024 * 1024

-- NGHTTP3_H3_EXCESSIVE_LOAD
abbrev pub excessive_load : ℕ
excessive_load = 0x107

-- What `nghttp3_conn_read_stream` returns: no error, one of the two for a malformed request, or
-- another, with the QUIC error code that nghttp3 infers.
pub data Consumed : Type 0 where
  accepted : Consumed
  malformed_request fails : ℕ → Consumed

-- A call of `nghttp3_conn_read_stream`, what its callbacks make of the stream, what those of
-- `nghttp3_conn_close_stream` make of it, and the code of NGHTTP3_ERR_MALFORMED_HTTP_HEADER. What the
-- callbacks do to other streams and to `pending_free` is left out.
pub record Feed : Type 0 where
  pub consumed : Consumed
  pub after : Stream → Stream
  pub closed : Stream → Stream
  pub header_error : ℕ

-- A call of `h3q_stream_read` with a size, and what nghttp3 makes of it.
pub record Reading : Type 0 where
  pub read : ℕ → SslRead
  pub feed : Feed

-- What a pass meets at one stream.
pub record Incoming : Type 0 where
  pub rstate : SslState
  pub wstate : SslState
  pub at_fin : Feed
  pub readings : List Reading

-- The session without the stream that is drained, that stream, the budgets, `total_bytes_read`,
-- `*data_read`, and the streams reset, with their codes.
pub record Draining : Type 0 where
  pub session : H3Session
  pub stream : Stream
  pub reads_remaining : ℕ
  pub bytes_remaining : ℕ
  pub total_bytes_read : ℕ
  pub data_read : Bool
  pub resets : List (ℕ × ℕ)

-- `++session->stream_errors > limit`, and what follows.
pub count_error : ServerConf → H3Session → H3Session
count_error conf s =
    let errors = (s.stream_errors + 1) % 2 ^ 32 in
    if ltb conf.max_stream_errors errors
    then record s {
      stream_errors = errors;
      abort_quic_error_code = excessive_load;
      ngh3_dead = true;
    }
    else record s { stream_errors = errors }

-- `reject_malformed_stream`
pub reject_malformed_stream : ServerConf → ℕ → Feed → Draining → Draining
unfolding count_error
reject_malformed_stream conf code f d = record d {
  session = count_error conf d.session;
  stream = record (f.closed d.stream) { done = true; body_complete = true };
  resets = if is_some d.stream.qstream then (d.stream.stream_id, code) ∷ d.resets else d.resets;
}

-- What `nghttp3_conn_read_stream` with the end of the stream leads to.
pub fed_fin : ServerConf → Feed → Draining → Draining
unfolding reject_malformed_stream
fed_fin conf f d = elim f.consumed [
  | malformed_request code ↦ reject_malformed_stream conf code f d
  | fails code ↦ record d { session = mark_ngh3_dead code d.session }
  | accepted ↦
      if d.stream.malformed && not d.stream.done
      then reject_malformed_stream conf f.header_error f d
      else d
]

abbrev pub fed : Feed → Draining → Draining
fed f d = record d { stream = f.after d.stream }

-- `feed_stream_fin`
pub feed_stream_fin : ServerConf → Feed → Draining → Draining
unfolding fed_fin
feed_stream_fin conf f d =
    let e = fed_fin conf f (fed f d) in
    record e { stream = record e.stream { body_complete = true } }

-- The accounts of a read of `n` bytes.
abbrev pub note_read : ℕ → Draining → Draining
note_read n d = record d {
  reads_remaining = d.reads_remaining - 1;
  bytes_remaining = d.bytes_remaining - n;
  total_bytes_read = d.total_bytes_read + n;
  data_read = true;
}

abbrev pub set_done : Draining → Draining
set_done d = record d { stream = record d.stream { done = true } }

-- What `nghttp3_conn_read_stream` with bytes leads to, and whether the loop goes on.
pub fed_bytes : ServerConf → Feed → Draining → Bool × Draining
unfolding reject_malformed_stream
fed_bytes conf f d = elim f.consumed [
  | malformed_request code ↦ (false, reject_malformed_stream conf code f d)
  | fails code ↦ (false, set_done (record d { session = mark_ngh3_dead code d.session }))
  | accepted ↦
      if d.stream.malformed && not d.stream.done
      then (false, reject_malformed_stream conf f.header_error f d)
      else (not d.stream.done, d)
]

-- What a call of `h3q_stream_read` leads to, and whether the loop goes on.
pub drain_read : ServerConf → Read → Feed → Draining → Bool × Draining
unfolding fed_bytes feed_stream_fin
drain_read conf (bytes_read []) f d = (false, d)
drain_read conf (bytes_read (b ∷ bs)) f d = fed_bytes conf f (fed f (note_read (length (b ∷ bs)) d))
drain_read conf finished f d = (false, feed_stream_fin conf f d)
drain_read conf idle f d = (false, d)

abbrev pub read_size : ServerConf → Draining → ℕ
read_size conf d = min conf.stream_buffer_size d.bytes_remaining

abbrev pub in_budget : Draining → Bool
in_budget d = ltb 0 d.reads_remaining && ltb 0 d.bytes_remaining

-- A round of the loop of `drain_one_stream`.
pub drain_round : ServerConf → Reading → Draining → Bool × Draining
unfolding drain_read
drain_round conf r d =
    if not (in_budget d)
    then (false, d)
    else if not (is_some d.stream.qstream)
    then (false, set_done d)
    else drain_read conf (stream_read (r.read (read_size conf d))) r.feed d

-- The loop; after the last reading, there is nothing to read.
pub drain_reads : ServerConf → List Reading → Draining → Draining
unfolding drain_round
drain_reads conf [] d = if in_budget d && not (is_some d.stream.qstream) then set_done d else d
drain_reads conf (r ∷ rs) d =
    let (more, e) = drain_round conf r d in
    let rest = drain_reads conf rs e in if more then rest else e

-- `read_finished` and `write_finished`
abbrev pub both_finished : Incoming → Stream → Bool × Bool
both_finished inc h =
    if is_some h.qstream then is_read_finished inc.rstate inc.wstate else (false, false)

-- A stream that the peer has ended.
pub drain_finished : ServerConf → Incoming → Draining → Draining
unfolding feed_stream_fin
drain_finished conf inc d =
    let e = if d.stream.body_complete then d else feed_stream_fin conf inc.at_fin d in
    if is_some e.stream.qstream && (both_finished inc d.stream).1
    then record e { stream = inc.at_fin.closed e.stream }
    else e

-- `drain_one_stream` without its result.
pub drain_one_stream : ServerConf → Incoming → Draining → Draining
unfolding drain_finished drain_reads
drain_one_stream conf inc d =
    if (both_finished inc d.stream).0
    then drain_finished conf inc d
    else drain_reads conf inc.readings d

-- The result of `drain_one_stream`; a stream that was rejected is done.
abbrev pub is_ready : Stream → Bool
is_ready h = h.is_bidi && not h.done && h.headers_complete && h.body_complete && not h.dispatched
