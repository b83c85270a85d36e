-- ===== src/Session/Flush.antt =====
-- What `flush_nghttp3` of mod_http3/src/h3_stream.c does with the bytes that nghttp3 has for the
-- streams of a session.
pub mod Cases
pub mod Blocked
pub mod Offsets
pub mod Quiet
use mod_http.Common.{
  ℕ, ◌+◌, ◌-◌, Bool, true, false, not, ◌&&◌, Option, none, some, List, [], ◌∷◌, Bytes, ltb, leb,
  ◌==◌, if◌then◌else◌,
}
use mod_http.Stream.{Stream}
use mod_http.QuicStream.{SslWrite, Written, total_length, stream_write}
use mod_http.Session.{H3Session, stream_find, put_stream}

-- The calls into nghttp3 that `flush_nghttp3` makes beside `nghttp3_conn_writev_stream`.
pub data NgCall : Type 0 where
  add_write_offset add_ack_offset : ℕ → ℕ → NgCall
  block_stream unblock_stream : ℕ → NgCall

-- One answer of `nghttp3_conn_writev_stream`: an error with its QUIC code, or the vectors of a
-- stream, with what the QUIC stream will answer to each.
pub data Writev : Type 0 where
  failed : ℕ → Writev
  ready : (sid : ℕ) → (fin : Bool) → List Bytes → (ℕ → SslWrite) → Writev

-- The session, the calls made, latest first, the QUIC streams freed, and `total_bytes_written`.
pub record Flushing : Type 0 where
  pub session : H3Session
  pub calls : List NgCall
  pub freed : List ℕ
  pub total_bytes_written : ℕ

-- `h3q_stream_is_write_blocked`, asked of a stream that has a QUIC stream.
abbrev pub still_full : (ℕ → Bool) → Option ℕ → Bool
still_full full none = false
still_full full (some st) = full st

-- The loop of `unblock_writable_streams`: the streams, the counter and the calls.
pub unblock_each : (ℕ → Bool) → List Stream → ℕ → List NgCall → List Stream × ℕ × List NgCall
unblock_each full [] blocked calls = ([], blocked, calls)
unblock_each full (h ∷ streams) blocked calls =
    elim (h.write_blocked && not (still_full full h.qstream)) [
      | true ↦
          let (rest, count, made) =
            unblock_each full streams (blocked - 1) (unblock_stream h.stream_id ∷ calls) in
          (record h { write_blocked = false } ∷ rest, count, made)
      | false ↦
          let (rest, count, made) = unblock_each full streams blocked calls in
          (h ∷ rest, count, made)
    ]

-- `unblock_writable_streams`
pub unblock_writable_streams : (ℕ → Bool) → Flushing → Flushing
unfolding unblock_each
unblock_writable_streams full f = elim (f.session.blocked_streams == 0) [
  | true ↦ f
  | false ↦
      let (streams, count, calls) =
        unblock_each full f.session.streams f.session.blocked_streams f.calls in
      record f {
        session = record f.session { streams = streams; blocked_streams = count };
        calls = calls;
      }
]

-- Both offsets of a stream moved on.
abbrev pub add_offsets : ℕ → ℕ → Flushing → Flushing
add_offsets sid n f = record f { calls = add_ack_offset sid n ∷ add_write_offset sid n ∷ f.calls }

-- The accounts of the bytes that a stream took.
abbrev pub note_accepted : ℕ → ℕ → Flushing → Flushing
note_accepted now accepted f =
    if ltb 0 accepted
    then record f {
      session = record f.session { last_activity = now };
      total_bytes_written = f.total_bytes_written + accepted;
    }
    else f

-- The stream put to sleep until its send buffer has room.
pub block : Stream → Flushing → Flushing
unfolding put_stream
block h f = elim h.write_blocked [
  | true ↦ f
  | false ↦ record f {
    session = record f.session {
      streams = put_stream (record h { write_blocked = true }) f.session.streams;
      blocked_streams = f.session.blocked_streams + 1;
    };
    calls = block_stream h.stream_id ∷ f.calls;
  }
]

-- A round for a stream that has a QUIC stream.
pub write_round : ℕ → Stream → ℕ → Written → Flushing → Flushing
unfolding block
write_round now h expected w f =
    let noted = note_accepted now w.result.accepted f in
    if w.result.broken
    then add_offsets h.stream_id expected noted
    else if w.result.blocked
    then block h (add_offsets h.stream_id w.result.accepted noted)
    else add_offsets h.stream_id w.result.accepted noted

-- A round of the loop of `flush_nghttp3` for the vectors of stream `sid`.
pub flush_round : ℕ → ℕ → Bool → List Bytes → (ℕ → SslWrite) → Flushing → Flushing
unfolding write_round stream_find stream_write
flush_round now sid fin vec answer f = elim (stream_find sid f.session.streams) [
  | none ↦ add_offsets sid (total_length vec) f
  | some h ↦ elim h.qstream [
    | none ↦ add_offsets sid (total_length vec) f
    | some st ↦ write_round now h (total_length vec) (stream_write answer vec fin) f
  ]
]

-- `mark_ngh3_dead`
abbrev pub mark_ngh3_dead : ℕ → H3Session → H3Session
mark_ngh3_dead code s = record s { ngh3_dead = true; abort_quic_error_code = code }

-- The loop of `flush_nghttp3` over the answers of nghttp3; after the last, nothing is left to send.
pub flush_loop : ℕ → List Writev → Flushing → Flushing
unfolding flush_round
flush_loop now [] f = f
flush_loop now (failed code ∷ answers) f = record f { session = mark_ngh3_dead code f.session }
flush_loop now (ready sid fin vec answer ∷ answers) f =
    flush_loop now answers (flush_round now sid fin vec answer f)

-- The loop over `pending_free`.
pub free_queued : List ℕ → List ℕ → List ℕ
free_queued [] freed = freed
free_queued (st ∷ queued) freed = free_queued queued (st ∷ freed)

-- `flush_nghttp3`. A session whose nghttp3 is dead is left alone.
unfoldable pub flush_nghttp3 : ℕ → (ℕ → Bool) → List Writev → Flushing → Flushing
unfolding unblock_writable_streams flush_loop free_queued
flush_nghttp3 now full answers f = elim f.session.ngh3_dead [
  | true ↦ f
  | false ↦
      let sent = flush_loop now answers (unblock_writable_streams full f) in
      record sent {
        session = record sent.session { pending_free = [] };
        freed = free_queued sent.session.pending_free sent.freed;
      }
]
