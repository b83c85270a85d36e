-- ===== src/Session/Flush/Cases.antt =====
-- The branches of a flush, as equations.
use mod_http.Common.{
  ◌+◌, ℕ, ◌≡◌, Bool, true, false, none, some, List, [], ◌∷◌, Bytes, arith, Bool-cases, Option-cases,
  ◌⊎◌, inl, inr,
}
use mod_http.Stream.{Stream}
use mod_http.QuicStream.{SslWrite, Written, total_length, stream_write}
use mod_http.Session.{stream_find, put_stream}
use mod_http.Session.Flush.{
  block_stream, Writev, Flushing, unblock_writable_streams, add_offsets, note_accepted, block,
  write_round, flush_round, flush_loop, free_queued, flush_nghttp3,
}

module _ (now sid : ℕ) (fin : Bool) (vec : List Bytes) (answer : ℕ → SslWrite) (f : Flushing) where
  flush_round-gone :
      stream_find sid f.session.streams ≡ none
      → flush_round now sid fin vec answer f ≡ add_offsets sid (total_length vec) f
  unfolding flush_round
  flush_round-gone e = rw (e, flush_round)

  flush_round-closed :
      (h : Stream)
      → stream_find sid f.session.streams ≡ some h
      → h.qstream ≡ none
      → flush_round now sid fin vec answer f ≡ add_offsets sid (total_length vec) f
  unfolding flush_round
  flush_round-closed h e q = ground arith

  flush_round-open :
      (h : Stream) (st : ℕ)
      → stream_find sid f.session.streams ≡ some h
      → h.qstream ≡ some st
      → flush_round now sid fin vec answer f
        ≡ write_round now h (total_length vec) (stream_write answer vec fin) f
  unfolding flush_round
  flush_round-open h st e q = ground arith

  -- A round drops the bytes of a stream that is gone, or writes to a stream of the table.
  pub flush_round-cases :
      (flush_round now sid fin vec answer f ≡ add_offsets sid (total_length vec) f)
      ⊎ ((h : Stream) × (stream_find sid f.session.streams ≡ some h)
          × (flush_round now sid fin vec answer f
              ≡ write_round now h (total_length vec) (stream_write answer vec fin) f))
  flush_round-cases = elim (Option-cases (stream_find sid f.session.streams)) [
    | inl gone ↦ inl (flush_round-gone gone)
    | inr (h, e) ↦ elim (Option-cases h.qstream) [
      | inl closed ↦ inl (flush_round-closed h e closed)
      | inr (st, open_stream) ↦ inr (h, e, flush_round-open h st e open_stream)
    ]
  ]

-- A write that breaks drops the vectors, one that blocks puts the stream to sleep.
pub write_round-cases :
    (now : ℕ) (h : Stream) (expected : ℕ) (w : Written) (f : Flushing)
    → ((w.result.broken ≡ true)
        × (write_round now h expected w f
            ≡ add_offsets h.stream_id expected (note_accepted now w.result.accepted f)))
      ⊎ (((w.result.blocked ≡ true)
            × (write_round now h expected w f
                ≡ block h (
                    add_offsets h.stream_id w.result.accepted
                      (note_accepted now w.result.accepted f))))
          ⊎ (write_round now h expected w f
              ≡ add_offsets h.stream_id w.result.accepted (note_accepted now w.result.accepted f)))
unfolding write_round
write_round-cases now h expected w f = elim (Bool-cases w.result.broken) [
  | inl broken ↦ inl (broken, rw broken)
  | inr whole ↦ elim (Bool-cases w.result.blocked) [
    | inl blocked ↦ inr (inl (blocked, rw whole (rw blocked)))
    | inr free ↦ inr (inr (rw whole (rw free)))
  ]
]

pub block-already : (h : Stream) (f : Flushing) → h.write_blocked ≡ true → block h f ≡ f
unfolding block
block-already h f e = ground arith

abbrev pub asleep : Stream → Stream
asleep h = record h { write_blocked = true }

pub block-fresh :
    (h : Stream) (f : Flushing)
    → h.write_blocked ≡ false
    → block h f ≡ record f {
      session = record f.session {
        streams = put_stream (asleep h) f.session.streams;
        blocked_streams = f.session.blocked_streams + 1;
      };
      calls = block_stream h.stream_id ∷ f.calls;
    }
unfolding block
block-fresh h f e = ground arith

pub flush_nghttp3-dead :
    (now : ℕ) (full : ℕ → Bool) (answers : List Writev) (f : Flushing)
    → f.session.ngh3_dead ≡ true
    → flush_nghttp3 now full answers f ≡ f
unfolding flush_nghttp3
flush_nghttp3-dead now full answers f dead = ground arith

-- The end of a flush: the queued QUIC streams are freed.
abbrev pub release : Flushing → Flushing
release sent = record sent {
  session = record sent.session { pending_free = [] };
  freed = free_queued sent.session.pending_free sent.freed;
}

pub flush_nghttp3-live :
    (now : ℕ) (full : ℕ → Bool) (answers : List Writev) (f : Flushing)
    → f.session.ngh3_dead ≡ false
    → flush_nghttp3 now full answers f
      ≡ release (flush_loop now answers (unblock_writable_streams full f))
unfolding flush_nghttp3
flush_nghttp3-live now full answers f live = ground arith
