-- ===== src/Session/Flush/Offsets.antt =====
-- What nghttp3 is told of the bytes that a flush takes from it, and the QUIC streams that it frees.
use mod_http.Common.{
  ℕ, ◌+◌, ◌-◌, ◌≤◌, ◌≡◌, refl, ap, sym, subst, Bool, false, not, ◌&&◌, List, [], ◌∷◌, Bytes, ltb,
  ◌==◌, arith, length, length-append, Bool-cases, inl, inr,
}
use mod_http.Common.Count.{total, one}
use mod_http.Stream.{Stream}
use mod_http.QuicStream.{SslWrite, Written, total_length, stream_write}
use mod_http.QuicStream.Write.{Takes, total_length-length, stream_write-Writes}
use mod_http.Session.{H3Session}
use mod_http.Session.Flush.{
  NgCall, add_write_offset, add_ack_offset, block_stream, unblock_stream, Writev, failed, ready,
  Flushing, still_full, unblock_each, unblock_writable_streams, add_offsets, note_accepted, block,
  write_round, flush_round, flush_loop, free_queued, flush_nghttp3,
}
use mod_http.Session.Flush.Cases.{flush_round-cases, write_round-cases, flush_nghttp3-live}

abbrev pub write_offsets : List NgCall → ℕ
write_offsets [] = 0
write_offsets (add_write_offset sid n ∷ calls) = n + write_offsets calls
write_offsets (add_ack_offset sid n ∷ calls) = write_offsets calls
write_offsets (block_stream sid ∷ calls) = write_offsets calls
write_offsets (unblock_stream sid ∷ calls) = write_offsets calls

abbrev pub ack_offsets : List NgCall → ℕ
ack_offsets [] = 0
ack_offsets (add_ack_offset sid n ∷ calls) = n + ack_offsets calls
ack_offsets (add_write_offset sid n ∷ calls) = ack_offsets calls
ack_offsets (block_stream sid ∷ calls) = ack_offsets calls
ack_offsets (unblock_stream sid ∷ calls) = ack_offsets calls

-- `SSL_write_ex` keeps to what it is given in every round.
abbrev pub AllTake : List Writev → Type 0
AllTake [] = Unit {0}
AllTake (failed code ∷ answers) = AllTake answers
AllTake (ready sid fin vec answer ∷ answers) = Takes answer 0 vec × AllTake answers

-- From the count `base` on, and with the streams `queued` to be freed.
abbrev Keeps : ℕ → List ℕ → List ℕ → Flushing → Type 0
Keeps base queued freed f =
    (write_offsets f.calls ≡ ack_offsets f.calls)
    × (f.total_bytes_written ≤ base + write_offsets f.calls)
    × (f.session.pending_free ≡ queued)
    × (f.freed ≡ freed)

unblock_each-write_offsets :
    (full : ℕ → Bool) (streams : List Stream) (blocked : ℕ) (calls : List NgCall)
    → (write_offsets (unblock_each full streams blocked calls).2 ≡ write_offsets calls)
      × (ack_offsets (unblock_each full streams blocked calls).2 ≡ ack_offsets calls)
unfolding unblock_each
unblock_each-write_offsets full [] blocked calls = (refl, refl)
unblock_each-write_offsets full (g ∷ streams) blocked calls =
    elim (Bool-cases (g.write_blocked && not (still_full full g.qstream))) [
      | inl wakes ↦ ground (
        arith,
        unblock_each-write_offsets full streams (blocked - 1) (unblock_stream g.stream_id ∷ calls),
      )
      | inr stays ↦ ground (arith, unblock_each-write_offsets full streams blocked calls)
    ]

accepted-le :
    (answer : ℕ → SslWrite) (vec : List Bytes) (fin : Bool)
    → Takes answer 0 vec
    → (stream_write answer vec fin).result.accepted ≤ total_length vec
accepted-le answer vec fin t =
    let (counted, (rest, prefix), flags) = stream_write-Writes answer vec fin t in
    omega (
      arith,
      counted,
      ap length prefix,
      length-append (stream_write answer vec fin).sent rest,
      total_length-length vec,
    )

total-free_queued :
    (c : ℕ) (queued freed : List ℕ)
    → total (one c) (free_queued queued freed) ≡ total (one c) queued + total (one c) freed
unfolding free_queued
total-free_queued c [] freed = omega arith
total-free_queued c (st ∷ queued) freed = omega (arith, total-free_queued c queued (st ∷ freed))

module _ (base : ℕ) (queued freed : List ℕ) where
  unblock_writable_streams-Keeps :
      (full : ℕ → Bool) (f : Flushing)
      → Keeps base queued freed f
      → Keeps base queued freed (unblock_writable_streams full f)
  unfolding unblock_writable_streams
  unblock_writable_streams-Keeps full f (w, t, p, r) =
      let (sw, sa) =
        unblock_each-write_offsets full f.session.streams f.session.blocked_streams f.calls in
      elim (Bool-cases (f.session.blocked_streams == 0)) [
        | inl none_blocked ↦ rw (none_blocked, unblock_writable_streams) (w, t, p, r)
        | inr some_blocked ↦
            rw (some_blocked, unblock_writable_streams)
              (omega (arith, w, sw, sa), omega (arith, t, sw), p, r)
      ]

  block-Keeps :
      (h : Stream) (f : Flushing) → Keeps base queued freed f → Keeps base queued freed (block h f)
  unfolding block
  block-Keeps h f (w, t, p, r) = elim (Bool-cases h.write_blocked) [
    | inl already ↦ ground arith
    | inr fresh ↦ ground arith
  ]

  -- The bytes that the stream took, and at least as many told to nghttp3.
  told-Keeps :
      (now sid accepted n : ℕ) (f : Flushing)
      → accepted ≤ n
      → Keeps base queued freed f
      → Keeps base queued freed (add_offsets sid n (note_accepted now accepted f))
  told-Keeps now sid accepted n f le (w, t, p, r) = elim (Bool-cases (ltb 0 accepted)) [
    | inl some_bytes ↦ rw some_bytes (omega (arith, w), omega (arith, t), p, r)
    | inr no_bytes ↦ rw no_bytes (omega (arith, w), omega (arith, t), p, r)
  ]

  write_round-Keeps :
      (now : ℕ) (h : Stream) (expected : ℕ) (w : Written) (f : Flushing)
      → w.result.accepted ≤ expected
      → Keeps base queued freed f
      → Keeps base queued freed (write_round now h expected w f)
  write_round-Keeps now h expected w f le k =
      let n = w.result.accepted in
      elim (write_round-cases now h expected w f) [
        | inl (broken, same) ↦
            subst (Keeps base queued freed) (sym same)
              (told-Keeps now h.stream_id n expected f le k)
        | inr (inl (blocked, same)) ↦ subst (Keeps base queued freed) (sym same) (
            block-Keeps h (add_offsets h.stream_id n (note_accepted now n f))
              (told-Keeps now h.stream_id n n f (omega arith) k))
        | inr (inr same) ↦
            subst (Keeps base queued freed) (sym same)
              (told-Keeps now h.stream_id n n f (omega arith) k)
      ]

  flush_loop-Keeps :
      (now : ℕ) (answers : List Writev) (f : Flushing)
      → AllTake answers
      → Keeps base queued freed f
      → Keeps base queued freed (flush_loop now answers f)
  unfolding flush_loop
  flush_loop-Keeps now [] f a k = k
  flush_loop-Keeps now (failed code ∷ answers) f a k = k
  flush_loop-Keeps now (ready sid fin vec answer ∷ answers) f a k =
      flush_loop-Keeps now answers (flush_round now sid fin vec answer f) a.1
        (elim (flush_round-cases now sid fin vec answer f) [
          | inl same ↦
              subst (Keeps base queued freed) (sym same)
                (omega (arith, k.0), omega (arith, k.1), k.2, k.3)
          | inr (h, e, same) ↦ subst (Keeps base queued freed) (sym same) (
              write_round-Keeps now h (total_length vec) (stream_write answer vec fin) f
                (accepted-le answer vec fin a.0) k)
        ])

-- A flush of a live session, in which no stream takes more than it is given: nghttp3 is told of as
-- many bytes written as acknowledged, and of no fewer than the QUIC streams took; and every QUIC
-- stream that was queued is freed, as often as it was queued, and no other.
pub flush_nghttp3-settles :
    (now : ℕ) (full : ℕ → Bool) (answers : List Writev) (s : H3Session) (bytes_written : ℕ)
    → AllTake answers
    → s.ngh3_dead ≡ false
    → let start : Flushing = record {
      session = s;
      calls = [];
      freed = [];
      total_bytes_written = bytes_written;
    } in
      let f = flush_nghttp3 now full answers start in
      (write_offsets f.calls ≡ ack_offsets f.calls)
      × (f.total_bytes_written ≤ bytes_written + write_offsets f.calls)
      × (f.session.pending_free ≡ [])
      × ((c : ℕ) → total (one c) f.freed ≡ total (one c) s.pending_free)
flush_nghttp3-settles now full answers s bytes_written takes live =
    let start : Flushing = record {
      session = s;
      calls = [];
      freed = [];
      total_bytes_written = bytes_written;
    } in
    let sent = flush_loop now answers (unblock_writable_streams full start) in
    let step = flush_nghttp3-live now full answers start live in
    let (w, t, p, r) =
      flush_loop-Keeps bytes_written s.pending_free [] now answers
        (unblock_writable_streams full start) takes
        (unblock_writable_streams-Keeps bytes_written s.pending_free [] full start
          (refl, omega arith, refl, refl)) in
    (
      omega (
        arith,
        w,
        ap (λ (g : Flushing). write_offsets g.calls) step,
        ap (λ (g : Flushing). ack_offsets g.calls) step,
      ),
      omega (
        arith,
        t,
        ap (λ (g : Flushing). write_offsets g.calls) step,
        ap (λ (g : Flushing). g.total_bytes_written) step,
      ),
      ap (λ (g : Flushing). g.session.pending_free) step,
      λ c. omega (
        arith,
        ap (λ (g : Flushing). total (one c) g.freed) step,
        total-free_queued c sent.session.pending_free sent.freed,
        ap (total (one c)) p,
        ap (total (one c)) r,
      ),
    )
