-- ===== src/Session/Flush/Blocked.antt =====
-- `blocked_streams` is the number of streams that are write-blocked, through every flush.
use mod_http.Common.{
  ℕ, ◌+◌, ◌-◌, ◌≤◌, ◌≡◌, refl, ap, ◌∙◌, sym, Bool, not, ◌&&◌, some, List, [], ◌∷◌, ◌==◌, arith,
  Bool-cases, inl, inr, if◌then◌else◌, subst, ltb, Bytes,
}
use mod_http.Stream.{Stream}
use mod_http.QuicStream.{SslWrite, Written, total_length, stream_write}
use mod_http.Session.{H3Session, stream_find}
use mod_http.Session.Streams.{measure, measure-put_stream, stream_find-stream_id}
use mod_http.Session.Flush.Cases.{
  flush_round-cases, write_round-cases, block-already, asleep, block-fresh, flush_nghttp3-dead,
  flush_nghttp3-live,
}
use mod_http.Session.Flush.{
  NgCall, unblock_stream, Writev, failed, ready, Flushing, still_full, unblock_each,
  unblock_writable_streams, add_offsets, note_accepted, block, write_round, flush_round, flush_loop,
  flush_nghttp3,
}

abbrev tally : Bool → ℕ
tally b = if b then 1 else 0

abbrev pub blocked_one : Stream → ℕ
blocked_one h = tally h.write_blocked

-- The number of streams with `write_blocked` set.
abbrev pub count_blocked : List Stream → ℕ
count_blocked streams = measure blocked_one streams

abbrev pub IsCounted : H3Session → Type 0
IsCounted s = s.blocked_streams ≡ count_blocked s.streams

abbrev Counted : Flushing → Type 0
Counted f = IsCounted f.session

unblock_each-count :
    (full : ℕ → Bool) (streams : List Stream) (blocked : ℕ) (calls : List NgCall)
    → count_blocked streams ≤ blocked
    → (unblock_each full streams blocked calls).1 + count_blocked streams
      ≡ blocked + count_blocked (unblock_each full streams blocked calls).0
unfolding unblock_each
unblock_each-count full [] blocked calls h = omega arith
unblock_each-count full (g ∷ streams) blocked calls h =
    elim (Bool-cases (g.write_blocked && not (still_full full g.qstream))) [
      | inl wakes ↦ ground (
        arith,
        unblock_each-count full streams (blocked - 1) (unblock_stream g.stream_id ∷ calls),
      )
      | inr stays ↦ ground (arith, unblock_each-count full streams blocked calls)
    ]

unblock_writable_streams-IsCounted :
    (full : ℕ → Bool) (f : Flushing)
    → IsCounted f.session
    → IsCounted (unblock_writable_streams full f).session
unfolding unblock_writable_streams
unblock_writable_streams-IsCounted full f c = elim (Bool-cases (f.session.blocked_streams == 0)) [
  | inl none_blocked ↦ rw (none_blocked, unblock_writable_streams) c
  | inr some_blocked ↦
      rw (some_blocked, unblock_writable_streams)
        (omega
          (arith, c, unblock_each-count full f.session.streams f.session.blocked_streams f.calls))
]

block-IsCounted :
    (h : Stream) (f : Flushing)
    → stream_find h.stream_id f.session.streams ≡ some h
    → IsCounted f.session
    → IsCounted (block h f).session
block-IsCounted h f e c = elim (Bool-cases h.write_blocked) [
  | inl already ↦ subst (λ g. IsCounted g.session) (sym (block-already h f already)) c
  | inr fresh ↦
      let moved =
        measure-put_stream blocked_one h.stream_id f.session.streams h (asleep h) e refl in
      subst (λ g. IsCounted g.session) (sym (block-fresh h f fresh))
        (omega (arith, moved, c, ap tally fresh))
]

note_accepted-IsCounted :
    (now accepted : ℕ) (f : Flushing)
    → IsCounted f.session
    → IsCounted (note_accepted now accepted f).session
note_accepted-IsCounted now accepted f c = elim (Bool-cases (ltb 0 accepted)) [
  | inl some_bytes ↦ rw some_bytes c
  | inr no_bytes ↦ rw no_bytes c
]

note_accepted-streams :
    (now accepted : ℕ) (f : Flushing)
    → (note_accepted now accepted f).session.streams ≡ f.session.streams
note_accepted-streams now accepted f = ground arith

write_round-IsCounted :
    (now : ℕ) (h : Stream) (expected : ℕ) (w : Written) (f : Flushing)
    → stream_find h.stream_id f.session.streams ≡ some h
    → IsCounted f.session
    → IsCounted (write_round now h expected w f).session
write_round-IsCounted now h expected w f e c =
    let n = w.result.accepted in
    let noted = note_accepted now n f in
    let kept = note_accepted-IsCounted now n f c in
    let there = ap (stream_find h.stream_id) (note_accepted-streams now n f) ∙ e in
    elim (write_round-cases now h expected w f) [
      | inl (broken, same) ↦ subst Counted (sym same) kept
      | inr (inl (blocked, same)) ↦
          subst Counted (sym same) (block-IsCounted h (add_offsets h.stream_id n noted) there kept)
      | inr (inr same) ↦ subst Counted (sym same) kept
    ]

flush_round-IsCounted :
    (now sid : ℕ) (fin : Bool) (vec : List Bytes) (answer : ℕ → SslWrite) (f : Flushing)
    → IsCounted f.session
    → IsCounted (flush_round now sid fin vec answer f).session
flush_round-IsCounted now sid fin vec answer f c =
    elim (flush_round-cases now sid fin vec answer f) [
      | inl same ↦ subst Counted (sym same) c
      | inr (h, e, same) ↦
          let own =
            ap (λ k. stream_find k f.session.streams)
              (stream_find-stream_id sid f.session.streams e)
            ∙ e in
          subst Counted (sym same)
            (write_round-IsCounted now h (total_length vec) (stream_write answer vec fin) f own c)
    ]

flush_loop-IsCounted :
    (now : ℕ) (answers : List Writev) (f : Flushing)
    → IsCounted f.session
    → IsCounted (flush_loop now answers f).session
unfolding flush_loop
flush_loop-IsCounted now [] f c = c
flush_loop-IsCounted now (failed code ∷ answers) f c = c
flush_loop-IsCounted now (ready sid fin vec answer ∷ answers) f c =
    flush_loop-IsCounted now answers (flush_round now sid fin vec answer f)
      (flush_round-IsCounted now sid fin vec answer f c)

-- Whatever nghttp3 has to send and however the QUIC streams answer, a flush keeps `blocked_streams`
-- equal to the number of streams that are write-blocked.
pub flush_nghttp3-IsCounted :
    (now : ℕ) (full : ℕ → Bool) (answers : List Writev) (f : Flushing)
    → IsCounted f.session
    → IsCounted (flush_nghttp3 now full answers f).session
flush_nghttp3-IsCounted now full answers f c = elim (Bool-cases f.session.ngh3_dead) [
  | inl dead ↦ subst Counted (sym (flush_nghttp3-dead now full answers f dead)) c
  | inr live ↦ subst Counted (sym (flush_nghttp3-live now full answers f live)) (
      flush_loop-IsCounted now answers (unblock_writable_streams full f)
        (unblock_writable_streams-IsCounted full f c))
]
