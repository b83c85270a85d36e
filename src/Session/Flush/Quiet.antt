-- ===== src/Session/Flush/Quiet.antt =====
-- What a flush leaves alone: every field of a stream but `write_blocked`, and the tasks and errors
-- of the session.
use mod_http.Common.{
  ℕ, ◌-◌, ◌≡◌, refl, ap, ◌∙◌, sym, subst, Bool, true, false, not, ◌&&◌, some, List, [], ◌∷◌, ◌==◌,
  arith, Bool-cases, inl, inr, if_both, Bytes, ltb,
}
use mod_http.Stream.{Stream}
use mod_http.QuicStream.{SslWrite, Written, total_length, stream_write}
use mod_http.Session.{H3Session, stream_find}
use mod_http.Session.Streams.{measure, measure-put_stream, stream_find-stream_id}
use mod_http.Session.Flush.Cases.{
  flush_round-cases, write_round-cases, block-already, asleep, block-fresh, flush_nghttp3-dead,
  flush_nghttp3-live,
}
use mod_http.Session.Flush.{
  NgCall, Writev, failed, ready, Flushing, still_full, unblock_each, unblock_writable_streams,
  add_offsets, note_accepted, block, write_round, flush_round, flush_loop, flush_nghttp3,
  unblock_stream,
}

-- A measure that does not look at `write_blocked`.
abbrev pub IsBlind : (Stream → ℕ) → Type 0
IsBlind f = (h : Stream) (b : Bool) → f (record h { write_blocked = b }) ≡ f h

-- The session differs in what a flush may change: `write_blocked` and the counter of it, the
-- activity, the queue of QUIC streams, and whether nghttp3 has died.
abbrev pub Quiet : H3Session → H3Session → Type 0
Quiet s s' =
    ((f : Stream → ℕ) → IsBlind f → measure f s'.streams ≡ measure f s.streams)
    × (s'.active_tasks ≡ s.active_tasks)
    × (s'.stream_errors ≡ s.stream_errors)
    × ((s'.goaway_sent ≡ s.goaway_sent)
        × (s'.goaway_deadline ≡ s.goaway_deadline)
        × (s'.aborted ≡ s.aborted))
    × (s'.ngh3_dead ≡ false → s.ngh3_dead ≡ false)

pub Quiet-refl : (s : H3Session) → Quiet s s
Quiet-refl s = ((λ f b. refl), refl, refl, (refl, refl, refl), (λ e. e))

Quiet-trans : (s t u : H3Session) → Quiet s t → Quiet t u → Quiet s u
Quiet-trans s t u (m, a, e, (g, h, b), d) (m', a', e', (g', h', b'), d') =
    ((λ f k. m' f k ∙ m f k), a' ∙ a, e' ∙ e, (g' ∙ g, h' ∙ h, b' ∙ b), (λ live. d (d' live)))

abbrev Calm : Flushing → Flushing → Type 0
Calm f g = Quiet f.session g.session

unblock_each-measure :
    (f : Stream → ℕ) (full : ℕ → Bool) (streams : List Stream) (blocked : ℕ) (calls : List NgCall)
    → IsBlind f
    → measure f (unblock_each full streams blocked calls).0 ≡ measure f streams
unfolding unblock_each
unblock_each-measure f full [] blocked calls b = refl
unblock_each-measure f full (g ∷ streams) blocked calls b =
    elim (Bool-cases (g.write_blocked && not (still_full full g.qstream))) [
      | inl wakes ↦ ground (
        arith,
        b g false,
        unblock_each-measure f full streams (blocked - 1) (unblock_stream g.stream_id ∷ calls) b,
      )
      | inr stays ↦ ground (arith, unblock_each-measure f full streams blocked calls b)
    ]

unblock_writable_streams-Calm :
    (full : ℕ → Bool) (f : Flushing) → Calm f (unblock_writable_streams full f)
unfolding unblock_writable_streams
unblock_writable_streams-Calm full f = elim (Bool-cases (f.session.blocked_streams == 0)) [
  | inl idle ↦ rw (idle, unblock_writable_streams) (Quiet-refl f.session)
  | inr busy ↦
      rw (busy, unblock_writable_streams)
        (
          (λ m b.
              unblock_each-measure m full f.session.streams f.session.blocked_streams f.calls b),
          refl,
          refl,
          (refl, refl, refl),
          (λ e. e),
        )
]

block-Calm :
    (h : Stream) (f : Flushing)
    → stream_find h.stream_id f.session.streams ≡ some h
    → Calm f (block h f)
block-Calm h f e = elim (Bool-cases h.write_blocked) [
  | inl already ↦ subst (λ g. Calm f g) (sym (block-already h f already)) (Quiet-refl f.session)
  | inr fresh ↦
      subst (λ g. Calm f g) (sym (block-fresh h f fresh))
        (
          (λ m b. omega (
            arith,
            b h true,
            measure-put_stream m h.stream_id f.session.streams h (asleep h) e refl,
          )),
          refl,
          refl,
          (refl, refl, refl),
          (λ live. live),
        )
]

note_accepted-Calm : (now n : ℕ) (f : Flushing) → Calm f (note_accepted now n f)
note_accepted-Calm now n f =
    if_both (λ g. Calm f g) (ltb 0 n) ((λ m b. refl), refl, refl, (refl, refl, refl), (λ e. e))
      (Quiet-refl f.session)

note_accepted-streams :
    (now n : ℕ) (f : Flushing) → (note_accepted now n f).session.streams ≡ f.session.streams
note_accepted-streams now n f =
    if_both (λ (g : Flushing). g.session.streams ≡ f.session.streams) (ltb 0 n) refl refl

write_round-Calm :
    (now : ℕ) (h : Stream) (expected : ℕ) (w : Written) (f : Flushing)
    → stream_find h.stream_id f.session.streams ≡ some h
    → Calm f (write_round now h expected w f)
write_round-Calm now h expected w f e =
    let n = w.result.accepted in
    let noted = note_accepted now n f in
    let kept = note_accepted-Calm now n f in
    let there = ap (stream_find h.stream_id) (note_accepted-streams now n f) ∙ e in
    let moved = add_offsets h.stream_id n noted in
    elim (write_round-cases now h expected w f) [
      | inl (broken, same) ↦ subst (Calm f) (sym same) kept
      | inr (inl (blocked, same)) ↦ subst (Calm f) (sym same) (
          Quiet-trans f.session noted.session (block h moved).session kept
            (block-Calm h moved there))
      | inr (inr same) ↦ subst (Calm f) (sym same) kept
    ]

flush_round-Calm :
    (now sid : ℕ) (fin : Bool) (vec : List Bytes) (answer : ℕ → SslWrite) (f : Flushing)
    → Calm f (flush_round now sid fin vec answer f)
flush_round-Calm now sid fin vec answer f = elim (flush_round-cases now sid fin vec answer f) [
  | inl same ↦ subst (Calm f) (sym same) (Quiet-refl f.session)
  | inr (h, e, same) ↦
      let own =
        ap (λ k. stream_find k f.session.streams) (stream_find-stream_id sid f.session.streams e)
        ∙ e in
      subst (Calm f) (sym same)
        (write_round-Calm now h (total_length vec) (stream_write answer vec fin) f own)
]

flush_loop-Calm :
    (now : ℕ) (answers : List Writev) (f : Flushing) → Calm f (flush_loop now answers f)
unfolding flush_loop
flush_loop-Calm now [] f = Quiet-refl f.session
flush_loop-Calm now (failed code ∷ answers) f =
    ((λ m b. refl), refl, refl, (refl, refl, refl), (λ dead. cc))
flush_loop-Calm now (ready sid fin vec answer ∷ answers) f =
    let g = flush_round now sid fin vec answer f in
    Quiet-trans f.session g.session (flush_loop now answers g).session
      (flush_round-Calm now sid fin vec answer f) (flush_loop-Calm now answers g)

-- A flush leaves the books of the streams and the tasks alone.
pub flush_nghttp3-Quiet :
    (now : ℕ) (full : ℕ → Bool) (answers : List Writev) (f : Flushing)
    → Quiet f.session (flush_nghttp3 now full answers f).session
flush_nghttp3-Quiet now full answers f = elim (Bool-cases f.session.ngh3_dead) [
  | inl dead ↦
      subst (Calm f) (sym (flush_nghttp3-dead now full answers f dead)) (Quiet-refl f.session)
  | inr live ↦
      let g = unblock_writable_streams full f in
      let sent = flush_loop now answers g in
      let calm =
        Quiet-trans f.session g.session sent.session (unblock_writable_streams-Calm full f)
          (flush_loop-Calm now answers g) in
      subst (Calm f) (sym (flush_nghttp3-live now full answers f live)) calm
]
