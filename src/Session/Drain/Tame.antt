-- ===== src/Session/Drain/Tame.antt =====
-- What the reading of a stream leaves alone: who works on the stream, whether it is blocked, and the
-- other streams of the session.
use mod_http.Common.{
  ℕ, ◌+◌, ◌%◌, ◌^◌, ◌≡◌, refl, ◌∙◌, Bool, false, not, ◌&&◌, List, [], ◌∷◌, ltb, if◌then◌else◌,
  length, is_some, if_both,
}
use mod_http.Config.{ServerConf}
use mod_http.Stream.{Stream}
use mod_http.QuicStream.{Read, bytes_read, finished, idle, stream_read}
use mod_http.Session.{H3Session}
use mod_http.Session.Flush.{mark_ngh3_dead}
use mod_http.Session.Drain.{
  accepted, malformed_request, fails, Feed, Reading, Incoming, Draining, count_error,
  reject_malformed_stream, fed_fin, fed, feed_stream_fin, note_read, set_done, fed_bytes,
  drain_read, read_size, in_budget, drain_round, drain_reads, both_finished, drain_finished,
  drain_one_stream,
}

-- The fields that the workers and the flushing keep their books by.
abbrev pub Kept : Stream → Stream → Type 0
Kept h h' =
    (h'.stream_id ≡ h.stream_id)
    × (h'.dispatched ≡ h.dispatched)
    × (h'.worker_done ≡ h.worker_done)
    × (h'.write_blocked ≡ h.write_blocked)

pub Kept-refl : (h : Stream) → Kept h h
Kept-refl h = (refl, refl, refl, refl)

pub Kept-trans : (h h' h'' : Stream) → Kept h h' → Kept h' h'' → Kept h h''
Kept-trans h h' h'' (i, d, w, b) (i', d', w', b') = (i' ∙ i, d' ∙ d, w' ∙ w, b' ∙ b)

-- The callbacks of nghttp3 leave those fields alone.
abbrev pub IsTame : Feed → Type 0
IsTame f = (h : Stream) → Kept h (f.after h) × Kept h (f.closed h)

abbrev pub AllTame : List Reading → Type 0
AllTame [] = Unit {0}
AllTame (r ∷ rs) = IsTame r.feed × AllTame rs

abbrev pub Tame : Draining → Draining → Type 0
Tame d e =
    Kept d.stream e.stream
    × (e.session.streams ≡ d.session.streams)
    × (e.session.blocked_streams ≡ d.session.blocked_streams)
    × (e.session.active_tasks ≡ d.session.active_tasks)

Tame-refl : (d : Draining) → Tame d d
Tame-refl d = ((refl, refl, refl, refl), refl, refl, refl)

Tame-trans : (d e g : Draining) → Tame d e → Tame e g → Tame d g
Tame-trans d e g (k, s, b, a) (k', s', b', a') =
    (Kept-trans d.stream e.stream g.stream k k', s' ∙ s, b' ∙ b, a' ∙ a)

module _ (conf : ServerConf) where
  count_error-same :
      (s : H3Session)
      → ((count_error conf s).streams ≡ s.streams)
        × ((count_error conf s).blocked_streams ≡ s.blocked_streams)
        × ((count_error conf s).active_tasks ≡ s.active_tasks)
  unfolding count_error
  count_error-same s =
      if_both
        (λ (t : H3Session).
          (t.streams ≡ s.streams)
          × (t.blocked_streams ≡ s.blocked_streams)
          × (t.active_tasks ≡ s.active_tasks))
        (ltb conf.max_stream_errors ((s.stream_errors + 1) % 2 ^ 32)) (refl, refl, refl)
        (refl, refl, refl)

  reject-Tame :
      (code : ℕ) (f : Feed) (d : Draining)
      → IsTame f
      → Tame d (reject_malformed_stream conf code f d)
  unfolding reject_malformed_stream
  reject-Tame code f d t = let (s, b, a) = count_error-same d.session in ((t d.stream).1, s, b, a)

  fed_fin-Tame : (f : Feed) (d : Draining) → IsTame f → Tame d (fed_fin conf f d)
  unfolding fed_fin
  fed_fin-Tame f d t =
      elim f.consumed
        as (λ c. Tame d (elim c [
          | malformed_request code ↦ reject_malformed_stream conf code f d
          | fails code ↦ record d { session = mark_ngh3_dead code d.session }
          | accepted ↦
              if d.stream.malformed && not d.stream.done
              then reject_malformed_stream conf f.header_error f d
              else d
        ])) [
          | malformed_request code ↦ reject-Tame code f d t
          | fails code ↦ Tame-refl d
          | accepted ↦
              if_both (Tame d) (d.stream.malformed && not d.stream.done)
                (reject-Tame f.header_error f d t) (Tame-refl d)
        ]

  feed_stream_fin-Tame : (f : Feed) (d : Draining) → IsTame f → Tame d (feed_stream_fin conf f d)
  unfolding feed_stream_fin
  feed_stream_fin-Tame f d t =
      Tame-trans d (fed f d) (fed_fin conf f (fed f d)) ((t d.stream).0, refl, refl, refl)
        (fed_fin-Tame f (fed f d) t)

  fed_bytes-Tame : (f : Feed) (d : Draining) → IsTame f → Tame d (fed_bytes conf f d).1
  unfolding fed_bytes
  fed_bytes-Tame f d t =
      elim f.consumed
        as (λ c.
          Tame d
            (elim c as (λ x. Bool × Draining) [
              | malformed_request code ↦ (false, reject_malformed_stream conf code f d)
              | fails code ↦
                  (false, set_done (record d { session = mark_ngh3_dead code d.session }))
              | accepted ↦
                  if d.stream.malformed && not d.stream.done
                  then (false, reject_malformed_stream conf f.header_error f d)
                  else (not d.stream.done, d)
            ]).1) [
              | malformed_request code ↦ reject-Tame code f d t
              | fails code ↦ Tame-refl d
              | accepted ↦
                  if_both (λ (out : Bool × Draining). Tame d out.1)
                    (d.stream.malformed && not d.stream.done) (reject-Tame f.header_error f d t)
                    (Tame-refl d)
            ]

  drain_read-Tame :
      (r : Read) (f : Feed) (d : Draining) → IsTame f → Tame d (drain_read conf r f d).1
  unfolding drain_read
  drain_read-Tame (bytes_read []) f d t = Tame-refl d
  drain_read-Tame (bytes_read (b ∷ bs)) f d t =
      let e = fed f (note_read (length (b ∷ bs)) d) in
      Tame-trans d e (fed_bytes conf f e).1 ((t d.stream).0, refl, refl, refl)
        (fed_bytes-Tame f e t)
  drain_read-Tame finished f d t = feed_stream_fin-Tame f d t
  drain_read-Tame idle f d t = Tame-refl d

  drain_round-Tame : (r : Reading) (d : Draining) → IsTame r.feed → Tame d (drain_round conf r d).1
  unfolding drain_round
  drain_round-Tame r d t =
      if_both (λ (out : Bool × Draining). Tame d out.1) (not (in_budget d)) (Tame-refl d)
        (if_both (λ (out : Bool × Draining). Tame d out.1) (not (is_some d.stream.qstream))
          (Tame-refl d) (drain_read-Tame (stream_read (r.read (read_size conf d))) r.feed d t))

  drain_reads-Tame :
      (rs : List Reading) (d : Draining) → AllTame rs → Tame d (drain_reads conf rs d)
  unfolding drain_reads
  drain_reads-Tame [] d t =
      if_both (Tame d) (in_budget d && not (is_some d.stream.qstream)) (Tame-refl d) (Tame-refl d)
  drain_reads-Tame (r ∷ rs) d (here, further) =
      let e = (drain_round conf r d).1 in
      let round = drain_round-Tame r d here in
      if_both (Tame d) (drain_round conf r d).0
        (Tame-trans d e (drain_reads conf rs e) round (drain_reads-Tame rs e further)) round

  drain_finished-Tame :
      (inc : Incoming) (d : Draining) → IsTame inc.at_fin → Tame d (drain_finished conf inc d)
  unfolding drain_finished
  drain_finished-Tame inc d t =
      let e = if d.stream.body_complete then d else feed_stream_fin conf inc.at_fin d in
      let kept =
        if_both (Tame d) d.stream.body_complete (Tame-refl d)
          (feed_stream_fin-Tame inc.at_fin d t) in
      if_both (Tame d) (is_some e.stream.qstream && (both_finished inc d.stream).1)
        (Tame-trans d e (record e { stream = inc.at_fin.closed e.stream }) kept
          ((t e.stream).1, refl, refl, refl))
        kept

  pub drain_one_stream-Tame :
      (inc : Incoming) (d : Draining)
      → IsTame inc.at_fin
      → AllTame inc.readings
      → Tame d (drain_one_stream conf inc d)
  unfolding drain_one_stream
  drain_one_stream-Tame inc d t ts =
      if_both (Tame d) (both_finished inc d.stream).0 (drain_finished-Tame inc d t)
        (drain_reads-Tame inc.readings d ts)
