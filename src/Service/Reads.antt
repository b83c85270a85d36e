-- ===== src/Service/Reads.antt =====
-- The reading of the streams keeps the books of the session, and every stream that it completes is in
-- the table after it, and free.
use mod_http.Common.{
  ℕ, ◌≤◌, ◌≡◌, refl, ap, ◌∙◌, sym, subst, true, false, not, ◌&&◌, some, List, [], ◌∷◌, ◌==◌, arith,
  map, length, ◌%◌, if_both, if_known,
}
use mod_http.Config.{ServerConf}
use mod_http.Stream.{Stream}
use mod_http.Session.{H3Session, stream_find, put_stream}
use mod_http.Session.Streams.{one_if, named, measure, measure-put_stream, stream_find-stream_id}
use mod_http.Session.Flush.Blocked.{blocked_one, IsCounted}
use mod_http.Session.Reclaim.{reclaim, reclaim_each-measure, reclaim-IsCounted}
use mod_http.Session.Drain.{Incoming, Draining, drain_one_stream, is_ready}
use mod_http.Session.Drain.Errors.{IsTolerated, drain_one_stream-Tolerates}
use mod_http.Session.Drain.Tame.{Kept, IsTame, AllTame, Tame, drain_one_stream-Tame}
use mod_http.Session.Drain.Pass.{
  Pass, start_draining, drained, is_spent_budget, rotation, new_pass, drain_streams,
  drain_ready_streams,
}
use mod_http.Session.Drain.Pass.Keeps.{visits-keeps}
use mod_http.Session.Drain.Pass.Limits.{drained-IsTolerated, reclaim-IsTolerated}
use mod_http.Dispatch.{Task}
use mod_http.Dispatch.Holders.{held, stray, Held, measure-found}
use mod_http.Dispatch.Starts.{HeldSession}
use mod_http.Dispatch.Safety.{reclaim-Held}
use mod_http.Service.Steps.{IsBooked, AllThere, AllThere-kept, AllThere-append}

-- One for a stream that has not been given to a worker.
abbrev pub fresh : ℕ → Stream → ℕ
fresh sid h = one_if (h.stream_id == sid && not h.dispatched)

-- Nothing is read into a stream but by the callbacks of nghttp3.
abbrev pub AllTameIncoming : (ℕ → Incoming) → Type 0
AllTameIncoming inc = (sid : ℕ) → IsTame (inc sid).at_fin × AllTame (inc sid).readings

module _ (sid : ℕ) (h h' : Stream) (streams : List Stream)
    (found : stream_find sid streams ≡ some h) (kept : Kept h h') where
  put-measure :
      (f : Stream → ℕ) → f h' ≡ f h → measure f (put_stream h' streams) ≡ measure f streams
  put-measure f same =
      let s = kept.0 ∙ stream_find-stream_id sid streams found in
      omega (arith, same, measure-put_stream f sid streams h h' found s)

  put-Held :
      (tasks : List Task) (active : ℕ)
      → Held streams tasks active
      → Held (put_stream h' streams) tasks active
  put-Held tasks active (counts, unique, strays, n) =
      let (s, d, w, b) = kept in
      (
        (λ k. counts k ∙ sym (put-measure (held k) (rw (s, d, w) refl))),
        (λ k. omega (arith, unique k, put-measure (named k) (rw s refl))),
        put-measure stray (rw (d, w) refl) ∙ strays,
        n,
      )

  put-fresh : (k : ℕ) → measure (fresh k) (put_stream h' streams) ≡ measure (fresh k) streams
  put-fresh k = let (s, d, w, b) = kept in put-measure (fresh k) (rw (s, d) refl)

  pub put-blocked : measure blocked_one (put_stream h' streams) ≡ measure blocked_one streams
  put-blocked = let (s, d, w, b) = kept in put-measure blocked_one (rw b refl)

  put-found : (f : Stream → ℕ) → f h' ≤ measure f (put_stream h' streams)
  put-found f =
      let s = kept.0 ∙ stream_find-stream_id sid streams found in
      omega
        (arith, measure-found f sid streams h found, measure-put_stream f sid streams h h' found s)

ready-fresh : (sid : ℕ) (h : Stream) → h.stream_id ≡ sid → is_ready h ≡ true → fresh sid h ≡ 1
ready-fresh sid h s r = ground arith

fresh-named :
    (sid : ℕ) (streams : List Stream) → measure (fresh sid) streams ≤ measure (named sid) streams
fresh-named sid [] = omega arith
fresh-named sid (g ∷ streams) = ground (arith, fresh-named sid streams)

module _ (conf : ServerConf) (tasks : List Task) where
  -- The books, and that what was completed is free.
  abbrev IsRead : Pass → Type 0
  IsRead p = IsBooked conf tasks p.session × AllThere fresh p.completed p.session.streams

  drained-IsRead :
      (n i sid : ℕ) (h : Stream) (p : Pass) (d : Draining)
      → stream_find sid p.session.streams ≡ some h
      → Tame (start_draining h p) d
      → IsTolerated conf d.session
      → IsRead p
      → IsRead (drained n i sid p.completed d).1
  drained-IsRead n i sid h p d found (kept, same, blocked, active) few
        ((held_so, counted, _), free) =
      let put = put_stream d.stream d.session.streams in
      let own : (put_stream d.stream p.session.streams) ≡ put =
        ap (put_stream d.stream) (sym same) in
      let held' =
        subst (λ x. Held x tasks d.session.active_tasks) own
          (subst (Held (put_stream d.stream p.session.streams) tasks) (sym active) (
            put-Held sid h d.stream p.session.streams found kept tasks p.session.active_tasks
              held_so)) in
      let counted' =
        blocked
        ∙ counted
        ∙ sym (put-blocked sid h d.stream p.session.streams found kept)
        ∙ ap (measure blocked_one) own in
      let still =
        AllThere-kept fresh fresh p.completed p.session.streams put
          (λ k. omega (
            arith,
            put-fresh sid h d.stream p.session.streams found kept k,
            ap (measure (fresh k)) own,
          ))
          free in
      let s = kept.0 ∙ stream_find-stream_id sid p.session.streams found in
      let further =
        if_known (λ sids. AllThere fresh sids put) (is_ready d.stream && not d.session.ngh3_dead)
          (λ ready. AllThere-append fresh p.completed sid put still (
            omega (
              arith,
              ready-fresh sid d.stream s (ground arith),
              put-found sid h d.stream p.session.streams found kept (fresh sid),
              ap (measure (fresh sid)) own,
            )))
          (λ other. still) in
      let parts =
        if_both (λ (t : H3Session). HeldSession tasks t × IsCounted t × (t.streams ≡ put))
          (is_spent_budget d) (held', counted', refl) (held', counted', refl) in
      (
        (parts.0, parts.1, drained-IsTolerated conf n i sid p.completed d few),
        subst (AllThere fresh (drained n i sid p.completed d).1.completed) (sym parts.2) further,
      )

  drain_streams-IsRead :
      (inc : ℕ → Incoming) (total : ℕ) (s : H3Session)
      → AllTameIncoming inc
      → IsBooked conf tasks s
      → IsRead (drain_streams conf inc total s)
  unfolding drain_streams
  drain_streams-IsRead inc total s tame booked =
      let snapshot = map (λ (h : Stream). h.stream_id) s.streams in
      let n = length snapshot in
      visits-keeps conf inc snapshot IsRead
        (λ i sid h p live found k.
          let d = start_draining h p in
          drained-IsRead n i sid h p (drain_one_stream conf (inc sid) d) found
            (drain_one_stream-Tame conf (inc sid) d (tame sid).0 (tame sid).1)
            (drain_one_stream-Tolerates conf (inc sid) d (k.0.2.1 live)) k)
        (rotation (s.stream_drain_cursor % n) n 0 n) (new_pass total s) (booked, tt)

  reclaim-IsBooked : (s : H3Session) → IsBooked conf tasks s → IsBooked conf tasks (reclaim s).0
  reclaim-IsBooked s (held_so, counted, few) = (
    reclaim-Held (record { session = s; tasks = tasks; destroyed = false }) held_so,
    reclaim-IsCounted s counted,
    reclaim-IsTolerated conf s few,
  )

  reclaim-free :
      (sids : List ℕ) (s : H3Session)
      → AllThere fresh sids s.streams
      → AllThere named sids (reclaim s).0.streams
  unfolding reclaim
  reclaim-free sids s = AllThere-kept fresh named sids s.streams (reclaim s).0.streams (λ k. omega (
    arith,
    reclaim_each-measure (fresh k) (λ h spent. ground arith) s.streams s.blocked_streams,
    fresh-named k (reclaim s).0.streams,
  ))

  -- The streams that a pass over the streams completes are in the table after it.
  pub drain_ready_streams-IsBooked :
      (inc : ℕ → Incoming) (total : ℕ) (s : H3Session)
      → AllTameIncoming inc
      → IsBooked conf tasks s
      → let p = drain_ready_streams conf inc total s in
        IsBooked conf tasks p.session × AllThere named p.completed p.session.streams
  unfolding drain_ready_streams
  drain_ready_streams-IsBooked inc total s tame booked =
      let p = drain_streams conf inc total s in
      let (books, free) = drain_streams-IsRead inc total s tame booked in
      (reclaim-IsBooked p.session books, reclaim-free p.completed p.session free)
