-- ===== src/Session/Reclaim/Fate.antt =====
-- Which streams `drain_ready_streams` (mod_http3/src/h3_stream.c) reclaims, and what it frees of them.
use mod_http.Common.{
  ℕ, ◌+◌, ◌-◌, ◌%◌, ◌≤◌, ◌≡◌, refl, ap, ◌∙◌, ◌==◌, true, false, Option, none, some, List, [], ◌∷◌,
  arith, Bool-cases, inl, inr, if◌then◌else◌,
}
use mod_http.Common.Count.{total, one}
use mod_http.Response.{Response}
use mod_http.Stream.{Stream}
use mod_http.Session.{H3Session, stream_find}
use mod_http.Session.Streams.{measure, named}
use mod_http.Session.Reclaim.{is_spent, reclaim_each, reclaim}
use mod_http.Response.Steps.Cleanup.{cleanup_frees_all}
use mod_http.Lifetime.Destroyed.{AllRepresented}

-- A stream that `reclaim` takes out, by its id.
abbrev pub gone_as : ℕ → ℕ × Option Response → ℕ
gone_as sid g = one sid g.0

-- The clean-up of each response runs without a fault and leaves no chunk.
abbrev pub AllClean : List (ℕ × Option Response) → Type 0
AllClean [] = Unit {0}
AllClean (g ∷ gone) =
    ((q : Response) × (g.1 ≡ some q) × ((a : ℕ) → q.cells a ≡ none)) × AllClean gone

abbrev pub unless_spent : Option Stream → Option Stream
unless_spent none = none
unless_spent (some h) = if is_spent h then none else some h

-- What a stream must be for its memory to go: a request stream, of the client's, that is closed, whose
-- QUIC stream is freed, and to which a worker was sent that has returned.
pub record IsFinished (h : Stream) : Type 0 where
  pub bidi : h.is_bidi ≡ true
  pub client : h.stream_id % 2 ≡ 0
  pub done : h.done ≡ true
  pub freed : h.qstream ≡ none
  pub dispatched : h.dispatched ≡ true
  pub worker_done : h.worker_done ≡ true

-- What keeps the memory of a stream, its worker's above all.
pub data IsNeeded (h : Stream) : Type 0 where
  never_dispatched : h.dispatched ≡ false → IsNeeded h
  has_worker : h.worker_done ≡ false → IsNeeded h
  still_open : h.done ≡ false → IsNeeded h
  has_qstream : (st : ℕ) → h.qstream ≡ some st → IsNeeded h
  unidirectional : h.is_bidi ≡ false → IsNeeded h
  server : h.stream_id % 2 ≡ 1 → IsNeeded h

unless_spent-IsFinished : (h : Stream) → IsFinished h → unless_spent (some h) ≡ none
unless_spent-IsFinished h f =
    ground (arith, f.bidi, f.client, f.done, f.freed, f.dispatched, f.worker_done)

unless_spent-IsNeeded : (h : Stream) → IsNeeded h → unless_spent (some h) ≡ some h
unless_spent-IsNeeded h (never_dispatched e) = ground (arith, e)
unless_spent-IsNeeded h (has_worker e) = ground (arith, e)
unless_spent-IsNeeded h (still_open e) = ground (arith, e)
unless_spent-IsNeeded h (has_qstream st e) = ground (arith, e)
unless_spent-IsNeeded h (unidirectional e) = ground (arith, e)
unless_spent-IsNeeded h (server e) = ground (arith, e)

missing-reclaim_each :
    (sid : ℕ) (streams : List Stream) (blocked : ℕ)
    → measure (named sid) streams ≡ 0
    → stream_find sid (reclaim_each streams blocked).0 ≡ none
unfolding reclaim_each stream_find
missing-reclaim_each sid [] blocked z = refl
missing-reclaim_each sid (g ∷ streams) blocked z = elim (Bool-cases (is_spent g)) [
  | inl spent ↦
      ground
        (arith, missing-reclaim_each sid streams (if g.write_blocked then blocked - 1 else blocked))
  | inr stays ↦ ground (arith, missing-reclaim_each sid streams blocked)
]

stream_find-reclaim_each :
    (sid : ℕ) (streams : List Stream) (blocked : ℕ)
    → measure (named sid) streams ≤ 1
    → stream_find sid (reclaim_each streams blocked).0 ≡ unless_spent (stream_find sid streams)
unfolding reclaim_each stream_find
stream_find-reclaim_each sid [] blocked u = refl
stream_find-reclaim_each sid (g ∷ streams) blocked u = elim (Bool-cases (is_spent g)) [
  | inl spent ↦
      let less = if g.write_blocked then blocked - 1 else blocked in
      elim (Bool-cases (g.stream_id == sid)) [
        | inl here ↦ ground (arith, missing-reclaim_each sid streams less)
        | inr further ↦ ground (arith, stream_find-reclaim_each sid streams less)
      ]
  | inr stays ↦ elim (Bool-cases (g.stream_id == sid)) [
    | inl here ↦ ground (arith)
    | inr further ↦ ground (arith, stream_find-reclaim_each sid streams blocked)
  ]
]

reclaim_each-gone :
    (sid : ℕ) (streams : List Stream) (blocked : ℕ)
    → total (gone_as sid) (reclaim_each streams blocked).2
        + measure (named sid) (reclaim_each streams blocked).0
      ≡ measure (named sid) streams
unfolding reclaim_each
reclaim_each-gone sid [] blocked = refl
reclaim_each-gone sid (g ∷ streams) blocked = elim (Bool-cases (is_spent g)) [
  | inl spent ↦
      ground
        (arith, reclaim_each-gone sid streams (if g.write_blocked then blocked - 1 else blocked))
  | inr stays ↦ ground (arith, reclaim_each-gone sid streams blocked)
]

reclaim_each-AllClean :
    (streams : List Stream) (blocked : ℕ)
    → AllRepresented streams
    → AllClean (reclaim_each streams blocked).2
unfolding reclaim_each
reclaim_each-AllClean [] blocked r = tt
reclaim_each-AllClean (g ∷ streams) blocked ((sent, waiting, r), rs) =
    elim (Bool-cases (is_spent g)) [
      | inl spent ↦
          let (q, e, empty, none_left, represents) = cleanup_frees_all g.response sent waiting r in
          rw (spent, reclaim_each)
            (
              (q, e, empty),
              reclaim_each-AllClean streams (if g.write_blocked then blocked - 1 else blocked) rs,
            )
      | inr stays ↦ rw (stays, reclaim_each) (reclaim_each-AllClean streams blocked rs)
    ]

-- Where each stream has one entry, reclaiming takes a client's request stream that is closed, with its
-- QUIC stream freed and the worker that it was given to returned, out of the table; it leaves a stream
-- that lacks any of these as it is: one that was never dispatched, however it ended, or one whose
-- worker still runs. No stream is added, and a stream's pool is destroyed exactly where it is taken out;
-- where the responses represent queues, the clean-up of each that goes touches no freed chunk and
-- leaves none allocated.
pub reclaim_lem :
    (s : H3Session) (sid : ℕ)
    → measure (named sid) s.streams ≤ 1
    → ((h : Stream)
        → stream_find sid s.streams ≡ some h
        → IsFinished h
        → stream_find sid (reclaim s).0.streams ≡ none)
      × ((h : Stream)
          → stream_find sid s.streams ≡ some h
          → IsNeeded h
          → stream_find sid (reclaim s).0.streams ≡ some h)
      × (stream_find sid s.streams ≡ none → stream_find sid (reclaim s).0.streams ≡ none)
      × (total (gone_as sid) (reclaim s).1 + measure (named sid) (reclaim s).0.streams
          ≡ measure (named sid) s.streams)
      × (AllRepresented s.streams → AllClean (reclaim s).1)
unfolding reclaim
reclaim_lem s sid u =
    let kept = stream_find-reclaim_each sid s.streams s.blocked_streams u in
    (
      (λ h e finished. kept ∙ ap unless_spent e ∙ unless_spent-IsFinished h finished),
      (λ h e needed. kept ∙ ap unless_spent e ∙ unless_spent-IsNeeded h needed),
      (λ e. kept ∙ ap unless_spent e),
      reclaim_each-gone sid s.streams s.blocked_streams,
      reclaim_each-AllClean s.streams s.blocked_streams,
    )
