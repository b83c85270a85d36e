-- ===== src/Session/Reclaim.antt =====
-- The reclaiming of closed streams at the end of `drain_ready_streams`
-- (mod_http3/src/h3_stream.c).
pub mod Fate
use mod_http.Common.{
  ℕ, ◌+◌, ◌-◌, ◌≤◌, ◌≡◌, refl, Bool, true, false, not, ◌&&◌, Option, none, some, List, [], ◌∷◌,
  arith, is_some, Bool-cases, inl, inr, if◌then◌else◌,
}
use mod_http.Response.{Response, cleanup}
use mod_http.Stream.{Stream, sid_is_server}
use mod_http.Session.{H3Session}
use mod_http.Session.Streams.{measure}
use mod_http.Session.Flush.Blocked.{blocked_one, IsCounted}

-- A request stream that is closed, whose QUIC stream is freed and whose worker has returned.
abbrev pub is_spent : Stream → Bool
is_spent h =
    h.is_bidi
    && not (sid_is_server h.stream_id)
    && h.done
    && not (is_some h.qstream)
    && h.dispatched
    && h.worker_done

-- The loop over the snapshot: the streams that stay, `blocked_streams`, and the streams whose pools
-- are destroyed, each with what the clean-up leaves of its response, `none` for a use of a freed chunk.
unfoldable pub reclaim_each : List Stream → ℕ → List Stream × ℕ × List (ℕ × Option Response)
reclaim_each [] blocked = ([], blocked, [])
reclaim_each (h ∷ streams) blocked = elim (is_spent h) [
  | true ↦
      let (rest, count, gone) =
        reclaim_each streams (if h.write_blocked then blocked - 1 else blocked) in
      (rest, count, (h.stream_id, cleanup h.response) ∷ gone)
  | false ↦ let (rest, count, gone) = reclaim_each streams blocked in (h ∷ rest, count, gone)
]

unfoldable pub reclaim : H3Session → H3Session × List (ℕ × Option Response)
unfolding reclaim_each
reclaim s =
    let (streams, count, gone) = reclaim_each s.streams s.blocked_streams in
    (record s { streams = streams; blocked_streams = count }, gone)

reclaim_each-count :
    (streams : List Stream) (blocked : ℕ)
    → measure blocked_one streams ≤ blocked
    → (reclaim_each streams blocked).1 + measure blocked_one streams
      ≡ blocked + measure blocked_one (reclaim_each streams blocked).0
unfolding reclaim_each
reclaim_each-count [] blocked h = omega arith
reclaim_each-count (g ∷ streams) blocked h = elim (Bool-cases (is_spent g)) [
  | inl spent ↦ elim (Bool-cases g.write_blocked) [
    | inl b ↦ ground (arith, reclaim_each-count streams (blocked - 1))
    | inr b ↦ ground (arith, reclaim_each-count streams blocked)
  ]
  | inr stays ↦ ground (arith, reclaim_each-count streams blocked)
]

-- Reclaiming keeps `blocked_streams` equal to the number of write-blocked streams.
pub reclaim-IsCounted : (s : H3Session) → IsCounted s → IsCounted (reclaim s).0
unfolding reclaim
reclaim-IsCounted s c = omega (arith, c, reclaim_each-count s.streams s.blocked_streams)

-- A measure that is nothing on spent streams is kept.
pub reclaim_each-measure :
    (f : Stream → ℕ)
    → ((h : Stream) → is_spent h ≡ true → f h ≡ 0)
    → (streams : List Stream) (blocked : ℕ)
    → measure f (reclaim_each streams blocked).0 ≡ measure f streams
unfolding reclaim_each
reclaim_each-measure f z [] blocked = refl
reclaim_each-measure f z (g ∷ streams) blocked = elim (Bool-cases (is_spent g)) [
  | inl spent ↦ ground (
    arith,
    z g spent,
    reclaim_each-measure f z streams (if g.write_blocked then blocked - 1 else blocked),
  )
  | inr stays ↦ ground (arith, reclaim_each-measure f z streams blocked)
]

pub reclaim_each-measure-le :
    (f : Stream → ℕ) (streams : List Stream) (blocked : ℕ)
    → measure f (reclaim_each streams blocked).0 ≤ measure f streams
unfolding reclaim_each
reclaim_each-measure-le f [] blocked = omega arith
reclaim_each-measure-le f (g ∷ streams) blocked = elim (Bool-cases (is_spent g)) [
  | inl spent ↦
      ground (
        arith,
        reclaim_each-measure-le f streams (if g.write_blocked then blocked - 1 else blocked),
      )
  | inr stays ↦ ground (arith, reclaim_each-measure-le f streams blocked)
]
