-- ===== src/Dispatch/Holders.antt =====
-- Who holds a stream: the worker of a dispatched stream whose worker is not done, and no other.
use mod_http.Common.{
  ℕ, ◌+◌, ◌≤◌, ◌≡◌, refl, ap, ◌∙◌, sym, Bool, true, false, not, ◌&&◌, none, some, List, [], ◌∷◌,
  ◌++◌, ◌==◌, arith, length, Bool-cases, some_inj, inl, inr,
}
use mod_http.Common.Count.{total}
use mod_http.Stream.{Stream}
use mod_http.Session.{stream_find, put_stream}
use mod_http.Session.Streams.{
  one_if, named, named-missing, measure, measure-put_stream, stream_find-here, stream_find-further,
}
use mod_http.Dispatch.{Phase, queued, serving, giving_up, leaving, Task}

-- One for a stream that a worker may be using.
abbrev pub held : ℕ → Stream → ℕ
held sid h = one_if (h.stream_id == sid && h.dispatched && not h.worker_done)

abbrev pub touches : Phase → Bool
touches queued = true
touches serving = true
touches giving_up = false
touches leaving = false

-- One for a task that will touch the stream again.
abbrev pub holder : ℕ → Task → ℕ
holder sid t = one_if (t.sid == sid && touches t.phase)

abbrev pub stray : Stream → ℕ
stray h = one_if (h.worker_done && not h.dispatched)

-- Each stream has one entry, each dispatched stream one task until its worker is done and no other
-- stream has one, and `active_tasks` counts the tasks.
abbrev pub Held : List Stream → List Task → ℕ → Type 0
Held streams tasks active =
    ((sid : ℕ) → total (holder sid) tasks ≡ measure (held sid) streams)
    × ((sid : ℕ) → measure (named sid) streams ≤ 1)
    × (measure stray streams ≡ 0)
    × (active ≡ length tasks)

pub measure-append :
    (f : Stream → ℕ) (streams : List Stream) (h : Stream)
    → measure f (streams ++ h ∷ []) ≡ measure f streams + f h
measure-append f [] h = omega arith
measure-append f (g ∷ streams) h = omega (arith, measure-append f streams h)

pub measure-found :
    (f : Stream → ℕ) (sid : ℕ) (streams : List Stream) (h : Stream)
    → stream_find sid streams ≡ some h
    → f h ≤ measure f streams
unfolding stream_find
measure-found f sid [] h e = cc
measure-found f sid (g ∷ streams) h e = elim (Bool-cases (g.stream_id == sid)) [
  | inl here ↦
      let same = ap f (some_inj (sym (stream_find-here sid g streams here) ∙ e)) in
      omega (arith, same)
  | inr further ↦
      let there = sym (stream_find-further sid g streams further) ∙ e in
      omega (arith, measure-found f sid streams h there)
]

pub held-named :
    (sid : ℕ) (streams : List Stream) → measure (held sid) streams ≤ measure (named sid) streams
held-named sid [] = omega arith
held-named sid (g ∷ streams) = ground (arith, held-named sid streams)

-- A stream that is held has the one entry of its id.
pub held-found :
    (sid : ℕ) (streams : List Stream)
    → measure (named sid) streams ≤ 1
    → 1 ≤ measure (held sid) streams
    → (h : Stream) × (stream_find sid streams ≡ some h) × (held sid h ≡ 1)
unfolding stream_find
held-found sid [] u l = absurd (omega (arith, l))
held-found sid (g ∷ streams) u l = elim (Bool-cases (g.stream_id == sid)) [
  | inl here ↦ (g, rw (here, stream_find) refl, ground (arith, held-named sid streams))
  | inr further ↦
      let (h, e, o) = held-found sid streams (ground arith) (ground arith) in
      (h, rw (further, stream_find) e, o)
]

-- A write through a pointer to a stream, with the tasks it leaves.
pub Held-put :
    (sid : ℕ) (h h' : Stream) (streams : List Stream) (tasks tasks' : List Task)
    (active active' : ℕ)
    → stream_find sid streams ≡ some h
    → h.stream_id ≡ sid
    → h'.stream_id ≡ sid
    → stray h' ≡ 0
    → ((k : ℕ) → total (holder k) tasks' + held k h ≡ total (holder k) tasks + held k h')
    → active' ≡ length tasks'
    → Held streams tasks active
    → Held (put_stream h' streams) tasks' active'
Held-put sid h h' streams tasks tasks' active active' e s s' z moved n (counts, unique, strays, _) =
    (
      (λ k. omega (arith, moved k, counts k, measure-put_stream (held k) sid streams h h' e s')),
      (λ k. omega (
        arith,
        unique k,
        measure-put_stream (named k) sid streams h h' e s',
        ap (λ i. one_if (i == k)) (s ∙ sym s'),
      )),
      omega (arith, z, strays, measure-put_stream stray sid streams h h' e s'),
      n,
    )

-- A stream that comes new, and is not dispatched.
pub Held-append :
    (g : Stream) (streams : List Stream) (tasks : List Task) (active : ℕ)
    → stream_find g.stream_id streams ≡ none
    → held g.stream_id g ≡ 0
    → stray g ≡ 0
    → Held streams tasks active
    → Held (streams ++ g ∷ []) tasks active
Held-append g streams tasks active e l z (counts, unique, strays, n) = (
  (λ k. ground (arith, counts k, measure-append (held k) streams g)),
  (λ k. elim (Bool-cases (g.stream_id == k)) [
    | inl here ↦
        ground (arith, measure-append (named k) streams g, named-missing g.stream_id streams e)
    | inr other ↦ ground (arith, unique k, measure-append (named k) streams g)
  ]),
  omega (arith, z, strays, measure-append stray streams g),
  n,
)
