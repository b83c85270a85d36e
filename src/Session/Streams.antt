-- ===== src/Session/Streams.antt =====
-- The table of streams: finding one, and writing through the pointer that was found.
use mod_http.Common.{
  ℕ, ◌+◌, ◌≡◌, refl, ap, ◌∙◌, sym, true, false, none, some, List, [], ◌∷◌, ◌==◌, ==→eq, arith,
  Bool-cases, some_inj, inl, inr, if◌then◌else◌, Bool,
}
use mod_http.Stream.{Stream}
use mod_http.Session.{stream_find, put_stream}

pub stream_find-here :
    (sid : ℕ) (g : Stream) (streams : List Stream)
    → (g.stream_id == sid) ≡ true
    → stream_find sid (g ∷ streams) ≡ some g
unfolding stream_find
stream_find-here sid g streams e = rw (e, stream_find)

pub stream_find-further :
    (sid : ℕ) (g : Stream) (streams : List Stream)
    → (g.stream_id == sid) ≡ false
    → stream_find sid (g ∷ streams) ≡ stream_find sid streams
unfolding stream_find
stream_find-further sid g streams e = rw (e, stream_find)

pub put_stream-here :
    (h g : Stream) (streams : List Stream)
    → (g.stream_id == h.stream_id) ≡ true
    → put_stream h (g ∷ streams) ≡ h ∷ streams
unfolding put_stream
put_stream-here h g streams e = rw (e, put_stream)

pub put_stream-further :
    (h g : Stream) (streams : List Stream)
    → (g.stream_id == h.stream_id) ≡ false
    → put_stream h (g ∷ streams) ≡ g ∷ put_stream h streams
unfolding put_stream
put_stream-further h g streams e = rw (e, put_stream)

pub stream_find-stream_id :
    (sid : ℕ) (streams : List Stream) {h : Stream}
    → stream_find sid streams ≡ some h
    → h.stream_id ≡ sid
stream_find-stream_id sid [] e = unfold stream_find in cc
stream_find-stream_id sid (g ∷ streams) e = elim (Bool-cases (g.stream_id == sid)) [
  | inl here ↦
      ap (λ (x : Stream). x.stream_id) (some_inj (sym e ∙ stream_find-here sid g streams here))
      ∙ ==→eq g.stream_id sid here
  | inr further ↦
      stream_find-stream_id sid streams (sym (stream_find-further sid g streams further) ∙ e)
]

-- Of two writes to a stream the later one stays.
pub put_stream-put_stream :
    (h h' : Stream) (streams : List Stream)
    → h'.stream_id ≡ h.stream_id
    → put_stream h' (put_stream h streams) ≡ put_stream h' streams
unfolding put_stream
put_stream-put_stream h h' [] s = refl
put_stream-put_stream h h' (g ∷ streams) s = elim (Bool-cases (g.stream_id == h.stream_id)) [
  | inl here ↦ ground (arith, ==→eq g.stream_id h.stream_id here)
  | inr further ↦ ground (arith, put_stream-put_stream h h' streams s)
]

-- A measure of the streams, summed over the table, changes by the stream that is written.
abbrev pub measure : (Stream → ℕ) → List Stream → ℕ
measure f [] = 0
measure f (h ∷ streams) = f h + measure f streams

pub measure-put_stream :
    (f : Stream → ℕ) (sid : ℕ) (streams : List Stream) (h h' : Stream)
    → stream_find sid streams ≡ some h
    → h'.stream_id ≡ sid
    → measure f (put_stream h' streams) + f h ≡ measure f streams + f h'
measure-put_stream f sid [] h h' e s = unfold stream_find in cc
measure-put_stream f sid (g ∷ streams) h h' e s = elim (Bool-cases (g.stream_id == sid)) [
  | inl here ↦
      let same = ap f (some_inj (sym (stream_find-here sid g streams here) ∙ e)) in
      let put =
        ap (measure f) (put_stream-here h' g streams (ap (λ n. g.stream_id == n) s ∙ here)) in
      omega (arith, same, put)
  | inr further ↦
      let there = sym (stream_find-further sid g streams further) ∙ e in
      let put =
        ap (measure f) (put_stream-further h' g streams (ap (λ n. g.stream_id == n) s ∙ further)) in
      omega (arith, put, measure-put_stream f sid streams h h' there s)
]

abbrev pub one_if : Bool → ℕ
one_if b = if b then 1 else 0

-- One for a stream of that id.
abbrev pub named : ℕ → Stream → ℕ
named sid h = one_if (h.stream_id == sid)

pub named-missing :
    (sid : ℕ) (streams : List Stream)
    → stream_find sid streams ≡ none
    → measure (named sid) streams ≡ 0
unfolding stream_find
named-missing sid [] e = refl
named-missing sid (g ∷ streams) e = elim (Bool-cases (g.stream_id == sid)) [
  | inl here ↦ ground arith
  | inr further ↦ ground (arith, named-missing sid streams)
]
