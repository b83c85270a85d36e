-- ===== src/Response/Delivery/History.antt =====
-- Whole histories of a response queue, from the empty one that `track_stream` sets up.
use mod_http.Common.{
  subst, ◌∙◌, ℕ, ◌+◌, ◌≤◌, ◌≡◌, refl, Option, none, some, List, [], ◌∷◌, ◌++◌, Bytes, arith, length,
  length-append,
}
use mod_http.Response.{new_response}
use mod_http.Response.Layout.{Node, unacked, bytes_of, unacked-append}
use mod_http.Response.Invariant.{Represents, AllFresh}
use mod_http.Response.Delivery.{Event, Traffic, Flow, Lawful, run_event}
use mod_http.Response.Delivery.Limit.{OnSome, OnSome-bind, run_event-limit}
use mod_http.Response.Delivery.Order.{Flows, run_event-Flows}

abbrev pub no_traffic : ℕ → ℕ → Traffic
no_traffic limit now = record {
  queue = new_response limit now;
  produced = [];
  delivered = [];
  outstanding = 0;
}

pub run : List Event → Traffic → Option Traffic
run [] t = some t
run (e ∷ es) t = elim (run_event e t) [ none ↦ none | some t' ↦ run es t' ]

-- Each event of the history is lawful when its turn comes.
unfoldable pub AllLawful : List Event → Traffic → Type 0
AllLawful [] t = Unit {0}
AllLawful (e ∷ es) t = Lawful e t × ((t' : Traffic) → run_event e t ≡ some t' → AllLawful es t')

pub new_response-Represents : (limit now : ℕ) → Represents (new_response limit now) [] []
new_response-Represents limit now = record {
  head = refl;
  tail = refl;
  submit = refl;
  offset = refl;
  laid = tt;
  rising = omega arith;
  partial = tt;
  fresh = tt;
  counts = refl;
  bound = omega arith;
  owned = λ a h. refl;
}

pub no_traffic-Flow : (limit now : ℕ) → Flow (no_traffic limit now)
no_traffic-Flow limit now = record {
  sent = [];
  waiting = [];
  represents = new_response-Represents limit now;
  in_order = refl;
  open_bytes = refl;
}

pub run-Flows : (es : List Event) (t : Traffic) → Flow t → AllLawful es t → Flows (run es t)
unfolding run AllLawful
run-Flows [] t f l = (t, refl, f)
run-Flows (e ∷ es) t f l =
    let (t', ran, f') = run_event-Flows e t f l.0 in
    let (u, rest, g) = run-Flows es t' f' (l.1 t' ran) in (u, rw (ran, run) rest, g)

unacked-fresh : (ns : List Node) → AllFresh ns → unacked ns ≡ length (bytes_of ns)
unacked-fresh [] f = refl
unacked-fresh (n ∷ ns) f =
    omega (arith, unacked-fresh ns f.1, f.0, length-append n.bytes (bytes_of ns))

run-limit :
    (es : List Event) (t : Traffic)
    → OnSome (λ t'. t'.queue.buffer_limit ≡ t.queue.buffer_limit) (run es t)
unfolding run
run-limit [] t = refl
run-limit (e ∷ es) t =
    OnSome-bind (λ t'. t'.queue.buffer_limit ≡ t.queue.buffer_limit)
      (λ t'. t'.queue.buffer_limit ≡ t.queue.buffer_limit) (run_event e t) (run es)
      (run_event-limit e t) (λ t' l. OnSome-weaken (run es t') l (run-limit es t'))
  where
    OnSome-weaken :
        {m n : ℕ} (o : Option Traffic)
        → m ≡ n
        → OnSome (λ u. u.queue.buffer_limit ≡ m) o
        → OnSome (λ u. u.queue.buffer_limit ≡ n) o
    OnSome-weaken none e l = tt
    OnSome-weaken (some u) e l = l ∙ e

-- In any lawful history from a new stream no freed chunk is touched; the bytes that nghttp3 has
-- been given, with those that still wait, are the bytes that the worker has appended, in order; and
-- `response_buffered` is the number of bytes appended and not acknowledged, which stays within
-- the limit that the stream was given.
pub run_delivers :
    (limit now : ℕ) (es : List Event)
    → AllLawful es (no_traffic limit now)
    → (t : Traffic) × (left : Bytes) × (run es (no_traffic limit now) ≡ some t)
      × (t.produced ≡ t.delivered ++ left)
      × (t.queue.buffered ≡ t.outstanding + length left)
      × (t.queue.buffered ≤ limit)
run_delivers limit now es l =
    let (t, ran, f) = run-Flows es (no_traffic limit now) (no_traffic-Flow limit now) l in
    let kept : t.queue.buffer_limit ≡ limit =
      subst (OnSome (λ u. u.queue.buffer_limit ≡ limit)) ran
        (run-limit es (no_traffic limit now)) in
    (
      t,
      bytes_of f.waiting,
      ran,
      f.in_order,
      omega (
        arith,
        f.represents.counts,
        f.open_bytes,
        unacked-append f.sent f.waiting,
        unacked-fresh f.waiting f.represents.fresh,
      ),
      omega (arith, f.represents.bound, kept),
    )
