-- ===== src/Dispatch/Safety.antt =====
-- No worker touches a stream that is gone, and no stream is given to two workers.
use mod_http.Common.{
  ℕ, ◌≤◌, ◌≡◌, refl, ap, ◌∙◌, sym, Bool, true, false, Option, none, some, List, [], ◌∷◌, arith,
  length, get_elem?, Option-cases, inl, inr, if_known, if◌then◌else◌, ◌==◌, ==→eq,
}
use mod_http.Common.Count.{total}
use mod_http.Stream.{Stream}
use mod_http.Session.{stream_find, put_stream}
use mod_http.Session.Streams.{named, measure, stream_find-stream_id}
use mod_http.Session.Reclaim.{reclaim, reclaim_each-measure, reclaim_each-measure-le}
use mod_http.Dispatch.{
  Task, Dispatching, Push, process_stream, work, Turn, tracks, dispatches, ends, reclaims, destroys,
  works, end_stream, destroy_unused, event_turn, worker, turn, run, set_streams,
}
use mod_http.Dispatch.Holders.{held, holder, stray, held-named, Held-put}
use mod_http.Dispatch.Starts.{
  IsHeld, stray-found, HeldSession, tracks-IsHeld, process-IsHeld, process-destroyed,
}
use mod_http.Dispatch.Work.{work-Goes}

end-IsHeld :
    (sid : ℕ) (done : Bool) (q : Option ℕ) (h : Stream) (d : Dispatching)
    → stream_find sid d.session.streams ≡ some h
    → IsHeld d
    → HeldSession d.tasks
        (set_streams (put_stream (end_stream done q h) d.session.streams) d.session)
end-IsHeld sid done q h d e i =
    let s = stream_find-stream_id sid d.session.streams e in
    Held-put sid h (end_stream done q h) d.session.streams d.tasks d.tasks d.session.active_tasks
      d.session.active_tasks e s s (stray-found sid d h e i) (λ k. refl) i.3 i

pub reclaim-Held : (d : Dispatching) → IsHeld d → HeldSession d.tasks (reclaim d.session).0
unfolding reclaim
reclaim-Held d (counts, unique, strays, n) =
    let streams = d.session.streams in
    let blocked = d.session.blocked_streams in
    (
      (λ k. counts k ∙ sym (reclaim_each-measure (held k) (λ h sp. ground arith) streams blocked)),
      (λ k. omega (arith, unique k, reclaim_each-measure-le (named k) streams blocked)),
      omega (arith, strays, reclaim_each-measure-le stray streams blocked),
      n,
    )

false-true : {A : Type 0} → false ≡ true → A
false-true e = absurd cc

length-found :
    {A B : Type 0} (xs : List A) (n : ℕ) (x : A) → get_elem? xs n ≡ some x → length xs ≡ 0 → B
length-found [] n x e l = absurd cc
length-found (y ∷ xs) n x e l = absurd (omega (arith, l))

-- The invariant, and no task is left of a session that was destroyed.
abbrev pub IsSafe : Dispatching → Type 0
IsSafe d = IsHeld d × (d.destroyed ≡ true → length d.tasks ≡ 0)

still :
    (d d' : Dispatching)
    → d.destroyed ≡ false
    → d'.destroyed ≡ d.destroyed
    → d'.destroyed ≡ true
    → length d'.tasks ≡ 0
still d d' live same gone = false-true (sym live ∙ sym same ∙ gone)

total-none : (f : Task → ℕ) (tasks : List Task) → length tasks ≡ 0 → total f tasks ≡ 0
total-none f [] l = refl
total-none f (t ∷ tasks) l = absurd (omega (arith, l))

module _ (d : Dispatching) (live : d.destroyed ≡ false) (i : IsHeld d) where
  dispatch-IsSafe : (sid : ℕ) (p : Push) → IsSafe (event_turn (dispatches sid p) d)
  unfolding event_turn
  dispatch-IsSafe sid p = elim (Option-cases (stream_find sid d.session.streams)) [
    | inl e ↦ rw (e, event_turn) (i, still d d live refl)
    | inr (h, e) ↦
        rw (e, event_turn)
          (
            process-IsHeld sid p h d e i,
            still d (process_stream p h d) live (process-destroyed p h d),
          )
  ]

  end-IsSafe : (sid : ℕ) (done : Bool) (q : Option ℕ) → IsSafe (event_turn (ends sid done q) d)
  unfolding event_turn
  end-IsSafe sid done q = elim (Option-cases (stream_find sid d.session.streams)) [
    | inl e ↦ rw (e, event_turn) (i, still d d live refl)
    | inr (h, e) ↦ rw (e, event_turn) (end-IsHeld sid done q h d e i, still d d live refl)
  ]

  destroy-IsSafe : IsSafe (destroy_unused d)
  unfolding destroy_unused
  destroy-IsSafe =
      if_known IsSafe (d.session.active_tasks == 0)
        (λ unused.
          let none_left : length d.tasks ≡ 0 = sym i.3 ∙ ==→eq d.session.active_tasks 0 unused in
          (
            ((λ k. total-none (holder k) d.tasks none_left), (λ k. omega arith), refl, i.3),
            (λ gone. none_left),
          ))
        (λ used. (i, still d d live refl))

  event_turn-IsSafe : (t : Turn) → IsSafe (event_turn t d)
  unfolding event_turn
  event_turn-IsSafe (tracks conf ok now sid q) =
      (tracks-IsHeld conf ok now sid q d i, still d d live refl)
  event_turn-IsSafe (dispatches sid p) = dispatch-IsSafe sid p
  event_turn-IsSafe (ends sid done q) = end-IsSafe sid done q
  event_turn-IsSafe reclaims = (reclaim-Held d i, still d d live refl)
  event_turn-IsSafe destroys = destroy-IsSafe
  event_turn-IsSafe (works created n) = (i, still d d live refl)

-- The turn is made without a fault, and leaves a safe state.
abbrev pub IsMade : Option Dispatching → Type 0
IsMade o = (d' : Dispatching) × (o ≡ some d') × IsSafe d'

works-IsMade :
    (created : Bool) (n : ℕ) (t : Task) (d : Dispatching)
    → get_elem? d.tasks n ≡ some t
    → IsSafe d
    → IsMade (if d.destroyed then none else work created n t d)
works-IsMade created n t d e (i, s) =
    if_known IsMade d.destroyed (λ gone. length-found d.tasks n t e (s gone))
      (λ live.
        let (d', made, i', same, steady) = work-Goes created n t d e i in
        (d', made, (i', still d d' live same)))

-- From a safe state every turn of the event thread or of a worker touches no stream that is gone and
-- no session that is destroyed, and leaves such a state.
pub turn-IsMade : (t : Turn) (d : Dispatching) → IsSafe d → IsMade (turn t d)
unfolding turn
turn-IsMade t d (i, s) = elim (Option-cases (worker t)) [
  | inl event ↦
      rw (event, turn)
        (
          if d.destroyed then d else event_turn t d,
          refl,
          if_known IsSafe d.destroyed (λ gone. (i, s)) (λ live. event_turn-IsSafe d live i t),
        )
  | inr ((created, n), e) ↦ elim (Option-cases (get_elem? d.tasks n)) [
    | inl over ↦ rw (e, over, turn) (d, refl, (i, s))
    | inr (task, f) ↦ rw (e, f, turn) (works-IsMade created n task d f (i, s))
  ]
]

run-IsMade : (turns : List Turn) (d : Dispatching) → IsSafe d → IsMade (run turns d)
run-IsMade [] d i = (d, refl, i)
run-IsMade (t ∷ turns) d i =
    let (d', e, i') = turn-IsMade t d i in rw (e, run) (run-IsMade turns d' i')

IsSafe-empty :
    (d : Dispatching)
    → d.session.streams ≡ []
    → d.tasks ≡ []
    → d.session.active_tasks ≡ 0
    → IsSafe d
IsSafe-empty d s t a =
    (rw (s, t, a) ((λ k. refl), (λ k. omega arith), refl, refl), λ gone. ap length t)

-- However the turns of the event thread and of the workers fall, from a session without streams and
-- tasks no worker touches a stream that was reclaimed or goes on after the session was destroyed, at
-- most one task at a time is at work on a stream, a stream that is at work is in the table, and
-- `active_tasks` is the number of tasks.
pub run_one_worker :
    (turns : List Turn) (d : Dispatching)
    → d.session.streams ≡ []
    → d.tasks ≡ []
    → d.session.active_tasks ≡ 0
    → (d' : Dispatching) × (run turns d ≡ some d')
      × ((sid : ℕ) → total (holder sid) d'.tasks ≤ 1)
      × ((sid : ℕ) → total (holder sid) d'.tasks ≤ measure (named sid) d'.session.streams)
      × (d'.session.active_tasks ≡ length d'.tasks)
run_one_worker turns d s t a =
    let start = IsSafe-empty d s t a in
    let (d', e, ((counts, unique, strays, n), gone)) = run-IsMade turns d start in
    (
      d',
      e,
      (λ k. omega (arith, counts k, unique k, held-named k d'.session.streams)),
      (λ k. omega (arith, counts k, held-named k d'.session.streams)),
      n,
    )
