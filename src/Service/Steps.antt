-- ===== src/Service/Steps.antt =====
-- What a pass relies on: the books of the session, and that each part of a pass keeps them.
use mod_http.Common.{
  ℕ, ◌≤◌, ◌≡◌, refl, ap, ◌∙◌, sym, Bool, false, Option, some, List, [], ◌∷◌, ◌++◌, arith, map,
}
use mod_http.Config.{ServerConf}
use mod_http.Stream.{Stream}
use mod_http.Session.{H3Session}
use mod_http.Session.Streams.{named, measure}
use mod_http.Session.Flush.Blocked.{blocked_one, IsCounted}
use mod_http.Session.Flush.Quiet.{Quiet}
use mod_http.Session.Drain.Errors.{IsTolerated}
use mod_http.Dispatch.{Task, Dispatching, works, turn, run}
use mod_http.Dispatch.Holders.{held, stray}
use mod_http.Dispatch.Starts.{IsHeld, HeldSession}
use mod_http.Dispatch.Steady.{Steady, Steady-refl, Steady-trans}
use mod_http.Dispatch.Work.{works-Goes}
use mod_http.Service.{Meanwhile}

-- Who holds each stream is known, `blocked_streams` is right, and the client's errors are in bounds.
abbrev pub IsBooked : ServerConf → List Task → H3Session → Type 0
IsBooked conf tasks s = HeldSession tasks s × IsCounted s × IsTolerated conf s

abbrev pub IsSound : ServerConf → Dispatching → Type 0
IsSound conf d = (d.destroyed ≡ false) × IsBooked conf d.tasks d.session

-- A measure of each of `sids` is not nothing.
abbrev pub AllThere : (ℕ → Stream → ℕ) → List ℕ → List Stream → Type 0
AllThere f [] streams = Unit {0}
AllThere f (sid ∷ sids) streams = (1 ≤ measure (f sid) streams) × AllThere f sids streams

pub AllThere-kept :
    (f g : ℕ → Stream → ℕ) (sids : List ℕ) (streams streams' : List Stream)
    → ((sid : ℕ) → measure (f sid) streams ≤ measure (g sid) streams')
    → AllThere f sids streams
    → AllThere g sids streams'
AllThere-kept f g [] streams streams' same there = tt
AllThere-kept f g (sid ∷ sids) streams streams' same (here, there) =
    (omega (arith, here, same sid), AllThere-kept f g sids streams streams' same there)

pub AllThere-append :
    (f : ℕ → Stream → ℕ) (sids : List ℕ) (sid : ℕ) (streams : List Stream)
    → AllThere f sids streams
    → 1 ≤ measure (f sid) streams
    → AllThere f (sids ++ sid ∷ []) streams
AllThere-append f [] sid streams there one = (one, tt)
AllThere-append f (k ∷ sids) sid streams (here, there) one =
    (here, AllThere-append f sids sid streams there one)

-- What is not a worker's is in order after a worker's step.
pub Steady-IsBooked :
    (conf : ServerConf) (d d' : Dispatching)
    → Steady d d'
    → IsHeld d'
    → IsBooked conf d.tasks d.session
    → IsBooked conf d'.tasks d'.session
Steady-IsBooked conf d d' (same, m) held_so (_, counted, (errors, few)) =
    let e = ap (λ (s : H3Session). s.stream_errors) same in
    (
      held_so,
      ap (λ (s : H3Session). s.blocked_streams) same
          ∙ counted
          ∙ sym (m blocked_one (λ h b w. refl)),
      (
        omega (arith, e, errors),
        (λ live. omega (arith, e, few (sym (ap (λ (s : H3Session). s.ngh3_dead) same) ∙ live))),
      ),
    )

-- The step is made, leaves the books in order, and leaves alone what is not the workers'.
abbrev pub IsGone : ServerConf → Dispatching → Option Dispatching → Type 0
IsGone conf d o = (d' : Dispatching) × (o ≡ some d') × IsSound conf d' × Steady d d'

works-IsGone :
    (conf : ServerConf) (created : Bool) (n : ℕ) (d : Dispatching)
    → IsSound conf d
    → IsGone conf d (turn (works created n) d)
works-IsGone conf created n d (live, booked) =
    let (d', made, held_so, same, steady) = works-Goes created n d live booked.0 in
    (d', made, (same ∙ live, Steady-IsBooked conf d d' steady held_so booked), steady)

pub run-IsGone :
    (conf : ServerConf) (steps : Meanwhile) (d : Dispatching)
    → IsSound conf d
    → IsGone conf d (run (map (λ (s : Bool × ℕ). works s.0 s.1) steps) d)
run-IsGone conf [] d k = (d, refl, k, Steady-refl d)
run-IsGone conf ((created, n) ∷ steps) d k =
    let (d', e, k', steady) = works-IsGone conf created n d k in
    let (d'', e', k'', further) = run-IsGone conf steps d' k' in
    rw (e, run) (d'', e', k'', Steady-trans d d' d'' steady further)

-- A flush.
pub Quiet-IsBooked :
    (conf : ServerConf) (tasks : List Task) (s s' : H3Session)
    → Quiet s s'
    → IsCounted s'
    → IsBooked conf tasks s
    → IsBooked conf tasks s'
Quiet-IsBooked conf tasks s s' (m, a, e, g, d) counted
      ((counts, unique, strays, n), _, (errors, few)) =
    (
      (
        (λ k. counts k ∙ sym (m (held k) (λ h b. refl))),
        (λ k. omega (arith, unique k, m (named k) (λ h b. refl))),
        m stray (λ h b. refl) ∙ strays,
        a ∙ n,
      ),
      counted,
      (omega (arith, e, errors), (λ live. omega (arith, e, few (d live)))),
    )
