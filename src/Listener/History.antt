-- ===== src/Listener/History.antt =====
-- Whole lives of the event thread: passes, a graceful stop, and the end.
use mod_http.Common.{
  ℕ, zero, suc, ◌≡◌, refl, ap, ◌∙◌, inl, inr, Bool, true, false, List, [], ◌∷◌, if◌then◌else◌,
  arith, length, Bool-cases,
}
use mod_http.Listener.{
  Io, Arrival, accept, accept_all, accepts, Handshake, progress_pending_handshakes,
  remove_pending_handshake, pass, free_pending, finish, listen_drain,
}
use mod_http.Listener.Books.{
  total, one, IsBalanced, accept-IsBalanced, length-swap_remove, get_elem?-inside,
}
use mod_http.Listener.Rounds.{
  progress_from-IsBalanced, free_pending-IsBalanced, free_pending-next,
  remove_pending_handshake-there,
}
use mod_http.Listener.Sessions.{reap_from-IsBalanced}

-- The connections that a list of arrivals brings, latest first, before those that came earlier.
unfoldable pub arrived : List Arrival → List ℕ → List ℕ
arrived [] came = came
arrived (a ∷ arrivals) came = arrived arrivals (a.conn ∷ came)

accept_all-IsBalanced :
    (max : ℕ) (arrivals : List Arrival) (came : List ℕ) (io : Io)
    → IsBalanced max came io
    → IsBalanced max (arrived arrivals came) (accept_all max arrivals io)
unfolding accept_all arrived
accept_all-IsBalanced max [] came io b = b
accept_all-IsBalanced max (a ∷ arrivals) came io b =
    accept_all-IsBalanced max arrivals (a.conn ∷ came) (accept max a.prepared a.at a.conn io)
      (accept-IsBalanced max a.prepared a.at a.conn came io b)

-- A pass keeps the books, whatever arrives, however the handshakes stand and whatever ends.
pub pass-IsBalanced :
    (max now timeout : ℕ) (arrivals : List Arrival) (probe : ℕ → Handshake) (over : ℕ → Bool)
    (came : List ℕ) (io : Io)
    → IsBalanced max came io
    → IsBalanced max
        (if accepts io then arrived arrivals came else came)
        (pass max now timeout arrivals probe over io)
unfolding pass progress_pending_handshakes
pass-IsBalanced max now timeout arrivals probe over came io b = elim (Bool-cases (accepts io)) [
  | inl taken ↦ rw taken (
      reap_from-IsBalanced _ max over 0 _ _ (
        progress_from-IsBalanced _ max now timeout probe 0 _ _
          (accept_all-IsBalanced max arrivals came io b)))
  | inr shut ↦ rw shut (reap_from-IsBalanced _ max over 0 came io b)
]

-- What the event thread goes through: a pass, or a change of the flags by another thread.
pub data Turn : Type 0 where
  passes : (now timeout : ℕ) → List Arrival → (ℕ → Handshake) → (ℕ → Bool) → Turn
  drains stops : Turn

-- The io and the connections that came, after a turn.
unfoldable pub turn : ℕ → Turn → List ℕ × Io → List ℕ × Io
unfolding pass arrived
turn max (passes now timeout arrivals probe over) (came, io) = (
  if accepts io then arrived arrivals came else came,
  pass max now timeout arrivals probe over io,
)
turn max drains (came, io) = (came, listen_drain io)
turn max stops (came, io) = (came, record io { thread_running = false })

unfoldable pub run : ℕ → List Turn → List ℕ × Io → List ℕ × Io
unfolding turn
run max [] s = s
run max (t ∷ ts) s = run max ts (turn max t s)

-- What `h3_io_listen_start` sets up.
abbrev pub started : Io
started = record {
  active_sessions = [];
  pending_handshakes = [];
  active_session_count = 0;
  total_connections = 0;
  thread_running = true;
  draining = false;
  freed = [];
  added = 0;
  removed = 0;
}

turn-IsBalanced :
    (max : ℕ) (t : Turn) (came : List ℕ) (io : Io)
    → IsBalanced max came io
    → IsBalanced max (turn max t (came, io)).0 (turn max t (came, io)).1
unfolding turn
turn-IsBalanced max (passes now timeout arrivals probe over) came io b =
    pass-IsBalanced max now timeout arrivals probe over came io b
turn-IsBalanced max drains came io b = record {
  conns = b.conns;
  notes = b.notes;
  count = b.count;
  within = b.within;
}
turn-IsBalanced max stops came io b = record {
  conns = b.conns;
  notes = b.notes;
  count = b.count;
  within = b.within;
}

run_from-IsBalanced :
    (max : ℕ) (ts : List Turn) (came : List ℕ) (io : Io)
    → IsBalanced max came io
    → IsBalanced max (run max ts (came, io)).0 (run max ts (came, io)).1
unfolding run
run_from-IsBalanced max [] came io b = b
run_from-IsBalanced max (t ∷ ts) came io b =
    run_from-IsBalanced max ts (turn max t (came, io)).0 (turn max t (came, io)).1
      (turn-IsBalanced max t came io b)

-- After any turns from the start, every connection that came is freed, pending or active exactly as
-- often as it came, the limit on connections holds, and the MPM's count and
-- `active_session_count` are right.
pub run-IsBalanced :
    (max : ℕ) (ts : List Turn)
    → IsBalanced max (run max ts ([], started)).0 (run max ts ([], started)).1
run-IsBalanced max ts =
    run_from-IsBalanced max ts [] started
      (record { conns = λ c. refl; notes = refl; count = refl; within = omega arith })

free_pending-none :
    (n : ℕ) (io : Io)
    → length io.pending_handshakes ≡ n
    → (length (free_pending n io).pending_handshakes ≡ 0)
      × ((free_pending n io).active_sessions ≡ io.active_sessions)
unfolding free_pending
free_pending-none zero io e = (e, refl)
free_pending-none (suc n) io e =
    let (p, there) = get_elem?-inside io.pending_handshakes 0 (omega arith) in
    let shorter = length-swap_remove io.pending_handshakes 0 p there in
    let step = remove_pending_handshake-there 0 true io p there in
    let (none_left, same) =
      free_pending-none n (remove_pending_handshake 0 true io)
        (ap (λ j. length j.pending_handshakes) step ∙ omega (arith, shorter)) in
    rw (free_pending-next n io p there) (none_left, same ∙ ap (λ j. j.active_sessions) step)

length-zero {ℓ} : {A : Type ℓ} (xs : List A) → length xs ≡ 0 → xs ≡ []
length-zero [] e = refl
length-zero (x ∷ xs) e = ground arith

emptied :
    (max : ℕ) (came : List ℕ) (io : Io)
    → IsBalanced max came io
    → io.pending_handshakes ≡ []
    → io.active_sessions ≡ []
    → ((c : ℕ) → total (one c) came ≡ total (one c) io.freed) × (io.added ≡ io.removed)
emptied max came io b no_pending no_active = (
  λ c. omega (
    arith,
    b.conns c,
    ap (total (λ p. one c p.conn)) no_pending,
    ap (total (λ s. one c s.qconn)) no_active,
  ),
  omega (arith, b.notes, ap length no_pending, ap length no_active),
)

-- When the event thread ends, which it does only with no active session left, every connection that
-- came has been freed exactly as often as it came, and the MPM has been told of the end of each
-- connection that it was told of.
pub finish_frees_all :
    (max : ℕ) (ts : List Turn)
    → (run max ts ([], started)).1.active_sessions ≡ []
    → ((c : ℕ)
        → total (one c) (run max ts ([], started)).0
          ≡ total (one c) (finish (run max ts ([], started)).1).freed)
      × ((finish (run max ts ([], started)).1).added
          ≡ (finish (run max ts ([], started)).1).removed)
unfolding finish
finish_frees_all max ts idle =
    let io = (run max ts ([], started)).1 in
    let b =
      free_pending-IsBalanced (length io.pending_handshakes) max _ io (run-IsBalanced max ts) in
    let (none_left, same) = free_pending-none (length io.pending_handshakes) io refl in
    emptied max _ (finish io) b (length-zero _ none_left) (same ∙ idle)
